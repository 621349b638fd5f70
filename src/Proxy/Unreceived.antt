-- ===== src/Proxy/Unreceived.antt =====
-- `proxy_send` of src/proxy.c where `recv` fails.
use wake_on_lan.Base.{ℕ, ◌≡◌, Text}
use wake_on_lan.System.{Os, World, fails}
use wake_on_lan.Net.{tcp_recv}
use wake_on_lan.Proxy.{Md5, hex_challenge, sized, check_received, proxy_send}
use wake_on_lan.Proxy.Challenge.{Answers, length-sized, respond-Answers}

-- Where `recv` fails, the call goes on as with a challenge, with the bytes that the array happens to
-- hold: it sends a reply, whose last byte is the array's last, after a newline was stored behind the
-- end of the array.
pub proxy_send_unreceived :
    (os : Os) (md5 : Md5) (sock : ℕ) (mac passwd : Text) (e : ℕ) (w : World)
    → os.recv w.history sock hex_challenge ≡ fails e
    → Answers os md5 sock mac passwd
        (sized hex_challenge (os.stack w.history 33))
        (proxy_send os md5 sock mac passwd w)
unfolding proxy_send tcp_recv check_received
proxy_send_unreceived os md5 sock mac passwd e w failed =
    rw failed (respond-Answers os md5 sock mac passwd _ _ (length-sized 33 (os.stack w.history 33)))
