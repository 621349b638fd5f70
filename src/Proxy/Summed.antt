-- ===== src/Proxy/Summed.antt =====
-- src/proxy.c together with lib/md5.c: what is sent is made of the digest that `md5_buffer` computes.
use wake_on_lan.Base.{
  ℕ, ◌^◌, ◌<◌, ◌≤◌, ◌≡◌, some, List, [], ◌∷◌, ◌++◌, length, length-append, length-take, take, Text,
  arith,
}
use wake_on_lan.Magic.{mac_len}
use wake_on_lan.System.{Os, World, gives}
use wake_on_lan.Proxy.{Md5, challenge_length, hex_challenge, proxy_send}
use wake_on_lan.Proxy.Decoded.{Digits}
use wake_on_lan.Proxy.Digested.{Digests, proxy_send-Digests}
use wake_on_lan.Md5.{md5_buffer}
use wake_on_lan.Md5.Rfc.{rfc_md5}
use wake_on_lan.Md5.Digest.{buffer-Digests, length-rfc_md5}

-- The digest of RFC 1321, for the parameter of `proxy_send`.
abbrev pub rfc_sum : Md5
rfc_sum = record { digest = rfc_md5; length-digest = length-rfc_md5 }

-- What `proxy_send` hands to `md5_buffer`.
abbrev pub secret : List ℕ → Text → Text → List ℕ
secret vs mac passwd = vs ++ (take mac_len mac ++ passwd)

-- On a challenge of 32 hexadecimal digits and one byte more, a text of six characters or more for the
-- address, and a password of fewer than 2 ^ 31 characters: md5_buffer returns for the 16 bytes that the
-- digits spell, the text's first six characters and the password, and makes no store outside its
-- buffer; and with the digest that it returns, which is that of RFC 1321, proxy_send makes its reply.
pub proxy_send-Sums :
    (os : Os) (sock : ℕ) (mac passwd : Text) (ds : Text) (vs : List ℕ) (last : ℕ) (w : World)
    (stack : List ℕ) (address : ℕ)
    → os.recv w.history sock hex_challenge ≡ gives (ds ++ (last ∷ []))
    → Digits ds vs
    → length vs ≡ challenge_length
    → mac_len ≤ length mac
    → length passwd < 2 ^ 31
    → length stack ≡ 128
    → (md5_buffer stack address (secret vs mac passwd)
        ≡ some (rfc_sum.digest (secret vs mac passwd)))
      × Digests os rfc_sum sock mac passwd
          (secret vs mac passwd)
          last
          w
          (proxy_send os rfc_sum sock mac passwd w)
proxy_send-Sums os sock mac passwd ds vs last w stack address r d e h short size = (
  buffer-Digests stack address (secret vs mac passwd) size (
      omega (
        arith,
        length-append vs (take mac_len mac ++ passwd),
        length-append (take mac_len mac) passwd,
        length-take mac_len mac h,
      )),
  proxy_send-Digests os rfc_sum sock mac passwd ds vs last w r d e h,
)
