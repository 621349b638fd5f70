-- ===== src/Net/Sending.antt =====
-- What the functions of src/net.c hand to the network.
use wake_on_lan.Base.{
  ℕ, ◌%◌, ◌^◌, ◌≡◌, sym, ◌∙◌, ◌++◌, append_assoc, Option, none, some, List, [], ◌∷◌, arith, Text,
}
use wake_on_lan.Magic.{einval}
use wake_on_lan.System.{
  live, log, Os, World, returns, Event, sent_to, Address, inet, resolved, Answer, gives, fails,
}
use wake_on_lan.Net.{net_resolv, udp_send}

-- The datagrams handed to the network, newest first.
abbrev pub datagrams : List Event → List (List ℕ × Address)
datagrams [] = []
datagrams (sent_to fd buf to ∷ h) = (buf, to) ∷ datagrams h
datagrams (e ∷ h) = datagrams h

-- Just these datagrams were handed over, newest first, and the same descriptors are open.
abbrev pub Trace : List (List ℕ × Address) → World → World → Type 0
Trace ds w w' =
    (live w'.history ≡ live w.history) × (datagrams w'.history ≡ ds ++ datagrams w.history)

pub Trace-trans :
    (ds es : List (List ℕ × Address)) (w w' w'' : World)
    → Trace ds w w'
    → Trace es w' w''
    → Trace (es ++ ds) w w''
Trace-trans ds es w w' w'' (l, d) (l', d') =
    (l' ∙ l, d' ∙ rw d (sym (append_assoc es ds (datagrams w.history))))

-- -1 or 0, for what `sendto` answers.
abbrev pub send_result : Answer ℕ → Option ℕ
send_result (gives n) = some 0
send_result (fails e) = none

module _ (os : Os) (fd : ℕ) (ip : Text) (port : ℕ) (buf : List ℕ) (w : World) where
  -- Where the name resolves, `udp_send` hands over one datagram, the buffer whole, to the address
  -- and the port's low 16 bits, and returns 0 where `sendto` takes it and -1 where it does not.
  pub udp_send_resolved :
      (addr : List ℕ)
      → os.gethostbyname w.history ip ≡ some addr
      → let to = inet addr (port % 2 ^ 16) in
        let asked = resolved ip ∷ w.history in
        (datagrams (udp_send os fd (some ip) port (some buf) w).1.history
          ≡ (buf, to) ∷ datagrams w.history)
        × ((udp_send os fd (some ip) port (some buf) w).0
            ≡ returns (send_result (os.sendto asked fd buf to)))
  unfolding udp_send
  udp_send_resolved addr h = (ground arith, ground arith)

  -- Where it does not, nothing is handed over, -1 is returned and `errno` is EINVAL.
  pub udp_send_unresolved :
      os.gethostbyname w.history ip ≡ none
      → (datagrams (udp_send os fd (some ip) port (some buf) w).1.history ≡ datagrams w.history)
        × ((udp_send os fd (some ip) port (some buf) w).0 ≡ returns none)
        × ((udp_send os fd (some ip) port (some buf) w).1.errno ≡ einval)
  unfolding udp_send
  udp_send_unresolved h = (ground arith, ground arith, ground arith)

  pub udp_send_ok :
      (addr : List ℕ) (n : ℕ)
      → os.gethostbyname w.history ip ≡ some addr
      → os.sendto (resolved ip ∷ w.history) fd buf (inet addr (port % 2 ^ 16)) ≡ gives n
      → udp_send os fd (some ip) port (some buf) w
        ≡ (returns (some 0), log (sent_to fd buf (inet addr (port % 2 ^ 16))) (log (resolved ip) w))
  unfolding udp_send
  udp_send_ok addr n h k = rw (h, net_resolv) (rw k)
