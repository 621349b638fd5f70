-- ===== src/Proxy/Quiet.antt =====
-- `proxy_send` of src/proxy.c returns, whatever the proxy answers, and frees none of its arguments.
use wake_on_lan.Base.{
  ℕ, zero, suc, ◌+◌, refl, length, Option, none, some, List, [], ◌∷◌, inl, inr, arith, Text,
  Bool-cases, drop, ltb, take,
}
use wake_on_lan.Scan.{Value}
use wake_on_lan.System.{Os, World, log, printed, challenge_text, sum_text, xmalloced, xfreed}
use wake_on_lan.System.Blocks.{Quiet, Quiet-trans, Quietly, Quietly-bind}
use wake_on_lan.System.Rules.{Post-mono, Post-then}
use wake_on_lan.Magic.{mac_len}
use wake_on_lan.Net.{tcp_send, tcp_recv}
use wake_on_lan.Proxy.{
  Md5, poke, poke_word, string_at, decode_byte, decode, put_digits, check_received, copy_mac, reply,
  respond, proxy_send, hex_challenge, received_size,
}

poke-Quietly : (block : List ℕ) (i v : ℕ) (w : World) → Quietly w (poke block i v w)
unfolding poke
poke-Quietly block i v w = ground arith

poke_word-Quietly : (block : List ℕ) (i v : ℕ) (w : World) → Quietly w (poke_word block i v w)
unfolding poke_word
poke_word-Quietly block i v w = Quietly-bind (poke block i _) _ w (poke-Quietly block i _ w) λ a w1.
    Quietly-bind (poke a (i + 1) _) _ w1 (poke-Quietly a (i + 1) _ w1) λ b w2.
      Quietly-bind (poke b (i + 2) _) _ w2 (poke-Quietly b (i + 2) _ w2)
        λ c w3. poke-Quietly c (i + 3) _ w3

string_at-Quietly : (block : List ℕ) (w : World) → Quietly w (string_at block w)
unfolding string_at
string_at-Quietly block w = ground arith

decode_byte-Quietly :
    (vs : List Value) (j : ℕ) (challenge : List ℕ) (w : World)
    → Quietly w (decode_byte vs j challenge w)
unfolding decode_byte
decode_byte-Quietly [] j challenge w = (refl, refl, refl, refl, refl)
decode_byte-Quietly (v ∷ vs) j challenge w = poke_word-Quietly challenge j _ w

decode-Quietly :
    (rounds i j : ℕ) (rsbuf challenge : List ℕ) (w : World)
    → Quietly w (decode rounds i j rsbuf challenge w)
unfolding decode
decode-Quietly zero i j rsbuf challenge w = (refl, refl, refl, refl, refl)
decode-Quietly (suc rounds) i j rsbuf challenge w =
    Quietly-bind (string_at (drop i rsbuf)) _ w (string_at-Quietly (drop i rsbuf) w) λ s w1.
      Quietly-bind (decode_byte _ j challenge) _ w1 (decode_byte-Quietly _ j challenge w1)
        λ next w2. decode-Quietly rounds (i + 2) (j + 1) rsbuf next w2

put_digits-Quietly :
    (sum : List ℕ) (j : ℕ) (rsbuf : List ℕ) (w : World) → Quietly w (put_digits sum j rsbuf w)
unfolding put_digits
put_digits-Quietly [] j rsbuf w = (refl, refl, refl, refl, refl)
put_digits-Quietly (b ∷ sum) j rsbuf w =
    Quietly-bind (poke rsbuf j _) _ w (poke-Quietly rsbuf j _ w) λ one w1.
      Quietly-bind (poke one (j + 1) 0) _ w1 (poke-Quietly one (j + 1) 0 w1)
        λ two w2. put_digits-Quietly sum (j + 2) two w2

copy_mac-Quietly : (mac : Text) (behind : List ℕ) (w : World) → Quietly w (copy_mac mac behind w)
unfolding copy_mac
copy_mac-Quietly mac behind w = ground arith

check_received-Quietly : (r : Option (List ℕ)) (w : World) → Quietly w (check_received r w)
unfolding check_received
check_received-Quietly none w = (refl, refl, refl, refl, refl)
check_received-Quietly (some bytes) w = (refl, refl, refl, refl, refl)

module _ (os : Os) (sock : ℕ) where
  tcp_send-Quietly : (buf : List ℕ) (w : World) → Quietly w (tcp_send os sock buf w)
  unfolding tcp_send
  tcp_send-Quietly buf w = ground arith

  tcp_recv-Quietly : (n : ℕ) (w : World) → Quietly w (tcp_recv os sock n w)
  unfolding tcp_recv
  tcp_recv-Quietly n w = ground arith

  module _ (md5 : Md5) where
    reply-Quietly :
        (rsbuf sum : List ℕ) (len : ℕ) (w : World) → Quietly w (reply os md5 sock rsbuf sum len w)
    unfolding reply
    reply-Quietly rsbuf sum len w =
        let w1 = log (printed (sum_text (take 3 sum) len)) w in
        Quietly-bind (put_digits sum 0 rsbuf) _ w1 (put_digits-Quietly sum 0 rsbuf w1) λ filled w2.
          Quietly-bind (poke filled hex_challenge _) _ w2 (poke-Quietly filled hex_challenge _ w2)
            λ ended w3.
              Quietly-bind (string_at ended) _ w3 (string_at-Quietly ended w3)
                λ shown w4. tcp_send-Quietly ended _

    respond-Quietly :
        (mac passwd : Text) (rsbuf : List ℕ) (w : World)
        → Quietly w (respond os md5 sock mac passwd rsbuf w)
    unfolding respond
    respond-Quietly mac passwd rsbuf w =
        Quietly-bind (string_at rsbuf) _ w (string_at-Quietly rsbuf w) λ shown w1.
          let w2 = log (printed (challenge_text shown)) w1 in
          Quietly-bind (decode 16 0 0 rsbuf _) _ w2 (decode-Quietly 16 0 0 rsbuf _ w2)
            λ challenge w3.
              let w4 = log (xmalloced (length challenge + mac_len + length passwd)) w3 in
              Post-then _ (Quietly w3) (copy_mac mac _) _ w4 (copy_mac-Quietly mac _ w4)
                λ six w5 (i, l, n, f, b).
                  let given : Quiet w3 (log xfreed w5) = (i, l, n, f, omega (arith, b)) in
                  Post-mono _ _ (reply os md5 sock rsbuf _ _ (log xfreed w5))
                    (reply-Quietly rsbuf _ _ (log xfreed w5))
                    λ r w6 q. Quiet-trans w3 (log xfreed w5) w6 given q

    pub proxy_send-Quietly :
        (mac passwd : Text) (w : World) → Quietly w (proxy_send os md5 sock mac passwd w)
    unfolding proxy_send
    proxy_send-Quietly mac passwd w =
        Quietly-bind (tcp_recv os sock hex_challenge) _ w (tcp_recv-Quietly hex_challenge w)
          λ received w1. elim (Bool-cases (ltb (received_size received) hex_challenge)) [
            | inl e ↦ rw e (refl, refl, refl, refl, refl)
            | inr e ↦ rw e (
                Quietly-bind (check_received received) _ w1 (check_received-Quietly received w1)
                  λ u w2. respond-Quietly mac passwd _ w2)
          ]
