-- ===== src/Proxy/Digested.antt =====
-- `proxy_send` of src/proxy.c on a challenge of 32 hexadecimal digits: what it digests.
use wake_on_lan.Base.{
  ℕ, zero, suc, ◌+◌, ◌≡◌, ◌≤◌, refl, ◌∙◌, ap, false, Option, List, [], ◌∷◌, ◌++◌, length,
  length-append, take, drop, drop-append, arith, Text, ltb, Bool-cases, inl, inr,
}
use wake_on_lan.Stream.{c_string}
use wake_on_lan.System.{
  Os, World, Outcome, returns, printed, challenge_text, faulted, over_read, log, gives, received,
}
use wake_on_lan.Magic.{mac_len}
use wake_on_lan.Net.{tcp_send, tcp_recv}
use wake_on_lan.System.{xmalloced, xfreed}
use wake_on_lan.Proxy.{
  Md5, challenge_length, hex_challenge, sized, has_zero, string_at, decode, check_received,
  copy_mac, respond, proxy_send,
}
use wake_on_lan.Proxy.Reply.{pairs, reply_lem}
use wake_on_lan.Proxy.Challenge.{length-sized, sized_whole}
use wake_on_lan.Proxy.Placed.{strays}
use wake_on_lan.Proxy.Decoded.{Digits, no_byte, byte, decode-Digits}

length-Digits : {ds : Text} {vs : List ℕ} → Digits ds vs → length ds ≡ length vs + length vs
length-Digits no_byte = refl
length-Digits (byte h k ds) = omega (arith, length-Digits ds)

-- The 32 digits give the 16 bytes that they spell, whatever the array held; the stores of four bytes
-- go six times behind its end.
pub decode-challenge :
    (ds tail : Text) (vs block : List ℕ) (w : World)
    → Digits ds vs
    → length vs ≡ challenge_length
    → length block ≡ challenge_length
    → (w' : World) × (decode challenge_length 0 0 (ds ++ tail) block w ≡ (returns vs, w'))
      × (strays w'.history ≡ 6 + strays w.history)
decode-challenge ds tail vs block w d e f =
    let r =
      decode-Digits challenge_length 0 0 [] tail [] block w d (omega arith) (omega arith) refl
        refl in
    (r.after, r.result, r.count ∙ rw e)

string_at_lem :
    (block : List ℕ) (w : World)
    → (s : Text) × (w' : World) × (string_at block w ≡ (returns s, w'))
      × (strays w'.history ≡ strays w.history)
unfolding string_at
string_at_lem block w = elim (Bool-cases (has_zero block)) [
  | inl e ↦ (c_string block, w, rw e, refl)
  | inr e ↦ (block, log (faulted over_read) w, rw e, refl)
]

sized-take : (n : ℕ) (xs ys : List ℕ) → n ≤ length xs → sized n (xs ++ ys) ≡ take n xs
sized-take zero xs ys h = refl
sized-take (suc n) [] ys h = absurd (omega arith)
sized-take (suc n) (x ∷ xs) ys h = ap (◌∷◌ x) (sized-take n xs ys (omega arith))

copy_mac_lem :
    (mac : Text) (behind : List ℕ) (w : World)
    → mac_len ≤ length mac
    → copy_mac mac behind w ≡ (returns (take mac_len mac), w)
unfolding copy_mac
copy_mac_lem mac behind w h =
    let long : ltb (length mac + 1) mac_len ≡ false = ground arith in
    rw (long, sized-take mac_len mac (0 ∷ behind) h)

module _ (os : Os) (md5 : Md5) (sock : ℕ) (mac passwd : Text) where
  -- The answer is made of the digest of these bytes, after seven stores behind the end of an array.
  pub record Digests (secret : List ℕ) (last : ℕ) (w : World) (r : Outcome (Option ℕ) × World)
      : Type 0 where
    pub before : World
    pub sends : r ≡ tcp_send os sock (pairs (md5.digest secret) ++ (last ∷ [])) before
    pub count : strays before.history ≡ 7 + strays w.history

  respond-Digests :
      (ds : Text) (vs : List ℕ) (last : ℕ) (w : World)
      → Digits ds vs
      → length vs ≡ challenge_length
      → mac_len ≤ length mac
      → Digests
          (vs ++ (take mac_len mac ++ passwd))
          last
          w
          (respond os md5 sock mac passwd (ds ++ (last ∷ [])) w)
  unfolding respond
  respond-Digests ds vs last w d e h =
      let rsbuf = ds ++ (last ∷ []) in
      let block = sized challenge_length (os.stack w.history 16) in
      let secret = vs ++ (take mac_len mac ++ passwd) in
      let sum = md5.digest secret in
      let size : length ds ≡ 32 = omega (arith, length-Digits d) in
      let (shown, w1, shows, same) = string_at_lem rsbuf w in
      let w2 = log (printed (challenge_text shown)) w1 in
      let (w3, decodes, count) =
        decode-challenge ds (last ∷ []) vs block w2 d e (length-sized challenge_length _) in
      let w3' = log (xmalloced (length vs + mac_len + length passwd)) w3 in
      let whole : length rsbuf ≡ hex_challenge = omega (arith, length-append ds (last ∷ [])) in
      let copied = copy_mac_lem mac (os.stack w.history 6) w3' h in
      let (w4, text, sends, past) =
        reply_lem os md5 sock rsbuf sum (length secret) (log xfreed w3') whole
          (md5.length-digest secret) in
      let rest : drop 32 rsbuf ≡ last ∷ [] = rw (← size) (drop-append ds (last ∷ [])) in
      let seven : strays w4.history ≡ suc (strays w3.history) = ap strays past in
      record {
        before = w4;
        sends =
            rw (shows, decodes, copied) sends ∙ ap (λ l. tcp_send os sock (pairs sum ++ l) w4) rest;
        count = omega (arith, seven, count, same);
      }

  -- On a challenge of 32 hexadecimal digits and one byte more, and a text of six characters or more
  -- for the address, what is digested are the 16 bytes that the digits spell, the text's first six
  -- characters and the password. Seven stores go behind the end of an array.
  pub proxy_send-Digests :
      (ds : Text) (vs : List ℕ) (last : ℕ) (w : World)
      → os.recv w.history sock hex_challenge ≡ gives (ds ++ (last ∷ []))
      → Digits ds vs
      → length vs ≡ challenge_length
      → mac_len ≤ length mac
      → Digests (vs ++ (take mac_len mac ++ passwd)) last w (proxy_send os md5 sock mac passwd w)
  unfolding proxy_send tcp_recv check_received
  proxy_send-Digests ds vs last w r d e h =
      let bytes = ds ++ (last ∷ []) in
      let whole : length bytes ≡ hex_challenge =
        omega (arith, length-append ds (last ∷ []), length-Digits d) in
      let large : ltb (length bytes) hex_challenge ≡ false = ground arith in
      let w1 = log (received sock hex_challenge) w in
      let a = respond-Digests ds vs last w1 d e h in
      let same : Digests (vs ++ (take mac_len mac ++ passwd)) last w
          (respond os md5 sock mac passwd bytes w1) =
        record { before = a.before; sends = a.sends; count = a.count } in
      rw r (rw (large, sized_whole 33 bytes whole) same)
