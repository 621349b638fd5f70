-- ===== src/Proxy/Reply.antt =====
-- The reply of src/proxy.c: of each byte of the digest only the first of its two digits is sent.
use wake_on_lan.Base.{
  ℕ, suc, ◌+◌, ◌*◌, ◌≡◌, ◌≤◌, ◌<◌, refl, ◌∙◌, List, [], ◌∷◌, ◌++◌, append_assoc, length, take, drop,
  length-append, length-drop, store-append, store_outside, arith, Text,
}
use wake_on_lan.Stream.{c_string}
use wake_on_lan.System.{
  Os, World, returns, printed, sum_text, reply_text, faulted, stray_write, log,
}
use wake_on_lan.Net.{tcp_send}
use wake_on_lan.Proxy.{
  Md5, md5_length, hex_challenge, poke, string_at, first_char, put_digits, reply,
}

-- What `snprintf` leaves of a digest: a character and a zero for each byte.
abbrev pub pairs : List ℕ → List ℕ
pairs [] = []
pairs (b ∷ sum) = first_char b ∷ 0 ∷ pairs sum

length-pairs : (sum : List ℕ) → length (pairs sum) ≡ 2 * length sum
length-pairs [] = refl
length-pairs (b ∷ sum) = omega (arith, length-pairs sum)

pub poke_inside :
    (written rest : List ℕ) (y v i : ℕ) (w : World)
    → i ≡ length written
    → poke (written ++ (y ∷ rest)) i v w ≡ (returns (written ++ (v ∷ rest)), w)
unfolding poke
poke_inside written rest y v i w e = rw (e, store-append written rest y v, poke)

pub poke_outside :
    (block : List ℕ) (i v : ℕ) (w : World)
    → length block ≤ i
    → poke block i v w ≡ (returns block, log (faulted stray_write) w)
unfolding poke
poke_outside block i v w h = rw (store_outside block i v h, poke)

poke_second :
    (written rest : List ℕ) (x y v i : ℕ) (w : World)
    → i ≡ length written
    → poke (written ++ (x ∷ y ∷ rest)) (i + 1) v w ≡ (returns (written ++ (x ∷ v ∷ rest)), w)
poke_second written rest x y v i w e =
    let before = written ++ (x ∷ []) in
    rw (← append_assoc written (x ∷ []) (y ∷ rest)) (
      poke_inside before rest y v (i + 1) w (omega (arith, length-append written (x ∷ [])))
      ∙ rw (append_assoc written (x ∷ []) (v ∷ rest)))

put_digits_lem :
    (sum written rest : List ℕ) (j : ℕ) (w : World)
    → j ≡ length written
    → 2 * length sum ≤ length rest
    → put_digits sum j (written ++ rest) w
      ≡ (returns (written ++ (pairs sum ++ drop (2 * length sum) rest)), w)
unfolding put_digits
put_digits_lem [] written rest j w e h = refl
put_digits_lem (b ∷ sum) written [] j w e h = absurd (omega arith)
put_digits_lem (b ∷ sum) written (y ∷ []) j w e h = absurd (omega arith)
put_digits_lem (b ∷ sum) written (y ∷ z ∷ rest) j w e h =
    let c = first_char b in
    let two = c ∷ 0 ∷ [] in
    let double : 2 * suc (length sum) ≡ suc (suc (2 * length sum)) = omega arith in
    rw (
      poke_inside written (z ∷ rest) y c j w e,
      poke_second written rest c z 0 j w e,
      double,
      ← append_assoc written two rest,
      put_digits_lem sum (written ++ two) rest (j + 2) w (omega (arith, length-append written two))
          (omega arith),
      append_assoc written two,
    )

string_at-pairs :
    (sum rest : List ℕ) (w : World)
    → 0 < length sum
    → string_at (pairs sum ++ rest) w ≡ (returns (c_string (pairs sum ++ rest)), w)
unfolding string_at
string_at-pairs [] rest w h = absurd (omega arith)
string_at-pairs (b ∷ sum) rest w h = ground arith

module _ (os : Os) (md5 : Md5) (sock : ℕ) (rsbuf sum : List ℕ) (len : ℕ) (w : World) where
  -- The bytes that are sent: the characters and zeros, and the last byte of the challenge.
  abbrev reply_bytes : List ℕ
  reply_bytes = pairs sum ++ drop 32 rsbuf

  -- On a whole challenge and a digest of 16 bytes, the newline is stored behind the end of
  -- `rsbuf`, and what is sent is the first character of each byte's two digits, each with a zero.
  pub reply_lem :
      length rsbuf ≡ hex_challenge
      → length sum ≡ md5_length
      → (w' : World) × (shown : Text) × (reply os md5 sock rsbuf sum len w
          ≡ tcp_send os sock reply_bytes w')
        × (w'.history
            ≡ printed (reply_text shown)
              ∷ faulted stray_write
              ∷ printed (sum_text (take 3 sum) len)
              ∷ w.history)
  unfolding reply
  reply_lem e f =
      let w1 = log (printed (sum_text (take 3 sum) len)) w in
      let w2 = log (faulted stray_write) w1 in
      let whole = length-append (pairs sum) (drop 32 rsbuf) in
      let double : 2 * length sum ≡ 32 = omega arith in
      (
        log (printed (reply_text (c_string reply_bytes))) w2,
        c_string reply_bytes,
        rw (
          put_digits_lem sum [] rsbuf 0 w1 refl (omega arith),
          double,
          poke_outside reply_bytes hex_challenge b'\n' w1
              (omega (arith, whole, length-pairs sum, length-drop 32 rsbuf)),
          string_at-pairs sum (drop 32 rsbuf) w2 (omega arith),
        ),
        refl,
      )
