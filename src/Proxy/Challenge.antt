-- ===== src/Proxy/Challenge.antt =====
-- `proxy_send` of src/proxy.c as a whole: a short challenge is refused, a whole one is answered.
use wake_on_lan.Base.{
  ℕ, zero, suc, ◌+◌, ◌≡◌, ◌<◌, refl, ap, true, false, Option, none, List, [], ◌∷◌, ◌++◌, length,
  drop, store, arith, Text, ltb, Bool-cases, Option-cases, inl, inr,
}
use wake_on_lan.Scan.{Value}
use wake_on_lan.Stream.{c_string}
use wake_on_lan.Magic.{einval, mac_len}
use wake_on_lan.System.{
  Os, World, Outcome, returns, Event, received, printed, challenge_text, reply_text, faulted,
  xmalloced, xfreed, stray_write, over_read, log, ◌>>=◌, M, gives,
}
use wake_on_lan.Net.{tcp_send, tcp_recv}
use wake_on_lan.Proxy.{
  Md5, has_zero, hex_challenge, md5_length, sized, poke, poke_word, string_at, decode_byte, decode,
  check_received, copy_mac, respond, proxy_send,
}
use wake_on_lan.Proxy.Reply.{pairs, reply_lem}

-- A piece of the program that returns.
abbrev Returns : {A : Type 0} → Outcome A × World → Type 0
Returns {A} r = (a : A) × (w : World) × (r ≡ (returns a, w))

poke-Returns : (block : List ℕ) (i v : ℕ) (w : World) → Returns (poke block i v w)
unfolding poke
poke-Returns block i v w = elim (Option-cases (store block i v)) [
  | inl e ↦ (block, log (faulted stray_write) w, rw (e, poke))
  | inr (stored, e) ↦ (stored, w, rw (e, poke))
]

-- What holds of the rest of a program, whatever a first piece returns, holds of both.
bind_rule :
    {A B : Type 0} (P : Outcome B × World → Type 0) (m : M A) (f : A → M B) (w : World)
    → Returns (m w)
    → ((a : A) (w' : World) → P (f a w'))
    → P ((m >>= f) w)
bind_rule P m f w (a, w', e) g = rw e (g a w')

bind-Returns :
    {A B : Type 0} (m : M A) (f : A → M B) (w : World)
    → Returns (m w)
    → ((a : A) (w' : World) → Returns (f a w'))
    → Returns ((m >>= f) w)
bind-Returns = bind_rule Returns

poke_word-Returns : (block : List ℕ) (i v : ℕ) (w : World) → Returns (poke_word block i v w)
unfolding poke_word
poke_word-Returns block i v w = bind-Returns (poke block i _) _ w (poke-Returns block i _ w) λ a w1.
    bind-Returns (poke a (i + 1) _) _ w1 (poke-Returns a (i + 1) _ w1) λ b w2.
      bind-Returns (poke b (i + 2) _) _ w2 (poke-Returns b (i + 2) _ w2)
        λ c w3. poke-Returns c (i + 3) _ w3

string_at-Returns : (block : List ℕ) (w : World) → Returns (string_at block w)
unfolding string_at
string_at-Returns block w = elim (Bool-cases (has_zero block)) [
  | inl e ↦ (c_string block, w, rw e)
  | inr e ↦ (block, log (faulted over_read) w, rw e)
]

decode_byte-Returns :
    (vs : List Value) (j : ℕ) (challenge : List ℕ) (w : World)
    → Returns (decode_byte vs j challenge w)
unfolding decode_byte
decode_byte-Returns [] j challenge w = (challenge, w, refl)
decode_byte-Returns (v ∷ vs) j challenge w = poke_word-Returns challenge j _ w

decode-Returns :
    (rounds i j : ℕ) (rsbuf challenge : List ℕ) (w : World)
    → Returns (decode rounds i j rsbuf challenge w)
unfolding decode
decode-Returns zero i j rsbuf challenge w = (challenge, w, refl)
decode-Returns (suc rounds) i j rsbuf challenge w =
    bind-Returns (string_at (drop i rsbuf)) _ w (string_at-Returns (drop i rsbuf) w) λ s w1.
      bind-Returns (decode_byte _ j challenge) _ w1 (decode_byte-Returns _ j challenge w1)
        λ next w2. decode-Returns rounds (i + 2) (j + 1) rsbuf next w2

-- The six bytes, whether or not they were read behind the string's end.
copy_mac_rule :
    {B : Type 0} (P : Outcome B × World → Type 0) (mac : Text) (behind : List ℕ) (f : List ℕ → M B)
    (w : World)
    → ((w' : World) → P (f (sized mac_len (mac ++ (0 ∷ behind))) w'))
    → P ((copy_mac mac behind >>= f) w)
unfolding copy_mac
copy_mac_rule P mac behind f w k = elim (Bool-cases (ltb (length mac + 1) mac_len)) [
  | inl e ↦ rw e (k (log (faulted over_read) w))
  | inr e ↦ rw e (k w)
]

pub sized_whole : (n : ℕ) (xs : List ℕ) → length xs ≡ n → sized n xs ≡ xs
sized_whole zero [] h = refl
sized_whole (suc n) [] h = absurd (omega arith)
sized_whole zero (x ∷ xs) h = absurd (omega arith)
sized_whole (suc n) (x ∷ xs) h = ap (◌∷◌ x) (sized_whole n xs (omega arith))

pub length-sized : (n : ℕ) (xs : List ℕ) → length (sized n xs) ≡ n
length-sized zero xs = refl
length-sized (suc n) [] = ap suc (length-sized n [])
length-sized (suc n) (x ∷ xs) = ap suc (length-sized n xs)

module _ (os : Os) (md5 : Md5) (sock : ℕ) (mac passwd : Text) where
  -- What an answer to a challenge comes to: the digest is made of the bytes of the challenge, of six
  -- bytes from the text of the address, its zero and what lies behind it, and of the password. The
  -- digest's first digits are sent, after a newline was stored behind the end of `rsbuf`.
  pub record Answers (rsbuf : List ℕ) (r : Outcome (Option ℕ) × World) : Type 0 where
    pub sum : List ℕ
    pub before : World
    pub length_sum : length sum ≡ md5_length
    pub summed :
        (challenge : List ℕ) × (behind : List ℕ) × (sum
          ≡ md5.digest (challenge ++ (sized mac_len (mac ++ (0 ∷ behind)) ++ passwd)))
    pub sends : r ≡ tcp_send os sock (pairs sum ++ drop 32 rsbuf) before
    pub stray :
        (shown : Text) × (older : List Event) × (before.history
          ≡ printed (reply_text shown) ∷ faulted stray_write ∷ older)

  pub respond-Answers :
      (rsbuf : List ℕ) (w : World)
      → length rsbuf ≡ hex_challenge
      → Answers rsbuf (respond os md5 sock mac passwd rsbuf w)
  unfolding respond
  respond-Answers rsbuf w h =
      let start = sized 16 (os.stack w.history 16) in
      let behind = os.stack w.history 6 in
      bind_rule (Answers rsbuf) (string_at rsbuf) _ w (string_at-Returns rsbuf w) λ shown w1.
        let w2 = log (printed (challenge_text shown)) w1 in
        bind_rule (Answers rsbuf) (decode 16 0 0 rsbuf start) _ w2
          (decode-Returns 16 0 0 rsbuf start w2)
          λ challenge w3.
            let six = sized mac_len (mac ++ (0 ∷ behind)) in
            let buf = challenge ++ (six ++ passwd) in
            copy_mac_rule (Answers rsbuf) mac behind _
              (log (xmalloced (length challenge + mac_len + length passwd)) w3)
              λ w4.
                let sum = md5.digest buf in
                let (w5, text, e, k) =
                  reply_lem os md5 sock rsbuf sum (length buf) (log xfreed w4) h
                    (md5.length-digest buf) in
                record {
                  sum = sum;
                  before = w5;
                  length_sum = md5.length-digest buf;
                  summed = (challenge, behind, refl);
                  sends = e;
                  stray = (text, _, k);
                }

  -- Fewer than 33 bytes of a challenge are refused with EINVAL: nothing is sent or printed.
  pub proxy_send_short :
      (bytes : List ℕ) (w : World)
      → os.recv w.history sock hex_challenge ≡ gives bytes
      → length bytes < hex_challenge
      → proxy_send os md5 sock mac passwd w ≡ (
        returns none,
        record w { history = received sock hex_challenge ∷ w.history; errno = einval },
      )
  unfolding proxy_send tcp_recv
  proxy_send_short bytes w e h =
      let small : ltb (length bytes) hex_challenge ≡ true = ground arith in rw e (rw small)

  -- A challenge of 33 bytes is answered, whatever its bytes are: of the digest of some bytes for the
  -- challenge, six bytes from the text of the address on, and the password, the first
  -- character of each byte's two digits is sent, with a zero behind it, and then the challenge's
  -- last byte. Before that a newline is stored behind the end of `rsbuf`. What the call returns is what `send` returns, a count of bytes.
  pub proxy_send-Answers :
      (bytes : List ℕ) (w : World)
      → os.recv w.history sock hex_challenge ≡ gives bytes
      → length bytes ≡ hex_challenge
      → Answers bytes (proxy_send os md5 sock mac passwd w)
  unfolding proxy_send tcp_recv check_received
  proxy_send-Answers bytes w e h =
      let large : ltb (length bytes) hex_challenge ≡ false = ground arith in
      rw e (rw (large, sized_whole 33 bytes h) (respond-Answers bytes _ h))
