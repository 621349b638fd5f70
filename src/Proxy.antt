-- ===== src/Proxy.antt =====
-- src/proxy.c: the answer to a challenge of a wolp proxy. The arrays `rsbuf`, `challenge` and
-- `md5sum` are lists of bytes; a store behind the end of one is recorded as a fault and dropped,
-- and a read behind the end of a string as another. unsigned int has four bytes, the lowest first.
pub mod Reply
pub mod Challenge
pub mod Placed
pub mod Decoded
pub mod Digested
pub mod Quiet
pub mod Unreceived
pub mod Summed
use wake_on_lan.Base.{
  ℕ, zero, suc, ◌+◌, ◌-◌, ◌*◌, ◌/◌, ◌%◌, ◌^◌, ◌≡◌, Bool, true, false, Option, none, some, List, [],
  ◌∷◌, ◌++◌, length, take, drop, replicate, store, ltb, ◌==◌, if◌then◌else◌, Text,
}
use wake_on_lan.Scan.{Directive, hex, Value, sscanf}
use wake_on_lan.Stream.{c_string}
use wake_on_lan.Magic.{mac_len, einval, int_of}
use wake_on_lan.System.{
  Os, World, Outcome, returns, M, ◌>>=◌, ◌>>◌, pure, emit, print, set_errno, challenge_text,
  sum_text, reply_text, faulted, freed, xmalloced, xfreed, stray_write, over_read,
  indeterminate_read, Origin, heap,
}
use wake_on_lan.Net.{tcp_send, tcp_recv}

abbrev pub md5_length : ℕ
md5_length = 16

abbrev pub challenge_length : ℕ
challenge_length = 16

-- CHALLENGE_LENGTH * 2 + 1
abbrev pub hex_challenge : ℕ
hex_challenge = 33

-- `md5_buffer`: the digest of the bytes, 16 of them.
pub record Md5 : Type 0 where
  pub digest : List ℕ → List ℕ
  pub length-digest : (bytes : List ℕ) → length (digest bytes) ≡ md5_length

-- An array of a size, whose first bytes are given.
abbrev pub sized : ℕ → List ℕ → List ℕ
sized zero xs = []
sized (suc n) [] = 0 ∷ sized n []
sized (suc n) (x ∷ xs) = x ∷ sized n xs

unfoldable pub poke : List ℕ → ℕ → ℕ → M (List ℕ)
poke block i v = elim (store block i v) [
  | none ↦ (do emit (faulted stray_write); pure block)
  | some stored ↦ pure stored
]

-- The four bytes of an unsigned int.
unfoldable pub poke_word : List ℕ → ℕ → ℕ → M (List ℕ)
poke_word block i v = do
  a ← poke block i (v % 256)
  b ← poke a (i + 1) (v / 256 % 256)
  c ← poke b (i + 2) (v / 65536 % 256)
  poke c (i + 3) (v / 16777216 % 256)

abbrev pub has_zero : List ℕ → Bool
has_zero [] = false
has_zero (c ∷ s) = if c == 0 then true else has_zero s

-- The string that begins where a block does.
unfoldable pub string_at : List ℕ → M Text
string_at block =
    if has_zero block then pure (c_string block) else (do emit (faulted over_read); pure block)

unfoldable pub decode_byte : List Value → ℕ → List ℕ → M (List ℕ)
decode_byte [] j challenge = pure challenge
decode_byte (v ∷ vs) j challenge = poke_word challenge j (int_of v)

-- The loop that reads the challenge's digits, with the rounds that are left.
unfoldable pub decode : ℕ → ℕ → ℕ → List ℕ → List ℕ → M (List ℕ)
decode zero i j rsbuf challenge = pure challenge
decode (suc rounds) i j rsbuf challenge = do
  s ← string_at (drop i rsbuf)
  next ← decode_byte (sscanf (hex 2 ∷ []) s) j challenge
  decode rounds (i + 2) (j + 1) rsbuf next

abbrev pub hex_char : ℕ → ℕ
hex_char d = if ltb d 10 then d + 48 else d + 87

-- The first character of what "%2x" prints for a byte: a blank where it has one digit.
abbrev pub first_char : ℕ → ℕ
first_char b = if ltb b 16 then 32 else hex_char (b / 16)

-- The loop over the digest: `snprintf` of size 2 stores one character and a zero.
unfoldable pub put_digits : List ℕ → ℕ → List ℕ → M (List ℕ)
put_digits [] j rsbuf = pure rsbuf
put_digits (b ∷ sum) j rsbuf = do
  one ← poke rsbuf j (first_char b)
  two ← poke one (j + 1) 0
  put_digits sum (j + 2) two

-- What `recv` returns, in a size_t: -1 is the greatest.
abbrev pub received_size : Option (List ℕ) → ℕ
received_size none = 2 ^ 64 - 1
received_size (some bytes) = length bytes

abbrev pub received_into : List ℕ → Option (List ℕ) → List ℕ
received_into block none = block
received_into block (some bytes) = sized hex_challenge bytes

-- Nothing was received: the bytes that are read next were never written.
unfoldable pub check_received : Option (List ℕ) → M (Unit {0})
check_received none = emit (faulted indeterminate_read)
check_received (some bytes) = pure tt

-- `memcpy` of six bytes from the string, its zero and what lies behind it.
unfoldable pub copy_mac : Text → List ℕ → M (List ℕ)
copy_mac mac behind =
    let six = sized mac_len (mac ++ (0 ∷ behind)) in
    if ltb (length mac + 1) mac_len then (do emit (faulted over_read); pure six) else pure six

module _ (os : Os) (md5 : Md5) where
  -- From the digest on.
  unfoldable pub reply : ℕ → List ℕ → List ℕ → ℕ → M (Option ℕ)
  reply sock rsbuf sum len = do
    print (sum_text (take 3 sum) len)
    filled ← put_digits sum 0 rsbuf
    ended ← poke filled hex_challenge b'\n'
    shown ← string_at ended
    print (reply_text shown)
    tcp_send os sock ended

  -- From the challenge on.
  unfoldable pub respond : ℕ → Text → Text → List ℕ → M (Option ℕ)
  respond sock macbuf passwd rsbuf w =
      let run : M (Option ℕ) = do
        shown ← string_at rsbuf
        print (challenge_text shown)
        challenge ←
            decode challenge_length 0 0 rsbuf (sized challenge_length (os.stack w.history 16))
        emit (xmalloced (length challenge + mac_len + length passwd))
        mac ← copy_mac macbuf (os.stack w.history 6)
        let buf = challenge ++ (mac ++ passwd)
        emit xfreed
        reply sock rsbuf (md5.digest buf) (length buf)
      in run w

  unfoldable pub proxy_send : ℕ → Text → Text → M (Option ℕ)
  proxy_send sock macbuf passwd w =
      let block = sized hex_challenge (os.stack w.history 33) in
      let run : M (Option ℕ) = do
        received ← tcp_recv os sock hex_challenge
        if ltb (received_size received) hex_challenge then (do set_errno einval; pure none) else (do
          check_received received
          respond sock macbuf passwd (received_into block received))
      in run w
