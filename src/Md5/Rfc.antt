-- ===== src/Md5/Rfc.antt =====
-- MD5 as RFC 1321 describes it, which is what lib/md5.c promises to compute: its functions, tables
-- and steps, the padding, and the digest of a whole message. Nothing here is taken from the C code.
use Prim.Native.Nat.{bit_and, bit_or, bit_xor}
use wake_on_lan.Base.{
  ℕ, zero, suc, ◌+◌, ◌-◌, ◌*◌, ◌/◌, ◌%◌, ◌^◌, List, [], ◌∷◌, ◌++◌, length, take, drop, replicate,
}
use wake_on_lan.Md5.Rounds.{Regs, word_mod, not_word, at}

abbrev pub Choice : Type 0
Choice = ℕ → ℕ → ℕ → ℕ

abbrev pub rfc_f : Choice
rfc_f x y z = bit_or (bit_and x y) (bit_and (not_word x) z)

abbrev pub rfc_g : Choice
rfc_g x y z = bit_or (bit_and x z) (bit_and y (not_word z))

abbrev pub rfc_h : Choice
rfc_h x y z = bit_xor (bit_xor x y) z

abbrev pub rfc_i : Choice
rfc_i x y z = bit_xor y (bit_or x (not_word z))

-- The `s` high digits of a word come down, and the others go up.
unfoldable pub rotate : ℕ → ℕ → ℕ
rotate x s = x % 2 ^ (32 - s) * 2 ^ s + x / 2 ^ (32 - s)

-- a = b + ((a + g (b, c, d) + X[k] + T) <<< s), and the registers are turned.
unfoldable pub step : Choice → ℕ → ℕ → ℕ → List ℕ → Regs → Regs
step g k s t ws r = record {
  a = r.d;
  b = (r.b + rotate ((r.a + g r.b r.c r.d + at ws k + t) % word_mod) s) % word_mod;
  c = r.b;
  d = r.c;
}

-- The table T.
abbrev pub sines : List ℕ
sines =
    0xd76aa478 ∷ 0xe8c7b756 ∷ 0x242070db ∷ 0xc1bdceee ∷ 0xf57c0faf ∷ 0x4787c62a ∷ 0xa8304613
    ∷ 0xfd469501 ∷ 0x698098d8 ∷ 0x8b44f7af ∷ 0xffff5bb1 ∷ 0x895cd7be ∷ 0x6b901122 ∷ 0xfd987193
    ∷ 0xa679438e ∷ 0x49b40821 ∷ 0xf61e2562 ∷ 0xc040b340 ∷ 0x265e5a51 ∷ 0xe9b6c7aa ∷ 0xd62f105d
    ∷ 0x02441453 ∷ 0xd8a1e681 ∷ 0xe7d3fbc8 ∷ 0x21e1cde6 ∷ 0xc33707d6 ∷ 0xf4d50d87 ∷ 0x455a14ed
    ∷ 0xa9e3e905 ∷ 0xfcefa3f8 ∷ 0x676f02d9 ∷ 0x8d2a4c8a ∷ 0xfffa3942 ∷ 0x8771f681 ∷ 0x6d9d6122
    ∷ 0xfde5380c ∷ 0xa4beea44 ∷ 0x4bdecfa9 ∷ 0xf6bb4b60 ∷ 0xbebfbc70 ∷ 0x289b7ec6 ∷ 0xeaa127fa
    ∷ 0xd4ef3085 ∷ 0x04881d05 ∷ 0xd9d4d039 ∷ 0xe6db99e5 ∷ 0x1fa27cf8 ∷ 0xc4ac5665 ∷ 0xf4292244
    ∷ 0x432aff97 ∷ 0xab9423a7 ∷ 0xfc93a039 ∷ 0x655b59c3 ∷ 0x8f0ccc92 ∷ 0xffeff47d ∷ 0x85845dd1
    ∷ 0x6fa87e4f ∷ 0xfe2ce6e0 ∷ 0xa3014314 ∷ 0x4e0811a1 ∷ 0xf7537e82 ∷ 0xbd3af235 ∷ 0x2ad7d2bb
    ∷ 0xeb86d391 ∷ []

-- The steps from `i` on, `n` of them: the word's index is given, and the amounts of shifting repeat.
unfoldable pub steps : Choice → (ℕ → ℕ) → List ℕ → ℕ → ℕ → List ℕ → Regs → Regs
steps g k shifts zero i ws r = r
steps g k shifts (suc n) i ws r =
    steps g k shifts n (i + 1) ws (step g (k i) (at shifts (i % 4)) (at sines i) ws r)

abbrev pub steps_1 : List ℕ → Regs → Regs
steps_1 = steps rfc_f (λ i. i) (7 ∷ 12 ∷ 17 ∷ 22 ∷ []) 16 0

abbrev pub steps_2 : List ℕ → Regs → Regs
steps_2 = steps rfc_g (λ i. (5 * i + 1) % 16) (5 ∷ 9 ∷ 14 ∷ 20 ∷ []) 16 16

abbrev pub steps_3 : List ℕ → Regs → Regs
steps_3 = steps rfc_h (λ i. (3 * i + 5) % 16) (4 ∷ 11 ∷ 16 ∷ 23 ∷ []) 16 32

abbrev pub steps_4 : List ℕ → Regs → Regs
steps_4 = steps rfc_i (λ i. 7 * i % 16) (6 ∷ 10 ∷ 15 ∷ 21 ∷ []) 16 48

-- Four bytes make a word, the lowest first.
unfoldable pub rfc_words : ℕ → List ℕ → List ℕ
rfc_words zero bytes = []
rfc_words (suc n) bytes =
    (at bytes 0 + 256 * (at bytes 1 + 256 * (at bytes 2 + 256 * at bytes 3)))
    ∷ rfc_words n (drop 4 bytes)

abbrev pub add_words : ℕ → ℕ → ℕ
add_words x y = (x + y) % word_mod

-- A block of 64 bytes.
unfoldable pub compress : List ℕ → Regs → Regs
compress bytes r =
    let ws = rfc_words 16 bytes in
    let s = steps_4 ws (steps_3 ws (steps_2 ws (steps_1 ws r))) in
    record {
      a = add_words s.a r.a;
      b = add_words s.b r.b;
      c = add_words s.c r.c;
      d = add_words s.d r.d;
    }

unfoldable pub absorb : ℕ → List ℕ → Regs → Regs
absorb zero bytes r = r
absorb (suc n) bytes r = absorb n (drop 64 bytes) (compress (take 64 bytes) r)

abbrev pub rfc_init : Regs
rfc_init = record { a = 0x67452301; b = 0xefcdab89; c = 0x98badcfe; d = 0x10325476 }

-- `n` bytes of a number, the lowest first.
unfoldable pub low_bytes : ℕ → ℕ → List ℕ
low_bytes zero v = []
low_bytes (suc n) v = v % 256 ∷ low_bytes n (v / 256)

-- A one and zeros up to 56 bytes past a multiple of 64, and the number of bits as two words, the low
-- one first.
unfoldable pub pad : ℕ → List ℕ
pad n =
    0x80
    ∷ (replicate ((119 - n % 64) % 64) 0
        ++ (low_bytes 4 (8 * n % word_mod) ++ low_bytes 4 (8 * n / word_mod % word_mod)))

unfoldable pub rfc_md5 : List ℕ → List ℕ
rfc_md5 message =
    let padded = message ++ pad (length message) in
    let r = absorb (length padded / 64) padded rfc_init in
    low_bytes 4 r.a ++ (low_bytes 4 r.b ++ (low_bytes 4 r.c ++ low_bytes 4 r.d))
