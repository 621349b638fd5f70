-- ===== src/Md5/Rounds.antt =====
-- The words of lib/md5.c: the macros `rol`, `FF`, `FG`, `FH`, `FI` and `OP`, the four rounds, and the
-- loop of `md5_process_block`. `~` is taken on 32 bits. A word is read with its lowest byte first,
-- which is what `SWAP` provides for on either kind of host.
use Prim.Native.Nat.{bit_and, bit_or, bit_xor}
use wake_on_lan.Base.{
  ℕ, zero, suc, ◌+◌, ◌-◌, ◌*◌, ◌/◌, ◌%◌, ◌^◌, List, [], ◌∷◌, none, some, drop, get_elem?,
}

abbrev pub word_mod : ℕ
word_mod = 4294967296

-- `A`, `B`, `C` and `D`
pub record Regs : Type 0 where
  pub a : ℕ
  pub b : ℕ
  pub c : ℕ
  pub d : ℕ

abbrev pub not_word : ℕ → ℕ
not_word x = 4294967295 - x

unfoldable pub rol : ℕ → ℕ → ℕ
rol x n = bit_or (x * 2 ^ n % word_mod) (x / 2 ^ (32 - n))

unfoldable pub ff : ℕ → ℕ → ℕ → ℕ
ff b c d = bit_xor d (bit_and b (bit_xor c d))

unfoldable pub fg : ℕ → ℕ → ℕ → ℕ
fg b c d = ff d b c

unfoldable pub fh : ℕ → ℕ → ℕ → ℕ
fh b c d = bit_xor (bit_xor b c) d

unfoldable pub fi : ℕ → ℕ → ℕ → ℕ
fi b c d = bit_xor c (bit_or b (not_word d))

-- What `OP (f, a, b, c, d, k, s, T)` leaves in `a`, with the word `x` at `k`.
unfoldable pub op : (ℕ → ℕ → ℕ → ℕ) → ℕ → ℕ → ℕ → ℕ → ℕ → ℕ → ℕ → ℕ
op f a b c d x s t = let sum = (a + (f b c d + x + t)) % word_mod in (rol sum s + b) % word_mod

-- The word at an index of `correct_words`.
abbrev pub at : List ℕ → ℕ → ℕ
at ws k = elim (get_elem? ws k) [ none ↦ 0 | some x ↦ x ]

-- `OP (f, A, B, C, D, k, s, T)`, and the same with its registers turned.
unfoldable pub op_a : (ℕ → ℕ → ℕ → ℕ) → ℕ → ℕ → ℕ → List ℕ → Regs → Regs
op_a f k s t ws r = record r { a = op f r.a r.b r.c r.d (at ws k) s t }

unfoldable pub op_d : (ℕ → ℕ → ℕ → ℕ) → ℕ → ℕ → ℕ → List ℕ → Regs → Regs
op_d f k s t ws r = record r { d = op f r.d r.a r.b r.c (at ws k) s t }

unfoldable pub op_c : (ℕ → ℕ → ℕ → ℕ) → ℕ → ℕ → ℕ → List ℕ → Regs → Regs
op_c f k s t ws r = record r { c = op f r.c r.d r.a r.b (at ws k) s t }

unfoldable pub op_b : (ℕ → ℕ → ℕ → ℕ) → ℕ → ℕ → ℕ → List ℕ → Regs → Regs
op_b f k s t ws r = record r { b = op f r.b r.c r.d r.a (at ws k) s t }

unfoldable pub round_1 : List ℕ → Regs → Regs
round_1 ws r0 =
    let r1 = op_a ff 0 7 0xd76aa478 ws r0 in
    let r2 = op_d ff 1 12 0xe8c7b756 ws r1 in
    let r3 = op_c ff 2 17 0x242070db ws r2 in
    let r4 = op_b ff 3 22 0xc1bdceee ws r3 in
    let r5 = op_a ff 4 7 0xf57c0faf ws r4 in
    let r6 = op_d ff 5 12 0x4787c62a ws r5 in
    let r7 = op_c ff 6 17 0xa8304613 ws r6 in
    let r8 = op_b ff 7 22 0xfd469501 ws r7 in
    let r9 = op_a ff 8 7 0x698098d8 ws r8 in
    let r10 = op_d ff 9 12 0x8b44f7af ws r9 in
    let r11 = op_c ff 10 17 0xffff5bb1 ws r10 in
    let r12 = op_b ff 11 22 0x895cd7be ws r11 in
    let r13 = op_a ff 12 7 0x6b901122 ws r12 in
    let r14 = op_d ff 13 12 0xfd987193 ws r13 in
    let r15 = op_c ff 14 17 0xa679438e ws r14 in op_b ff 15 22 0x49b40821 ws r15

unfoldable pub round_2 : List ℕ → Regs → Regs
round_2 ws r0 =
    let r1 = op_a fg 1 5 0xf61e2562 ws r0 in
    let r2 = op_d fg 6 9 0xc040b340 ws r1 in
    let r3 = op_c fg 11 14 0x265e5a51 ws r2 in
    let r4 = op_b fg 0 20 0xe9b6c7aa ws r3 in
    let r5 = op_a fg 5 5 0xd62f105d ws r4 in
    let r6 = op_d fg 10 9 0x02441453 ws r5 in
    let r7 = op_c fg 15 14 0xd8a1e681 ws r6 in
    let r8 = op_b fg 4 20 0xe7d3fbc8 ws r7 in
    let r9 = op_a fg 9 5 0x21e1cde6 ws r8 in
    let r10 = op_d fg 14 9 0xc33707d6 ws r9 in
    let r11 = op_c fg 3 14 0xf4d50d87 ws r10 in
    let r12 = op_b fg 8 20 0x455a14ed ws r11 in
    let r13 = op_a fg 13 5 0xa9e3e905 ws r12 in
    let r14 = op_d fg 2 9 0xfcefa3f8 ws r13 in
    let r15 = op_c fg 7 14 0x676f02d9 ws r14 in op_b fg 12 20 0x8d2a4c8a ws r15

unfoldable pub round_3 : List ℕ → Regs → Regs
round_3 ws r0 =
    let r1 = op_a fh 5 4 0xfffa3942 ws r0 in
    let r2 = op_d fh 8 11 0x8771f681 ws r1 in
    let r3 = op_c fh 11 16 0x6d9d6122 ws r2 in
    let r4 = op_b fh 14 23 0xfde5380c ws r3 in
    let r5 = op_a fh 1 4 0xa4beea44 ws r4 in
    let r6 = op_d fh 4 11 0x4bdecfa9 ws r5 in
    let r7 = op_c fh 7 16 0xf6bb4b60 ws r6 in
    let r8 = op_b fh 10 23 0xbebfbc70 ws r7 in
    let r9 = op_a fh 13 4 0x289b7ec6 ws r8 in
    let r10 = op_d fh 0 11 0xeaa127fa ws r9 in
    let r11 = op_c fh 3 16 0xd4ef3085 ws r10 in
    let r12 = op_b fh 6 23 0x04881d05 ws r11 in
    let r13 = op_a fh 9 4 0xd9d4d039 ws r12 in
    let r14 = op_d fh 12 11 0xe6db99e5 ws r13 in
    let r15 = op_c fh 15 16 0x1fa27cf8 ws r14 in op_b fh 2 23 0xc4ac5665 ws r15

unfoldable pub round_4 : List ℕ → Regs → Regs
round_4 ws r0 =
    let r1 = op_a fi 0 6 0xf4292244 ws r0 in
    let r2 = op_d fi 7 10 0x432aff97 ws r1 in
    let r3 = op_c fi 14 15 0xab9423a7 ws r2 in
    let r4 = op_b fi 5 21 0xfc93a039 ws r3 in
    let r5 = op_a fi 12 6 0x655b59c3 ws r4 in
    let r6 = op_d fi 3 10 0x8f0ccc92 ws r5 in
    let r7 = op_c fi 10 15 0xffeff47d ws r6 in
    let r8 = op_b fi 1 21 0x85845dd1 ws r7 in
    let r9 = op_a fi 8 6 0x6fa87e4f ws r8 in
    let r10 = op_d fi 15 10 0xfe2ce6e0 ws r9 in
    let r11 = op_c fi 6 15 0xa3014314 ws r10 in
    let r12 = op_b fi 13 21 0x4e0811a1 ws r11 in
    let r13 = op_a fi 4 6 0xf7537e82 ws r12 in
    let r14 = op_d fi 11 10 0xbd3af235 ws r13 in
    let r15 = op_c fi 2 15 0x2ad7d2bb ws r14 in op_b fi 9 21 0xeb86d391 ws r15

unfoldable pub le_word : List ℕ → ℕ
le_word bytes = at bytes 0 + 256 * at bytes 1 + 65536 * at bytes 2 + 16777216 * at bytes 3

-- The `n` words that begin where the bytes do.
unfoldable pub words : ℕ → List ℕ → List ℕ
words zero bytes = []
words (suc n) bytes = le_word bytes ∷ words n (drop 4 bytes)

-- A round of the loop of `md5_process_block`, from the saving of the registers to their sum.
unfoldable pub process_one : List ℕ → Regs → Regs
process_one bytes save =
    let ws = words 16 bytes in
    let r = round_4 ws (round_3 ws (round_2 ws (round_1 ws save))) in
    record {
      a = (r.a + save.a) % word_mod;
      b = (r.b + save.b) % word_mod;
      c = (r.c + save.c) % word_mod;
      d = (r.d + save.d) % word_mod;
    }

-- The loop `while (words < endp)`, with the rounds that are left. A round takes 16 words.
unfoldable pub process_blocks : ℕ → List ℕ → Regs → Regs
process_blocks zero bytes r = r
process_blocks (suc n) bytes r = process_blocks n (drop 64 bytes) (process_one bytes r)
