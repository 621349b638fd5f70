-- ===== src/Md5/Blocks.antt =====
-- The loop of `md5_process_block` absorbs its blocks as RFC 1321 has it.
use mathlib.Core.Path.{ap₂}
use wake_on_lan.Base.{
  ℕ, zero, suc, ◌+◌, ◌*◌, ◌%◌, ◌<◌, ◌≡◌, refl, sym, ap, ◌∙◌, List, [], ◌∷◌, take, drop, drop-take,
  arith,
}
use wake_on_lan.Md5.Rounds.{
  Regs, word_mod, at, round_1, round_2, round_3, round_4, le_word, words, process_one,
  process_blocks,
}
use wake_on_lan.Md5.Rfc.{steps_1, steps_2, steps_3, steps_4, rfc_words, compress, absorb}
use wake_on_lan.Md5.Steps.{InRange}
use wake_on_lan.Md5.Block.{round_1_lem, round_2_lem, round_3_lem, round_4_lem}

at-take : (m i : ℕ) (xs : List ℕ) → i < m → at (take m xs) i ≡ at xs i
at-take zero i xs h = absurd (omega arith)
at-take (suc m) i [] h = refl
at-take (suc m) zero (x ∷ xs) h = refl
at-take (suc m) (suc i) (x ∷ xs) h = at-take m i xs (omega arith)

words_lem : (n m : ℕ) (bytes : List ℕ) → m ≡ 4 * n → rfc_words n (take m bytes) ≡ words n bytes
unfolding rfc_words words le_word
words_lem zero m bytes h = refl
words_lem (suc n) m bytes h =
    let more : m ≡ 4 + 4 * n = omega arith in
    let rest = words_lem n (4 * n) (drop 4 bytes) refl in
    let t = λ (i : ℕ) (lt : i < 4). at-take m i bytes (omega arith) in
    ap₂ (λ x xs. x ∷ xs)
      (omega (arith, t 0 (omega arith), t 1 (omega arith), t 2 (omega arith), t 3 (omega arith)))
      (rw (more, drop-take 4 (4 * n) (4 + 4 * n) bytes refl) rest)

-- A block of the loop is what RFC 1321 makes of the block's 64 bytes.
pub process_one_lem :
    (bytes : List ℕ) (r : Regs)
    → InRange r
    → (process_one bytes r ≡ compress (take 64 bytes) r) × InRange (process_one bytes r)
unfolding process_one compress
process_one_lem bytes r h =
    let ws = words 16 bytes in
    let (e1, h1) = round_1_lem ws r h in
    let r1 = round_1 ws r in
    let (e2, h2) = round_2_lem ws r1 h1 in
    let r2 = round_2 ws r1 in
    let (e3, h3) = round_3_lem ws r2 h2 in
    let r3 = round_3 ws r2 in
    let (e4, h4) = round_4_lem ws r3 h3 in
    let all : steps_4 ws (steps_3 ws (steps_2 ws (steps_1 ws r))) ≡ round_4 ws r3 =
      ap (λ x. steps_4 ws (steps_3 ws (steps_2 ws x))) e1
      ∙ (ap (λ x. steps_4 ws (steps_3 ws x)) e2 ∙ (ap (λ x. steps_4 ws x) e3 ∙ e4)) in
    (
      rw (words_lem 16 64 bytes refl) (
          ap
            (λ (s : Regs).
              let x : Regs = record {
                a = (s.a + r.a) % word_mod;
                b = (s.b + r.b) % word_mod;
                c = (s.c + r.c) % word_mod;
                d = (s.d + r.d) % word_mod;
              } in
              x)
            (sym all)),
      record { a = omega arith; b = omega arith; c = omega arith; d = omega arith },
    )

-- So is the loop, over all whole blocks.
pub process_blocks_lem :
    (n : ℕ) (bytes : List ℕ) (r : Regs)
    → InRange r
    → (process_blocks n bytes r ≡ absorb n bytes r) × InRange (process_blocks n bytes r)
unfolding process_blocks absorb
process_blocks_lem zero bytes r h = (refl, h)
process_blocks_lem (suc n) bytes r h =
    let (e, i) = process_one_lem bytes r h in
    let (es, is) = process_blocks_lem n (drop 64 bytes) (process_one bytes r) i in
    (es ∙ ap (absorb n (drop 64 bytes)) e, is)
