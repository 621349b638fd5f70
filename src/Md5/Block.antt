-- ===== src/Md5/Block.antt =====
-- The four rounds of `md5_process_block`: each is a round of RFC 1321.
use wake_on_lan.Base.{ℕ, ◌≡◌, refl, ap, ◌∙◌, List}
use wake_on_lan.Md5.Rounds.{
  Regs, ff, fg, fh, fi, op_a, op_b, op_c, op_d, round_1, round_2, round_3, round_4,
}
use wake_on_lan.Md5.Rfc.{
  Choice, rfc_f, rfc_g, rfc_h, rfc_i, step, steps, steps_1, steps_2, steps_3, steps_4,
}
use wake_on_lan.Md5.Steps.{
  InRange, Agree, Turns, f-agrees, g-agrees, h-agrees, i-agrees, step_a, step_b, step_c, step_d,
}

module _ (f g : Choice) (agree : Agree f g) (s0 s1 s2 s3 : ℕ) where
  abbrev four_steps : ℕ → ℕ → ℕ → ℕ → ℕ → ℕ → ℕ → ℕ → List ℕ → Regs → Regs
  four_steps k0 t0 k1 t1 k2 t2 k3 t3 ws r =
      step g k3 s3 t3 ws (step g k2 s2 t2 ws (step g k1 s1 t1 ws (step g k0 s0 t0 ws r)))

  abbrev four_ops : ℕ → ℕ → ℕ → ℕ → ℕ → ℕ → ℕ → ℕ → List ℕ → Regs → Regs
  four_ops k0 t0 k1 t1 k2 t2 k3 t3 ws r =
      op_b f k3 s3 t3 ws (op_c f k2 s2 t2 ws (op_d f k1 s1 t1 ws (op_a f k0 s0 t0 ws r)))

  -- Behind four statements the registers stand as they do behind four steps.
  four_lem :
      (turns : Turns s0 × Turns s1 × Turns s2 × Turns s3) (k0 t0 k1 t1 k2 t2 k3 t3 : ℕ)
      (ws : List ℕ) (r : Regs)
      → InRange r
      → (four_steps k0 t0 k1 t1 k2 t2 k3 t3 ws r ≡ four_ops k0 t0 k1 t1 k2 t2 k3 t3 ws r)
        × InRange (four_ops k0 t0 k1 t1 k2 t2 k3 t3 ws r)
  four_lem turns k0 t0 k1 t1 k2 t2 k3 t3 ws r h =
      let (e0, h0) = step_a f g agree s0 turns.0 k0 t0 ws r h in
      let r0 = op_a f k0 s0 t0 ws r in
      let (e1, h1) = step_d f g agree s1 turns.1 k1 t1 ws r0 h0 in
      let r1 = op_d f k1 s1 t1 ws r0 in
      let (e2, h2) = step_c f g agree s2 turns.2 k2 t2 ws r1 h1 in
      let r2 = op_c f k2 s2 t2 ws r1 in
      let (e3, h3) = step_b f g agree s3 turns.3 k3 t3 ws r2 h2 in
      (
        ap (λ x. step g k3 s3 t3 ws (step g k2 s2 t2 ws (step g k1 s1 t1 ws x))) e0
            ∙ (ap (λ x. step g k3 s3 t3 ws (step g k2 s2 t2 ws x)) e1
                ∙ (ap (λ x. step g k3 s3 t3 ws x) e2 ∙ e3)),
        h3,
      )

pub round_1_lem :
    (ws : List ℕ) (r : Regs) → InRange r → (steps_1 ws r ≡ round_1 ws r) × InRange (round_1 ws r)
unfolding steps round_1
round_1_lem ws r h =
    let four = four_lem ff rfc_f f-agrees 7 12 17 22 (refl, refl, refl, refl) in
    let run = four_steps ff rfc_f f-agrees 7 12 17 22 in
    let ops = four_ops ff rfc_f f-agrees 7 12 17 22 in
    let (e0, h0) = four 0 0xd76aa478 1 0xe8c7b756 2 0x242070db 3 0xc1bdceee ws r h in
    let r0 = ops 0 0xd76aa478 1 0xe8c7b756 2 0x242070db 3 0xc1bdceee ws r in
    let (e1, h1) = four 4 0xf57c0faf 5 0x4787c62a 6 0xa8304613 7 0xfd469501 ws r0 h0 in
    let r1 = ops 4 0xf57c0faf 5 0x4787c62a 6 0xa8304613 7 0xfd469501 ws r0 in
    let (e2, h2) = four 8 0x698098d8 9 0x8b44f7af 10 0xffff5bb1 11 0x895cd7be ws r1 h1 in
    let r2 = ops 8 0x698098d8 9 0x8b44f7af 10 0xffff5bb1 11 0x895cd7be ws r1 in
    let (e3, h3) = four 12 0x6b901122 13 0xfd987193 14 0xa679438e 15 0x49b40821 ws r2 h2 in
    (
      ap
            (λ x. run 12 0x6b901122 13 0xfd987193 14 0xa679438e 15 0x49b40821 ws (
              run 8 0x698098d8 9 0x8b44f7af 10 0xffff5bb1 11 0x895cd7be ws
                (run 4 0xf57c0faf 5 0x4787c62a 6 0xa8304613 7 0xfd469501 ws x)))
            e0
          ∙ (ap
                (λ x.
                  run 12 0x6b901122 13 0xfd987193 14 0xa679438e 15 0x49b40821 ws
                    (run 8 0x698098d8 9 0x8b44f7af 10 0xffff5bb1 11 0x895cd7be ws x))
                e1
              ∙ (ap (λ x. run 12 0x6b901122 13 0xfd987193 14 0xa679438e 15 0x49b40821 ws x) e2
                  ∙ e3)),
      h3,
    )

pub round_2_lem :
    (ws : List ℕ) (r : Regs) → InRange r → (steps_2 ws r ≡ round_2 ws r) × InRange (round_2 ws r)
unfolding steps round_2
round_2_lem ws r h =
    let four = four_lem fg rfc_g g-agrees 5 9 14 20 (refl, refl, refl, refl) in
    let run = four_steps fg rfc_g g-agrees 5 9 14 20 in
    let ops = four_ops fg rfc_g g-agrees 5 9 14 20 in
    let (e0, h0) = four 1 0xf61e2562 6 0xc040b340 11 0x265e5a51 0 0xe9b6c7aa ws r h in
    let r0 = ops 1 0xf61e2562 6 0xc040b340 11 0x265e5a51 0 0xe9b6c7aa ws r in
    let (e1, h1) = four 5 0xd62f105d 10 0x02441453 15 0xd8a1e681 4 0xe7d3fbc8 ws r0 h0 in
    let r1 = ops 5 0xd62f105d 10 0x02441453 15 0xd8a1e681 4 0xe7d3fbc8 ws r0 in
    let (e2, h2) = four 9 0x21e1cde6 14 0xc33707d6 3 0xf4d50d87 8 0x455a14ed ws r1 h1 in
    let r2 = ops 9 0x21e1cde6 14 0xc33707d6 3 0xf4d50d87 8 0x455a14ed ws r1 in
    let (e3, h3) = four 13 0xa9e3e905 2 0xfcefa3f8 7 0x676f02d9 12 0x8d2a4c8a ws r2 h2 in
    (
      ap
            (λ x. run 13 0xa9e3e905 2 0xfcefa3f8 7 0x676f02d9 12 0x8d2a4c8a ws (
              run 9 0x21e1cde6 14 0xc33707d6 3 0xf4d50d87 8 0x455a14ed ws
                (run 5 0xd62f105d 10 0x02441453 15 0xd8a1e681 4 0xe7d3fbc8 ws x)))
            e0
          ∙ (ap
                (λ x.
                  run 13 0xa9e3e905 2 0xfcefa3f8 7 0x676f02d9 12 0x8d2a4c8a ws
                    (run 9 0x21e1cde6 14 0xc33707d6 3 0xf4d50d87 8 0x455a14ed ws x))
                e1
              ∙ (ap (λ x. run 13 0xa9e3e905 2 0xfcefa3f8 7 0x676f02d9 12 0x8d2a4c8a ws x) e2 ∙ e3)),
      h3,
    )

pub round_3_lem :
    (ws : List ℕ) (r : Regs) → InRange r → (steps_3 ws r ≡ round_3 ws r) × InRange (round_3 ws r)
unfolding steps round_3
round_3_lem ws r h =
    let four = four_lem fh rfc_h h-agrees 4 11 16 23 (refl, refl, refl, refl) in
    let run = four_steps fh rfc_h h-agrees 4 11 16 23 in
    let ops = four_ops fh rfc_h h-agrees 4 11 16 23 in
    let (e0, h0) = four 5 0xfffa3942 8 0x8771f681 11 0x6d9d6122 14 0xfde5380c ws r h in
    let r0 = ops 5 0xfffa3942 8 0x8771f681 11 0x6d9d6122 14 0xfde5380c ws r in
    let (e1, h1) = four 1 0xa4beea44 4 0x4bdecfa9 7 0xf6bb4b60 10 0xbebfbc70 ws r0 h0 in
    let r1 = ops 1 0xa4beea44 4 0x4bdecfa9 7 0xf6bb4b60 10 0xbebfbc70 ws r0 in
    let (e2, h2) = four 13 0x289b7ec6 0 0xeaa127fa 3 0xd4ef3085 6 0x04881d05 ws r1 h1 in
    let r2 = ops 13 0x289b7ec6 0 0xeaa127fa 3 0xd4ef3085 6 0x04881d05 ws r1 in
    let (e3, h3) = four 9 0xd9d4d039 12 0xe6db99e5 15 0x1fa27cf8 2 0xc4ac5665 ws r2 h2 in
    (
      ap
            (λ x. run 9 0xd9d4d039 12 0xe6db99e5 15 0x1fa27cf8 2 0xc4ac5665 ws (
              run 13 0x289b7ec6 0 0xeaa127fa 3 0xd4ef3085 6 0x04881d05 ws
                (run 1 0xa4beea44 4 0x4bdecfa9 7 0xf6bb4b60 10 0xbebfbc70 ws x)))
            e0
          ∙ (ap
                (λ x.
                  run 9 0xd9d4d039 12 0xe6db99e5 15 0x1fa27cf8 2 0xc4ac5665 ws
                    (run 13 0x289b7ec6 0 0xeaa127fa 3 0xd4ef3085 6 0x04881d05 ws x))
                e1
              ∙ (ap (λ x. run 9 0xd9d4d039 12 0xe6db99e5 15 0x1fa27cf8 2 0xc4ac5665 ws x) e2 ∙ e3)),
      h3,
    )

pub round_4_lem :
    (ws : List ℕ) (r : Regs) → InRange r → (steps_4 ws r ≡ round_4 ws r) × InRange (round_4 ws r)
unfolding steps round_4
round_4_lem ws r h =
    let four = four_lem fi rfc_i i-agrees 6 10 15 21 (refl, refl, refl, refl) in
    let run = four_steps fi rfc_i i-agrees 6 10 15 21 in
    let ops = four_ops fi rfc_i i-agrees 6 10 15 21 in
    let (e0, h0) = four 0 0xf4292244 7 0x432aff97 14 0xab9423a7 5 0xfc93a039 ws r h in
    let r0 = ops 0 0xf4292244 7 0x432aff97 14 0xab9423a7 5 0xfc93a039 ws r in
    let (e1, h1) = four 12 0x655b59c3 3 0x8f0ccc92 10 0xffeff47d 1 0x85845dd1 ws r0 h0 in
    let r1 = ops 12 0x655b59c3 3 0x8f0ccc92 10 0xffeff47d 1 0x85845dd1 ws r0 in
    let (e2, h2) = four 8 0x6fa87e4f 15 0xfe2ce6e0 6 0xa3014314 13 0x4e0811a1 ws r1 h1 in
    let r2 = ops 8 0x6fa87e4f 15 0xfe2ce6e0 6 0xa3014314 13 0x4e0811a1 ws r1 in
    let (e3, h3) = four 4 0xf7537e82 11 0xbd3af235 2 0x2ad7d2bb 9 0xeb86d391 ws r2 h2 in
    (
      ap
            (λ x. run 4 0xf7537e82 11 0xbd3af235 2 0x2ad7d2bb 9 0xeb86d391 ws (
              run 8 0x6fa87e4f 15 0xfe2ce6e0 6 0xa3014314 13 0x4e0811a1 ws
                (run 12 0x655b59c3 3 0x8f0ccc92 10 0xffeff47d 1 0x85845dd1 ws x)))
            e0
          ∙ (ap
                (λ x.
                  run 4 0xf7537e82 11 0xbd3af235 2 0x2ad7d2bb 9 0xeb86d391 ws
                    (run 8 0x6fa87e4f 15 0xfe2ce6e0 6 0xa3014314 13 0x4e0811a1 ws x))
                e1
              ∙ (ap (λ x. run 4 0xf7537e82 11 0xbd3af235 2 0x2ad7d2bb 9 0xeb86d391 ws x) e2 ∙ e3)),
      h3,
    )
