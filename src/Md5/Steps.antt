-- ===== src/Md5/Steps.antt =====
-- The macro `OP` of lib/md5.c against a step of RFC 1321: it computes the step, and writes the result
-- in place where the RFC turns the registers.
use Prim.Native.Nat.{bit_or}
use mathlib.Core.Path.{ap₂}
use native.Mathlib.Nat.{div-add-mod, div-lt_iff_lt-mul, mod-lt, one-le-pow}
use wake_on_lan.Base.{ℕ, ◌+◌, ◌-◌, ◌*◌, ◌/◌, ◌%◌, ◌^◌, ◌<◌, ◌≡◌, refl, ap, ◌∙◌, List, arith}
use wake_on_lan.Md5.Rounds.{
  Regs, word_mod, not_word, rol, ff, fg, fh, fi, op, op_a, op_b, op_c, op_d, at,
}
use wake_on_lan.Md5.Rfc.{Choice, rfc_f, rfc_g, rfc_h, rfc_i, rotate, step}
use wake_on_lan.Md5.Bits.{or_fields, choose_eq, and_comm}

pub record InRange (r : Regs) : Type 0 where
  pub a : r.a < word_mod
  pub b : r.b < word_mod
  pub c : r.c < word_mod
  pub d : r.d < word_mod

abbrev pub Agree : Choice → Choice → Type 0
Agree f g = (b c d : ℕ) → b < word_mod → c < word_mod → d < word_mod → f b c d ≡ g b c d

pub f-agrees : Agree ff rfc_f
unfolding ff
f-agrees b c d hb hc hd = choose_eq 32 b c d hb hc hd

pub g-agrees : Agree fg rfc_g
unfolding fg ff
g-agrees b c d hb hc hd =
    choose_eq 32 d b c hd hb hc ∙ ap₂ (λ x y. bit_or x y) (and_comm d b) (and_comm (not_word d) c)

pub h-agrees : Agree fh rfc_h
unfolding fh
h-agrees b c d hb hc hd = refl

pub i-agrees : Agree fi rfc_i
unfolding fi
i-agrees b c d hb hc hd = refl

abbrev pub Turns : ℕ → Type 0
Turns s = 2 ^ (32 - s) * 2 ^ s ≡ word_mod

-- The macro `rol` turns the digits of a word round.
pub rol-rotate : (x s : ℕ) → Turns s → x < word_mod → rol x s ≡ rotate x s
unfolding rol rotate
rol-rotate x s h lt =
    let low = 2 ^ (32 - s) in
    let high = 2 ^ s in
    let q = x / low in
    let r = x % low in
    let whole : low * q + r ≡ x = div-add-mod x low in
    let fits : q < high =
      (div-lt_iff_lt-mul {k = low} {x = x} {y = high} (one-le-pow (32 - s) 2 (omega arith))).1
        (omega (arith, h)) in
    let below : r * high < word_mod = grind (
      arith,
      h,
      one-le-pow s 2 (omega arith),
      mod-lt x {m = low} (one-le-pow (32 - s) 2 (omega arith)),
    ) in
    let cut : x * high % word_mod ≡ r * high =
      omega (arith, below, ap (λ (t : ℕ). t * high) whole, ap (λ (t : ℕ). t * q) h) in
    rw cut (or_fields s r q fits)

op-lt : (f : Choice) (a b c d x s t : ℕ) → op f a b c d x s t < word_mod
unfolding op
op-lt f a b c d x s t = omega arith

module _ (f g : Choice) (agree : Agree f g) (s : ℕ) (turns : Turns s) where
  op_lem :
      (a b c d x t : ℕ)
      → b < word_mod
      → c < word_mod
      → d < word_mod
      → (b + rotate ((a + g b c d + x + t) % word_mod) s) % word_mod ≡ op f a b c d x s t
  unfolding op
  op_lem a b c d x t hb hc hd =
      let sum : (a + g b c d + x + t) % word_mod ≡ (a + (f b c d + x + t)) % word_mod =
        omega (arith, agree b c d hb hc hd) in
      let turned = rol-rotate ((a + (f b c d + x + t)) % word_mod) s turns (omega arith) in
      rw (sum, ← turned) (omega arith)

  pub step_a :
      (k t : ℕ) (ws : List ℕ) (r : Regs)
      → InRange r
      → (step g k s t ws (record { a = r.a; b = r.b; c = r.c; d = r.d })
          ≡ (let o = op_a f k s t ws r in record { a = o.d; b = o.a; c = o.b; d = o.c }))
        × InRange (op_a f k s t ws r)
  unfolding step op_a
  step_a k t ws r h = (
    ap (λ (v : ℕ). let x : Regs = record { a = r.d; b = v; c = r.b; d = r.c } in x)
        (op_lem r.a r.b r.c r.d (at ws k) t h.b h.c h.d),
    record { a = op-lt f r.a r.b r.c r.d (at ws k) s t; b = h.b; c = h.c; d = h.d },
  )

  pub step_d :
      (k t : ℕ) (ws : List ℕ) (r : Regs)
      → InRange r
      → (step g k s t ws (record { a = r.d; b = r.a; c = r.b; d = r.c })
          ≡ (let o = op_d f k s t ws r in record { a = o.c; b = o.d; c = o.a; d = o.b }))
        × InRange (op_d f k s t ws r)
  unfolding step op_d
  step_d k t ws r h = (
    ap (λ (v : ℕ). let x : Regs = record { a = r.c; b = v; c = r.a; d = r.b } in x)
        (op_lem r.d r.a r.b r.c (at ws k) t h.a h.b h.c),
    record { a = h.a; b = h.b; c = h.c; d = op-lt f r.d r.a r.b r.c (at ws k) s t },
  )

  pub step_c :
      (k t : ℕ) (ws : List ℕ) (r : Regs)
      → InRange r
      → (step g k s t ws (record { a = r.c; b = r.d; c = r.a; d = r.b })
          ≡ (let o = op_c f k s t ws r in record { a = o.b; b = o.c; c = o.d; d = o.a }))
        × InRange (op_c f k s t ws r)
  unfolding step op_c
  step_c k t ws r h = (
    ap (λ (v : ℕ). let x : Regs = record { a = r.b; b = v; c = r.d; d = r.a } in x)
        (op_lem r.c r.d r.a r.b (at ws k) t h.d h.a h.b),
    record { a = h.a; b = h.b; c = op-lt f r.c r.d r.a r.b (at ws k) s t; d = h.d },
  )

  pub step_b :
      (k t : ℕ) (ws : List ℕ) (r : Regs)
      → InRange r
      → (step g k s t ws (record { a = r.b; b = r.c; c = r.d; d = r.a })
          ≡ (let o = op_b f k s t ws r in record { a = o.a; b = o.b; c = o.c; d = o.d }))
        × InRange (op_b f k s t ws r)
  unfolding step op_b
  step_b k t ws r h = (
    ap (λ (v : ℕ). let x : Regs = record { a = r.a; b = v; c = r.c; d = r.d } in x)
        (op_lem r.b r.c r.d r.a (at ws k) t h.c h.d h.a),
    record { a = h.a; b = op-lt f r.b r.c r.d r.a (at ws k) s t; c = h.c; d = h.d },
  )
