-- ===== src/Md5/Bits.antt =====
-- Laws of `&`, `|` and `^` on words, from the recursion on binary digits that the native operations
-- mean.
use Prim.Native.Nat.{
  min, max, digits, bitwise, differ, bit_and, bit_or, bit_xor, bit_and-bitwise, bit_or-bitwise,
  bit_xor-bitwise,
}
use native.Mathlib.Nat.{pow-suc}
use wake_on_lan.Base.{
  ℕ, zero, suc, ◌+◌, ◌-◌, ◌*◌, ◌/◌, ◌%◌, ◌^◌, ◌≤◌, ◌<◌, ◌≡◌, refl, sym, ap, ◌∙◌, arith,
}

-- A native operation on bits is `digits` of a rule for 0 and a rule for one digit. More fuel than the
-- first number has digits changes nothing.
module _ (at_zero : ℕ → ℕ) (digit : ℕ → ℕ → ℕ) where
  once_more :
      (fuel x y : ℕ)
      → x ≤ fuel
      → digits at_zero digit (suc fuel) x y ≡ digits at_zero digit fuel x y
  once_more zero zero y le = refl
  once_more (suc fuel) zero y le = refl
  once_more zero (suc x) y le = absurd (omega arith)
  once_more (suc fuel) (suc x) y le =
      ap (λ (t : ℕ). t * 2 + digit (suc x % 2) (y % 2))
        (once_more fuel (suc x / 2) (y / 2) (omega arith))

  often_more :
      (more fuel full x y : ℕ)
      → full ≡ fuel + more
      → x ≤ fuel
      → digits at_zero digit full x y ≡ digits at_zero digit fuel x y
  often_more zero fuel full x y sum le = let same : full ≡ fuel = omega arith in rw same
  often_more (suc more) fuel zero x y sum le = absurd (omega arith)
  often_more (suc more) fuel (suc full) x y sum le =
      once_more full x y (omega arith) ∙ often_more more fuel full x y (omega arith) le

  -- The equation for the lowest digit, if the rule for 0 meets it.
  lowest_digit :
      ((y : ℕ) → at_zero y ≡ at_zero (y / 2) * 2 + digit 0 (y % 2))
      → (x y : ℕ)
      → bitwise at_zero digit x y
        ≡ bitwise at_zero digit (x / 2) (y / 2) * 2 + digit (x % 2) (y % 2)
  lowest_digit start zero y = start y
  lowest_digit start (suc x) y =
      ap (λ (t : ℕ). t * 2 + digit (suc x % 2) (y % 2))
        (often_more (x - suc x / 2) (suc x / 2) x (suc x / 2) (y / 2) (omega arith) (omega arith))

module _ (f : ℕ → ℕ → ℕ) (at_zero : ℕ → ℕ) (digit : ℕ → ℕ → ℕ)
    (means : (x y : ℕ) → f x y ≡ bitwise at_zero digit x y)
    (start : (y : ℕ) → at_zero y ≡ at_zero (y / 2) * 2 + digit 0 (y % 2)) where
  step_of : (x y : ℕ) → f x y ≡ f (x / 2) (y / 2) * 2 + digit (x % 2) (y % 2)
  step_of x y =
      means x y
      ∙ (lowest_digit at_zero digit start x y
          ∙ ap (λ (t : ℕ). t * 2 + digit (x % 2) (y % 2)) (sym (means (x / 2) (y / 2))))

differ_below : (x y : ℕ) → x < 2 → y < 2 → differ x y ≡ (x + y) % 2
differ_below zero y h k = omega arith
differ_below (suc x) zero h k = omega arith
differ_below (suc x) (suc y) h k = omega (arith, differ_below x y (omega arith) (omega arith))

pub or_step : (a b : ℕ) → bit_or a b ≡ bit_or (a / 2) (b / 2) * 2 + max (a % 2) (b % 2)
or_step = step_of bit_or (λ y. y) max bit_or-bitwise (λ y. omega arith)

pub and_step : (a b : ℕ) → bit_and a b ≡ bit_and (a / 2) (b / 2) * 2 + min (a % 2) (b % 2)
and_step = step_of bit_and (λ y. 0) min bit_and-bitwise (λ y. omega arith)

pub xor_step : (a b : ℕ) → bit_xor a b ≡ bit_xor (a / 2) (b / 2) * 2 + (a + b) % 2
xor_step a b = omega (
  arith,
  step_of bit_xor (λ y. y) differ bit_xor-bitwise (λ y. omega arith) a b,
  differ_below (a % 2) (b % 2) (omega arith) (omega arith),
)

or-zero : (n a : ℕ) → a ≤ n → bit_or a 0 ≡ a
or-zero n zero h = refl
or-zero zero (suc a) h = absurd (omega arith)
or-zero (suc n) (suc a) h = omega (arith, or_step (suc a) 0, or-zero n (suc a / 2) (omega arith))

-- `|` of disjoint fields is a sum.
pub or_fields : (k q r : ℕ) → r < 2 ^ k → bit_or (q * 2 ^ k) r ≡ q * 2 ^ k + r
or_fields zero q r h = ground (arith, or-zero q q (omega arith))
or_fields (suc k) q r h = ground (
  arith,
  or_step (q * 2 ^ suc k) r,
  ap (λ (t : ℕ). q * t) (pow-suc 2 k),
  pow-suc 2 k,
  or_fields k q (r / 2),
)

-- The lowest digits of both shapes of the choice, and the halves.
xor-half : (a b : ℕ) → bit_xor a b / 2 ≡ bit_xor (a / 2) (b / 2)
xor-half a b = omega (arith, xor_step a b)

and-half : (a b : ℕ) → bit_and a b / 2 ≡ bit_and (a / 2) (b / 2)
and-half a b = omega (arith, and_step a b)

choose_left :
    (b c d : ℕ)
    → bit_xor d (bit_and b (bit_xor c d))
      ≡ bit_xor (d / 2) (bit_and (b / 2) (bit_xor (c / 2) (d / 2))) * 2
        + (d % 2 + min (b % 2) ((c % 2 + d % 2) % 2)) % 2
choose_left b c d =
    rw (xor_step d _, and-half b _, xor-half c d)
      (omega (arith, and_step b (bit_xor c d), xor_step c d))

choose_right :
    (b c d n : ℕ)
    → bit_or (bit_and b c) (bit_and n d)
      ≡ bit_or (bit_and (b / 2) (c / 2)) (bit_and (n / 2) (d / 2)) * 2
        + max (min (b % 2) (c % 2)) (min (n % 2) (d % 2))
choose_right b c d n =
    rw (or_step (bit_and b c) _, and-half b c, and-half n d)
      (omega (arith, and_step b c, and_step n d))

-- The choice by `b` between `c` and `d`, in the shape of the source and in that of RFC 1321, on words
-- of any width.
pub choose_eq :
    (w b c d : ℕ)
    → b < 2 ^ w
    → c < 2 ^ w
    → d < 2 ^ w
    → bit_xor d (bit_and b (bit_xor c d)) ≡ bit_or (bit_and b c) (bit_and (2 ^ w - 1 - b) d)
choose_eq zero b c d hb hc hd =
    let b0 : b ≡ 0 = omega arith in
    let c0 : c ≡ 0 = omega arith in let d0 : d ≡ 0 = omega arith in rw (b0, c0, d0)
choose_eq (suc w) b c d hb hc hd =
    let n = 2 ^ suc w - 1 - b in
    let pow : 2 ^ suc w ≡ 2 ^ w * 2 = pow-suc 2 w in
    let half : n / 2 ≡ 2 ^ w - 1 - b / 2 = omega (arith, pow) in
    let ih = choose_eq w (b / 2) (c / 2) (d / 2) (omega arith) (omega arith) (omega arith) in
    let same : bit_and (n / 2) (d / 2) ≡ bit_and (2 ^ w - 1 - b / 2) (d / 2) =
      ap (λ (t : ℕ). bit_and t (d / 2)) half in
    let joined = ap (λ (t : ℕ). bit_or (bit_and (b / 2) (c / 2)) t) same in
    omega (arith, pow, ih, joined, choose_left b c d, choose_right b c d n)

and_comm_below : (n a b : ℕ) → a ≤ n → b ≤ n → bit_and a b ≡ bit_and b a
and_comm_below zero a b h k =
    let a0 : a ≡ 0 = omega arith in let b0 : b ≡ 0 = omega arith in rw (a0, b0)
and_comm_below (suc n) a b h k = omega (
  arith,
  and_step a b,
  and_step b a,
  and_comm_below n (a / 2) (b / 2) (omega arith) (omega arith),
)

pub and_comm : (a b : ℕ) → bit_and a b ≡ bit_and b a
and_comm a b = and_comm_below (a + b) a b (omega arith) (omega arith)
