-- ===== src/Scan/Number.antt =====
-- `%x` and `%u`: an optional sign, for `%x` an optional `0x`, and digits, all within the width.
use wake_on_lan.Base.{
  ℕ, zero, suc, ◌+◌, ◌-◌, ◌*◌, ◌%◌, ◌^◌, Bool, true, false, ◌&&◌, ◌||◌, Option, none, some, [], ◌∷◌,
  leb, ◌==◌, if◌then◌else◌, length, Text, dec_value, hex_value, skip_space,
}

-- The value of up to `w` further digits after `acc`, and the text behind them.
unfoldable pub read_digits : (ℕ → Option ℕ) → ℕ → ℕ → ℕ → Text → ℕ × Text
read_digits digit base acc zero s = (acc, s)
read_digits digit base acc (suc w) [] = (acc, [])
read_digits digit base acc (suc w) (c ∷ s) = elim (digit c) [
  | none ↦ (acc, c ∷ s)
  | some d ↦ read_digits digit base (acc * base + d) w s
]

-- At least one digit.
unfoldable pub digits : (ℕ → Option ℕ) → ℕ → ℕ → Text → Option (ℕ × Text)
digits digit base zero s = none
digits digit base (suc w) [] = none
digits digit base (suc w) (c ∷ s) = elim (digit c) [
  | none ↦ none
  | some d ↦ some (read_digits digit base d w s)
]

-- `0x` alone is the beginning of a number and no number: the conversion fails.
unfoldable pub hex_body : ℕ → Text → Option (ℕ × Text)
unfolding digits read_digits
hex_body w (z ∷ x ∷ s) =
    if z == b'0' && (x == b'x' || x == b'X') && leb 2 w
    then digits hex_value 16 (w - 2) s
    else digits hex_value 16 w (z ∷ x ∷ s)
hex_body w s = digits hex_value 16 w s

unfoldable pub dec_body : ℕ → Text → Option (ℕ × Text)
unfolding digits read_digits
dec_body w s = digits dec_value 10 w s

-- What `strtoul` returns where unsigned long has 64 bits, stored in an unsigned int of 32 bits.
unfoldable pub to_unsigned : Bool → ℕ → ℕ
to_unsigned negative v =
    if leb (2 ^ 64) v then 2 ^ 32 - 1 else if negative then (2 ^ 64 - v) % 2 ^ 32 else v % 2 ^ 32

unfoldable pub store_unsigned : Bool → Option (ℕ × Text) → Option (ℕ × Text)
unfolding to_unsigned
store_unsigned negative none = none
store_unsigned negative (some (v, s)) = some (to_unsigned negative v, s)

unfoldable pub signed : (ℕ → Text → Option (ℕ × Text)) → ℕ → Text → Option (ℕ × Text)
unfolding store_unsigned
signed body w [] = none
signed body w (c ∷ s) =
    if c == b'-'
    then store_unsigned true (body (w - 1) s)
    else if c == b'+'
    then store_unsigned false (body (w - 1) s)
    else store_unsigned false (body w (c ∷ s))

-- `%<w>x`
unfoldable pub scan_hex : ℕ → Text → Option (ℕ × Text)
unfolding signed hex_body
scan_hex w s = signed hex_body w (skip_space s)

-- `%u`, or `%<w>u`
abbrev width : Option ℕ → Text → ℕ
width none s = length s
width (some w) s = w

unfoldable pub scan_unsigned : Option ℕ → Text → Option (ℕ × Text)
unfolding signed dec_body
scan_unsigned w s = signed dec_body (width w s) (skip_space s)
