-- ===== src/Scan/Laws.antt =====
-- How the directives read bytes that are written as one or two hexadecimal digits.
use wake_on_lan.Base.{
  ℕ, ◌+◌, ◌*◌, ◌<◌, ◌≡◌, ◌∙◌, false, ◌||◌, Option, none, some, [], ◌∷◌, ◌++◌, arith, ◌==◌, Text,
  hex_value, is_space, skip_space,
}
use wake_on_lan.Scan.Number.{digits, read_digits, hex_body, store_unsigned, signed, scan_hex}

-- A byte in hexadecimal, with or without a leading zero.
pub data IsByteText : Text → ℕ → Type 0 where
  one : {c d : ℕ} → hex_value c ≡ some d → IsByteText (c ∷ []) d
  two :
      {c d x y : ℕ}
      → hex_value c ≡ some x
      → hex_value d ≡ some y
      → IsByteText (c ∷ d ∷ []) (x * 16 + y)

-- No digit, and no `x`, which would make a leading zero a prefix.
abbrev pub Ends : Text → Type 0
Ends [] = Unit
Ends (c ∷ s) = (hex_value c ≡ none) × ((c == b'x' || c == b'X') ≡ false)

pub IsByteText-lt : {t : Text} {v : ℕ} → IsByteText t v → v < 256
IsByteText-lt (one h) = ground arith
IsByteText-lt (two h k) = ground arith

record IsDigit (c d : ℕ) : Type 0 where
  no_space : is_space c ≡ false
  no_minus : (c == b'-') ≡ false
  no_plus : (c == b'+') ≡ false
  no_x : (c == b'x' || c == b'X') ≡ false
  small : d < 16

hex_value-IsDigit : (c d : ℕ) → hex_value c ≡ some d → IsDigit c d
hex_value-IsDigit c d h = ground arith

-- A number that begins with a digit has no sign.
signed_digit :
    (body : ℕ → Text → Option (ℕ × Text)) (w c d : ℕ) (s : Text)
    → hex_value c ≡ some d
    → signed body w (skip_space (c ∷ s)) ≡ store_unsigned false (body w (c ∷ s))
unfolding signed
signed_digit body w c d s h =
    let k = hex_value-IsDigit c d h in rw (k.no_space, k.no_minus, k.no_plus)

store_unsigned_small :
    (v : ℕ) (s : Text) → v < 256 → store_unsigned false (some (v, s)) ≡ some (v, s)
unfolding store_unsigned
store_unsigned_small v s h = ground arith

-- One digit, and then the end or no digit.
digits_one :
    (c d : ℕ) (rest : Text)
    → hex_value c ≡ some d
    → Ends rest
    → digits hex_value 16 2 (c ∷ rest) ≡ some (d, rest)
unfolding digits read_digits
digits_one c d [] h e = rw (h, digits)
digits_one c d (x ∷ rest) h e = rw (h, digits) (rw (e.0, read_digits))

digits_two :
    (c d x y : ℕ) (rest : Text)
    → hex_value c ≡ some x
    → hex_value d ≡ some y
    → digits hex_value 16 2 (c ∷ d ∷ rest) ≡ some (x * 16 + y, rest)
unfolding digits read_digits
digits_two c d x y rest h k = rw (h, digits) (rw (k, read_digits))

hex_body_one :
    (c d : ℕ) (rest : Text)
    → hex_value c ≡ some d
    → Ends rest
    → hex_body 2 (c ∷ rest) ≡ some (d, rest)
unfolding hex_body
hex_body_one c d [] h e = digits_one c d [] h e
hex_body_one c d (x ∷ rest) h e = ground (arith, digits_one c d (x ∷ rest) h e)

hex_body_two :
    (c d x y : ℕ) (rest : Text)
    → hex_value c ≡ some x
    → hex_value d ≡ some y
    → hex_body 2 (c ∷ d ∷ rest) ≡ some (x * 16 + y, rest)
unfolding hex_body
hex_body_two c d x y rest h k =
    let n = (hex_value-IsDigit d y k).no_x in ground (arith, digits_two c d x y rest h k)

-- Two digits, whatever follows.
pub scan_hex-two :
    {x y : ℕ} (c d : ℕ) (rest : Text)
    → hex_value c ≡ some x
    → hex_value d ≡ some y
    → scan_hex 2 (c ∷ d ∷ rest) ≡ some (x * 16 + y, rest)
unfolding scan_hex
scan_hex-two {x} {y} c d rest h k =
    signed_digit hex_body 2 c x (d ∷ rest) h
    ∙ rw (hex_body_two c d x y rest h k)
        (store_unsigned_small _ rest (IsByteText-lt (two {c = c} {d = d} h k)))

pub scan_hex-IsByteText :
    {t : Text} {v : ℕ} (rest : Text)
    → IsByteText t v
    → Ends rest
    → scan_hex 2 (t ++ rest) ≡ some (v, rest)
unfolding scan_hex
scan_hex-IsByteText rest (one {c} {d} h) e =
    signed_digit hex_body 2 c d rest h
    ∙ rw (hex_body_one c d rest h e) (store_unsigned_small d rest (IsByteText-lt (one {c = c} h)))
scan_hex-IsByteText rest (two {c} {d} {x} {y} h k) e = scan_hex-two c d rest h k
