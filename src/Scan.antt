-- ===== src/Scan.antt =====
-- The C library's `sscanf`, for the directives of the formats in src/magic.c, src/macfile.c,
-- src/wol.c and src/proxy.c. It is the standard library's, so no line of the repository is mapped
-- to it. A run returns the values that it stores, in order, and the length of that list is the
-- call's count of conversions (the program compares the count with positive numbers only, so that
-- EOF, which is negative, and zero need not be told apart).
pub mod Number
pub mod Laws
pub mod Runs
pub mod Decimal
use wake_on_lan.Base.{
  ℕ, Bool, true, false, not, Option, none, some, List, [], ◌∷◌, length, ◌==◌, if◌then◌else◌, Text,
  is_space, skip_space, span, unspan,
}
use wake_on_lan.Scan.Number.{scan_hex, scan_unsigned}

-- A space in a format, an ordinary character, `%<w>x`, `%u` or `%<w>u`, `%[…]` or `%<w>[…]`
-- (the set as its test), and `%*s`.
pub data Directive : Type 0 where
  white : Directive
  lit : ℕ → Directive
  hex : ℕ → Directive
  unsigned : Option ℕ → Directive
  chars : Option ℕ → (ℕ → Bool) → Directive
  skip_word : Directive

-- What a conversion stores: an unsigned int, or a string.
pub data Value : Type 0 where
  num : ℕ → Value
  text : Text → Value

unfoldable pub expect : ℕ → Text → Option Text
expect c [] = none
expect c (x ∷ s) = if x == c then some s else none

abbrev pub nonempty : Text → Text → Option (Text × Text)
nonempty [] rest = none
nonempty (c ∷ s) rest = some (c ∷ s, rest)

-- Characters of a set, at least one. No white space is skipped.
unfoldable pub scan_set : Option ℕ → (ℕ → Bool) → Text → Option (Text × Text)
scan_set none p s = nonempty (span p (length s) s) (unspan p (length s) s)
scan_set (some w) p s = nonempty (span p w s) (unspan p w s)

-- `%*s` skips white space, and then a word of at least one character.
unfoldable pub scan_word : Text → Option (Text × Text)
unfolding scan_set
scan_word s = scan_set none (λ c. not (is_space c)) (skip_space s)

unfoldable pub sscanf : List Directive → Text → List Value
sscanf [] s = []
sscanf (white ∷ ds) s = sscanf ds (skip_space s)
sscanf (lit c ∷ ds) s = elim (expect c s) [ none ↦ [] | some r ↦ sscanf ds r ]
sscanf (hex w ∷ ds) s = elim (scan_hex w s) [ none ↦ [] | some (v, r) ↦ num v ∷ sscanf ds r ]
sscanf (unsigned w ∷ ds) s = elim (scan_unsigned w s) [
  | none ↦ []
  | some (v, r) ↦ num v ∷ sscanf ds r
]
sscanf (chars w p ∷ ds) s = elim (scan_set w p s) [ none ↦ [] | some (t, r) ↦ text t ∷ sscanf ds r ]
sscanf (skip_word ∷ ds) s = elim (scan_word s) [ none ↦ [] | some (t, r) ↦ sscanf ds r ]
