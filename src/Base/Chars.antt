-- ===== src/Base/Chars.antt =====
-- The C library's classes of characters in the C locale, and runs of characters of one class.
use Prim.Native.Char.{code}
use Prim.Native.Nat.{ℕ, zero, suc, ◌-◌, ◌≤◌}
use Prim.Native.String.{String}
use mathlib.Core.Path.{◌≡◌, refl, ap}
use mathlib.Core.Bool.{Bool, true, false, ◌&&◌, ◌||◌}
use mathlib.Core.List.{List, [], ◌∷◌, ◌++◌}
use mathlib.Core.Option.{Option, none, some}
use native.Mathlib.Omega.{arith}
use mathlib.Core.Logic.{inl, inr}
use wake_on_lan.Base.Tests.{Bool-cases, leb, ◌==◌, if◌then◌else◌}
use wake_on_lan.Base.Lists.{length}

-- The bytes of a literal in the source.
abbrev pub codes : String → List ℕ
codes String.[] = []
codes (String.◌∷◌ c s) = code c ∷ codes s

abbrev pub within : ℕ → ℕ → ℕ → Bool
within lo hi c = leb lo c && leb c hi

-- `isspace`
abbrev pub is_space : ℕ → Bool
is_space c = within 9 13 c || c == 32

-- `isdigit`, as the digit's value
abbrev pub dec_value : ℕ → Option ℕ
dec_value c = if within b'0' b'9' c then some (c - b'0') else none

-- `isxdigit`, as the digit's value
abbrev pub hex_value : ℕ → Option ℕ
hex_value c =
    if within b'0' b'9' c
    then some (c - b'0')
    else if within b'a' b'f' c
    then some (c - 87)
    else if within b'A' b'F' c
    then some (c - 55)
    else none

-- The longest prefix of at most `w` characters that pass a test, and what follows it.
abbrev pub span : (ℕ → Bool) → ℕ → List ℕ → List ℕ
span p zero s = []
span p (suc w) [] = []
span p (suc w) (c ∷ s) = if p c then c ∷ span p w s else []

abbrev pub unspan : (ℕ → Bool) → ℕ → List ℕ → List ℕ
unspan p zero s = s
unspan p (suc w) [] = []
unspan p (suc w) (c ∷ s) = if p c then unspan p w s else c ∷ s

-- What white space in a format matches.
abbrev pub skip_space : List ℕ → List ℕ
skip_space [] = []
skip_space (c ∷ s) = if is_space c then skip_space s else c ∷ s

-- Every character passes a test.
abbrev pub All : (ℕ → Bool) → List ℕ → Type 0
All p [] = Unit
All p (c ∷ s) = (p c ≡ true) × All p s

-- A list begins with no character that passes a test.
abbrev pub Stops : (ℕ → Bool) → List ℕ → Type 0
Stops p [] = Unit
Stops p (c ∷ s) = p c ≡ false

module _ (p : ℕ → Bool) where
  pub span-All : (w : ℕ) (s : List ℕ) → All p (span p w s)
  span-All zero s = tt
  span-All (suc w) [] = tt
  span-All (suc w) (c ∷ s) = ground (arith, span-All w s)

  pub length-span-le : (w : ℕ) (s : List ℕ) → length (span p w s) ≤ w
  length-span-le zero s = omega arith
  length-span-le (suc w) [] = omega arith
  length-span-le (suc w) (c ∷ s) = ground (arith, length-span-le w s)

  -- A run that fits is taken whole, if the text after it is of another class.
  pub span-append :
      (w : ℕ) (s rest : List ℕ) → All p s → Stops p rest → length s ≤ w → span p w (s ++ rest) ≡ s
  span-append zero [] rest a h le = refl
  span-append (suc w) [] [] a h le = refl
  span-append (suc w) [] (c ∷ rest) a h le = rw h
  span-append zero (c ∷ s) rest a h le = absurd (omega arith)
  span-append (suc w) (c ∷ s) rest a h le =
      rw a.0 (ap (◌∷◌ c) (span-append w s rest a.1 h (omega arith)))

  pub unspan-append :
      (w : ℕ) (s rest : List ℕ)
      → All p s
      → Stops p rest
      → length s ≤ w
      → unspan p w (s ++ rest) ≡ rest
  unspan-append zero [] rest a h le = refl
  unspan-append (suc w) [] [] a h le = refl
  unspan-append (suc w) [] (c ∷ rest) a h le = rw h
  unspan-append zero (c ∷ s) rest a h le = absurd (omega arith)
  unspan-append (suc w) (c ∷ s) rest a h le = rw a.0 (unspan-append w s rest a.1 h (omega arith))

  pub span-nil : (w : ℕ) (s : List ℕ) → Stops p s → span p w s ≡ []
  span-nil zero s h = refl
  span-nil (suc w) [] h = refl
  span-nil (suc w) (c ∷ s) h = rw h

pub skip_space-Stops : (s : List ℕ) → Stops is_space (skip_space s)
skip_space-Stops [] = tt
skip_space-Stops (c ∷ s) = ground (arith, skip_space-Stops s)

pub skip_space_same : (s : List ℕ) → Stops is_space s → skip_space s ≡ s
skip_space_same [] h = refl
skip_space_same (c ∷ s) h = rw h

pub skip_space-append :
    (s rest : List ℕ) → All is_space s → Stops is_space rest → skip_space (s ++ rest) ≡ rest
skip_space-append [] rest a h = skip_space_same rest h
skip_space-append (c ∷ s) rest a h = rw a.0 (skip_space-append s rest a.1 h)

-- With room for the whole text, the run ends where the class does.
pub unspan-Stops : (p : ℕ → Bool) (s : List ℕ) → Stops p (unspan p (length s) s)
unspan-Stops p [] = tt
unspan-Stops p (c ∷ s) = elim (Bool-cases (p c)) [
  | inl e ↦ rw e (unspan-Stops p s)
  | inr e ↦ rw e e
]

-- `All` as a test, which runs.
abbrev pub all_pass : (ℕ → Bool) → List ℕ → Bool
all_pass p [] = true
all_pass p (c ∷ s) = p c && all_pass p s

pub all_pass-All : (p : ℕ → Bool) (s : List ℕ) → all_pass p s ≡ true → All p s
all_pass-All p [] h = tt
all_pass-All p (c ∷ s) h = ground (arith, all_pass-All p s)
