-- ===== src/Getopt/Long.antt =====
-- The tables of long options of lib/getopt.h, and the search in one of lib/getopt.c.
use wake_on_lan.Base.{
  ℕ, ◌+◌, Bool, true, false, not, ◌&&◌, ◌||◌, Option, none, some, List, [], ◌∷◌, length, ◌==◌,
  if◌then◌else◌, Text,
}

-- `struct option`; a `flag` that is not NULL is the name of a variable.
pub record LongOption : Type 0 where
  pub name : Text
  pub has_arg : ℕ
  pub flag : Option ℕ
  pub val : ℕ

-- The text up to an equality sign, and from there on.
unfoldable pub name_of : Text → Text
name_of [] = []
name_of (c ∷ s) = if c == b'=' then [] else c ∷ name_of s

unfoldable pub after_name : Text → Text
after_name [] = []
after_name (c ∷ s) = if c == b'=' then c ∷ s else after_name s

-- `!strncmp (name, key, strlen (key))`
unfoldable pub begins : Text → Text → Bool
begins [] name = true
begins (c ∷ key) [] = false
begins (c ∷ key) (d ∷ name) = c == d && begins key name

-- `pfound` with `indfound`, `exact` and `ambig`
pub record Found : Type 0 where
  pub pfound : Option LongOption
  pub indfound : ℕ
  pub exact : Bool
  pub ambig : Bool

abbrev pub nothing_found : Found
nothing_found = record { pfound = none; indfound = 0; exact = false; ambig = false }

abbrev same_flag : Option ℕ → Option ℕ → Bool
same_flag none none = true
same_flag none (some b) = false
same_flag (some a) none = false
same_flag (some a) (some b) = a == b

unfoldable pub differs : LongOption → LongOption → Bool
differs q p =
    not (q.has_arg == p.has_arg) || (not (same_flag q.flag p.flag) || not (q.val == p.val))

-- An option whose name is longer than the text. `strict` is `long_only`, or the search for `-W`.
unfoldable pub inexact : Bool → LongOption → ℕ → Found → Found
inexact strict p i f = elim f.pfound [
  | none ↦ record f { pfound = some p; indfound = i }
  | some q ↦ if strict || differs q p then record f { ambig = true } else f
]

-- `for (p = longopts, option_index = 0; p->name; p++, option_index++)`
unfoldable pub find_long : Bool → Text → List LongOption → ℕ → Found → Found
find_long strict key [] i f = f
find_long strict key (p ∷ ps) i f =
    let skipped = find_long strict key ps (i + 1) f in
    let noted = find_long strict key ps (i + 1) (inexact strict p i f) in
    if begins key p.name
    then if length key == length p.name
      then record f { pfound = some p; indfound = i; exact = true }
      else noted
    else skipped
