-- ===== src/Getopt/Ends.antt =====
-- How much of argv a call of getopt has still to scan, and what holds between two calls.
use mathlib.Core.List.{Perm}
use wake_on_lan.Base.{
  ℕ, zero, suc, ◌+◌, ◌-◌, ◌≤◌, ◌<◌, ◌≡◌, refl, ap, ◌∙◌, true, false, Option, none, some, List, [],
  ◌∷◌, length, get_elem?, drop, arith, Text,
}
use wake_on_lan.Getopt.State.{Data, argc, arg, no_more}
use wake_on_lan.Getopt.Advance.{Next, ends, goes}

-- The characters and the words of a list.
abbrev pub weight : List Text → ℕ
weight [] = 0
weight (s ∷ ss) = suc (length s + weight ss)

-- What is left of the element at hand, and what stands behind it, or what stands from `optind` on.
abbrev pub left : Option Text → ℕ → List Text → ℕ
left none i argv = weight (drop i argv)
left (some []) i argv = weight (drop i argv)
left (some (c ∷ s)) i argv = suc (length s + weight (drop (i + 1) argv))

abbrev pub to_scan : Data → ℕ
to_scan d = left d.nextchar d.optind d.argv

weight-drop-suc : (i : ℕ) (ss : List Text) → weight (drop (suc i) ss) ≤ weight (drop i ss)
weight-drop-suc i [] = omega arith
weight-drop-suc zero (s ∷ ss) = omega arith
weight-drop-suc (suc i) (s ∷ ss) = weight-drop-suc i ss

pub weight-drop_le :
    (k i j : ℕ) (ss : List Text) → j ≡ i + k → weight (drop j ss) ≤ weight (drop i ss)
weight-drop_le zero i j ss e = let same : j ≡ i = omega arith in rw same (omega arith)
weight-drop_le (suc k) i zero ss e = absurd (omega arith)
weight-drop_le (suc k) i (suc j) ss e =
    omega (arith, weight-drop-suc j ss, weight-drop_le k i j ss (omega arith))

-- The element at an index within argv, and those behind it.
pub weight-drop_at :
    (i : ℕ) (d : Data)
    → i < argc d
    → weight (drop i d.argv) ≡ suc (length (arg d i) + weight (drop (i + 1) d.argv))
weight-drop_at i d h = at d.argv i h
  where
    at :
        (ss : List Text) (i : ℕ)
        → i < length ss
        → weight (drop i ss)
          ≡ suc (
              length (elim (get_elem? ss i) as (λ _. Text) [ none ↦ [] | some s ↦ s ])
              + weight (drop (i + 1) ss))
    at [] i h = absurd (omega arith)
    at (s ∷ ss) zero h = refl
    at (s ∷ ss) (suc i) h =
        let next : suc i + 1 ≡ suc (i + 1) = omega arith in rw next (at ss i (omega arith))

pub left_done :
    (o : Option Text) (i : ℕ) (argv : List Text)
    → no_more o ≡ true
    → left o i argv ≡ weight (drop i argv)
left_done none i argv h = refl
left_done (some []) i argv h = refl
left_done (some (c ∷ s)) i argv h = cc

pub left_more :
    (o : Option Text) (i : ℕ) (argv : List Text)
    → no_more o ≡ false
    → weight (drop (i + 1) argv) < left o i argv
left_more none i argv h = cc
left_more (some []) i argv h = cc
left_more (some (c ∷ s)) i argv h = omega arith

-- Where an element is at hand, it stands within argv, and the scan has begun.
abbrev pub AtHand : Data → Type 0
AtHand d = (d.optind < argc d) × (1 ≤ d.optind) × (d.initialized ≡ true)

-- Between two calls. `words` are the elements of argv at first.
pub record Scans (words : List Text) (d : Data) : Type 0 where
  pub ordered : d.first_nonopt ≤ d.last_nonopt
  pub behind : d.last_nonopt ≤ d.optind
  pub within : d.optind ≤ argc d
  pub at_hand : no_more d.nextchar ≡ false → AtHand d
  pub same_words : Perm words d.argv

-- A decoding returns an option, and has scanned something.
abbrev pub Decodes : List Text → ℕ → Next → Type 0
Decodes words before (ends none d) = ⊥
Decodes words before (ends (some c) d) = Scans words d × (to_scan d < before)
Decodes words before (goes d) = ⊥

-- All but what a decoding changes.
abbrev pub SameArgv : Data → Data → Type 0
SameArgv d e =
    (e.argv ≡ d.argv) × (e.first_nonopt ≡ d.first_nonopt) × (e.last_nonopt ≡ d.last_nonopt)

pub Scans-later :
    (words : List Text) (d e : Data)
    → Scans words d
    → SameArgv d e
    → d.optind ≤ e.optind
    → e.optind ≤ argc d
    → (no_more e.nextchar ≡ false → AtHand e)
    → Scans words e
Scans-later words d e s (a, f, l) le fits room = record {
  ordered = omega (arith, f, l, s.ordered);
  behind = omega (arith, l, s.behind);
  within = omega (arith, ap length a);
  at_hand = room;
  same_words = rw a s.same_words;
}

-- The element at hand has been left behind.
pub scanned_element :
    (words : List Text) (before : ℕ) (d e : Data)
    → Scans words d
    → no_more d.nextchar ≡ false
    → to_scan d ≤ before
    → SameArgv d e
    → no_more e.nextchar ≡ true
    → d.optind < e.optind
    → e.optind ≤ argc d
    → Scans words e × (to_scan e < before)
scanned_element words before d e s more h (a, f, l) done lt fits = (
  Scans-later words d e s (a, f, l) (omega arith) fits (λ m. cc),
  let e_left : to_scan e ≡ weight (drop e.optind d.argv) =
        left_done e.nextchar e.optind e.argv done
        ∙ ap (λ (l : List Text). weight (drop e.optind l)) a in
      omega (
        arith,
        e_left,
        left_more d.nextchar d.optind d.argv more,
        weight-drop_le (e.optind - (d.optind + 1)) (d.optind + 1) e.optind d.argv (omega arith),
      ),
)
