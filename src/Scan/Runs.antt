-- ===== src/Scan/Runs.antt =====
-- How the directives for white space, single characters and sets of characters read a text.
use wake_on_lan.Base.{
  ℕ, ◌≤◌, ◌≡◌, ◌≢◌, refl, Bool, Option, none, some, List, [], ◌∷◌, ◌++◌, length, arith, ◌==◌, Text,
  All, Stops, is_space, skip_space-append, skip_space_same, span-All, length-span-le, span-append,
  unspan-append, span-nil, unspan-Stops, length-append,
}
use wake_on_lan.Scan.{Directive, white, lit, chars, text, expect, nonempty, scan_set, sscanf}

-- The width of a set directive allows a run of this length.
abbrev pub Allows : Option ℕ → Text → Type 0
Allows none t = Unit
Allows (some w) t = length t ≤ w

-- What a set directive stores: at least one character of the set, and no more than the width.
pub record IsRun (w : Option ℕ) (p : ℕ → Bool) (t : Text) : Type 0 where
  pub all : All p t
  pub ne_nil : t ≢ []
  pub allowed : Allows w t

nonempty-eq :
    (t r : Text) {t' r' : Text} → nonempty t r ≡ some (t', r') → (t' ≡ t) × (r' ≡ r) × (t ≢ [])
nonempty-eq [] r h = cc
nonempty-eq (c ∷ t) r h = ground arith

pub scan_set-IsRun :
    (w : Option ℕ) (p : ℕ → Bool) (s : Text) {t r : Text}
    → scan_set w p s ≡ some (t, r)
    → IsRun w p t
unfolding scan_set
scan_set-IsRun none p s h =
    let (e, f, ne) = nonempty-eq _ _ h in
    record { all = rw e (span-All p (length s) s); ne_nil = rw e ne; allowed = tt }
scan_set-IsRun (some w) p s h =
    let (e, f, ne) = nonempty-eq _ _ h in
    record { all = rw e (span-All p w s); ne_nil = rw e ne; allowed = rw e (length-span-le p w s) }

pub scan_set-Stops :
    (p : ℕ → Bool) (s : Text) {t r : Text} → scan_set none p s ≡ some (t, r) → Stops p r
unfolding scan_set
scan_set-Stops p s h = let (e, f, ne) = nonempty-eq _ _ h in rw f (unspan-Stops p s)

nonempty_run : (t r : Text) → t ≢ [] → nonempty t r ≡ some (t, r)
nonempty_run [] r h = absurd (h refl)
nonempty_run (c ∷ t) r h = refl

-- A run of the set is read whole, if a text of another class follows.
pub scan_set-append :
    (w : Option ℕ) (p : ℕ → Bool) (t rest : Text)
    → IsRun w p t
    → Stops p rest
    → scan_set w p (t ++ rest) ≡ some (t, rest)
unfolding scan_set
scan_set-append none p t rest h stops =
    let fits : length t ≤ length (t ++ rest) = omega (arith, length-append t rest) in
    rw
      (
        span-append p (length (t ++ rest)) t rest h.all stops fits,
        unspan-append p (length (t ++ rest)) t rest h.all stops fits,
      )
      (nonempty_run t rest h.ne_nil)
scan_set-append (some w) p t rest h stops =
    rw
      (span-append p w t rest h.all stops h.allowed, unspan-append p w t rest h.all stops h.allowed)
      (nonempty_run t rest h.ne_nil)

-- At a text that begins outside the set, the conversion fails.
pub scan_set-none : (w : Option ℕ) (p : ℕ → Bool) (s : Text) → Stops p s → scan_set w p s ≡ none
unfolding scan_set
scan_set-none none p s h = rw (span-nil p (length s) s h)
scan_set-none (some w) p s h = rw (span-nil p w s h)

pub sscanf-nil : (s : Text) → sscanf [] s ≡ []
unfolding sscanf
sscanf-nil s = refl

module _ (ds : List Directive) where
  pub sscanf-white :
      (sp s : Text)
      → All is_space sp
      → Stops is_space s
      → sscanf (white ∷ ds) (sp ++ s) ≡ sscanf ds s
  unfolding sscanf
  sscanf-white sp s a h = rw (skip_space-append sp s a h)

  pub sscanf-white_none : (s : Text) → Stops is_space s → sscanf (white ∷ ds) s ≡ sscanf ds s
  unfolding sscanf
  sscanf-white_none s h = rw (skip_space_same s h)

  pub sscanf-lit : (c : ℕ) (s : Text) → sscanf (lit c ∷ ds) (c ∷ s) ≡ sscanf ds s
  unfolding sscanf expect
  sscanf-lit c s = ground arith

  pub sscanf-lit_other : (c : ℕ) (s : Text) → Stops (λ x. x == c) s → sscanf (lit c ∷ ds) s ≡ []
  unfolding sscanf expect
  sscanf-lit_other c [] h = refl
  sscanf-lit_other c (x ∷ s) h = ground arith

  pub sscanf-chars :
      (w : Option ℕ) (p : ℕ → Bool) (t rest : Text)
      → IsRun w p t
      → Stops p rest
      → sscanf (chars w p ∷ ds) (t ++ rest) ≡ text t ∷ sscanf ds rest
  unfolding sscanf
  sscanf-chars w p t rest h stops = rw (scan_set-append w p t rest h stops, sscanf)

  pub sscanf-chars_none :
      (w : Option ℕ) (p : ℕ → Bool) (s : Text) → Stops p s → sscanf (chars w p ∷ ds) s ≡ []
  unfolding sscanf
  sscanf-chars_none w p s h = rw (scan_set-none w p s h, sscanf)
