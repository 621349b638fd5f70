-- ===== src/System/Rules.antt =====
-- What holds when a piece of the program returns, and the rules by which pieces are put together.
use wake_on_lan.System.{World, Outcome, returns, exits, crashes, unfinished, M, ◌>>=◌, continue}

-- The piece returns, with a value and a world of which the predicate holds.
abbrev pub Post : {A : Type 0} → (A → World → Type 0) → Outcome A × World → Type 0
Post P (returns a, w) = P a w
Post P (o, w) = ⊥

pub Post-mono :
    {A : Type 0} (P Q : A → World → Type 0) (r : Outcome A × World)
    → Post P r
    → ((a : A) (w : World) → P a w → Q a w)
    → Post Q r
Post-mono P Q (returns a, w) h k = k a w h
Post-mono P Q (exits n, w) h k = h
Post-mono P Q (crashes, w) h k = h
Post-mono P Q (unfinished, w) h k = h

-- A predicate on the result of a whole that what follows a piece brings about.
pub Post-then :
    {A B : Type 0} (P : A → World → Type 0) (Q : Outcome B × World → Type 0) (m : M A) (f : A → M B)
    (w : World)
    → Post P (m w)
    → ((a : A) (w' : World) → P a w' → Q (f a w'))
    → Q ((m >>= f) w)
Post-then P Q m f w h k = go (m w) h
  where
    go : (r : Outcome _ × World) → Post P r → Q (continue r.0 r.1 f)
    go (returns a, w') p = k a w' p
    go (exits n, w') x = absurd x
    go (crashes, w') x = absurd x
    go (unfinished, w') x = absurd x
