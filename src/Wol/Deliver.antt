-- ===== src/Wol/Deliver.antt =====
-- What src/wol.c hands to the network as a whole: the rules by which this is put together.
pub mod Network
pub mod Packets
pub mod Jobs
pub mod Words
pub mod Files
pub mod All
pub mod Whole
pub mod Unopened
use wake_on_lan.Base.{ℕ, ◌≡◌, refl, sym, ◌∙◌, List, [], ◌∷◌, ◌++◌, append_assoc, append-nil}
use wake_on_lan.System.{Address, World, Outcome, live, M, ◌>>=◌}
use wake_on_lan.System.Rules.{Post, Post-mono, Post-then}
use wake_on_lan.Net.Sending.{Trace, Trace-trans}

-- A piece returns a value for which the predicate holds, and leaves the standard input alone.
abbrev pub Sends :
    {A : Type 0} → (A → Type 0) → List (List ℕ × Address) → World → Outcome A × World → Type 0
Sends P ds w r = Post (λ a w'. P a × (w'.stdin ≡ w.stdin) × Trace ds w w') r

pub Sends-bind :
    {A B : Type 0} (P : A → Type 0) (Q : B → Type 0) (ds es : List (List ℕ × Address)) (m : M A)
    (f : A → M B) (w : World)
    → Sends P ds w (m w)
    → ((a : A) (w' : World) → P a → Sends Q es w' (f a w'))
    → Sends Q (es ++ ds) w ((m >>= f) w)
Sends-bind P Q ds es m f w h k = Post-then _ (Sends Q (es ++ ds) w) m f w h λ a w' (p, i, t).
    Post-mono _ _ (f a w') (k a w' p)
      λ b w'' (q, i', t'). (q, i' ∙ i, Trace-trans ds es w w' w'' t t')

-- The first piece hands over nothing.
pub Sends-silent :
    {A B : Type 0} (P : A → Type 0) (Q : B → Type 0) (ds : List (List ℕ × Address)) (m : M A)
    (f : A → M B) (w : World)
    → Sends P [] w (m w)
    → ((a : A) (w' : World) → P a → Sends Q ds w' (f a w'))
    → Sends Q ds w ((m >>= f) w)
Sends-silent P Q ds m f w h k = same (ds ++ []) (append-nil ds) (Sends-bind P Q [] ds m f w h k)
  where
    same :
        (es : List (List ℕ × Address))
        → es ≡ ds
        → Sends Q es w ((m >>= f) w)
        → Sends Q ds w ((m >>= f) w)
    same es e x = rw (← e) x
