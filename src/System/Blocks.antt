-- ===== src/System/Blocks.antt =====
-- The strings on the heap that a pointer of the program holds: which of them a piece of it frees.
use wake_on_lan.Base.{
  ℕ, zero, suc, ◌+◌, ◌-◌, ◌≡◌, ◌∙◌, ap, List, [], ◌∷◌, ◌++◌, append_assoc, arith,
}
use wake_on_lan.System.{
  Origin, heap, Event, freed, xmalloced, xfreed, faulted, stray_write, World, Outcome, M, ◌>>=◌,
  live,
}
use wake_on_lan.System.Rules.{Post, Post-mono, Post-then}

-- What was freed, newest first.
abbrev pub frees : List Event → List Origin
frees [] = []
frees (freed o ∷ h) = o ∷ frees h
frees (e ∷ h) = frees h

-- The blocks of these numbers, from the highest down.
abbrev pub blocks : ℕ → ℕ → List Origin
blocks zero a = []
blocks (suc k) a = heap (k + a) ∷ blocks k a

blocks-append : (j k a : ℕ) → blocks j (k + a) ++ blocks k a ≡ blocks (j + k) a
blocks-append zero k a = let same : 0 + k ≡ k = omega arith in rw same
blocks-append (suc j) k a =
    let same : suc j + k ≡ suc (j + k) = omega arith in
    let place : j + (k + a) ≡ (j + k) + a = omega arith in
    rw (same, place) (ap (◌∷◌ (heap ((j + k) + a))) (blocks-append j k a))

-- How often a store was made behind the end of an array.
abbrev pub strays : List Event → ℕ
strays [] = 0
strays (faulted stray_write ∷ h) = suc (strays h)
strays (e ∷ h) = strays h

-- How many blocks that one function holds were not given back.
abbrev pub outstanding : List Event → ℕ
outstanding [] = 0
outstanding (xmalloced n ∷ h) = suc (outstanding h)
outstanding (xfreed ∷ h) = outstanding h - 1
outstanding (e ∷ h) = outstanding h

-- Nothing was read, no string was made or freed, no block is left, and no descriptor opened or closed.
abbrev pub Quiet : World → World → Type 0
Quiet w w' =
    (w'.stdin ≡ w.stdin)
    × (live w'.history ≡ live w.history)
    × (w'.next ≡ w.next)
    × (frees w'.history ≡ frees w.history)
    × (outstanding w'.history ≡ outstanding w.history)

pub Quiet-trans : (w w' w'' : World) → Quiet w w' → Quiet w' w'' → Quiet w w''
Quiet-trans w w' w'' (i, l, n, f, b) (i', l', n', f', b') = (i' ∙ i, l' ∙ l, n' ∙ n, f' ∙ f, b' ∙ b)

-- The same, and no store was made behind an array.
abbrev pub Calm : World → World → Type 0
Calm w w' =
    (w'.stdin ≡ w.stdin)
    × (live w'.history ≡ live w.history)
    × (w'.next ≡ w.next)
    × (frees w'.history ≡ frees w.history)
    × (strays w'.history ≡ strays w.history)

pub Calm-trans : (w w' w'' : World) → Calm w w' → Calm w' w'' → Calm w w''
Calm-trans w w' w'' (i, l, n, f, t) (i', l', n', f', t') = (i' ∙ i, l' ∙ l, n' ∙ n, f' ∙ f, t' ∙ t)

-- The strings that were given numbers were freed, each of them once, and no others; the same
-- descriptors are open, and no store was made behind an array.
pub record Releases (w w' : World) : Type 0 where
  pub count : ℕ
  pub descriptors : live w'.history ≡ live w.history
  pub allocated : w'.next ≡ count + w.next
  pub released : frees w'.history ≡ blocks count w.next ++ frees w.history
  pub inside : strays w'.history ≡ strays w.history

pub Releases-Calm : (w w' : World) → Calm w w' → Releases w w'
Releases-Calm w w' (i, l, n, f, t) = record {
  count = 0;
  descriptors = l;
  allocated = omega arith;
  released = f;
  inside = t;
}

pub Releases-trans : (w w' w'' : World) → Releases w w' → Releases w' w'' → Releases w w''
Releases-trans w w' w'' r s = record {
  count = s.count + r.count;
  descriptors = s.descriptors ∙ r.descriptors;
  allocated = omega (arith, s.allocated, r.allocated);
  inside = s.inside ∙ r.inside;
  released =
      s.released
      ∙ rw
          (
            r.allocated,
            r.released,
            ← append_assoc (blocks s.count (r.count + w.next)) (blocks r.count w.next)
                (frees w.history),
          )
          (ap (λ l. l ++ frees w.history) (blocks-append s.count r.count w.next));
}

-- A piece that returns, with just such effects.
abbrev pub Quietly : {A : Type 0} → World → Outcome A × World → Type 0
Quietly w r = Post (λ a w'. Quiet w w') r

pub Quietly-bind :
    {A B : Type 0} (m : M A) (f : A → M B) (w : World)
    → Quietly w (m w)
    → ((a : A) (w' : World) → Quietly w' (f a w'))
    → Quietly w ((m >>= f) w)
Quietly-bind m f w h k =
    Post-then _ (Quietly w) m f w h
      λ a w' q. Post-mono _ _ (f a w') (k a w') λ b w'' q'. Quiet-trans w w' w'' q q'
