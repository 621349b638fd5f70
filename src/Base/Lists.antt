-- ===== src/Base/Lists.antt =====
-- Lists measured and indexed by native numbers, and memory blocks that a store may miss.
use Prim.Native.Nat.{ℕ, zero, suc, ◌+◌, ◌-◌, ◌*◌, ◌≤◌}
use mathlib.Core.Path.{◌≡◌, refl, sym, ap, ◌∙◌}
use mathlib.Core.List.{List, [], ◌∷◌, ◌++◌, map, append_assoc}
use mathlib.Core.Option.{Option, none, some}
use mathlib.Core.Option
use native.Mathlib.Omega.{arith}

module _ {ℓ} {A : Type ℓ} where
  abbrev pub length : List A → ℕ
  length [] = 0
  length (x ∷ xs) = suc (length xs)

  abbrev pub get_elem? : List A → ℕ → Option A
  get_elem? [] i = none
  get_elem? (x ∷ xs) zero = some x
  get_elem? (x ∷ xs) (suc i) = get_elem? xs i

  abbrev pub take : ℕ → List A → List A
  take zero xs = []
  take (suc n) [] = []
  take (suc n) (x ∷ xs) = x ∷ take n xs

  abbrev pub drop : ℕ → List A → List A
  drop zero xs = xs
  drop (suc n) [] = []
  drop (suc n) (x ∷ xs) = drop n xs

  abbrev pub replicate : ℕ → A → List A
  replicate zero a = []
  replicate (suc n) a = a ∷ replicate n a

  -- `n` copies of a list, one after another.
  abbrev pub repeated : ℕ → List A → List A
  repeated zero xs = []
  repeated (suc n) xs = xs ++ repeated n xs

  -- A store at an index of a block; `none` means that it lies outside the block.
  abbrev pub store : List A → ℕ → A → Option (List A)
  store [] i v = none
  store (x ∷ xs) zero v = some (v ∷ xs)
  store (x ∷ xs) (suc i) v = Option.map (◌∷◌ x) (store xs i v)

  -- Stores a sequence at consecutive indices, as a counted loop does.
  pub copy_to : List A → ℕ → List A → Option (List A)
  copy_to xs i [] = some xs
  copy_to xs i (v ∷ vs) = elim (store xs i v) [ none ↦ none | some ys ↦ copy_to ys (i + 1) vs ]

module _ {ℓ} {A : Type ℓ} where
  pub length-append : (xs ys : List A) → length (xs ++ ys) ≡ length xs + length ys
  length-append [] ys = omega arith
  length-append (x ∷ xs) ys = omega (arith, length-append xs ys)

  pub length-replicate : (n : ℕ) (a : A) → length (replicate n a) ≡ n
  length-replicate zero a = refl
  length-replicate (suc n) a = ap suc (length-replicate n a)

  pub length-repeated : (n : ℕ) (xs : List A) → length (repeated n xs) ≡ n * length xs
  length-repeated zero xs = omega arith
  length-repeated (suc n) xs = omega (arith, length-append xs (repeated n xs), length-repeated n xs)

  pub length-map {κ} : {B : Type κ} (f : A → B) (xs : List A) → length (map f xs) ≡ length xs
  length-map f [] = refl
  length-map f (x ∷ xs) = ap suc (length-map f xs)

  pub length-drop : (n : ℕ) (xs : List A) → length (drop n xs) ≡ length xs - n
  length-drop zero xs = omega arith
  length-drop (suc n) [] = omega arith
  length-drop (suc n) (x ∷ xs) = omega (arith, length-drop n xs)

  drop-nil : (n : ℕ) → drop {A = A} n [] ≡ []
  drop-nil zero = refl
  drop-nil (suc n) = refl

  pub drop-drop : (n m k : ℕ) (xs : List A) → m + n ≡ k → drop n (drop m xs) ≡ drop k xs
  drop-drop n zero k xs e = let same : n ≡ k = omega arith in rw same
  drop-drop n (suc m) zero xs e = absurd (omega arith)
  drop-drop n (suc m) (suc k) [] e = drop-nil n
  drop-drop n (suc m) (suc k) (x ∷ xs) e = drop-drop n m k xs (omega arith)

  pub drop-append : (xs ys : List A) → drop (length xs) (xs ++ ys) ≡ ys
  drop-append [] ys = refl
  drop-append (x ∷ xs) ys = drop-append xs ys

  pub drop_all : (n : ℕ) (xs : List A) → length xs ≤ n → drop n xs ≡ []
  drop_all zero [] h = refl
  drop_all (suc n) [] h = refl
  drop_all zero (x ∷ xs) h = absurd (omega arith)
  drop_all (suc n) (x ∷ xs) h = drop_all n xs (omega arith)

  pub store-append :
      (xs ys : List A) (y v : A) → store (xs ++ (y ∷ ys)) (length xs) v ≡ some (xs ++ (v ∷ ys))
  store-append [] ys y v = refl
  store-append (x ∷ xs) ys y v = rw (store-append xs ys y v)

  -- Stores inside the block all succeed, and replace just the part that they reach.
  pub copy_to-append :
      (xs ys vs : List A) (i : ℕ)
      → i ≡ length xs
      → length vs ≤ length ys
      → copy_to (xs ++ ys) i vs ≡ some (xs ++ (vs ++ drop (length vs) ys))
  unfolding copy_to
  copy_to-append xs ys [] i e h = refl
  copy_to-append xs [] (v ∷ vs) i e h = absurd (omega arith)
  copy_to-append xs (y ∷ ys) (v ∷ vs) i e h =
      rw (e, copy_to, store-append xs ys y v, ← append_assoc xs (v ∷ []) ys)
        (copy_to-append (xs ++ (v ∷ [])) ys vs (i + 1) (omega (arith, length-append xs (v ∷ [])))
            (omega arith)
          ∙ ap some (append_assoc xs (v ∷ []) (vs ++ drop (length vs) ys)))

  pub store_outside : (xs : List A) (i : ℕ) (v : A) → length xs ≤ i → store xs i v ≡ none
  store_outside [] i v h = refl
  store_outside (x ∷ xs) zero v h = absurd (omega arith)
  store_outside (x ∷ xs) (suc i) v h = rw (store_outside xs i v (omega arith))

  pub take-nil : (n : ℕ) → take {A = A} n [] ≡ []
  take-nil zero = refl
  take-nil (suc n) = refl

  pub take-drop : (n : ℕ) (xs : List A) → take n xs ++ drop n xs ≡ xs
  take-drop zero xs = refl
  take-drop (suc n) [] = refl
  take-drop (suc n) (x ∷ xs) = ap (◌∷◌ x) (take-drop n xs)

  pub length-take : (n : ℕ) (xs : List A) → n ≤ length xs → length (take n xs) ≡ n
  length-take zero xs h = refl
  length-take (suc n) [] h = absurd (omega arith)
  length-take (suc n) (x ∷ xs) h = ap suc (length-take n xs (omega arith))

  pub take_all : (n : ℕ) (xs : List A) → length xs ≤ n → take n xs ≡ xs
  take_all zero [] h = refl
  take_all zero (x ∷ xs) h = absurd (omega arith)
  take_all (suc n) [] h = refl
  take_all (suc n) (x ∷ xs) h = ap (◌∷◌ x) (take_all n xs (omega arith))

  -- A prefix that lies within the first of two lists, and what follows it.
  pub take-append : (n : ℕ) (xs ys : List A) → n ≤ length xs → take n (xs ++ ys) ≡ take n xs
  take-append zero xs ys h = refl
  take-append (suc n) [] ys h = absurd (omega arith)
  take-append (suc n) (x ∷ xs) ys h = ap (◌∷◌ x) (take-append n xs ys (omega arith))

  pub drop-append_within :
      (n : ℕ) (xs ys : List A) → n ≤ length xs → drop n (xs ++ ys) ≡ drop n xs ++ ys
  drop-append_within zero xs ys h = refl
  drop-append_within (suc n) [] ys h = absurd (omega arith)
  drop-append_within (suc n) (x ∷ xs) ys h = drop-append_within n xs ys (omega arith)

  pub take-take : (n m k : ℕ) (xs : List A) → n + m ≡ k → take n (take k xs) ≡ take n xs
  take-take zero m k xs e = refl
  take-take (suc n) m zero xs e = absurd (omega arith)
  take-take (suc n) m (suc k) [] e = refl
  take-take (suc n) m (suc k) (x ∷ xs) e = ap (◌∷◌ x) (take-take n m k xs (omega arith))

  pub drop-take : (n m k : ℕ) (xs : List A) → n + m ≡ k → drop n (take k xs) ≡ take m (drop n xs)
  drop-take zero m k xs e = let same : k ≡ m = omega arith in rw same
  drop-take (suc n) m zero xs e = absurd (omega arith)
  drop-take (suc n) m (suc k) [] e = sym (take-nil m)
  drop-take (suc n) m (suc k) (x ∷ xs) e = drop-take n m k xs (omega arith)
