-- ===== src/Getopt/Exchanged.antt =====
-- `exchange` of lib/getopt.c: whatever the lengths of the two parts, they change places, and each keeps
-- its order.
use wake_on_lan.Base.{
  le_of_ltb, lt_of_ltb, ℕ, zero, suc, ◌+◌, ◌-◌, ◌≤◌, ◌<◌, ◌≡◌, refl, sym, ap, ◌∙◌, Bool, Bool-cases,
  inl, inr, true, false, ◌&&◌, some, List, [], ◌∷◌, ◌++◌, length, length-append, length-take,
  length-drop, take, drop, take-drop, get_elem?, append_assoc, ltb, arith, Text,
}
use wake_on_lan.Getopt.Exchange.{set, swap, swap_range, exchange_loop}
use wake_on_lan.Getopt.State.{Data, exchange}

abbrev Argv : Type 0
Argv = List Text

get_elem?-append : (xs ys : Argv) (y : Text) → get_elem? (xs ++ (y ∷ ys)) (length xs) ≡ some y
get_elem?-append [] ys y = refl
get_elem?-append (x ∷ xs) ys y = get_elem?-append xs ys y

set-append : (xs ys : Argv) (y v : Text) → set (xs ++ (y ∷ ys)) (length xs) v ≡ xs ++ (v ∷ ys)
unfolding set
set-append [] ys y v = refl
set-append (x ∷ xs) ys y v = ap (◌∷◌ x) (set-append xs ys y v)

swap_runs :
    (i j : ℕ) (argv : Argv) (x y : Text)
    → get_elem? argv i ≡ some x
    → get_elem? argv j ≡ some y
    → swap i j argv ≡ set (set argv i y) j x
unfolding swap
swap_runs i j argv x y e f = rw (e, swap, f)

swap_lem :
    (xs ms ys : Argv) (u v : Text) (i j : ℕ)
    → i ≡ length xs
    → j ≡ length xs + suc (length ms)
    → swap i j (xs ++ (u ∷ (ms ++ (v ∷ ys)))) ≡ xs ++ (v ∷ (ms ++ (u ∷ ys)))
swap_lem xs ms ys u v i j e f =
    let behind : j ≡ length (xs ++ (u ∷ ms)) = omega (arith, length-append xs (u ∷ ms)) in
    let behind' : j ≡ length (xs ++ (v ∷ ms)) = omega (arith, length-append xs (v ∷ ms)) in
    let first : get_elem? (xs ++ (u ∷ (ms ++ (v ∷ ys)))) i ≡ some u =
      ap (get_elem? (xs ++ (u ∷ (ms ++ (v ∷ ys))))) e ∙ get_elem?-append xs (ms ++ (v ∷ ys)) u in
    let second : get_elem? (xs ++ (u ∷ (ms ++ (v ∷ ys)))) j ≡ some v =
      ap (λ (l : Argv). get_elem? l j) (sym (append_assoc xs (u ∷ ms) (v ∷ ys)))
      ∙ (ap (get_elem? ((xs ++ (u ∷ ms)) ++ (v ∷ ys))) behind
          ∙ get_elem?-append (xs ++ (u ∷ ms)) ys v) in
    let put : set (xs ++ (u ∷ (ms ++ (v ∷ ys)))) i v ≡ xs ++ (v ∷ (ms ++ (v ∷ ys))) =
      ap (λ (k : ℕ). set (xs ++ (u ∷ (ms ++ (v ∷ ys)))) k v) e
      ∙ set-append xs (ms ++ (v ∷ ys)) u v in
    let put' : set (xs ++ (v ∷ (ms ++ (v ∷ ys)))) j u ≡ xs ++ (v ∷ (ms ++ (u ∷ ys))) =
      ap (λ (l : Argv). set l j u) (sym (append_assoc xs (v ∷ ms) (v ∷ ys)))
      ∙ (ap (λ (k : ℕ). set ((xs ++ (v ∷ ms)) ++ (v ∷ ys)) k u) behind'
          ∙ (set-append (xs ++ (v ∷ ms)) ys v u ∙ append_assoc xs (v ∷ ms) (u ∷ ys))) in
    swap_runs i j _ u v first second ∙ (ap (λ (l : Argv). set l j u) put ∙ put')

-- Two parts of one length, with others between them.
swap_range_lem :
    (us vs xs ms ys : Argv) (n i j : ℕ)
    → length us ≡ n
    → length vs ≡ n
    → i ≡ length xs
    → j ≡ length xs + n + length ms
    → swap_range n i j (xs ++ (us ++ (ms ++ (vs ++ ys)))) ≡ xs ++ (vs ++ (ms ++ (us ++ ys)))
unfolding swap_range
swap_range_lem [] [] xs ms ys zero i j a b e f = refl
swap_range_lem [] [] xs ms ys (suc n) i j a b e f = absurd (omega arith)
swap_range_lem [] (v ∷ vs) xs ms ys zero i j a b e f = absurd (omega arith)
swap_range_lem [] (v ∷ vs) xs ms ys (suc n) i j a b e f = absurd (omega arith)
swap_range_lem (u ∷ us) vs xs ms ys zero i j a b e f = absurd (omega arith)
swap_range_lem (u ∷ us) [] xs ms ys (suc n) i j a b e f = absurd (omega arith)
swap_range_lem (u ∷ us) (v ∷ vs) xs ms ys (suc n) i j a b e f =
    let start : xs ++ (u ∷ (us ++ (ms ++ (v ∷ (vs ++ ys)))))
        ≡ xs ++ (u ∷ ((us ++ ms) ++ (v ∷ (vs ++ ys)))) =
      ap (λ (l : Argv). xs ++ (u ∷ l)) (sym (append_assoc us ms (v ∷ (vs ++ ys)))) in
    let swapped =
      swap_lem xs (us ++ ms) (vs ++ ys) u v i j e (omega (arith, length-append us ms)) in
    let next : xs ++ (v ∷ ((us ++ ms) ++ (u ∷ (vs ++ ys))))
        ≡ (xs ++ (v ∷ [])) ++ (us ++ ((ms ++ (u ∷ [])) ++ (vs ++ ys))) =
      simp append_assoc in
    let rest =
      swap_range_lem us vs (xs ++ (v ∷ [])) (ms ++ (u ∷ [])) ys n (i + 1) (j + 1) (omega arith)
        (omega arith) (omega (arith, length-append xs (v ∷ [])))
        (omega (arith, length-append xs (v ∷ []), length-append ms (u ∷ []))) in
    let end : (xs ++ (v ∷ [])) ++ (vs ++ ((ms ++ (u ∷ [])) ++ (us ++ ys)))
        ≡ xs ++ (v ∷ (vs ++ (ms ++ (u ∷ (us ++ ys))))) =
      simp append_assoc in
    ap (λ (l : Argv). swap_range n (i + 1) (j + 1) l)
      (ap (λ (l : Argv). swap i j l) start ∙ (swapped ∙ next))
    ∙ (rest ∙ end)

-- The two cases of a round, with the longer part cut where the shorter one ends.
low_round :
    (us ps qs xs ys : Argv) (short bottom high : ℕ)
    → short ≡ length us
    → length qs ≡ length us
    → bottom ≡ length xs
    → high ≡ bottom + length us + length ps
    → swap_range short bottom high (xs ++ (us ++ ((ps ++ qs) ++ ys)))
      ≡ xs ++ (qs ++ (ps ++ (us ++ ys)))
low_round us ps qs xs ys short bottom high s q e f =
    ap (λ (l : Argv). swap_range short bottom high (xs ++ (us ++ l))) (append_assoc ps qs ys)
    ∙ swap_range_lem us qs xs ps ys short bottom high (sym s) (omega arith) e (omega arith)

high_round :
    (ps qs vs xs ys : Argv) (rest bottom middle : ℕ)
    → rest ≡ length vs
    → length ps ≡ length vs
    → bottom ≡ length xs
    → middle ≡ bottom + length ps + length qs
    → swap_range rest bottom middle (xs ++ ((ps ++ qs) ++ (vs ++ ys)))
      ≡ (xs ++ vs) ++ (qs ++ (ps ++ ys))
high_round ps qs vs xs ys rest bottom middle s q e f =
    ap (λ (l : Argv). swap_range rest bottom middle (xs ++ l)) (append_assoc ps qs (vs ++ ys))
    ∙ (swap_range_lem ps vs xs qs ys rest bottom middle (omega arith) (sym s) e (omega arith)
        ∙ sym (append_assoc xs vs (qs ++ (ps ++ ys))))

and_false : (b : Bool) → (b && false) ≡ false
and_false true = refl
and_false false = refl

-- The loop exchanges two adjacent parts of argv, of any lengths, and keeps what stands before and
-- behind them.
pub exchange_loop_lem :
    (fuel : ℕ) (xs us vs ys : Argv) (bottom middle top : ℕ)
    → length us + length vs ≤ fuel
    → bottom ≡ length xs
    → middle ≡ bottom + length us
    → top ≡ middle + length vs
    → exchange_loop fuel bottom middle top (xs ++ (us ++ (vs ++ ys))) ≡ xs ++ (vs ++ (us ++ ys))
unfolding exchange_loop
exchange_loop_lem zero xs [] [] ys bottom middle top h e f g = refl
exchange_loop_lem zero xs [] (v ∷ vs) ys bottom middle top h e f g = absurd (omega arith)
exchange_loop_lem zero xs (u ∷ us) vs ys bottom middle top h e f g = absurd (omega arith)
exchange_loop_lem (suc fuel) xs [] vs ys bottom middle top h e f g =
    let done : ltb bottom middle ≡ false = ground arith in rw (done, and_false (ltb middle top))
exchange_loop_lem (suc fuel) xs (u ∷ us) [] ys bottom middle top h e f g =
    let done : ltb middle top ≡ false = ground arith in rw done
exchange_loop_lem (suc fuel) xs (u ∷ us) (v ∷ vs) ys bottom middle top h e f g =
    let front = u ∷ us in
    let bs = v ∷ vs in
    let short = middle - bottom in
    let rest = top - middle in
    let one : ltb middle top ≡ true = ground arith in
    let two : ltb bottom middle ≡ true = ground arith in
    elim (Bool-cases (ltb short rest)) [
      | inl less ↦
          let lt : short < rest = lt_of_ltb short rest less in
          let ps = take (rest - short) bs in
          let qs = drop (rest - short) bs in
          let whole : ps ++ qs ≡ bs = take-drop (rest - short) bs in
          let np : length ps ≡ rest - short = length-take (rest - short) bs (omega arith) in
          let nq : length qs ≡ short = omega (arith, length-drop (rest - short) bs) in
          let swapped =
            low_round front ps qs xs ys short bottom (top - short) (omega arith) (omega arith) e
              (omega arith) in
          let ih =
            exchange_loop_lem fuel xs qs ps (front ++ ys) bottom middle (top - short) (omega arith)
              e (omega arith) (omega arith) in
          rw (one, two, less)
            (ap
                (λ (l : Argv).
                  exchange_loop fuel bottom middle (top - short)
                    (swap_range short bottom (top - short) (xs ++ (front ++ (l ++ ys)))))
                (sym whole)
              ∙ (ap (exchange_loop fuel bottom middle (top - short)) swapped
                  ∙ (ih
                      ∙ ap (λ (l : Argv). xs ++ l)
                          (sym (append_assoc ps qs (front ++ ys))
                            ∙ ap (λ (l : Argv). l ++ (front ++ ys)) whole))))
      | inr more ↦
          let le : rest ≤ short = le_of_ltb short rest more in
          let ps = take rest front in
          let qs = drop rest front in
          let whole : ps ++ qs ≡ front = take-drop rest front in
          let np : length ps ≡ rest = length-take rest front (omega arith) in
          let nq : length qs ≡ short - rest = omega (arith, length-drop rest front) in
          let swapped =
            high_round ps qs bs xs ys rest bottom middle (omega arith) (omega arith) e
              (omega arith) in
          let ih =
            exchange_loop_lem fuel (xs ++ bs) qs ps ys (bottom + rest) middle top (omega arith)
              (omega (arith, length-append xs bs)) (omega arith) (omega arith) in
          rw (one, two, more)
            (ap
                (λ (l : Argv).
                  exchange_loop fuel (bottom + rest) middle top
                    (swap_range rest bottom middle (xs ++ (l ++ (bs ++ ys)))))
                (sym whole)
              ∙ (ap (exchange_loop fuel (bottom + rest) middle top) swapped
                  ∙ (ih
                      ∙ (append_assoc xs bs (ps ++ (qs ++ ys))
                          ∙ ap (λ (l : Argv). xs ++ (bs ++ l))
                              (sym (append_assoc ps qs ys) ∙ ap (λ (l : Argv). l ++ ys) whole)))))
    ]

-- exchange, where argv has the skipped non-options and behind them the options: the options come
-- first, each part keeps its order, all else of argv stays as it is, and the indices describe the
-- non-options where they are now.
pub exchange-Swaps :
    (d : Data) (before nonoptions options behind : List Text)
    → d.argv ≡ before ++ (nonoptions ++ (options ++ behind))
    → d.first_nonopt ≡ length before
    → d.last_nonopt ≡ d.first_nonopt + length nonoptions
    → d.optind ≡ d.last_nonopt + length options
    → ((exchange d).argv ≡ before ++ (options ++ (nonoptions ++ behind)))
      × ((exchange d).first_nonopt ≡ length (before ++ options))
      × ((exchange d).last_nonopt ≡ (exchange d).first_nonopt + length nonoptions)
      × ((exchange d).optind ≡ d.optind)
unfolding exchange
exchange-Swaps d before nonoptions options behind e f g h = (
  ap (exchange_loop (d.optind - d.first_nonopt) d.first_nonopt d.last_nonopt d.optind) e
      ∙ exchange_loop_lem (d.optind - d.first_nonopt) before nonoptions options behind
          d.first_nonopt d.last_nonopt d.optind (omega arith) f g h,
  omega (arith, length-append before options),
  omega arith,
  refl,
)
