-- ===== src/Getopt/Advanced.antt =====
-- Going on to the next element of argv, whatever is moved in argv by it.
use cubical.Cubical.Foundations.Prelude.{subst}
use mathlib.Core.List.{Perm, perm_middle}
use mathlib.Core.List.Perm
use wake_on_lan.Base.{
  ℕ, ◌+◌, ◌-◌, ◌≤◌, ◌<◌, ◌≡◌, refl, sym, ap, ◌∙◌, true, Bool-cases, inl, inr, List, [], ◌∷◌, ◌++◌,
  length, length-append, length-take, length-drop, take, drop, take-drop, drop-drop, drop-append,
  append_assoc, not, ◌&&◌, ◌==◌, arith, Text,
}
use wake_on_lan.Getopt.State.{
  Data, argc, no_more, exchange, is_nonoption, count_nonoptions, gather, skip_nonoptions,
  end_options,
}
use wake_on_lan.Getopt.Exchanged.{exchange-Swaps}
use wake_on_lan.Getopt.Ends.{weight, weight-drop_le}

-- Within a call, with no element at hand. At most `size` is left to scan.
pub record Stands (words : List Text) (size : ℕ) (d : Data) : Type 0 where
  pub ahead : d.first_nonopt ≤ d.optind
  pub behind : d.last_nonopt ≤ d.optind
  pub within : d.optind ≤ argc d
  pub same_words : Perm words d.argv
  pub begun : (1 ≤ d.optind) × (d.initialized ≡ true)
  pub done : no_more d.nextchar ≡ true
  pub small : weight (drop d.optind d.argv) ≤ size

split :
    (m k : ℕ) (argv : List Text) → m ≤ k → take (k - m) (drop m argv) ++ drop k argv ≡ drop m argv
split m k argv h =
    ap (λ (l : List Text). take (k - m) (drop m argv) ++ l)
      (sym (drop-drop (k - m) m k argv (omega arith)))
    ∙ take-drop (k - m) (drop m argv)

exchange-initialized : (d : Data) → (exchange d).initialized ≡ d.initialized
unfolding exchange
exchange-initialized d = refl

exchange-nextchar : (d : Data) → (exchange d).nextchar ≡ d.nextchar
unfolding exchange
exchange-nextchar d = refl

parts-Perm : (us vs ys : List Text) → Perm (us ++ (vs ++ ys)) (vs ++ (us ++ ys))
parts-Perm [] vs ys = Perm.refl (vs ++ ys)
parts-Perm (u ∷ us) vs ys =
    Perm.trans (Perm.cons u (parts-Perm us vs ys)) (Perm.symm (perm_middle vs (us ++ ys)))

count_nonoptions-bounded : (ss : List Text) → count_nonoptions ss ≤ length ss
unfolding count_nonoptions
count_nonoptions-bounded [] = omega arith
count_nonoptions-bounded (s ∷ ss) = elim (Bool-cases (is_nonoption s)) [
  | inl word ↦ rw (word, count_nonoptions) (omega (arith, count_nonoptions-bounded ss))
  | inr option ↦ rw (option, count_nonoptions) (omega arith)
]

module _ (words : List Text) (size : ℕ) where
  exchange-Stands :
      (d : Data)
      → d.first_nonopt ≤ d.last_nonopt
      → Stands words size d
      → Stands words size (exchange d)
  exchange-Stands d ordered s =
      let before = take d.first_nonopt d.argv in
      let non = take (d.last_nonopt - d.first_nonopt) (drop d.first_nonopt d.argv) in
      let opt = take (d.optind - d.last_nonopt) (drop d.last_nonopt d.argv) in
      let rest = drop d.optind d.argv in
      let whole : d.argv ≡ before ++ (non ++ (opt ++ rest)) = sym (
        ap (λ (l : List Text). before ++ (non ++ l)) (split d.last_nonopt d.optind d.argv s.behind)
        ∙ (ap (λ (l : List Text). before ++ l) (split d.first_nonopt d.last_nonopt d.argv ordered)
            ∙ take-drop d.first_nonopt d.argv)) in
      let n_before : length before ≡ d.first_nonopt =
        length-take d.first_nonopt d.argv (omega (arith, s.within, s.ahead)) in
      let n_non : length non ≡ d.last_nonopt - d.first_nonopt =
        length-take (d.last_nonopt - d.first_nonopt) (drop d.first_nonopt d.argv)
          (omega (arith, length-drop d.first_nonopt d.argv, s.within, s.behind)) in
      let n_opt : length opt ≡ d.optind - d.last_nonopt =
        length-take (d.optind - d.last_nonopt) (drop d.last_nonopt d.argv)
          (omega (arith, length-drop d.last_nonopt d.argv, s.within)) in
      let n_rest : length rest ≡ argc d - d.optind = length-drop d.optind d.argv in
      let swapped =
        exchange-Swaps d before non opt rest whole (sym n_before) (omega arith)
          (omega (arith, s.behind)) in
      let n_moved : length (exchange d).argv
          ≡ length before + (length opt + (length non + length rest)) =
        ap length swapped.0
        ∙ omega (
          arith,
          length-append before (opt ++ (non ++ rest)),
          length-append opt (non ++ rest),
          length-append non rest,
        ) in
      let n_front : length (before ++ (opt ++ non)) ≡ d.optind =
        omega (arith, length-append before (opt ++ non), length-append opt non, s.behind) in
      let kept : drop d.optind (exchange d).argv ≡ rest =
        ap (drop d.optind) (swapped.0 ∙ simp append_assoc)
        ∙ (ap (λ (n : ℕ). drop n ((before ++ (opt ++ non)) ++ rest)) (sym n_front)
            ∙ drop-append (before ++ (opt ++ non)) rest) in
      record {
        ahead = omega (arith, swapped.1, swapped.2, swapped.3, length-append before opt, s.behind);
        behind = omega (arith, swapped.1, swapped.2, swapped.3, length-append before opt, s.behind);
        within = omega (arith, swapped.3, n_moved, s.within, s.behind);
        same_words =
            subst (λ (l : List Text). Perm words l) (sym swapped.0)
              (Perm.trans (subst (λ (l : List Text). Perm words l) whole s.same_words)
                (Perm.append_left before (parts-Perm non opt rest)));
        begun = (omega (arith, swapped.3, s.begun.0), exchange-initialized d ∙ s.begun.1);
        done = ap no_more (exchange-nextchar d) ∙ s.done;
        small =
            let le = s.small in
            omega
              (arith, ap (λ (n : ℕ). weight (drop n (exchange d).argv)) swapped.3, ap weight kept);
      }

  pub gather-Stands :
      (d : Data)
      → d.first_nonopt ≤ d.last_nonopt
      → Stands words size d
      → Stands words size (gather d)
  unfolding gather
  gather-Stands d ordered s =
      elim (Bool-cases (not (d.first_nonopt == d.last_nonopt) && not (d.last_nonopt == d.optind))) [
        | inl both ↦ rw (both, gather) (exchange-Stands d ordered s)
        | inr not_both ↦ elim (Bool-cases (not (d.last_nonopt == d.optind))) [
          | inl moved ↦
              rw (not_both, gather, moved)
                (record {
                  ahead = omega arith;
                  behind = s.behind;
                  within = s.within;
                  same_words = s.same_words;
                  begun = s.begun;
                  done = s.done;
                  small = s.small;
                })
          | inr stuck ↦ rw (not_both, gather, stuck) s
        ]
      ]

  pub skip_nonoptions-Stands :
      (d : Data)
      → Stands words size d
      → Stands words size (skip_nonoptions d)
        × ((skip_nonoptions d).first_nonopt ≤ (skip_nonoptions d).last_nonopt)
  unfolding skip_nonoptions
  skip_nonoptions-Stands d s =
      let n = count_nonoptions (drop d.optind d.argv) in
      let le : n ≤ argc d - d.optind =
        omega
          (arith, count_nonoptions-bounded (drop d.optind d.argv), length-drop d.optind d.argv) in
      (
        record {
          ahead = omega (arith, s.ahead);
          behind = omega arith;
          within = omega (arith, s.within);
          same_words = s.same_words;
          begun = (omega (arith, s.begun.0), s.begun.1);
          done = s.done;
          small = omega (arith, s.small, weight-drop_le n d.optind (d.optind + n) d.argv refl);
        },
        omega (arith, s.ahead),
      )

  pub end_options-Stands :
      (d : Data)
      → d.first_nonopt ≤ d.last_nonopt
      → d.optind < argc d
      → Stands words size d
      → Stands words size (end_options d)
        × ((end_options d).first_nonopt ≤ (end_options d).last_nonopt)
        × ((end_options d).optind ≡ argc (end_options d))
  unfolding end_options
  end_options-Stands d ordered lt s =
      let e = record d { optind = d.optind + 1 } in
      let next : Stands words size e = record {
        ahead = omega (arith, s.ahead);
        behind = omega (arith, s.behind);
        within = omega arith;
        same_words = s.same_words;
        begun = (omega arith, s.begun.1);
        done = s.done;
        small = omega (arith, s.small, weight-drop_le 1 d.optind (d.optind + 1) d.argv refl);
      } in
      elim (Bool-cases (not (e.first_nonopt == e.last_nonopt) && not (e.last_nonopt == e.optind))) [
        | inl both ↦ rw (both, end_options) (to_end (exchange e) (exchange-Stands e ordered next))
        | inr not_both ↦ elim (Bool-cases (e.first_nonopt == e.last_nonopt)) [
          | inl none_yet ↦
              rw (not_both, end_options, none_yet)
                (to_end (record e { first_nonopt = e.optind })
                  (record {
                    ahead = omega arith;
                    behind = next.behind;
                    within = next.within;
                    same_words = s.same_words;
                    begun = next.begun;
                    done = s.done;
                    small = next.small;
                  }))
          | inr some_here ↦ rw (not_both, end_options, some_here) (to_end e next)
        ]
      ]
    where
      to_end :
          (m : Data)
          → Stands words size m
          → Stands words size (record m { last_nonopt = argc m; optind = argc m })
            × (m.first_nonopt ≤ argc m)
            × (argc m ≡ argc m)
      to_end m t = (
        record {
          ahead = omega (arith, t.ahead, t.within);
          behind = omega arith;
          within = omega arith;
          same_words = t.same_words;
          begun = (omega (arith, t.begun.0, t.within), t.begun.1);
          done = t.done;
          small = omega (
            arith,
            t.small,
            weight-drop_le (argc m - m.optind) m.optind (argc m) m.argv (omega (arith, t.within)),
          );
        },
        omega (arith, t.ahead, t.within),
        refl,
      )
