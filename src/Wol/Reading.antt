-- ===== src/Wol/Reading.antt =====
-- The loop over the calls of `getopt_long` in `parse_args` of src/wol.c, for every command line.
use mathlib.Core.List.{Perm}
use mathlib.Core.List.Perm
use wake_on_lan.Base.{
  ℕ, zero, suc, ◌-◌, ◌≤◌, ◌<◌, ◌≡◌, refl, ap, Bool, true, false, Bool-cases, inl, inr, not, ◌&&◌,
  ◌||◌, Option, none, some, List, [], ◌∷◌, ◌++◌, take, drop, take-drop, ◌==◌, arith, Text,
}
use wake_on_lan.Getopt.{
  result, scan, first_scan, getopt_internal_r, getopt_internal, getopt_long, fresh,
}
use wake_on_lan.Getopt.State.{Data, argc, char_at, no_more, getopt_initialize, ordering_of}
use wake_on_lan.Getopt.Advance.{Next, ends, goes, advance}
use wake_on_lan.Getopt.Decode.{decode}
use wake_on_lan.Getopt.Ends.{
  weight, weight-drop_le, left_done, to_scan, Scans, Scans-later, Decodes,
}
use wake_on_lan.Getopt.Shorts.{decode-Decodes}
use wake_on_lan.Getopt.Settled.{Advances, advance-Advances}
use wake_on_lan.Wol.Args.{Choice, Getopt}
use wake_on_lan.Wol.Options.{
  options, long_options, choice_of, round, get_choices, size_of, read_options,
}

-- A call returns an option and has scanned something, or it returns -1.
abbrev Calls : List Text → ℕ → Option ℕ × Data → Type 0
Calls words before (none, d) = (d.optind ≤ argc d) × Perm words d.argv
Calls words before (some c, d) = Scans words d × (to_scan d < before)

begun_of :
    (d : Data)
    → (d.optind == 0 || not d.initialized) ≡ false
    → (1 ≤ d.optind) × (d.initialized ≡ true)
begun_of d later = (ground arith, ground arith)

module _ (words : List Text) where
  -- The loop ends, and has kept the words.
  abbrev Reads : Option (List Choice × Data) → Type 0
  Reads o =
      (cs : List Choice) × (e : Data) × (o ≡ some (cs, e)) × (e.optind ≤ argc e) × Perm words e.argv

  result-Calls : (before : ℕ) (n : Next) → Decodes words before n → Calls words before (result n)
  result-Calls before (ends none e) p = absurd p
  result-Calls before (ends (some c) e) p = p
  result-Calls before (goes e) p = absurd p

  scan-Calls :
      (before : ℕ) (loud : Bool) (d : Data)
      → Scans words d
      → to_scan d ≤ before
      → 1 ≤ d.optind
      → d.initialized ≡ true
      → Calls words before (scan false loud options (some long_options) d)
  unfolding scan
  scan-Calls before loud d s h one begun = elim (Bool-cases (no_more d.nextchar)) [
    | inl done ↦
        rw (done, scan)
          (through (advance true d) (advance-Advances words before true d s done h one begun))
    | inr more ↦
        rw (more, scan)
          (result-Calls before (decode false loud options (some long_options) d) (
            decode-Decodes words before loud options long_options d refl s more h (s.at_hand more)))
  ]
    where
      through :
          (n : Next)
          → Advances words before n
          → Calls words before (elim n [
            | ends r e ↦ (r, e)
            | goes e ↦ result (decode false loud options (some long_options) e)
          ])
      through (ends none e) p = p
      through (ends (some c) e) p = p
      through (goes e) p =
          result-Calls before (decode false loud options (some long_options) e)
            (decode-Decodes words before loud options long_options e refl p.0 p.1 p.2 p.3)

  -- A first call: whatever was at hand, nothing of it was scanned yet.
  first_scan-Calls :
      (posixly loud : Bool) (d : Data)
      → (d.optind == 0 || not d.initialized) ≡ true
      → 1 ≤ argc d
      → Scans words d
      → Calls words
          (to_scan d)
          (first_scan posixly false loud options (some long_options) (record d { optarg = none }))
  unfolding first_scan getopt_initialize
  first_scan-Calls posixly loud d first lt s =
      let done : no_more d.nextchar ≡ true = elim (Bool-cases (no_more d.nextchar)) [
        | inl done ↦ done
        | inr more ↦ let room = s.at_hand more in absurd (begun room.1 room.2)
      ] in
      let size = left_done d.nextchar d.optind d.argv done in
      elim (Bool-cases (d.optind == 0)) [
        | inl start ↦
            let one : d.optind ≤ 1 = ground arith in
            rw (start, first_scan)
              (scan-Calls (to_scan d) loud (started 1) (started-Scans 1 (omega arith))
                (omega (arith, size, weight-drop_le (1 - d.optind) d.optind 1 d.argv (omega arith)))
                (omega arith) refl)
        | inr later ↦
            rw (later, first_scan)
              (scan-Calls (to_scan d) loud (started d.optind) (started-Scans d.optind s.within)
                (omega (arith, size)) (ground arith) refl)
      ]
    where
      begun : 1 ≤ d.optind → d.initialized ≡ true → ⊥
      begun one set = let e : not d.initialized ≡ false = ap not set in ground arith

      started : ℕ → Data
      started i = record d {
        optarg = none;
        optind = i;
        first_nonopt = i;
        last_nonopt = i;
        nextchar = none;
        posixly_correct = posixly;
        ordering = ordering_of posixly options;
        initialized = true;
      }

      started-Scans : (i : ℕ) → i ≤ argc d → Scans words (started i)
      started-Scans i le = record {
        ordered = omega arith;
        behind = omega arith;
        within = le;
        at_hand = λ m. cc;
        same_words = s.same_words;
      }

  getopt_long-Calls :
      (posixly : Bool) (d : Data)
      → Scans words d
      → Calls words (to_scan d) (getopt_long posixly options long_options d)
  unfolding getopt_long getopt_internal getopt_internal_r first_scan getopt_initialize
  getopt_long-Calls posixly d s =
      let e = record d { optarg = none } in
      elim (Bool-cases (argc d == 0)) [
        | inl empty ↦ rw (empty, getopt_internal_r) (s.within, s.same_words)
        | inr words_left ↦ elim (Bool-cases (e.optind == 0 || not e.initialized)) [
          | inl first ↦
              rw (words_left, getopt_internal_r, first)
                (first_scan-Calls posixly (d.opterr && not (char_at options 0 == b':')) d first
                  (ground arith) s)
          | inr later ↦
              rw (words_left, getopt_internal_r, later)
                (scan-Calls (to_scan d) (d.opterr && not (char_at options 0 == b':')) e
                  (Scans-later words d e s (refl, refl, refl) (omega arith) s.within s.at_hand)
                  (omega arith) (begun_of d later).0 (begun_of d later).1)
        ]
      ]

  rounds :
      (before n : ℕ) (posixly : Bool) (r : Option ℕ × Data)
      → Calls words before r
      → ((e : Data) → Scans words e → to_scan e < before → Reads (get_choices n posixly e))
      → Reads (round (get_choices n posixly) r)
  rounds before n posixly (none, e) p next = ([], e, refl, p.0, p.1)
  rounds before n posixly (some c, e) p next =
      let rest = next e p.0 p.1 in
      (choice_of c e.optarg ∷ rest.0, rest.1, rw rest.2 refl, rest.3, rest.4)

  get_choices-Reads :
      (fuel : ℕ) (posixly : Bool) (d : Data)
      → Scans words d
      → to_scan d < fuel
      → Reads (get_choices fuel posixly d)
  unfolding get_choices
  get_choices-Reads zero posixly d s h = absurd (omega arith)
  get_choices-Reads (suc n) posixly d s h =
      rounds (to_scan d) n posixly (getopt_long posixly options long_options d)
        (getopt_long-Calls posixly d s) (λ e t lt. get_choices-Reads n posixly e t (omega arith))

weight-size_of : (ss : List Text) → weight ss < size_of ss
weight-size_of [] = omega arith
weight-size_of (s ∷ ss) = omega (arith, weight-size_of ss)

-- read_options, for every command line, even an empty one, with POSIXLY_CORRECT set or not: its rounds
-- are enough, so that the loop over getopt_long ends, and the operands that it leaves are the last
-- words of a permutation of the command line's words.
pub read_options_total :
    (posixly : Bool) (argv : List Text)
    → (opt : Getopt) × (scanned : List Text) × (read_options posixly argv ≡ some opt)
      × Perm argv (scanned ++ opt.operands)
unfolding read_options get_choices getopt_long getopt_internal getopt_internal_r
read_options_total posixly [] =
    (record { argc = 0; calls = []; operands = [] }, [], refl, Perm.refl [])
read_options_total posixly (name ∷ args) =
    let argv = name ∷ args in
    let start : Scans argv (fresh argv) = record {
      ordered = omega arith;
      behind = omega arith;
      within = omega arith;
      at_hand = λ m. cc;
      same_words = Perm.refl argv;
    } in
    let (cs, e, runs, fits, same) =
      get_choices-Reads argv (size_of argv) posixly (fresh argv) start
        (omega (arith, weight-size_of args)) in
    (
      record { argc = argc e; calls = cs; operands = drop e.optind e.argv },
      take e.optind e.argv,
      rw (runs, read_options) refl,
      rw (take-drop e.optind e.argv) same,
    )
