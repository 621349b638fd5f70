-- ===== src/Getopt/Decoded.antt =====
-- Each way to decode an element of argv scans some of it.
use wake_on_lan.Base.{
  ℕ, ◌+◌, ◌≤◌, ◌<◌, ◌≡◌, refl, ap, Bool, true, false, Bool-cases, inl, inr, none, some, List, [],
  ◌∷◌, length, ltb, lt_of_ltb, ◌==◌, not, ◌&&◌, if◌then◌else◌, arith, Text,
}
use wake_on_lan.Getopt.Long.{LongOption, nothing_found, find_long, name_of, after_name}
use wake_on_lan.Getopt.State.{Data, Message, argc, arg, no_more, ambiguous, unrecognized}
use wake_on_lan.Getopt.Advance.{ends}
use wake_on_lan.Getopt.Decode.{
  say, missing_code, rest_of, found_long, refuse_long, take_long, unknown_long, decode_long,
}
use wake_on_lan.Getopt.Ends.{to_scan, Scans, Decodes, SameArgv, scanned_element}

pub say-SameArgv : (loud : Bool) (m : Message) (d : Data) → SameArgv d (say loud m d)
unfolding say
say-SameArgv true m d = (refl, refl, refl)
say-SameArgv false m d = (refl, refl, refl)

pub say-optind : (loud : Bool) (m : Message) (d : Data) → (say loud m d).optind ≡ d.optind
unfolding say
say-optind true m d = refl
say-optind false m d = refl

-- `e` is a state in which the element at hand of `d` is left behind.
abbrev Leaves : Data → Data → Type 0
Leaves d e = SameArgv d e × (d.optind < e.optind) × (e.optind ≤ argc d)

say-Leaves : (loud : Bool) (m : Message) (d e : Data) → Leaves d e → Leaves d (say loud m e)
unfolding say
say-Leaves true m d e l = l
say-Leaves false m d e l = l

module _ (words : List Text) (before : ℕ) (d : Data) (s : Scans words d)
    (more : no_more d.nextchar ≡ false) (h : to_scan d ≤ before) where
  leaves :
      (e : Data) → Leaves d e → no_more e.nextchar ≡ true → Scans words e × (to_scan e < before)
  leaves e l done = scanned_element words before d e s more h l.0 done l.1 l.2

  found_long-Decodes :
      (p : LongOption) (i : ℕ) (e : Data) → Leaves d e → Decodes words before (found_long p i e)
  unfolding found_long
  found_long-Decodes p i e l =
      elim p.flag
        as (λ flag. Decodes words before (elim flag [
          | none ↦ ends (some p.val) (record e { nextchar = some []; longind = i })
          | some variable ↦
              ends (some 0)
                (record e { nextchar = some []; longind = i; flags = (variable, p.val) ∷ e.flags })
        ])) [
          | none ↦ leaves (record e { nextchar = some []; longind = i }) l refl
          | some variable ↦
              leaves
                (record e { nextchar = some []; longind = i; flags = (variable, p.val) ∷ e.flags })
                l refl
        ]

  refuse_long-Decodes :
      (for_w : Bool) (code : ℕ) (p : LongOption) (e : Data)
      → Leaves d e
      → Decodes words before (refuse_long for_w code p e)
  unfolding refuse_long
  refuse_long-Decodes for_w code p e l =
      leaves (record e { nextchar = some []; optopt = if for_w then e.optopt else p.val }) l refl

  take_long-Decodes :
      (for_w loud : Bool) (optstring : Text) (p : LongOption) (i : ℕ) (value : Text) (e : Data)
      → Leaves d e
      → Decodes words before (take_long for_w loud optstring p i value e)
  unfolding take_long
  take_long-Decodes for_w loud optstring p i (c ∷ value) e l =
      elim (Bool-cases (not (p.has_arg == 0))) [
        | inl e_yes ↦ rw e_yes (found_long-Decodes p i (record e { optarg = some value }) l)
        | inr e_no ↦ rw e_no (refuse_long-Decodes for_w b'?' p _ (say-Leaves loud _ d e l))
      ]
  take_long-Decodes for_w loud optstring p i [] e l = elim (Bool-cases (not (p.has_arg == 1))) [
    | inl e_yes ↦ rw e_yes (found_long-Decodes p i e l)
    | inr e_no ↦ elim (Bool-cases (ltb e.optind (argc e))) [
      | inl lt ↦
          rw (e_no, lt)
            (found_long-Decodes p i
              (record e { optarg = some (arg e e.optind); optind = e.optind + 1 })
              (
                l.0,
                omega (arith, l.1),
                omega (arith, lt_of_ltb e.optind (argc e) lt, ap length l.0.0),
              ))
      | inr ge ↦
          rw (e_no, ge)
            (refuse_long-Decodes for_w (missing_code optstring) p _ (say-Leaves loud _ d e l))
    ]
  ]

  pub decode_long-Decodes :
      (loud : Bool) (optstring : Text) (longopts : List LongOption)
      → d.optind < argc d
      → Decodes words before (decode_long false loud optstring longopts d)
  unfolding decode_long unknown_long
  decode_long-Decodes loud optstring longopts room =
      let f = find_long false (name_of (rest_of d)) longopts 0 nothing_found in
      let next : Leaves d (record d { optind = d.optind + 1 }) =
        ((refl, refl, refl), omega arith, omega arith) in
      elim (Bool-cases (f.ambig && not f.exact)) [
        | inl e_yes ↦ rw e_yes (
            leaves
              (record (say loud (ambiguous (arg d d.optind)) d) {
                nextchar = some [];
                optind = d.optind + 1;
                optopt = 0;
              })
              (say-SameArgv loud _ d, next.1, next.2) refl)
        | inr e_no ↦
            rw e_no
              (elim f.pfound
                as (λ o. Decodes words before (elim o [
                  | some p ↦
                      take_long false loud optstring p f.indfound (after_name (rest_of d))
                        (record d { optind = d.optind + 1 })
                  | none ↦ unknown_long false loud optstring d
                ])) [
                  | some p ↦
                      take_long-Decodes false loud optstring p f.indfound (after_name (rest_of d))
                        (record d { optind = d.optind + 1 }) next
                  | none ↦
                      leaves
                        (record (say loud (unrecognized (rest_of d)) d) {
                          nextchar = some [];
                          optind = d.optind + 1;
                          optopt = 0;
                        })
                        (say-SameArgv loud _ d, next.1, next.2) refl
                ])
      ]
