-- ===== src/Getopt/Shorts.antt =====
-- A short option scans its character.
use wake_on_lan.Base.{
  ℕ, ◌+◌, ◌-◌, ◌≤◌, ◌<◌, ◌≡◌, refl, sym, ap, ◌∙◌, Bool, true, false, Bool-cases, inl, inr, Option,
  none, some, List, [], ◌∷◌, length, drop, ◌==◌, ◌||◌, arith, Text,
}
use wake_on_lan.Getopt.Long.{LongOption}
use wake_on_lan.Getopt.State.{
  Data, argc, arg, char_at, has_char, no_more, from_char, option_needs_argument,
}
use wake_on_lan.Getopt.Advance.{Next, ends, goes}
use wake_on_lan.Getopt.Decode.{
  say, decode_long, take_short, short_option, decode_short, decode, is_long,
}
use wake_on_lan.Getopt.Ends.{
  weight, weight-drop_le, left, to_scan, Scans, Decodes, AtHand, SameArgv, Scans-later,
  scanned_element, left_done,
}
use wake_on_lan.Getopt.Decoded.{say-SameArgv, say-optind, decode_long-Decodes}

from_char-absent :
    (c : ℕ) (s : Text) → has_char b'W' s ≡ false → (char_at (from_char c s) 0 == b'W') ≡ false
unfolding from_char
from_char-absent c [] h = refl
from_char-absent c (x ∷ s) h = elim (Bool-cases (b'W' == x)) [
  | inl here ↦ absurd (cc)
  | inr there ↦ elim (Bool-cases (c == x)) [
    | inl found ↦ rw found (ground arith)
    | inr next ↦ rw next (from_char-absent c s (ground arith))
  ]
]

ne_of_eq : (a b : ℕ) → (a == b) ≡ false → ¬ (a ≡ b)
ne_of_eq a b h e = ground arith

same_size : (d e : Data) → SameArgv d e → argc e ≡ argc d
same_size d e a = ap length a.0

module _ (words : List Text) (before : ℕ) (d : Data) (s : Scans words d)
    (lt : to_scan d < before) where
  -- The element goes on, or it has come to its end.
  stays :
      (e : Data)
      → SameArgv d e
      → e.optind ≡ d.optind
      → e.nextchar ≡ d.nextchar
      → e.initialized ≡ d.initialized
      → to_scan e ≤ to_scan d
      → Scans words e × (to_scan e < before)
  stays e a same same_char same_start le = (
    Scans-later words d e s a (omega arith) (omega (arith, s.within))
        (λ (m : no_more e.nextchar ≡ false).
          let room = s.at_hand (sym (ap no_more same_char) ∙ m) in
          (omega (arith, room.0, ap length a.0), omega (arith, room.1), same_start ∙ room.2)),
    omega arith,
  )

  passes :
      (e : Data)
      → SameArgv d e
      → no_more d.nextchar ≡ true
      → no_more e.nextchar ≡ true
      → d.optind ≤ e.optind
      → e.optind ≤ argc d
      → Scans words e × (to_scan e < before)
  passes e a done done' le fits =
      let d_left = left_done d.nextchar d.optind d.argv done in
      let e_left : to_scan e ≡ weight (drop e.optind d.argv) =
        left_done e.nextchar e.optind e.argv done'
        ∙ ap (λ (l : List Text). weight (drop e.optind l)) a.0 in
      (
        Scans-later words d e s a le fits (λ m. cc),
        omega (
          arith,
          d_left,
          e_left,
          weight-drop_le (e.optind - d.optind) d.optind e.optind d.argv (omega arith),
        ),
      )

  finishes :
      (e : Data)
      → SameArgv d e
      → no_more d.nextchar ≡ false
      → no_more e.nextchar ≡ true
      → d.optind < e.optind
      → e.optind ≤ argc d
      → Scans words e × (to_scan e < before)
  finishes e a more done gt fits =
      let r = scanned_element words (to_scan d) d e s more (omega arith) a done gt fits in
      (r.0, omega (arith, r.1))

  say-stays :
      (loud : Bool) (m : _) (c : ℕ)
      → Decodes words before (ends (some b'?') (record (say loud m d) { optopt = c }))
  unfolding say
  say-stays true m c = stays _ (refl, refl, refl) refl refl refl (omega arith)
  say-stays false m c = stays _ (refl, refl, refl) refl refl refl (omega arith)

  take_short-Decodes :
      (loud : Bool) (optstring : Text) (c : ℕ)
      → (no_more d.nextchar ≡ false → d.optind < argc d)
      → Decodes words before (take_short loud optstring c d)
  unfolding take_short
  take_short-Decodes loud optstring c room = elim (Bool-cases (no_more d.nextchar)) [
    | inl done ↦ elim (Bool-cases (d.optind == argc d)) [
      | inl last ↦
          rw (done, take_short, last)
            (passes (record (say loud (option_needs_argument c) d) { optopt = c; nextchar = none })
              (say-SameArgv loud _ d) done refl
              (omega (arith, say-optind loud (option_needs_argument c) d))
              (omega (arith, s.within, say-optind loud (option_needs_argument c) d)))
      | inr more ↦
          let room' : d.optind < argc d =
            omega (arith, s.within, ne_of_eq d.optind (argc d) more) in
          rw (done, take_short, more)
            (passes
              (record d { optarg = some (arg d d.optind); optind = d.optind + 1; nextchar = none })
              (refl, refl, refl) done refl (omega arith) (omega arith))
    ]
    | inr more ↦
        let room' = room more in
        rw (more, take_short)
          (finishes (record d { optarg = d.nextchar; optind = d.optind + 1; nextchar = none })
            (refl, refl, refl) more refl (omega arith) (omega arith))
  ]

  short_option-Decodes :
      (loud : Bool) (optstring : Text) (longopts : List LongOption) (c : ℕ) (temp : Text)
      → (char_at temp 0 == b'W') ≡ false
      → (no_more d.nextchar ≡ false → d.optind < argc d)
      → Decodes words before (short_option loud optstring longopts c temp d)
  unfolding short_option
  short_option-Decodes loud optstring longopts c temp no_w room =
      elim (Bool-cases (char_at temp 0 == 0 || c == b':')) [
        | inl bad ↦ rw (bad, short_option) (say-stays loud _ c)
        | inr good ↦ elim (Bool-cases (char_at temp 1 == b':')) [
          | inr plain ↦
              rw (good, short_option, no_w, plain)
                (stays d (refl, refl, refl) refl refl refl (omega arith))
          | inl argument ↦ elim (Bool-cases (char_at temp 2 == b':')) [
            | inr needed ↦
                rw (good, short_option, no_w, argument, needed)
                  (take_short-Decodes loud optstring c room)
            | inl optional ↦ elim (Bool-cases (no_more d.nextchar)) [
              | inl done ↦
                  rw (good, short_option, no_w, argument, optional, done)
                    (passes (record d { optarg = none; nextchar = none }) (refl, refl, refl) done
                      refl (omega arith) s.within)
              | inr more ↦
                  let room' = room more in
                  rw (good, short_option, no_w, argument, optional, more)
                    (finishes
                      (record d { optarg = d.nextchar; optind = d.optind + 1; nextchar = none })
                      (refl, refl, refl) more refl (omega arith) (omega arith))
            ]
          ]
        ]
      ]

-- `d` has an element at hand, which stands within argv.
module _ (words : List Text) (before : ℕ) (loud : Bool) (optstring : Text)
    (absent : has_char b'W' optstring ≡ false) (longopts : List LongOption) where
  decode_short-Decodes :
      (d : Data) (o : Option Text)
      → d.nextchar ≡ o
      → Scans words d
      → no_more o ≡ false
      → to_scan d ≤ before
      → AtHand d
      → Decodes words before (decode_short loud optstring longopts d)
  unfolding decode_short
  decode_short-Decodes d none e s more h room = cc
  decode_short-Decodes d (some []) e s more h room = cc
  decode_short-Decodes d (some (c ∷ [])) e s more h room =
      let size : to_scan d ≡ left (some (c ∷ [])) d.optind d.argv =
        ap (λ (o : Option Text). left o d.optind d.argv) e in
      let d' = record d { nextchar = some []; optind = d.optind + 1 } in
      rw (e, decode_short)
        (short_option-Decodes words before d'
          (Scans-later words d d' s (refl, refl, refl) (omega arith) (omega (arith, room.0))
            (λ m. cc))
          (omega arith) loud optstring longopts c (from_char c optstring)
          (from_char-absent c optstring absent) (λ m. cc))
  decode_short-Decodes d (some (c ∷ b ∷ rest)) e s more h room =
      let size : to_scan d ≡ left (some (c ∷ b ∷ rest)) d.optind d.argv =
        ap (λ (o : Option Text). left o d.optind d.argv) e in
      let d' = record d { nextchar = some (b ∷ rest); optind = d.optind } in
      rw (e, decode_short)
        (short_option-Decodes words before d'
          (Scans-later words d d' s (refl, refl, refl) (omega arith) (omega (arith, room.0))
            (λ m. room))
          (omega arith) loud optstring longopts c (from_char c optstring)
          (from_char-absent c optstring absent) (λ m. room.0))

-- getopt_long, in which `-W` is no option that stands for a long one.
pub decode-Decodes :
    (words : List Text) (before : ℕ) (loud : Bool) (optstring : Text) (longopts : List LongOption)
    (d : Data)
    → has_char b'W' optstring ≡ false
    → Scans words d
    → no_more d.nextchar ≡ false
    → to_scan d ≤ before
    → AtHand d
    → Decodes words before (decode false loud optstring (some longopts) d)
unfolding decode
decode-Decodes words before loud optstring longopts d absent s more h room =
    elim (Bool-cases (is_long false optstring (arg d d.optind))) [
      | inl long ↦
          rw (long, decode)
            (through (decode_long false loud optstring longopts d)
              (decode_long-Decodes words before d s more h loud optstring longopts room.0))
      | inr short ↦
          rw (short, decode)
            (decode_short-Decodes words before loud optstring absent longopts d d.nextchar refl s
              more h room)
    ]
  where
    through :
        (n : Next)
        → Decodes words before n
        → Decodes words before
            (elim n [ ends r e ↦ ends r e | goes e ↦ decode_short loud optstring longopts e ])
    through (ends none e) p = p
    through (ends (some c) e) p = p
    through (goes e) p = absurd p
