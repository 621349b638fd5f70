-- ===== src/Getopt/Settled.antt =====
-- The first half of a call ends it, or finds an option to decode.
use cubical.Cubical.Foundations.Prelude.{subst}
use mathlib.Core.List.{Perm}
use wake_on_lan.Base.{
  ℕ, ◌+◌, ◌≤◌, ◌<◌, ◌≡◌, refl, sym, ap, Bool, true, false, Bool-cases, inl, inr, none, some, List,
  [], ◌∷◌, length, length-drop, drop, not, ◌&&◌, if◌then◌else◌, ltb, ◌==◌, arith, Text,
}
use wake_on_lan.Getopt.State.{
  Data, require_order, permute, return_in_order, argc, arg, char_at, no_more, is_nonoption, clamp,
  gather, skip_nonoptions, end_options, is_dashes,
}
use wake_on_lan.Getopt.Advance.{Next, ends, goes, settle, advance}
use wake_on_lan.Getopt.Ends.{weight, weight-drop_at, left, left_done, to_scan, AtHand, Scans}
use wake_on_lan.Getopt.Advanced.{Stands, gather-Stands, skip_nonoptions-Stands, end_options-Stands}

abbrev pub Advances : List Text → ℕ → Next → Type 0
Advances words size (ends none d) = (d.optind ≤ argc d) × Perm words d.argv
Advances words size (ends (some c) d) = Scans words d × (to_scan d < size)
Advances words size (goes d) =
    Scans words d × (no_more d.nextchar ≡ false) × (to_scan d ≤ size) × AtHand d

-- Behind the dashes of an option there is something.
option_rest :
    (has_long : Bool) (s : Text)
    → is_nonoption s ≡ false
    → is_dashes s ≡ false
    → no_more (some (drop (if has_long && char_at s 1 == b'-' then 2 else 1) s)) ≡ false
option_rest has_long [] h o = ground arith
option_rest has_long (a ∷ []) h o = ground arith
option_rest true (a ∷ b ∷ []) h o = elim (Bool-cases (b == b'-')) [
  | inl dash ↦ absurd (ground arith)
  | inr other ↦ rw other refl
]
option_rest false (a ∷ b ∷ []) h o = refl
option_rest has_long (a ∷ b ∷ c ∷ s) h o = elim (Bool-cases (has_long && b == b'-')) [
  | inl two ↦ rw two refl
  | inr one ↦ rw one refl
]

other_of : (b c : Bool) → (not b && c) ≡ false → b ≡ false → c ≡ false
other_of true c h e = cc
other_of false c h e = h

left_of :
    (t : Text) (i : ℕ) (argv : List Text)
    → no_more (some t) ≡ false
    → left (some t) i argv ≡ length t + weight (drop (i + 1) argv)
left_of [] i argv h = cc
left_of (c ∷ t) i argv h = omega arith

module _ (words : List Text) (size : ℕ) where
  Stands-Scans :
      (d e : Data)
      → d.first_nonopt ≤ d.last_nonopt
      → Stands words size d
      → e.argv ≡ d.argv
      → e.first_nonopt ≡ d.first_nonopt
      → e.last_nonopt ≡ d.last_nonopt
      → d.optind ≤ e.optind
      → e.optind ≤ argc d
      → (no_more e.nextchar ≡ false → AtHand e)
      → Scans words e
  Stands-Scans d e ordered s a f l le fits room = record {
    ordered = omega arith;
    behind = omega (arith, s.behind);
    within = omega (arith, ap length a);
    at_hand = room;
    same_words = rw a s.same_words;
  }

  settle-Advances :
      (has_long : Bool) (d : Data)
      → d.first_nonopt ≤ d.last_nonopt
      → ((d.optind == argc d) ≡ false → is_dashes (arg d d.optind) ≡ false)
      → Stands words size d
      → Advances words size (settle has_long d)
  unfolding settle
  settle-Advances has_long d ordered nodash s = elim (Bool-cases (d.optind == argc d)) [
    | inl end ↦ elim (Bool-cases (d.first_nonopt == d.last_nonopt)) [
      | inl e ↦ rw (end, settle, e) (s.within, s.same_words)
      | inr e ↦ rw (end, settle, e) (omega (arith, s.ahead, s.within), s.same_words)
    ]
    | inr more ↦
        let lt : d.optind < argc d = room more s.within in
        let here = weight-drop_at d.optind d lt in
        elim (Bool-cases (is_nonoption (arg d d.optind))) [
          | inl word ↦
              let e = record d { optarg = some (arg d d.optind); optind = d.optind + 1 } in
              let taken : Scans words e × (to_scan e < size) = (
                Stands-Scans d e ordered s refl refl refl (omega arith) (omega arith) (λ m. cc),
                omega (arith, left_done d.nextchar (d.optind + 1) d.argv s.done, here, s.small),
              ) in
              rw (more, settle, word)
                (elim d.ordering
                  as (λ o.
                    Advances words size
                      (elim o [ require_order ↦ ends none d | _ ↦ ends (some 1) e ])) [
                        | require_order ↦ (s.within, s.same_words)
                        | permute ↦ taken
                        | return_in_order ↦ taken
                      ])
          | inr option ↦
              let k : ℕ = if has_long && char_at (arg d d.optind) 1 == b'-' then 2 else 1 in
              let rest : Text = drop k (arg d d.optind) in
              let some_left = option_rest has_long (arg d d.optind) option (nodash more) in
              rw (more, settle, option)
                (
                  Stands-Scans d (record d { nextchar = some rest }) ordered s refl refl refl
                      (omega arith) s.within (λ m. (lt, s.begun.0, s.begun.1)),
                  some_left,
                  omega (
                    arith,
                    left_of rest d.optind d.argv some_left,
                    length-drop k (arg d d.optind),
                    here,
                    s.small,
                  ),
                  (lt, s.begun.0, s.begun.1),
                )
        ]
  ]
    where
      room : (d.optind == argc d) ≡ false → d.optind ≤ argc d → d.optind < argc d
      room more le = ground arith

  clamp_lem : (d : Data) → Scans words d → clamp d ≡ d
  unfolding clamp
  clamp_lem d s =
      let last : ltb d.optind d.last_nonopt ≡ false = let le = s.behind in ground arith in
      let first : ltb d.optind d.first_nonopt ≡ false =
        let le = s.behind in let le' = s.ordered in ground arith in
      rw (last, clamp, first) refl

  pub advance-Advances :
      (has_long : Bool) (d : Data)
      → Scans words d
      → no_more d.nextchar ≡ true
      → to_scan d ≤ size
      → 1 ≤ d.optind
      → d.initialized ≡ true
      → Advances words size (advance has_long d)
  unfolding advance
  advance-Advances has_long d s done h one begun =
      let start : Stands words size d = record {
        ahead = omega (arith, s.ordered, s.behind);
        behind = s.behind;
        within = s.within;
        same_words = s.same_words;
        begun = (one, begun);
        done = done;
        small = omega (arith, left_done d.nextchar d.optind d.argv done);
      } in
      let clamped : Stands words size (clamp d) × ((clamp d).first_nonopt ≤ (clamp d).last_nonopt) =
        subst (λ (e : Data). Stands words size e × (e.first_nonopt ≤ e.last_nonopt))
          (sym (clamp_lem d s)) (start, s.ordered) in
      by_ordering (clamp d) clamped.0 clamped.1
    where
      rest : Data → Next
      rest f =
          settle has_long
            (if not (f.optind == argc f) && is_dashes (arg f f.optind) then end_options f else f)

      rest-Advances :
          (f : Data)
          → Stands words size f
          → f.first_nonopt ≤ f.last_nonopt
          → Advances words size (rest f)
      rest-Advances f t ordered =
          elim (Bool-cases (not (f.optind == argc f) && is_dashes (arg f f.optind))) [
            | inl dashes ↦
                let le = t.within in
                let ended = end_options-Stands words size f ordered (ground arith) t in
                rw dashes (
                  settle-Advances has_long (end_options f) ended.1
                    (λ more. absurd (ground (arith, ended.2))) ended.0)
            | inr none_here ↦ rw none_here (
                settle-Advances has_long f ordered
                  (λ more.
                    other_of (f.optind == argc f) (is_dashes (arg f f.optind)) none_here more)
                  t)
          ]

      by_ordering :
          (e : Data)
          → Stands words size e
          → e.first_nonopt ≤ e.last_nonopt
          → Advances words size
              (rest (elim e.ordering [ permute ↦ skip_nonoptions (gather e) | _ ↦ e ]))
      by_ordering e t ordered =
          elim e.ordering
            as (λ o.
              Advances words size
                (rest (elim o [ permute ↦ skip_nonoptions (gather e) | _ ↦ e ]))) [
                  | require_order ↦ rest-Advances e t ordered
                  | permute ↦
                      let skipped =
                        skip_nonoptions-Stands words size (gather e)
                          (gather-Stands words size e ordered t) in
                      rest-Advances (skip_nonoptions (gather e)) skipped.0 skipped.1
                  | return_in_order ↦ rest-Advances e t ordered
                ]
