-- ===== src/Macfile/Unended.antt =====
-- `macfile_parse` of src/macfile.c on a stream whose last line has no newline.
use wake_on_lan.Base.{
  ℕ, zero, suc, ◌≡◌, ◌≢◌, refl, ◌⊎◌, inl, inr, true, false, ◌||◌, Option, none, some, List, [],
  ◌==◌, arith, length, ◌+◌, Bool-cases,
}
use wake_on_lan.Stream.{Stream, no_line, line, getline, c_string}
use wake_on_lan.Macfile.{
  Locals, Parsed, failed, parsed, get_tokens, finish, parse_loop, macfile_parse, unset,
}
use wake_on_lan.Macfile.Parse.{
  Line-cases, parse_loop_ended, parse_loop_skip, parse_loop_take, macfile_parse_total,
}

-- The stream can be read to its end, and there is text behind its last newline, or the end has
-- been met.
pub record IsUnended (st : Stream) : Type 0 where
  pub whole : st.broken ≡ false
  pub no_error : st.ferror ≡ false
  pub behind : (st.feof ≡ true) ⊎ (st.rest ≢ [])

-- The call gave an entry, and left such a stream again.
abbrev pub GivesUnended : Parsed → Type 0
GivesUnended (failed port st) = ⊥
GivesUnended (parsed entry st) = IsUnended st

getline-IsUnended :
    (st st' : Stream) (s : List ℕ)
    → getline st ≡ line s st'
    → (st.feof || st.ferror) ≡ false
    → IsUnended st
    → IsUnended st'
unfolding getline
getline-IsUnended st st' s g e u = record {
  whole = ground arith;
  no_error = ground arith;
  behind = ground arith;
}

getline-no_line :
    (st st' : Stream) → getline st ≡ no_line st' → (st.feof || st.ferror) ≡ false → IsUnended st → ⊥
unfolding getline
getline-no_line st st' g e u = ground arith

finish-GivesUnended :
    (tokens : ℕ) (l : Locals) (st : Stream) → IsUnended st → GivesUnended (finish tokens l st)
unfolding finish
finish-GivesUnended tokens l st u = simp (u.no_error) u

-- Such an entry, if the fuel suffices.
abbrev Stays : Option Parsed → Type 0
Stays none = Unit
Stays (some r) = GivesUnended r

parse_loop-Stays :
    (fuel : ℕ) (st : Stream) (l : Locals) → IsUnended st → Stays (parse_loop fuel st l)
unfolding parse_loop
parse_loop-Stays zero st l u = tt
parse_loop-Stays (suc fuel) st l u = elim (Bool-cases (st.feof || st.ferror)) [
  | inl e ↦ rw (parse_loop_ended fuel st l e) (finish-GivesUnended 0 l st u)
  | inr e ↦ elim (Line-cases (getline st)) [
    | inl (st', g) ↦ absurd (getline-no_line st st' g e u)
    | inr (s, st', g) ↦
        let got = get_tokens (c_string s) l in
        let u' = getline-IsUnended st st' s g e u in
        elim (Bool-cases (got.0 == 0)) [
          | inl z ↦
              let zero_tokens : got.0 ≡ 0 = ground arith in
              rw (parse_loop_skip fuel st l e st' s got.1 g (λ i. (zero_tokens i, got.1)))
                (parse_loop-Stays fuel st' got.1 u')
          | inr z ↦
              rw (parse_loop_take fuel st l e st' s got.0 got.1 g refl z)
                (finish-GivesUnended got.0 got.1 st' u')
        ]
  ]
]

-- On a stream whose last line has no newline every call of `macfile_parse` gives an entry, also
-- when all lines have been read, and leaves such a stream again: no call ever fails.
pub macfile_parse-GivesUnended :
    (st : Stream) → IsUnended st → (r : Parsed) × (macfile_parse st ≡ some r) × GivesUnended r
unfolding macfile_parse
macfile_parse-GivesUnended st u =
    let (r, e) = macfile_parse_total st in
    let k = parse_loop-Stays (length st.lines + 2) st unset u in (r, e, rw e at k)
