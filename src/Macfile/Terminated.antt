-- ===== src/Macfile/Terminated.antt =====
-- `macfile_parse` of src/macfile.c on a stream whose last line ends with a newline, or that ends in
-- a read error.
use wake_on_lan.Base.{
  ℕ, zero, suc, ◌+◌, ◌<◌, ◌≡◌, refl, ◌⊎◌, inl, inr, Bool, true, false, ◌||◌, Option, none, some, [],
  ◌==◌, if◌then◌else◌, arith, length, Bool-cases, Text,
}
use wake_on_lan.Stream.{Stream, line, getline, c_string}
use wake_on_lan.Macfile.{
  Locals, Entry, Parsed, failed, parsed, get_tokens, finish, parse_loop, macfile_parse, unset,
}
use wake_on_lan.Macfile.Parse.{
  Line-cases, parse_loop_ended, parse_loop_no_line, parse_loop_skip, parse_loop_take,
  macfile_parse_total,
}

-- A read error was met, or nothing stands behind the last newline but the end or a read error, and
-- there are fewer lines than a bound.
abbrev pub IsTerminated : ℕ → Stream → Type 0
IsTerminated n st =
    (st.ferror ≡ true)
    ⊎ ((st.feof ≡ false) × ((st.rest ≡ []) ⊎ (st.broken ≡ true)) × (length st.lines < n))

-- An entry leaves such a stream with fewer lines.
abbrev pub Shrinks : ℕ → Parsed → Type 0
Shrinks n (failed port st) = Unit
Shrinks zero (parsed entry st) = ⊥
Shrinks (suc n) (parsed entry st) = IsTerminated n st

getline-IsTerminated :
    (n : ℕ) (st st' : Stream) (s : Text)
    → getline st ≡ line s st'
    → (st.feof || st.ferror) ≡ false
    → IsTerminated (suc n) st
    → IsTerminated n st'
unfolding getline
getline-IsTerminated n st st' s g e t = ground arith

finish-Shrinks :
    (n tokens : ℕ) (l : Locals) (st : Stream)
    → IsTerminated n st
    → Shrinks (suc n) (finish tokens l st)
unfolding finish
finish-Shrinks n tokens l st t = chosen _ st.ferror
  where
    chosen :
        (entry : Entry) (b : Bool)
        → Shrinks (suc n) (if b then failed l.port st else parsed entry st)
    chosen entry true = tt
    chosen entry false = t

finish-broken :
    (n tokens : ℕ) (l : Locals) (st : Stream) → st.ferror ≡ true → Shrinks n (finish tokens l st)
unfolding finish
finish-broken n tokens l st e = simp (e) tt

weaken : (n : ℕ) (st : Stream) → IsTerminated n st → IsTerminated (suc n) st
weaken n st t = ground arith

abbrev Stays : ℕ → Option Parsed → Type 0
Stays n none = Unit
Stays n (some r) = Shrinks n r

parse_loop-Stays :
    (n fuel : ℕ) (st : Stream) (l : Locals)
    → IsTerminated (suc n) st
    → Stays (suc n) (parse_loop fuel st l)
unfolding parse_loop
parse_loop-Stays n zero st l t = tt
parse_loop-Stays n (suc fuel) st l t = elim (Bool-cases (st.feof || st.ferror)) [
  | inl e ↦
      let broken : st.ferror ≡ true = ground arith in
      rw (parse_loop_ended fuel st l e) (finish-broken (suc n) 0 l st broken)
  | inr e ↦ elim (Line-cases (getline st)) [
    | inl (st', g) ↦ rw (parse_loop_no_line fuel st l e st' g) tt
    | inr (s, st', g) ↦
        let got = get_tokens (c_string s) l in
        let t' = getline-IsTerminated n st st' s g e t in
        elim (Bool-cases (got.0 == 0)) [
          | inl z ↦
              let zero_tokens : got.0 ≡ 0 = ground arith in
              rw (parse_loop_skip fuel st l e st' s got.1 g (λ i. (zero_tokens i, got.1)))
                (parse_loop-Stays n fuel st' got.1 (weaken n st' t'))
          | inr z ↦
              rw (parse_loop_take fuel st l e st' s got.0 got.1 g refl z)
                (finish-Shrinks n got.0 got.1 st' t')
        ]
  ]
]

parse_loop-broken :
    (n fuel : ℕ) (st : Stream) (l : Locals) → st.ferror ≡ true → Stays n (parse_loop fuel st l)
unfolding parse_loop
parse_loop-broken n zero st l e = tt
parse_loop-broken n (suc fuel) st l e =
    let met : (st.feof || st.ferror) ≡ true = ground arith in
    rw (parse_loop_ended fuel st l met) (finish-broken n 0 l st e)

macfile_parse-Stays :
    (n fuel : ℕ) (st : Stream) → IsTerminated n st → Stays n (parse_loop fuel st unset)
macfile_parse-Stays zero fuel st (inl e) = parse_loop-broken 0 fuel st unset e
macfile_parse-Stays zero fuel st (inr (f, r, lt)) = absurd (omega arith)
macfile_parse-Stays (suc n) fuel st t = parse_loop-Stays n fuel st unset t

-- On a stream whose last line ends with a newline, or that ends in a read error, `macfile_parse`
-- returns, and behind an entry there are fewer lines, of which the same holds.
pub macfile_parse-Shrinks :
    (n : ℕ) (st : Stream)
    → IsTerminated n st
    → (r : Parsed) × (macfile_parse st ≡ some r) × Shrinks n r
unfolding macfile_parse
macfile_parse-Shrinks n st t =
    let (r, e) = macfile_parse_total st in
    let k = macfile_parse-Stays n (length st.lines + 2) st t in (r, e, rw e at k)
