-- ===== src/Macfile/Parse.antt =====
-- The loop of `macfile_parse` in src/macfile.c: it ends, it skips what it does not take, and it
-- gives the next entry, or none, or, behind a last line without a newline, one that was not read.
use wake_on_lan.Base.{
  ℕ, zero, suc, ◌≡◌, ◌≤◌, ◌<◌, refl, ◌∙◌, true, false, ◌||◌, none, some, length, arith, ◌==◌,
  if◌then◌else◌, Text, Bool-cases, inl, inr, ◌⊎◌,
}
use wake_on_lan.Stream.{Stream, Line, no_line, line, getline, c_string}
use wake_on_lan.Macfile.{
  indeterminate, Locals, Entry, Parsed, failed, get_tokens, finish, parse_loop, unset,
  macfile_parse,
}

module _ (fuel : ℕ) (st : Stream) (l : Locals) where
  pub parse_loop_ended :
      (st.feof || st.ferror) ≡ true → parse_loop (suc fuel) st l ≡ some (finish 0 l st)
  unfolding parse_loop
  parse_loop_ended e = rw e

  module _ (e : (st.feof || st.ferror) ≡ false) (st' : Stream) where
    pub parse_loop_no_line :
        getline st ≡ no_line st' → parse_loop (suc fuel) st l ≡ some (failed l.port st')
    unfolding parse_loop
    parse_loop_no_line g = rw e (rw g)

    pub parse_loop_skip :
        (s : Text) (l' : Locals)
        → getline st ≡ line s st'
        → get_tokens (c_string s) l ≡ (0, l')
        → parse_loop (suc fuel) st l ≡ parse_loop fuel st' l'
    unfolding parse_loop
    parse_loop_skip s l' g t = rw e (rw g (rw t))

    pub parse_loop_take :
        (s : Text) (tokens : ℕ) (l' : Locals)
        → getline st ≡ line s st'
        → get_tokens (c_string s) l ≡ (tokens, l')
        → (tokens == 0) ≡ false
        → parse_loop (suc fuel) st l ≡ some (finish tokens l' st')
    unfolding parse_loop
    parse_loop_take s tokens l' g t z = rw e (rw g (rw t (rw z)))

-- The rounds that are left to the loop: none once a flag is set.
abbrev rounds : Stream → ℕ
rounds st = if st.feof || st.ferror then 0 else suc (length st.lines)

getline-rounds :
    (st st' : Stream) (s : Text)
    → (st.feof || st.ferror) ≡ false
    → getline st ≡ line s st'
    → rounds st' < rounds st
unfolding getline
getline-rounds st st' s e g = ground arith

pub Line-cases :
    (r : Line) → ((st : Stream) × (r ≡ no_line st)) ⊎ ((s : Text) × (st : Stream) × (r ≡ line s st))
Line-cases (no_line st) = inl (st, refl)
Line-cases (line s st) = inr (s, st, refl)

-- One round returns if every later one does.
round_total :
    (fuel : ℕ) (st : Stream) (l : Locals)
    → ((st' : Stream) (l' : Locals)
        → rounds st' < rounds st
        → (r : Parsed) × (parse_loop fuel st' l' ≡ some r))
    → (r : Parsed) × (parse_loop (suc fuel) st l ≡ some r)
round_total fuel st l later = elim (Bool-cases (st.feof || st.ferror)) [
  | inl e ↦ (_, parse_loop_ended fuel st l e)
  | inr e ↦ elim (Line-cases (getline st)) [
    | inl (st', g) ↦ (_, parse_loop_no_line fuel st l e st' g)
    | inr (s, st', g) ↦
        let got = get_tokens (c_string s) l in
        elim (Bool-cases (got.0 == 0)) [
          | inl z ↦
              let zero_tokens : got.0 ≡ 0 = ground arith in
              let (r, h) = later st' got.1 (getline-rounds st st' s e g) in
              (r, parse_loop_skip fuel st l e st' s got.1 g (λ i. (zero_tokens i, got.1)) ∙ h)
          | inr z ↦ (_, parse_loop_take fuel st l e st' s got.0 got.1 g refl z)
        ]
  ]
]

parse_loop_total :
    (fuel : ℕ) (st : Stream) (l : Locals)
    → rounds st < fuel
    → (r : Parsed) × (parse_loop fuel st l ≡ some r)
parse_loop_total zero st l h = absurd (omega arith)
parse_loop_total (suc fuel) st l h =
    round_total fuel st l (λ st' l' lt. parse_loop_total fuel st' l' (omega arith))

rounds-le : (st : Stream) → rounds st ≤ suc (length st.lines)
rounds-le st = ground arith

-- The fuel suffices for every stream: the call returns.
pub macfile_parse_total : (st : Stream) → (r : Parsed) × (macfile_parse st ≡ some r)
unfolding macfile_parse
macfile_parse_total st = parse_loop_total _ st unset (omega (arith, rounds-le st))

-- Behind the end of the input the call succeeds all the same, with arrays that nothing has filled.
abbrev pub unread : Entry
unread = record {
  mac = indeterminate;
  host = indeterminate;
  port = 0;
  passwd = none;
  overflow = false;
}
