-- ===== src/Macfile/Fitting.antt =====
-- `macfile_parse` of src/macfile.c on a stream whose hosts fit the array `host`.
use wake_on_lan.Base.{
  ℕ, zero, suc, ◌+◌, ◌≡◌, ◌<◌, refl, inl, inr, Bool, true, false, ◌||◌, Option, none, some, List,
  [], ◌∷◌, ◌++◌, ◌==◌, if◌then◌else◌, length, arith, Bool-cases, Text,
}
use wake_on_lan.Stream.{Stream, Line, no_line, line, getline, c_string}
use wake_on_lan.Macfile.{
  host_size, overruns, Locals, Entry, Parsed, failed, parsed, get_tokens, finish, parse_loop,
  macfile_parse, unset,
}
use wake_on_lan.Macfile.Attempts.{IsIgnored, get_tokens-IsIgnored}
use wake_on_lan.Macfile.Entries.{Wanted, IsWanted, Spacing, IsSpacing, written}
use wake_on_lan.Macfile.Next.{Skips, get_tokens_line}
use wake_on_lan.Macfile.Parse.{
  Line-cases, parse_loop_ended, parse_loop_no_line, parse_loop_skip, parse_loop_take,
}

-- No conversion of the line stores behind the end of its array.
abbrev pub Fits : Text → Type 0
Fits s = (l : Locals) → l.overflow ≡ false → (get_tokens (c_string s) l).1.overflow ≡ false

pub ignored-Fits : (s : Text) → IsIgnored (c_string s) → Fits s
ignored-Fits s k l e = rw (get_tokens-IsIgnored (c_string s) l k) e

-- A written line whose host has fewer than 255 characters.
pub written-Fits :
    (g : Spacing) (w : Wanted)
    → IsSpacing g
    → IsWanted w
    → length w.host < host_size
    → Fits (written g w ++ (b'\n' ∷ []))
written-Fits g w s h lt l e =
    let short : overruns host_size w.host ≡ false = ground arith in
    rw (get_tokens_line g w l s h) (rw (e, short) refl)

abbrev pub AllFit : List Text → Text → Type 0
AllFit [] rest = Fits rest
AllFit (s ∷ ss) rest = Fits (s ++ (b'\n' ∷ [])) × AllFit ss rest

abbrev pub HostsFit : Stream → Type 0
HostsFit st = AllFit st.lines st.rest

-- An entry was stored within the arrays, and so will be what follows.
abbrev pub Within : Parsed → Type 0
Within (failed port st) = Unit
Within (parsed entry st) = (entry.overflow ≡ false) × HostsFit st

abbrev Stays : Option Parsed → Type 0
Stays none = Unit
Stays (some r) = Within r

pub empty-Fits : Fits []
unfolding c_string
empty-Fits = ignored-Fits [] tt

abbrev LineFits : Line → Type 0
LineFits (no_line st) = Unit
LineFits (line s st) = Fits s × HostsFit st

getline-LineFits : (st : Stream) → HostsFit st → LineFits (getline st)
unfolding getline
getline-LineFits st f = go st.lines st.rest st.broken st.feof st.ferror f
  where
    go :
        (lines : List Text) (rest : Text) (broken feof ferror : Bool)
        → AllFit lines rest
        → LineFits (
            getline (record {
              lines = lines;
              rest = rest;
              broken = broken;
              feof = feof;
              ferror = ferror;
            }))
    go [] [] broken feof ferror f = tt
    go [] (c ∷ rest) broken feof ferror f = (f, empty-Fits)
    go (s ∷ ss) rest broken feof ferror f = f

getline-HostsFit :
    (st st' : Stream) (s : Text) → getline st ≡ line s st' → HostsFit st → Fits s × HostsFit st'
getline-HostsFit st st' s g f = let k = getline-LineFits st f in rw g at k

finish-Within :
    (tokens : ℕ) (l : Locals) (st : Stream)
    → l.overflow ≡ false
    → HostsFit st
    → Within (finish tokens l st)
unfolding finish
finish-Within tokens l st e f = chosen _ st.ferror e
  where
    chosen :
        (entry : Entry) (b : Bool)
        → entry.overflow ≡ false
        → Within (if b then failed l.port st else parsed entry st)
    chosen entry true k = tt
    chosen entry false k = (k, f)

parse_loop-Stays :
    (fuel : ℕ) (st : Stream) (l : Locals)
    → l.overflow ≡ false
    → HostsFit st
    → Stays (parse_loop fuel st l)
unfolding parse_loop
parse_loop-Stays zero st l k f = tt
parse_loop-Stays (suc fuel) st l k f = elim (Bool-cases (st.feof || st.ferror)) [
  | inl e ↦ rw (parse_loop_ended fuel st l e) (finish-Within 0 l st k f)
  | inr e ↦ elim (Line-cases (getline st)) [
    | inl (st', g) ↦ rw (parse_loop_no_line fuel st l e st' g) tt
    | inr (s, st', g) ↦
        let got = get_tokens (c_string s) l in
        let (fits, f') = getline-HostsFit st st' s g f in
        elim (Bool-cases (got.0 == 0)) [
          | inl z ↦
              let zero_tokens : got.0 ≡ 0 = ground arith in
              rw (parse_loop_skip fuel st l e st' s got.1 g (λ i. (zero_tokens i, got.1)))
                (parse_loop-Stays fuel st' got.1 (fits l k) f')
          | inr z ↦
              rw (parse_loop_take fuel st l e st' s got.0 got.1 g refl z)
                (finish-Within got.0 got.1 st' (fits l k) f')
        ]
  ]
]

-- Behind what `macfile_parse` returns on such a stream.
pub macfile_parse-Within :
    (st : Stream) (r : Parsed) → HostsFit st → macfile_parse st ≡ some r → Within r
unfolding macfile_parse
macfile_parse-Within st r f e =
    let k = parse_loop-Stays (length st.lines + 2) st unset refl f in rw e at k

-- Lines that are ignored fit, and so do those before which they stand.
pub AllFit-Skips :
    (skipped more : List Text) (rest : Text)
    → Skips skipped
    → AllFit more rest
    → AllFit (skipped ++ more) rest
AllFit-Skips [] more rest k f = f
AllFit-Skips (s ∷ ss) more rest k f =
    (ignored-Fits (s ++ (b'\n' ∷ [])) k.0, AllFit-Skips ss more rest k.1 f)
