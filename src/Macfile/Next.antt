-- ===== src/Macfile/Next.antt =====
-- What `macfile_parse` of src/macfile.c finds next in a stream.
use wake_on_lan.Base.{
  ℕ, zero, suc, ◌+◌, ◌≡◌, refl, ap, ◌∙◌, false, ◌||◌, Option, none, some, List, [], ◌∷◌, ◌++◌,
  append_assoc, length, length-append, arith, ◌==◌, Text, is_space,
}
use wake_on_lan.Stream.{Stream, getline, c_string}
use wake_on_lan.Macfile.{
  Buffer, holds, Locals, Entry, parsed, get_tokens, finish, parse_loop, unset, macfile_parse,
  overruns, host_size,
}
use wake_on_lan.Macfile.Attempts.{IsIgnored, get_tokens-IsIgnored}
use wake_on_lan.Macfile.Entries.{Wanted, IsWanted, Spacing, IsSpacing, written, port_part}
use wake_on_lan.Macfile.Bytes.{All-append, c_string-All, written-chars}
use wake_on_lan.Macfile.Written.{get_tokens-written, tokens_of, number_or, filled}
use wake_on_lan.Macfile.Parse.{parse_loop_skip, parse_loop_take}

-- Lines of which each, with its newline, is ignored.
abbrev pub Skips : List Text → Type 0
Skips [] = Unit
Skips (s ∷ ss) = IsIgnored (c_string (s ++ (b'\n' ∷ []))) × Skips ss

pub parse_loop-Skips :
    (skipped more : List Text) (fuel n : ℕ) (st : Stream) (l : Locals)
    → (st.feof || st.ferror) ≡ false
    → st.lines ≡ skipped ++ more
    → Skips skipped
    → n ≡ length skipped + fuel
    → parse_loop n st l ≡ parse_loop fuel (record st { lines = more }) l
parse_loop-Skips [] more fuel n st l e h k q =
    let same : n ≡ fuel = omega arith in
    rw same (ap (λ ls. parse_loop fuel (record st { lines = ls }) l) h)
parse_loop-Skips (s ∷ ss) more fuel zero st l e h k q = absurd (omega arith)
parse_loop-Skips (s ∷ ss) more fuel (suc n) st l e h k q =
    let st' = record st { lines = ss ++ more } in
    parse_loop_skip n st l e st' (s ++ (b'\n' ∷ [])) l (unfold getline in rw h)
      (get_tokens-IsIgnored _ l k.0)
    ∙ parse_loop-Skips ss more fuel n st' l e refl k.1 (omega arith)

written-append :
    (g : Spacing) (w : Wanted) (x : Text)
    → written g w ++ x ≡ written (record g { tail = g.tail ++ x }) w
written-append g w x = simp append_assoc (parts w.port w.passwd)
  where
    parts :
        (port passwd : Option Text)
        → g.lead ++ (w.mac ++ (g.gap ++ (w.host ++ (port_part g port passwd ++ x))))
          ≡ g.lead
            ++ (w.mac
                ++ (g.gap ++ (w.host ++ port_part (record g { tail = g.tail ++ x }) port passwd)))
    parts none none = refl
    parts (some t) none = simp append_assoc
    parts none (some p) = simp append_assoc
    parts (some t) (some p) = simp append_assoc

-- With its newline, a written line is written, its newline part of the white space at its end.
end_line : Spacing → Spacing
end_line g = record g { tail = g.tail ++ (b'\n' ∷ []) }

end_line-IsSpacing : (g : Spacing) → IsSpacing g → IsSpacing (end_line g)
unfolding end_line
end_line-IsSpacing g s = record {
  lead = s.lead;
  gap = s.gap;
  gap_ne_nil = s.gap_ne_nil;
  second = s.second;
  second_ne_nil = s.second_ne_nil;
  tail = All-append is_space g.tail (b'\n' ∷ []) s.tail (refl, tt);
}

pub get_tokens_line :
    (g : Spacing) (w : Wanted) (l : Locals)
    → IsSpacing g
    → IsWanted w
    → get_tokens (c_string (written g w ++ (b'\n' ∷ []))) l
      ≡ (tokens_of w.port w.passwd, filled w l)
unfolding end_line
get_tokens_line g w l s h =
    let s' = end_line-IsSpacing g s in
    rw (written-append g w (b'\n' ∷ []), c_string-All _ (written-chars (end_line g) s' w h))
      (get_tokens-written (end_line g) w l s' h)

abbrev held : Option Text → Option Buffer
held none = none
held (some p) = some (holds p)

-- The entry that a line names; its port is 0 where the line has none.
abbrev pub entry_of : Wanted → Entry
entry_of w = record {
  mac = holds w.mac;
  host = holds w.host;
  port = number_or w.port 0;
  passwd = held w.passwd;
  overflow = overruns host_size w.host;
}

pub finish_lem :
    (w : Wanted) (port passwd : Option Text) (st : Stream)
    → st.ferror ≡ false
    → finish (tokens_of port passwd) (filled (record w { port = port; passwd = passwd }) unset) st
      ≡ parsed (entry_of (record w { port = port; passwd = passwd })) st
unfolding finish
finish_lem w none none st e = rw e
finish_lem w (some t) none st e = rw e
finish_lem w none (some p) st e = rw e
finish_lem w (some t) (some p) st e = rw e

pub tokens_ne_zero : (port passwd : Option Text) → (tokens_of port passwd == 0) ≡ false
tokens_ne_zero none none = refl
tokens_ne_zero (some t) none = refl
tokens_ne_zero none (some p) = refl
tokens_ne_zero (some t) (some p) = refl

-- From a stream that is not at its end, the call skips every line that is ignored, and gives the
-- entry of the first line that is written as the format asks; it reads no further.
pub macfile_parse-written :
    (st : Stream) (skipped more : List Text) (g : Spacing) (w : Wanted)
    → (st.feof || st.ferror) ≡ false
    → st.lines ≡ skipped ++ (written g w ∷ more)
    → Skips skipped
    → IsSpacing g
    → IsWanted w
    → macfile_parse st ≡ some (parsed (entry_of w) (record st { lines = more }))
unfolding macfile_parse
macfile_parse-written st skipped more g w e h k s hw =
    let here = record st { lines = written g w ∷ more } in
    let fuel = length more + 2 in
    parse_loop-Skips skipped (written g w ∷ more) (suc fuel) _ st unset e h k
      (rw h (omega (arith, length-append skipped (written g w ∷ more))))
    ∙ parse_loop_take fuel here unset e (record st { lines = more }) (written g w ++ (b'\n' ∷ []))
        (tokens_of w.port w.passwd) (filled w unset) (unfold getline in refl)
        (get_tokens_line g w unset s hw) (tokens_ne_zero w.port w.passwd)
    ∙ ap some (finish_lem w w.port w.passwd (record st { lines = more }) (ground arith))
