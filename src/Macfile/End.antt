-- ===== src/Macfile/End.antt =====
-- What `macfile_parse` of src/macfile.c does at the end of a stream.
use wake_on_lan.Base.{
  ℕ, suc, sym, ◌+◌, ◌≡◌, ◌≢◌, refl, ap, ◌∙◌, true, false, ◌||◌, some, [], ◌∷◌, ◌++◌, append-nil,
  length, arith, Text,
}
use wake_on_lan.Stream.{Stream, line, ended, getline, c_string}
use wake_on_lan.Macfile.{failed, parsed, finish, parse_loop, unset, macfile_parse}
use wake_on_lan.Macfile.Attempts.{IsIgnored, get_tokens-IsIgnored}
use wake_on_lan.Macfile.Entries.{Wanted, IsWanted, Spacing, IsSpacing, written}
use wake_on_lan.Macfile.Bytes.{c_string-All, written-chars}
use wake_on_lan.Macfile.Written.{get_tokens-written, tokens_of, filled}
use wake_on_lan.Macfile.Parse.{
  parse_loop_ended, parse_loop_no_line, parse_loop_skip, parse_loop_take, unread,
}
use wake_on_lan.Macfile.Next.{Skips, parse_loop-Skips, entry_of, finish_lem, tokens_ne_zero}

abbrev at_rest : Stream → Stream
at_rest st = record st { lines = [] }

-- The complete lines are all ignored: the loop comes to what is behind the last newline.
macfile_parse-at_rest :
    (st : Stream)
    → (st.feof || st.ferror) ≡ false
    → Skips st.lines
    → macfile_parse st ≡ parse_loop 2 (at_rest st) unset
unfolding macfile_parse
macfile_parse-at_rest st e k =
    parse_loop-Skips st.lines [] 2 (length st.lines + 2) st unset e (sym (append-nil st.lines)) k
      refl

-- Where only ignored lines are left, each ended by its newline, the call returns -1, with 0 in the
-- port, and the stream is at its end.
pub macfile_parse-Skips :
    (st : Stream)
    → (st.feof || st.ferror) ≡ false
    → Skips st.lines
    → st.rest ≡ []
    → macfile_parse st ≡ some (failed 0 (ended (at_rest st)))
macfile_parse-Skips st e k h =
    macfile_parse-at_rest st e k
    ∙ parse_loop_no_line 1 (at_rest st) unset e (ended (at_rest st)) (unfold getline in rw h)

-- On a stream at its end, the call returns 0, with copies of arrays that it never filled.
pub macfile_parse_feof :
    (st : Stream) → st.feof ≡ true → st.ferror ≡ false → macfile_parse st ≡ some (parsed unread st)
unfolding macfile_parse finish
macfile_parse_feof st e f =
    rw (add-two (length st.lines)) (parse_loop_ended (length st.lines + 1) st unset (rw e) ∙ rw f)
  where
    add-two : (n : ℕ) → n + 2 ≡ suc (n + 1)
    add-two n = omega arith

-- A text behind the last newline is read, and the end of the input with it.
getline_rest :
    (st : Stream) → st.rest ≢ [] → getline (at_rest st) ≡ line st.rest (ended (at_rest st))
unfolding getline
getline_rest st h = ground arith

-- Where nothing that a format takes is left, but a last line without a newline is, the call
-- returns 0 as well, with copies of arrays that it never filled.
pub macfile_parse_unfinished :
    (st : Stream)
    → (st.feof || st.ferror) ≡ false
    → st.broken ≡ false
    → Skips st.lines
    → st.rest ≢ []
    → IsIgnored (c_string st.rest)
    → macfile_parse st ≡ some (parsed unread (ended (at_rest st)))
macfile_parse_unfinished st e b k ne ig =
    macfile_parse-at_rest st e k
    ∙ parse_loop_skip 1 (at_rest st) unset e (ended (at_rest st)) st.rest unset (getline_rest st ne)
        (get_tokens-IsIgnored _ unset ig)
    ∙ parse_loop_ended 0 (ended (at_rest st)) unset (rw b)
    ∙ unfold finish in rw b

append-ne-nil_left : (xs ys : Text) → xs ≢ [] → xs ++ ys ≢ []
append-ne-nil_left [] ys h e = h refl
append-ne-nil_left (x ∷ xs) ys h e = cc

append-ne-nil_right : (xs ys : Text) → ys ≢ [] → xs ++ ys ≢ []
append-ne-nil_right [] ys h e = h e
append-ne-nil_right (x ∷ xs) ys h e = cc

written-ne-nil : (g : Spacing) (w : Wanted) → IsWanted w → written g w ≢ []
written-ne-nil g w h = append-ne-nil_right g.lead _ (append-ne-nil_left w.mac _ h.mac.ne_nil)

-- A last line that is written as the format asks, but not ended by a newline, is given like any
-- other; the call after it returns 0 once more, with copies of arrays that it never filled.
pub macfile_parse_no_newline :
    (st : Stream) (g : Spacing) (w : Wanted)
    → (st.feof || st.ferror) ≡ false
    → st.broken ≡ false
    → Skips st.lines
    → st.rest ≡ written g w
    → IsSpacing g
    → IsWanted w
    → (macfile_parse st ≡ some (parsed (entry_of w) (ended (at_rest st))))
      × (macfile_parse (ended (at_rest st)) ≡ some (parsed unread (ended (at_rest st))))
macfile_parse_no_newline st g w e b k h s hw = (
  macfile_parse-at_rest st e k
      ∙ parse_loop_take 1 (at_rest st) unset e (ended (at_rest st)) st.rest
          (tokens_of w.port w.passwd) (filled w unset)
          (getline_rest st (rw h (written-ne-nil g w hw)))
          (rw (h, c_string-All _ (written-chars g s w hw)) (get_tokens-written g w unset s hw))
          (tokens_ne_zero w.port w.passwd)
      ∙ ap some (finish_lem w w.port w.passwd (ended (at_rest st)) b),
  macfile_parse_feof (ended (at_rest st)) (rw b) b,
)
