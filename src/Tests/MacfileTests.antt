-- ===== src/Tests/MacfileTests.antt =====
-- src/macfile.c at concrete inputs.
use wake_on_lan.Base.{
  all_pass-All, is_space, ℕ, ◌≡◌, ◌≢◌, refl, some, List, [], ◌∷◌, ◌++◌, codes, Text, true, false,
  arith,
}
use wake_on_lan.Scan.Decimal.{is_digit}
use wake_on_lan.Stream.{Stream, c_string}
use wake_on_lan.Macfile.{
  Parsed, parsed, get_tokens, macfile_parse, unset, is_mac_char, is_host_char, is_pass_char,
}
use wake_on_lan.Macfile.Attempts.{IsIgnored}
use wake_on_lan.Macfile.Entries.{Wanted, IsWanted, Spacing, IsSpacing}
use wake_on_lan.Macfile.Written.{get_tokens-written, filled}
use wake_on_lan.Macfile.Parse.{macfile_parse_total, unread}
use wake_on_lan.Macfile.Next.{Skips, entry_of, macfile_parse-written}
use wake_on_lan.Macfile.End.{macfile_parse_no_newline}

abbrev pub lab : Wanted
lab = record {
  mac = codes "00:11:22:aB:4:55";
  host = codes "lab-1.example.org";
  port = some (codes "4000");
  passwd = some (codes "1-2-3-4-5-6");
}

cons-ne-nil : (c : ℕ) (s : Text) → c ∷ s ≢ []
cons-ne-nil c s e = cc

pub lab-IsWanted : IsWanted lab
lab-IsWanted = record {
  mac = record {
    all = all_pass-All is_mac_char lab.mac refl;
    ne_nil = cons-ne-nil _ _;
    allowed = omega arith;
  };
  host = record {
    all = all_pass-All is_host_char lab.host refl;
    ne_nil = cons-ne-nil _ _;
    allowed = tt;
  };
  port = record {
    digits = all_pass-All is_digit (codes "4000") refl;
    ne_nil = cons-ne-nil _ _;
    short = omega arith;
  };
  passwd = record {
    all = all_pass-All is_pass_char (codes "1-2-3-4-5-6") refl;
    ne_nil = cons-ne-nil _ _;
    allowed = omega arith;
  };
}

abbrev pub spacing : Spacing
spacing = record { lead = codes "  "; gap = codes " "; second = codes " "; tail = [] }

pub spacing-IsSpacing : IsSpacing spacing
spacing-IsSpacing = record {
  lead = all_pass-All is_space spacing.lead refl;
  gap = all_pass-All is_space spacing.gap refl;
  gap_ne_nil = cons-ne-nil _ _;
  second = all_pass-All is_space spacing.second refl;
  second_ne_nil = cons-ne-nil _ _;
  tail = tt;
}

abbrev pub lab_line : Text
lab_line = codes "  00:11:22:aB:4:55 lab-1.example.org:4000 1-2-3-4-5-6"

get_tokens-written_example : get_tokens lab_line unset ≡ (15, filled lab unset)
get_tokens-written_example = get_tokens-written spacing lab unset spacing-IsSpacing lab-IsWanted

abbrev pub comments : List Text
comments = codes "# machines" ∷ [] ∷ codes "   " ∷ []

pub comments-Skips : Skips comments
unfolding c_string
comments-Skips = (refl, (tt, (tt, tt)))

abbrev pub opened : List Text → Text → Stream
opened lines rest = record {
  lines = lines;
  rest = rest;
  broken = false;
  feof = false;
  ferror = false;
}

abbrev at_eof : Stream
at_eof = record { lines = []; rest = []; broken = false; feof = true; ferror = false }

macfile_parse_total_example : (r : Parsed) × (macfile_parse (opened comments lab_line) ≡ some r)
macfile_parse_total_example = macfile_parse_total (opened comments lab_line)

macfile_parse-written_example :
    macfile_parse (opened (comments ++ (lab_line ∷ comments)) [])
    ≡ some (parsed (entry_of lab) (opened comments []))
macfile_parse-written_example =
    macfile_parse-written (opened (comments ++ (lab_line ∷ comments)) []) comments comments spacing
      lab refl refl comments-Skips spacing-IsSpacing lab-IsWanted

IsIgnored-rest : IsIgnored (c_string (codes "# end"))
unfolding c_string
IsIgnored-rest = refl

macfile_parse_no_newline_example :
    (macfile_parse (opened comments lab_line) ≡ some (parsed (entry_of lab) at_eof))
    × (macfile_parse at_eof ≡ some (parsed unread at_eof))
macfile_parse_no_newline_example =
    macfile_parse_no_newline (opened comments lab_line) spacing lab refl refl comments-Skips refl
      spacing-IsSpacing lab-IsWanted
