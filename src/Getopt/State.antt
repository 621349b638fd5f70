-- ===== src/Getopt/State.antt =====
-- The data of lib/getopt.c between two calls, the environment's part in it, and what moves in argv.
use wake_on_lan.Base.{
  ℕ, suc, ◌+◌, ◌-◌, Bool, true, false, not, ◌&&◌, ◌||◌, Option, none, some, List, [], ◌∷◌, length,
  get_elem?, drop, ltb, ◌==◌, if◌then◌else◌, Text,
}
use wake_on_lan.Getopt.Exchange.{exchange_loop}

pub data Ordering : Type 0 where
  require_order permute return_in_order : Ordering

-- The diagnostics, each with the text that it quotes.
pub data Message : Type 0 where
  ambiguous extra_argument missing_argument unrecognized : Text → Message
  illegal_option invalid_option option_needs_argument : ℕ → Message
  ambiguous_w extra_argument_w : Text → Message

-- `struct _getopt_data`, with argv, `*longind`, the stores through flags, and what was printed.
pub record Data : Type 0 where
  pub argv : List Text
  pub optind : ℕ
  pub opterr : Bool
  pub optopt : ℕ
  pub optarg : Option Text
  pub initialized : Bool
  pub nextchar : Option Text
  pub ordering : Ordering
  pub posixly_correct : Bool
  pub first_nonopt : ℕ
  pub last_nonopt : ℕ
  pub longind : ℕ
  pub flags : List (ℕ × ℕ)
  pub messages : List Message

abbrev pub argc : Data → ℕ
argc d = length d.argv

abbrev pub arg : Data → ℕ → Text
arg d i = elim (get_elem? d.argv i) [ none ↦ [] | some s ↦ s ]

-- The character at an index of a string, whose end is a zero.
abbrev pub char_at : Text → ℕ → ℕ
char_at s i = elim (get_elem? s i) [ none ↦ 0 | some c ↦ c ]

-- `strchr`: the text from a character on; it is empty where there is none.
unfoldable pub from_char : ℕ → Text → Text
from_char c [] = []
from_char c (d ∷ s) = if c == d then d ∷ s else from_char c s

abbrev pub has_char : ℕ → Text → Bool
has_char c [] = false
has_char c (d ∷ s) = c == d || has_char c s

unfoldable pub exchange : Data → Data
exchange d = record d {
  argv = exchange_loop (d.optind - d.first_nonopt) d.first_nonopt d.last_nonopt d.optind d.argv;
  first_nonopt = d.first_nonopt + (d.optind - d.last_nonopt);
  last_nonopt = d.optind;
}

-- `_getopt_initialize`; the environment is asked for POSIXLY_CORRECT.
unfoldable pub ordering_of : Bool → Text → Ordering
ordering_of posixly optstring =
    if char_at optstring 0 == b'-'
    then return_in_order
    else if char_at optstring 0 == b'+'
    then require_order
    else if posixly
    then require_order
    else permute

unfoldable pub getopt_initialize : Bool → Text → Data → Data × Text
getopt_initialize posixly optstring d = (
  record d {
    first_nonopt = d.optind;
    last_nonopt = d.optind;
    nextchar = none;
    posixly_correct = posixly;
    ordering = ordering_of posixly optstring;
    initialized = true;
  },
  if char_at optstring 0 == b'-' || char_at optstring 0 == b'+'
      then drop 1 optstring
      else optstring,
)

-- `NONOPTION_P`
abbrev pub is_nonoption : Text → Bool
is_nonoption s = not (char_at s 0 == b'-') || char_at s 1 == 0

-- The loop `while (optind < argc && NONOPTION_P)`, over the strings from `optind` on.
unfoldable pub count_nonoptions : List Text → ℕ
count_nonoptions [] = 0
count_nonoptions (s ∷ ss) = if is_nonoption s then suc (count_nonoptions ss) else 0

abbrev pub no_more : Option Text → Bool
no_more none = true
no_more (some []) = true
no_more (some (c ∷ s)) = false

-- The values of FIRST_NONOPT and LAST_NONOPT, where the caller has moved OPTIND back.
unfoldable pub clamp : Data → Data
clamp d =
    let e = if ltb d.optind d.last_nonopt then record d { last_nonopt = d.optind } else d in
    if ltb e.optind e.first_nonopt then record e { first_nonopt = e.optind } else e

-- The options behind skipped non-options are moved before them.
unfoldable pub gather : Data → Data
gather d =
    if not (d.first_nonopt == d.last_nonopt) && not (d.last_nonopt == d.optind)
    then exchange d
    else if not (d.last_nonopt == d.optind)
    then record d { first_nonopt = d.optind }
    else d

unfoldable pub skip_nonoptions : Data → Data
skip_nonoptions d =
    let i = d.optind + count_nonoptions (drop d.optind d.argv) in
    record d { optind = i; last_nonopt = i }

-- The argument `--`, which ends the options.
unfoldable pub end_options : Data → Data
end_options d =
    let e = record d { optind = d.optind + 1 } in
    let moved =
      if not (e.first_nonopt == e.last_nonopt) && not (e.last_nonopt == e.optind)
      then exchange e
      else if e.first_nonopt == e.last_nonopt
      then record e { first_nonopt = e.optind }
      else e in
    record moved { last_nonopt = argc moved; optind = argc moved }

abbrev pub is_dashes : Text → Bool
is_dashes s = char_at s 0 == b'-' && (char_at s 1 == b'-' && char_at s 2 == 0)
