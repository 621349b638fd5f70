-- ===== src/Getopt.antt =====
-- lib/getopt.c and lib/getopt1.c: `getopt_long`, as it is built outside of the GNU C library. argv is a
-- list of strings, a pointer into one of them is the rest of the string from there on, and a char is
-- unsigned. A result of -1 is `none`. What is printed, and what is stored through the `flag` of a
-- long option, is recorded.
pub mod Exchange
pub mod Exchanged
pub mod Long
pub mod State
pub mod Advance
pub mod Decode
pub mod Ends
pub mod Decoded
pub mod Shorts
pub mod Advanced
pub mod Settled
use wake_on_lan.Base.{
  ℕ, zero, suc, ◌+◌, ◌-◌, Bool, true, false, not, ◌&&◌, ◌||◌, Option, none, some, List, [], ◌∷◌,
  ◌++◌, length, get_elem?, take, drop, ltb, ◌==◌, if◌then◌else◌, Text,
}
use wake_on_lan.Getopt.Long.{LongOption}
use wake_on_lan.Getopt.State.{
  Ordering, require_order, permute, return_in_order, Message, ambiguous, extra_argument,
  missing_argument, unrecognized, illegal_option, invalid_option, option_needs_argument,
  ambiguous_w, extra_argument_w, Data, argc, arg, char_at, from_char, has_char, exchange,
  getopt_initialize, is_nonoption, no_more, clamp, gather, skip_nonoptions, end_options, is_dashes,
}
use wake_on_lan.Getopt.Advance.{Next, ends, goes, settle, advance}
use wake_on_lan.Getopt.Decode.{decode}

abbrev pub is_given {ℓ} : {A : Type ℓ} → Option A → Bool
is_given none = false
is_given (some a) = true

abbrev pub result : Next → Option ℕ × Data
result (ends r d) = (r, d)
result (goes d) = (none, d)

-- Behind the initialisation.
unfoldable pub scan : Bool → Bool → Text → Option (List LongOption) → Data → Option ℕ × Data
scan long_only loud optstring longopts d =
    if no_more d.nextchar
    then elim (advance (is_given longopts) d) [
      | ends r e ↦ (r, e)
      | goes e ↦ result (decode long_only loud optstring longopts e)
    ]
    else result (decode long_only loud optstring longopts d)

-- The first call, where `optind` is 0 or nothing has been set up: `argv[0]` is not scanned.
unfoldable pub first_scan :
    Bool → Bool → Bool → Text → Option (List LongOption) → Data → Option ℕ × Data
first_scan posixly long_only loud optstring longopts d =
    let started = if d.optind == 0 then record d { optind = 1 } else d in
    let (e, options) = getopt_initialize posixly optstring started in
    scan long_only loud options longopts e

-- `_getopt_internal_r`, where the environment has POSIXLY_CORRECT or not.
unfoldable pub getopt_internal_r :
    Bool → Text → Option (List LongOption) → Bool → Data → Option ℕ × Data
getopt_internal_r posixly optstring longopts long_only d =
    let loud = d.opterr && not (char_at optstring 0 == b':') in
    let e = record d { optarg = none } in
    if argc d == 0
    then (none, d)
    else if e.optind == 0 || not e.initialized
    then first_scan posixly long_only loud optstring longopts e
    else scan long_only loud optstring longopts e

-- `_getopt_internal`. The globals `optind`, `opterr`, `optarg` and `optopt` are the fields of the static
-- `getopt_data`, with which they agree between the calls as long as the caller does not set them.
unfoldable pub getopt_internal :
    Bool → Text → Option (List LongOption) → Bool → Data → Option ℕ × Data
getopt_internal posixly optstring longopts long_only d =
    getopt_internal_r posixly optstring longopts long_only d

unfoldable pub getopt_long : Bool → Text → List LongOption → Data → Option ℕ × Data
getopt_long posixly optstring longopts d = getopt_internal posixly optstring (some longopts) false d

unfoldable pub getopt_long_only : Bool → Text → List LongOption → Data → Option ℕ × Data
getopt_long_only posixly optstring longopts d =
    getopt_internal posixly optstring (some longopts) true d

unfoldable pub getopt : Bool → Text → Data → Option ℕ × Data
getopt posixly optstring d = getopt_internal posixly optstring none false d

-- The globals and the static data at the start of the program.
abbrev pub fresh : List Text → Data
fresh argv = record {
  argv = argv;
  optind = 1;
  opterr = true;
  optopt = b'?';
  optarg = none;
  initialized = false;
  nextchar = none;
  ordering = require_order;
  posixly_correct = false;
  first_nonopt = 0;
  last_nonopt = 0;
  longind = 0;
  flags = [];
  messages = [];
}
