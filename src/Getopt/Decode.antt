-- ===== src/Getopt/Decode.antt =====
-- The part of `_getopt_internal_r` that decodes the element of argv that is at hand.
use wake_on_lan.Base.{
  ℕ, ◌+◌, ◌-◌, Bool, true, false, not, ◌&&◌, ◌||◌, Option, none, some, List, [], ◌∷◌, ◌++◌, drop,
  ltb, ◌==◌, if◌then◌else◌, Text,
}
use wake_on_lan.Getopt.Long.{LongOption, nothing_found, find_long, name_of, after_name}
use wake_on_lan.Getopt.State.{
  Message, ambiguous, extra_argument, missing_argument, unrecognized, illegal_option,
  invalid_option, option_needs_argument, ambiguous_w, extra_argument_w, Data, argc, arg, char_at,
  from_char, has_char, no_more,
}
use wake_on_lan.Getopt.Advance.{Next, ends, goes}

unfoldable pub say : Bool → Message → Data → Data
say loud m d = if loud then record d { messages = d.messages ++ (m ∷ []) } else d

-- `return optstring[0] == ':' ? ':' : '?'`
abbrev pub missing_code : Text → ℕ
missing_code optstring = if char_at optstring 0 == b':' then b':' else b'?'

abbrev pub rest_of : Data → Text
rest_of d = elim d.nextchar [ none ↦ [] | some s ↦ s ]

-- From `nextchar += strlen (nextchar)` on, for an option that was found.
unfoldable pub found_long : LongOption → ℕ → Data → Next
found_long p i d =
    let e = record d { nextchar = some []; longind = i } in
    elim p.flag [
      | none ↦ ends (some p.val) e
      | some variable ↦ ends (some 0) (record e { flags = (variable, p.val) ∷ e.flags })
    ]

-- An argument that is missing, or not allowed. `-W` leaves `optopt` as it is.
unfoldable pub refuse_long : Bool → ℕ → LongOption → Data → Next
refuse_long for_w code p d =
    ends (some code) (record d { nextchar = some []; optopt = if for_w then d.optopt else p.val })

-- The option's argument: behind an equality sign, or the next element of argv.
unfoldable pub take_long : Bool → Bool → Text → LongOption → ℕ → Text → Data → Next
take_long for_w loud optstring p i (c ∷ value) d =
    if not (p.has_arg == 0)
    then found_long p i (record d { optarg = some value })
    else refuse_long for_w b'?' p
        (say loud (if for_w then extra_argument_w p.name else extra_argument p.name) d)
take_long for_w loud optstring p i [] d =
    if not (p.has_arg == 1)
    then found_long p i d
    else if ltb d.optind (argc d)
    then found_long p i (record d { optarg = some (arg d d.optind); optind = d.optind + 1 })
    else refuse_long for_w (missing_code optstring) p
        (say loud (missing_argument (arg d (d.optind - 1))) d)

-- No long option: a diagnostic, or with `long_only` perhaps a short option.
unfoldable pub unknown_long : Bool → Bool → Text → Data → Next
unknown_long long_only loud optstring d =
    if not long_only
      || (char_at (arg d d.optind) 1 == b'-' || not (has_char (char_at (rest_of d) 0) optstring))
    then ends (some b'?') (record (say loud (unrecognized (rest_of d)) d) {
      nextchar = some [];
      optind = d.optind + 1;
      optopt = 0;
    })
    else goes d

-- Where the test `longopts != NULL && …` holds: the long options are searched.
unfoldable pub decode_long : Bool → Bool → Text → List LongOption → Data → Next
decode_long long_only loud optstring longopts d =
    let key = name_of (rest_of d) in
    let f = find_long long_only key longopts 0 nothing_found in
    if f.ambig && not f.exact
    then ends (some b'?') (record (say loud (ambiguous (arg d d.optind)) d) {
      nextchar = some [];
      optind = d.optind + 1;
      optopt = 0;
    })
    else elim f.pfound [
      | some p ↦
          take_long false loud optstring p f.indfound (after_name (rest_of d))
            (record d { optind = d.optind + 1 })
      | none ↦ unknown_long long_only loud optstring d
    ]

-- The argument of a short option: the rest of the element, or the next one.
unfoldable pub take_short : Bool → Text → ℕ → Data → Next
take_short loud optstring c d = elim (no_more d.nextchar) [
  | false ↦ ends (some c) (record d { optarg = d.nextchar; optind = d.optind + 1; nextchar = none })
  | true ↦
      if d.optind == argc d
      then ends (some (missing_code optstring))
          (record (say loud (option_needs_argument c) d) { optopt = c; nextchar = none })
      else ends (some c)
          (record d { optarg = some (arg d d.optind); optind = d.optind + 1; nextchar = none })
]

-- `-W foo` is the long option `--foo`: from the search on.
unfoldable pub decode_w : Bool → Text → List LongOption → Data → Next
decode_w loud optstring longopts d =
    let key = name_of (rest_of d) in
    let f = find_long true key longopts 0 nothing_found in
    if f.ambig && not f.exact
    then ends (some b'?') (record (say loud (ambiguous_w (arg d d.optind)) d) {
      nextchar = some [];
      optind = d.optind + 1;
    })
    else elim f.pfound [
      | some p ↦ take_long true loud optstring p f.indfound (after_name (rest_of d)) d
      | none ↦ ends (some b'W') (record d { nextchar = none })
    ]

unfoldable pub start_w : Bool → Text → List LongOption → ℕ → Data → Next
start_w loud optstring longopts c d = elim (no_more d.nextchar) [
  | false ↦
      decode_w loud optstring longopts (record d { optarg = d.nextchar; optind = d.optind + 1 })
  | true ↦
      if d.optind == argc d
      then ends (some (missing_code optstring))
          (record (say loud (option_needs_argument c) d) { optopt = c })
      else let s = some (arg d d.optind) in
        decode_w loud optstring longopts
          (record d { optarg = s; nextchar = s; optind = d.optind + 1 })
]

-- The next short option, `c`, with what `strchr` finds of it in `optstring`.
unfoldable pub short_option : Bool → Text → List LongOption → ℕ → Text → Data → Next
short_option loud optstring longopts c temp d =
    if char_at temp 0 == 0 || c == b':'
    then ends (some b'?')
        (record (say loud (if d.posixly_correct then illegal_option c else invalid_option c) d) {
          optopt = c;
        })
    else if char_at temp 0 == b'W' && char_at temp 1 == b';'
    then start_w loud optstring longopts c d
    else if char_at temp 1 == b':'
    then if char_at temp 2 == b':'
      then ends (some c) (elim (no_more d.nextchar) [
        | false ↦ record d { optarg = d.nextchar; optind = d.optind + 1; nextchar = none }
        | true ↦ record d { optarg = none; nextchar = none }
      ])
      else take_short loud optstring c d
    else ends (some c) d

unfoldable pub decode_short : Bool → Text → List LongOption → Data → Next
decode_short loud optstring longopts d =
    let c = char_at (rest_of d) 0 in
    let rest = drop 1 (rest_of d) in
    short_option loud optstring longopts c (from_char c optstring) (record d {
      nextchar = some rest;
      optind = elim (no_more (some rest)) [ true ↦ d.optind + 1 | false ↦ d.optind ];
    })

-- The test for a long option.
unfoldable pub is_long : Bool → Text → Text → Bool
is_long long_only optstring s =
    char_at s 1 == b'-'
    || (long_only && (not (char_at s 2 == 0) || not (has_char (char_at s 1) optstring)))

-- The decoding of the element of argv that is at hand.
unfoldable pub decode : Bool → Bool → Text → Option (List LongOption) → Data → Next
decode long_only loud optstring none d = decode_short loud optstring [] d
decode long_only loud optstring (some longopts) d =
    if is_long long_only optstring (arg d d.optind)
    then elim (decode_long long_only loud optstring longopts d) [
      | ends r e ↦ ends r e
      | goes e ↦ decode_short loud optstring longopts e
    ]
    else decode_short loud optstring longopts d
