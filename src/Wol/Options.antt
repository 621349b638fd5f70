-- ===== src/Wol/Options.antt =====
-- The tables `options` and `long_options` of `parse_args` of src/wol.c, and its loop over the calls of
-- `getopt_long`, which makes the list of calls that the rest of the model works on.
use wake_on_lan.Base.{
  ℕ, zero, suc, ◌+◌, Bool, Option, none, some, List, [], ◌∷◌, ◌>>=◌, drop, length, codes, ◌==◌,
  if◌then◌else◌, Text,
}
use wake_on_lan.Getopt.{getopt_long, fresh}
use wake_on_lan.Getopt.State.{Data, argc}
use wake_on_lan.Getopt.Long.{LongOption}
use wake_on_lan.Wol.Args.{
  Choice, opt_help, opt_version, opt_verbose, opt_udp, opt_raw, opt_unknown, opt_wait, opt_proxy,
  opt_host, opt_port, opt_file, opt_passwd, Getopt,
}

abbrev pub options : Text
options = codes "Vvw:h:i:p:f:s:ru-"

abbrev option : Text → ℕ → ℕ → LongOption
option name has_arg val = record { name = name; has_arg = has_arg; flag = none; val = val }

abbrev pub long_options : List LongOption
long_options =
    option (codes "help") 0 b'H'
    ∷ option (codes "version") 0 b'V'
    ∷ option (codes "verbose") 0 b'v'
    ∷ option (codes "wait") 1 b'w'
    ∷ option (codes "host") 1 b'h'
    ∷ option (codes "ipaddr") 1 b'i'
    ∷ option (codes "port") 1 b'p'
    ∷ option (codes "file") 1 b'f'
    ∷ option (codes "passwd") 2 b'P'
    ∷ option (codes "proxy") 1 b's'
    ∷ option (codes "raw") 0 b'r'
    ∷ option (codes "udp") 0 b'u'
    ∷ []

-- `optarg`, which an option that requires an argument has.
abbrev given : Option Text → Text
given none = []
given (some s) = s

-- The labels of the switch.
unfoldable pub choice_of : ℕ → Option Text → Choice
choice_of c optarg =
    if c == b'H'
    then opt_help
    else if c == b'V'
    then opt_version
    else if c == b'v'
    then opt_verbose
    else if c == b'w'
    then opt_wait (given optarg)
    else if c == b'u'
    then opt_udp
    else if c == b'r'
    then opt_raw
    else if c == b's'
    then opt_proxy (given optarg)
    else if c == b'h'
    then opt_host (given optarg)
    else if c == b'i'
    then opt_host (given optarg)
    else if c == b'p'
    then opt_port (given optarg)
    else if c == b'f'
    then opt_file (given optarg)
    else if c == b'P'
    then opt_passwd optarg
    else opt_unknown

-- One round, with what follows it.
abbrev pub round :
    (Data → Option (List Choice × Data)) → Option ℕ × Data → Option (List Choice × Data)
round rest (none, d) = some ([], d)
round rest (some code, d) =
    rest d >>= (λ (r : List Choice × Data). some (choice_of code d.optarg ∷ r.0, r.1))

-- `for (;;)`, with the rounds that are left; `none` where they do not do.
unfoldable pub get_choices : ℕ → Bool → Data → Option (List Choice × Data)
get_choices zero posixly d = none
get_choices (suc n) posixly d =
    round (get_choices n posixly) (getopt_long posixly options long_options d)

-- More rounds than there are characters and words.
abbrev pub size_of : List Text → ℕ
size_of [] = 1
size_of (s ∷ ss) = suc (length s + size_of ss)

-- What `parse_args` gets of a command line, whose first word is the program's name.
unfoldable pub read_options : Bool → List Text → Option Getopt
read_options posixly argv =
    get_choices (size_of argv) posixly (fresh argv) >>= (λ (r : List Choice × Data).
      some (record { argc = argc r.1; calls = r.0; operands = drop r.1.optind r.1.argv }))
