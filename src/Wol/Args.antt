-- ===== src/Wol/Args.antt =====
-- `parse_args` of src/wol.c. What `getopt_long` returns, call by call, and the words that it puts
-- behind the options are a parameter; the kinds are those of the tables `options` and
-- `long_options`.
pub mod Modes
pub mod Chosen
pub mod Halts
use Prim.Native.Nat.{bit_and, bit_or}
use wake_on_lan.Base.{
  codes, ℕ, ◌+◌, ◌-◌, ◌*◌, ◌%◌, ◌^◌, Bool, true, false, ◌||◌, Option, none, some, List, [], ◌∷◌,
  ltb, ◌==◌, if◌then◌else◌, Text,
}
use wake_on_lan.Scan.{Directive, unsigned, Value, num, text, sscanf}
use wake_on_lan.System.{
  Os, World, Outcome, returns, exits, crashes, M, ◌>>=◌, ◌>>◌, pure, exit, tell, print, Pointer,
  argument, too_few_arguments, no_address, invalid_time, invalid_port, no_password, try_help,
  help_text, version_text,
}
use wake_on_lan.Getpass.{getpass4}
use wake_on_lan.Wol.{Globals, initial, udp_mode, raw_mode, proxy_mode}

pub data Choice : Type 0 where
  opt_help opt_version opt_verbose opt_udp opt_raw opt_unknown : Choice
  opt_wait opt_proxy opt_host opt_port opt_file : Text → Choice
  opt_passwd : Option Text → Choice

pub record Getopt : Type 0 where
  pub argc : ℕ
  pub calls : List Choice
  pub operands : List Text

-- `usage`, which ends the program.
usage : {A : Type 0} → ℕ → M A
usage status = if status == 0 then (do print help_text; exit 0) else (do tell try_help; exit status)

-- `packet_mode |= on; packet_mode &= ~off;`
abbrev pub select : ℕ → ℕ → ℕ → ℕ
select on off mode = bit_and (bit_or mode on) (2 ^ 32 - 1 - off)

-- "%u" and "%5u", and then a test.
abbrev number_in : Option ℕ → Text → Option ℕ
number_in w s = elim (sscanf (unsigned w ∷ []) s) [
  | [] ↦ none
  | v ∷ vs ↦ elim v [ num n ↦ some n | text t ↦ none ]
]

-- The globals, and `password_set`.
abbrev pub State : Type 0
State = Globals × Bool

module _ (os : Os) where
  set_wait : Text → State → M State
  unfolding usage
  set_wait optarg (g, set) = elim (number_in none optarg) [
    | none ↦ (do tell invalid_time; usage 1)
    | some n ↦ pure (record g { msecs = n * 1000 % 2 ^ 32 }, set)
  ]

  set_port : Text → State → M State
  unfolding usage
  set_port optarg (g, set) = elim (number_in (some 5) optarg) [
    | none ↦ (do tell invalid_port; usage 1)
    | some n ↦
        if ltb 65535 n || n == 0
        then (do tell invalid_port; usage 1)
        else pure (record g { port = n }, set)
  ]

  -- `password_set` is set once a password has been asked for.
  set_asked : Option Pointer → State → M State
  set_asked none s = do tell no_password; exit 1
  set_asked (some passwd) (g, set) = pure (record g { passwd = some passwd }, true)

  -- `getline` gets the old password's address, with a size that was never set: where there is one,
  -- what follows has no meaning.
  unfoldable pub ask_passwd : Option Pointer → State → M State
  unfolding set_asked
  ask_passwd (some passwd) s w = (crashes, w)
  ask_passwd none s w =
      let run : M State = (do p ← getpass4 os (some (codes "Password")); set_asked p s) in run w

  set_passwd : Option Text → State → M State
  unfolding ask_passwd
  set_passwd (some optarg) (g, set) =
      pure (record g { passwd = some (record { origin = argument; string = optarg }) }, set)
  set_passwd none (g, true) = pure (g, true)
  set_passwd none (g, false) = ask_passwd g.passwd (g, false)

  abbrev from_argument : Text → Pointer
  from_argument s = record { origin = argument; string = s }

  -- The switch. The case of `--proxy` falls through to that of `--host`.
  unfoldable pub parse_option : Choice → State → M State
  unfolding usage set_wait set_port set_passwd set_asked
  parse_option opt_help s = usage 0
  parse_option opt_version s = do print version_text; exit 0
  parse_option opt_verbose (g, set) = pure (record g { verbose = true }, set)
  parse_option (opt_wait optarg) s = set_wait optarg s
  parse_option opt_udp (g, set) =
      pure
        (record g { packet_mode = select udp_mode (bit_or raw_mode proxy_mode) g.packet_mode }, set)
  parse_option opt_raw (g, set) =
      pure
        (record g { packet_mode = select raw_mode (bit_or udp_mode proxy_mode) g.packet_mode }, set)
  parse_option (opt_proxy optarg) (g, set) = pure (
    record g {
      packet_mode = select proxy_mode (bit_or udp_mode raw_mode) g.packet_mode;
      host_str = from_argument optarg;
    },
    set,
  )
  parse_option (opt_host optarg) (g, set) = pure (record g { host_str = from_argument optarg }, set)
  parse_option (opt_port optarg) s = set_port optarg s
  parse_option (opt_file optarg) (g, set) = pure (record g { pathname = some optarg }, set)
  parse_option (opt_passwd optarg) s = set_passwd optarg s
  parse_option opt_unknown s = pure s

  unfoldable pub parse_options : List Choice → State → M State
  parse_options [] s = pure s
  parse_options (c ∷ cs) s = do next ← parse_option c s; parse_options cs next

-- `argv[i][0] == '-' && argv[i][1] == 0`
abbrev pub is_dash : Text → Bool
is_dash [] = false
is_dash (c ∷ []) = c == b'-'
is_dash (c ∷ d ∷ s) = false

abbrev pub any_dash : List Text → Bool
any_dash [] = false
any_dash (s ∷ ss) = is_dash s || any_dash ss

-- `!strncmp (pathname, "-", 1)`
abbrev pub starts_dash : Text → Bool
starts_dash [] = false
starts_dash (c ∷ s) = c == b'-'

abbrev pub wants_stdin : List Text → Option Text → Bool
wants_stdin (s ∷ ss) pathname = any_dash (s ∷ ss)
wants_stdin [] none = false
wants_stdin [] (some pathname) = starts_dash pathname

-- What follows the loop over the options.
check_operands : List Text → Globals → M Globals
unfolding usage
check_operands [] g = elim g.pathname [
  | none ↦ (do tell no_address; usage 1)
  | some pathname ↦ pure (record g { request_stdin = wants_stdin [] (some pathname) })
]
check_operands (s ∷ ss) g =
    pure (if any_dash (s ∷ ss) then record g { request_stdin = true } else g)

unfoldable pub parse_args : Os → Getopt → M Globals
unfolding usage check_operands
parse_args os opt =
    if opt.argc == 1
    then (do tell too_few_arguments; usage 1)
    else (do s ← parse_options os opt.calls (initial, false); check_operands opt.operands s.0)
