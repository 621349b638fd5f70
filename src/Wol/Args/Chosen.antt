-- ===== src/Wol/Args/Chosen.antt =====
-- What the options of src/wol.c choose, each by the last option that gives it.
use wake_on_lan.Base.{
  ℕ, ◌*◌, ◌%◌, ◌^◌, ◌≡◌, ◌≤◌, ◌<◌, refl, sym, ◌∙◌, ap, inl, inr, Bool, true, false, Option, none,
  some, List, [], ◌∷◌, append-nil, arith, ltb, ◌==◌, if◌then◌else◌, Text,
}
use wake_on_lan.Scan.{num, unsigned, sscanf}
use wake_on_lan.Scan.Decimal.{
  IsPortText, decimal, decimal-le_five, sscanf-unsigned, sscanf-unsigned_whole,
}
use wake_on_lan.System.{Os, World, returns, Pointer, argument}
use wake_on_lan.Wol.{Globals, initial}
use wake_on_lan.Wol.Args.{
  Choice, opt_verbose, opt_udp, opt_raw, opt_wait, opt_proxy, opt_host, opt_port, opt_file,
  opt_passwd, Getopt, parse_option, parse_options, starts_dash, wants_stdin, any_dash,
  check_operands, parse_args, set_passwd, set_port, set_wait,
}
use wake_on_lan.Wol.Args.Modes.{mode_after, last_mode, IsMode, select-udp, select-raw, select-proxy}

-- A number is written in one to five digits, a port lies between 1 and 65535, no password is asked
-- for, and neither is help.
pub data IsPlain : Choice → Type 0 where
  plain_verbose : IsPlain opt_verbose
  plain_udp : IsPlain opt_udp
  plain_raw : IsPlain opt_raw
  plain_proxy : (t : Text) → IsPlain (opt_proxy t)
  plain_host : (t : Text) → IsPlain (opt_host t)
  plain_file : (t : Text) → IsPlain (opt_file t)
  plain_passwd : (t : Text) → IsPlain (opt_passwd (some t))
  plain_wait : (t : Text) → IsPortText t → IsPlain (opt_wait t)
  plain_port :
      (t : Text) → IsPortText t → 0 < decimal 0 t → decimal 0 t ≤ 65535 → IsPlain (opt_port t)

pub data ArePlain : List Choice → Type 0 where
  no_option : ArePlain []
  option : {c : Choice} {cs : List Choice} → IsPlain c → ArePlain cs → ArePlain (c ∷ cs)

-- What the last of the options gives that gives something, or else a default.
abbrev pub or_else : {A : Type 0} → A → Option A → A
or_else d none = d
or_else d (some a) = a

abbrev pub last_of : {A : Type 0} → (Choice → Option A) → A → List Choice → A
last_of f d [] = d
last_of f d (c ∷ cs) = last_of f (or_else d (f c)) cs

abbrev word : Text → Pointer
word t = record { origin = argument; string = t }

abbrev pub gives_host : Choice → Option Pointer
gives_host (opt_proxy t) = some (word t)
gives_host (opt_host t) = some (word t)
gives_host c = none

abbrev pub gives_file : Choice → Option (Option Text)
gives_file (opt_file t) = some (some t)
gives_file c = none

abbrev pub gives_passwd : Choice → Option (Option Pointer)
gives_passwd (opt_passwd (some t)) = some (some (word t))
gives_passwd c = none

abbrev pub gives_port : Choice → Option ℕ
gives_port (opt_port t) = some (decimal 0 t)
gives_port c = none

-- In milliseconds, which the program holds in microseconds.
abbrev pub gives_wait : Choice → Option ℕ
gives_wait (opt_wait t) = some (decimal 0 t * 1000)
gives_wait c = none

abbrev pub gives_verbose : Choice → Option Bool
gives_verbose opt_verbose = some true
gives_verbose c = none

abbrev pub chosen : List Choice → Globals → Globals
chosen cs g = record {
  host_str = last_of gives_host g.host_str cs;
  pathname = last_of gives_file g.pathname cs;
  port = last_of gives_port g.port cs;
  passwd = last_of gives_passwd g.passwd cs;
  request_stdin = g.request_stdin;
  verbose = last_of gives_verbose g.verbose cs;
  packet_mode = last_mode g.packet_mode cs;
  msecs = last_of gives_wait g.msecs cs;
}

-- A word is given, or a file.
abbrev pub Names : List Text → Option Text → Type 0
Names (s ∷ ss) file = Unit
Names [] (some name) = Unit
Names [] none = ⊥

abbrev pub configured : Getopt → Globals
configured opt =
    let g = chosen opt.calls initial in
    record g { request_stdin = wants_stdin opt.operands g.pathname }

module _ (os : Os) where
  set_port-IsPortText :
      (t : Text) (g : Globals) (set : Bool) (w : World)
      → IsPortText t
      → 0 < decimal 0 t
      → decimal 0 t ≤ 65535
      → set_port os t (g, set) w ≡ (returns (record g { port = decimal 0 t }, set), w)
  unfolding set_port sscanf
  set_port-IsPortText t g set w h pos le =
      let read : sscanf (unsigned (some 5) ∷ []) t ≡ num (decimal 0 t) ∷ [] =
        ap (sscanf (unsigned (some 5) ∷ [])) (sym (append-nil t)) ∙ sscanf-unsigned [] t [] h tt in
      let large : ltb 65535 (decimal 0 t) ≡ false = ground arith in
      let zero : (decimal 0 t == 0) ≡ false = ground arith in
      rw (set_port, read) (simp (large, zero))

  set_wait-IsPortText :
      (t : Text) (g : Globals) (set : Bool) (w : World)
      → IsPortText t
      → set_wait os t (g, set) w ≡ (returns (record g { msecs = decimal 0 t * 1000 }, set), w)
  unfolding set_wait
  set_wait-IsPortText t g set w h =
      let small : decimal 0 t * 1000 % 2 ^ 32 ≡ decimal 0 t * 1000 =
        omega (arith, decimal-le_five t h) in
      rw (set_wait, sscanf-unsigned_whole t h) (rw small)

  -- An option that is plain changes what it gives, and does nothing else.
  parse_option-IsPlain :
      (c : Choice) (g : Globals) (set : Bool) (w : World)
      → IsPlain c
      → IsMode g.packet_mode
      → parse_option os c (g, set) w ≡ (returns (chosen (c ∷ []) g, set), w)
  unfolding parse_option set_passwd
  parse_option-IsPlain _ g set w plain_verbose m = refl
  parse_option-IsPlain _ g set w plain_udp m = rw (select-udp g.packet_mode m)
  parse_option-IsPlain _ g set w plain_raw m = rw (select-raw g.packet_mode m)
  parse_option-IsPlain _ g set w (plain_proxy t) m = rw (select-proxy g.packet_mode m)
  parse_option-IsPlain _ g set w (plain_host t) m = refl
  parse_option-IsPlain _ g set w (plain_file t) m = refl
  parse_option-IsPlain _ g set w (plain_passwd t) m = refl
  parse_option-IsPlain _ g set w (plain_wait t h) m = set_wait-IsPortText t g set w h
  parse_option-IsPlain _ g set w (plain_port t h pos le) m = set_port-IsPortText t g set w h pos le

  mode_after-IsMode : (c : Choice) (mode : ℕ) → IsPlain c → IsMode mode → IsMode (mode_after mode c)
  mode_after-IsMode _ mode plain_verbose m = m
  mode_after-IsMode _ mode plain_udp m = inl refl
  mode_after-IsMode _ mode plain_raw m = inr (inl refl)
  mode_after-IsMode _ mode (plain_proxy t) m = inr (inr refl)
  mode_after-IsMode _ mode (plain_host t) m = m
  mode_after-IsMode _ mode (plain_file t) m = m
  mode_after-IsMode _ mode (plain_passwd t) m = m
  mode_after-IsMode _ mode (plain_wait t h) m = m
  mode_after-IsMode _ mode (plain_port t h pos le) m = m

  parse_options-ArePlain :
      (cs : List Choice) (g : Globals) (set : Bool) (w : World)
      → ArePlain cs
      → IsMode g.packet_mode
      → parse_options os cs (g, set) w ≡ (returns (chosen cs g, set), w)
  unfolding parse_options
  parse_options-ArePlain _ g set w no_option m = refl
  parse_options-ArePlain _ g set w (option {c} {cs} p ps) m =
      rw (parse_option-IsPlain c g set w p m, parse_options)
        (parse_options-ArePlain cs (chosen (c ∷ []) g) set w ps
          (mode_after-IsMode c g.packet_mode p m))

  by_dash :
      (cs : List Choice) (dash : Bool)
      → (if dash then record (chosen cs initial) { request_stdin = true } else chosen cs initial)
        ≡ record (chosen cs initial) { request_stdin = dash }
  by_dash cs true = refl
  by_dash cs false = refl

  -- Where each option is plain (`IsPlain`), and an address is given or a file: `parse_args` returns,
  -- does nothing else, and each of the globals is what the last option gives that gives it, or else its default.
  -- The standard input is asked for by a word that is a dash, and where there is no word by a file
  -- whose name begins with a dash.
  pub parse_args-ArePlain :
      (opt : Getopt) (w : World)
      → (opt.argc == 1) ≡ false
      → ArePlain opt.calls
      → Names opt.operands (last_of gives_file none opt.calls)
      → parse_args os opt w ≡ (returns (configured opt), w)
  unfolding parse_args check_operands
  parse_args-ArePlain opt w c plain named = rw c (
      rw (parse_options-ArePlain opt.calls initial false w plain (inl refl))
        (go opt.operands (last_of gives_file none opt.calls) refl refl named))
    where
      g : Globals
      g = chosen opt.calls initial

      go :
          (words : List Text) (file : Option Text)
          → opt.operands ≡ words
          → last_of gives_file none opt.calls ≡ file
          → Names words file
          → check_operands opt.operands g w ≡ (returns (configured opt), w)
      go [] none e f n = absurd n
      go [] (some name) e f n =
          rw (e, f, check_operands)
            (ap (λ p. (returns (record g { pathname = p; request_stdin = starts_dash name }), w)) f)
      go (s ∷ ss) file e f n =
          rw e (ap (λ last. (returns last, w)) (by_dash opt.calls (any_dash (s ∷ ss))))
