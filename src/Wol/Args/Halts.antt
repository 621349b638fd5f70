-- ===== src/Wol/Args/Halts.antt =====
-- How `parse_args` of src/wol.c ends, and that it leaves the network alone.
use wake_on_lan.Base.{
  ◌<◌, refl, true, false, Option, none, some, List, [], ◌∷◌, ◌==◌, arith, Text, inl, inr,
  Bool-cases, Option-cases,
}
use wake_on_lan.Net.Sending.{Trace, Trace-trans}
use wake_on_lan.System.{
  Os, World, Outcome, returns, exits, crashes, unfinished, M, ◌>>=◌, Pointer, continue,
}
use wake_on_lan.Getpass.{getpass4}
use wake_on_lan.Wol.{Globals, initial}
use wake_on_lan.Wol.Args.{
  Choice, opt_help, opt_version, opt_verbose, opt_udp, opt_raw, opt_unknown, opt_wait, opt_proxy,
  opt_host, opt_port, opt_file, opt_passwd, Getopt, State, usage, set_wait, set_port, set_passwd,
  set_asked, ask_passwd, parse_option, parse_options, check_operands, parse_args,
}

-- The piece returns, or ends the program with 0 or 1, or crashes; it hands nothing to the network,
-- and leaves the descriptors as they were.
abbrev pub Halts : {A : Type 0} → World → Outcome A × World → Type 0
Halts w (returns a, w') = Trace [] w w'
Halts w (exits n, w') = (n < 2) × Trace [] w w'
Halts w (crashes, w') = Unit
Halts w (unfinished, w') = ⊥

Halts-after :
    {A : Type 0} (w w' : World) (r : Outcome A × World) → Trace [] w w' → Halts w' r → Halts w r
Halts-after w w' (returns a, w'') t h = Trace-trans [] [] w w' w'' t h
Halts-after w w' (exits n, w'') t (lt, h) = (lt, Trace-trans [] [] w w' w'' t h)
Halts-after w w' (crashes, w'') t h = tt
Halts-after w w' (unfinished, w'') t h = h

Halts-bind :
    {A B : Type 0} (m : M A) (f : A → M B) (w : World)
    → Halts w (m w)
    → ((a : A) (w' : World) → Halts w' (f a w'))
    → Halts w ((m >>= f) w)
Halts-bind m f w h k = go (m w) h
  where
    go : (r : Outcome _ × World) → Halts w r → Halts w (continue r.0 r.1 f)
    go (returns a, w') t = Halts-after w w' (f a w') t (k a w')
    go (exits n, w') x = x
    go (crashes, w') x = tt
    go (unfinished, w') x = x

module _ (os : Os) where
  getpass4-Halts : (prompt : Option Text) (w : World) → Halts w (getpass4 os prompt w)
  unfolding getpass4
  getpass4-Halts none w = ground arith
  getpass4-Halts (some p) w = ground arith

  set_asked-Halts : (p : Option Pointer) (s : State) (w : World) → Halts w (set_asked os p s w)
  unfolding set_asked
  set_asked-Halts none s w = (omega arith, (refl, refl))
  set_asked-Halts (some p) (g, set) w = (refl, refl)

  set_wait-Halts : (t : Text) (s : State) (w : World) → Halts w (set_wait os t s w)
  unfolding set_wait usage
  set_wait-Halts t (g, set) w = ground arith

  set_port-Halts : (t : Text) (s : State) (w : World) → Halts w (set_port os t s w)
  unfolding set_port usage
  set_port-Halts t (g, set) w = ground arith

  ask_passwd-Halts : (p : Option Pointer) (s : State) (w : World) → Halts w (ask_passwd os p s w)
  unfolding ask_passwd
  ask_passwd-Halts (some p) s w = tt
  ask_passwd-Halts none s w =
      Halts-bind (getpass4 os _) _ w (getpass4-Halts _ w) λ p w'. set_asked-Halts p s w'

  parse_option-Halts : (c : Choice) (s : State) (w : World) → Halts w (parse_option os c s w)
  unfolding parse_option set_passwd
  parse_option-Halts opt_help s w = (omega arith, (refl, refl))
  parse_option-Halts opt_version s w = (omega arith, (refl, refl))
  parse_option-Halts opt_verbose (g, set) w = (refl, refl)
  parse_option-Halts (opt_wait t) s w = set_wait-Halts t s w
  parse_option-Halts opt_udp (g, set) w = (refl, refl)
  parse_option-Halts opt_raw (g, set) w = (refl, refl)
  parse_option-Halts (opt_proxy t) (g, set) w = (refl, refl)
  parse_option-Halts (opt_host t) (g, set) w = (refl, refl)
  parse_option-Halts (opt_port t) s w = set_port-Halts t s w
  parse_option-Halts (opt_file t) (g, set) w = (refl, refl)
  parse_option-Halts (opt_passwd (some t)) (g, set) w = (refl, refl)
  parse_option-Halts (opt_passwd none) (g, true) w = (refl, refl)
  parse_option-Halts (opt_passwd none) (g, false) w = ask_passwd-Halts g.passwd (g, false) w
  parse_option-Halts opt_unknown s w = (refl, refl)

  parse_options-Halts :
      (cs : List Choice) (s : State) (w : World) → Halts w (parse_options os cs s w)
  unfolding parse_options
  parse_options-Halts [] s w = (refl, refl)
  parse_options-Halts (c ∷ cs) s w =
      Halts-bind (parse_option os c s) _ w (parse_option-Halts c s w)
        λ next w'. parse_options-Halts cs next w'

  check_operands-Halts :
      (operands : List Text) (g : Globals) (w : World) → Halts w (check_operands operands g w)
  unfolding check_operands
  check_operands-Halts [] g w = elim (Option-cases g.pathname) [
    | inl e ↦ rw (e, check_operands) (omega arith, (refl, refl))
    | inr (p, e) ↦ rw (e, check_operands) (refl, refl)
  ]
  check_operands-Halts (s ∷ ss) g w = (refl, refl)

  -- On every command line and whatever the system answers, `parse_args` returns, or ends the program
  -- with 0 or 1, or gives `getline` a size that was never set; it hands nothing to the network, and
  -- leaves the descriptors as they were.
  pub parse_args-Halts : (opt : Getopt) (w : World) → Halts w (parse_args os opt w)
  unfolding parse_args
  parse_args-Halts opt w = elim (Bool-cases (opt.argc == 1)) [
    | inl e ↦ rw e (omega arith, (refl, refl))
    | inr e ↦ rw e (
        Halts-bind (parse_options os opt.calls (initial, false)) _ w
          (parse_options-Halts opt.calls (initial, false) w)
          (λ s w'. check_operands-Halts opt.operands s.0 w'))
  ]
