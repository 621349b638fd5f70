-- ===== src/Wol/Args/Modes.antt =====
-- What holds of the globals when `parse_args` of src/wol.c returns.
use Prim.Native.Nat.{bit_or}
use wake_on_lan.Base.{
  codes, ℕ, ◌≡◌, ◌≢◌, ◌≤◌, ◌<◌, refl, ◌⊎◌, inl, inr, true, false, Option, none, some, List, [], ◌∷◌,
  arith, ◌==◌, Text, Bool-cases, Option-cases,
}
use wake_on_lan.System.{Os, World, Outcome, returns, exits, crashes, unfinished, M, ◌>>=◌, Pointer}
use wake_on_lan.Getpass.{getpass4}
use wake_on_lan.Wol.{Globals, initial, udp_mode, raw_mode, proxy_mode}
use wake_on_lan.Wol.Args.{
  Choice, opt_help, opt_version, opt_verbose, opt_udp, opt_raw, opt_unknown, opt_wait, opt_proxy,
  opt_host, opt_port, opt_file, opt_passwd, Getopt, State, select, parse_option, parse_options,
  check_operands, parse_args, set_passwd, set_asked, ask_passwd,
}

-- What holds of the value, if one is returned.
abbrev pub Ensures : {A : Type 0} → (A → Type 0) → Outcome A × World → Type 0
Ensures P (returns a, w) = P a
Ensures P (o, w) = Unit

pub Ensures-bind :
    {A B : Type 0} (P : A → Type 0) (Q : B → Type 0) (m : M A) (f : A → M B) (w : World)
    → Ensures P (m w)
    → ((a : A) (w' : World) → P a → Ensures Q (f a w'))
    → Ensures Q ((m >>= f) w)
Ensures-bind P Q m f w h k = go (m w) h
  where
    go : (r : Outcome _ × World) → Ensures P r → Ensures Q (wake_on_lan.System.continue r.0 r.1 f)
    go (returns a, w') h = k a w' h
    go (exits n, w') h = tt
    go (crashes, w') h = tt
    go (unfinished, w') h = tt

-- The mode that the last of the options chooses.
abbrev pub mode_after : ℕ → Choice → ℕ
mode_after mode opt_udp = 1
mode_after mode opt_raw = 2
mode_after mode (opt_proxy s) = 4
mode_after mode c = mode

abbrev pub last_mode : ℕ → List Choice → ℕ
last_mode mode [] = mode
last_mode mode (c ∷ cs) = last_mode (mode_after mode c) cs

abbrev pub IsMode : ℕ → Type 0
IsMode mode = (mode ≡ 1) ⊎ (mode ≡ 2) ⊎ (mode ≡ 4)

pub record IsSane (mode : ℕ) (g : Globals) : Type 0 where
  pub is_mode : IsMode mode
  pub chosen : g.packet_mode ≡ mode
  pub port_pos : 0 < g.port
  pub port_le : g.port ≤ 65535

module _ (mode : ℕ) where
  pub select-udp : IsMode mode → select udp_mode (bit_or raw_mode proxy_mode) mode ≡ 1
  select-udp (inl e) = rw e
  select-udp (inr (inl e)) = rw e
  select-udp (inr (inr e)) = rw e

  pub select-raw : IsMode mode → select raw_mode (bit_or udp_mode proxy_mode) mode ≡ 2
  select-raw (inl e) = rw e
  select-raw (inr (inl e)) = rw e
  select-raw (inr (inr e)) = rw e

  pub select-proxy : IsMode mode → select proxy_mode (bit_or udp_mode raw_mode) mode ≡ 4
  select-proxy (inl e) = rw e
  select-proxy (inr (inl e)) = rw e
  select-proxy (inr (inr e)) = rw e

Ensures-any : {A : Type 0} (r : Outcome A × World) → Ensures (λ (a : A). Unit {0}) r
Ensures-any (returns a, w) = tt
Ensures-any (exits n, w) = tt
Ensures-any (crashes, w) = tt
Ensures-any (unfinished, w) = tt

module _ (os : Os) where
  ask_passwd-IsSane :
      (mode : ℕ) (old : Option Pointer) (g : Globals) (w : World)
      → IsSane mode g
      → Ensures (λ (t : State). IsSane mode t.0) (ask_passwd os old (g, false) w)
  unfolding ask_passwd set_asked
  ask_passwd-IsSane mode (some p) g w h = tt
  ask_passwd-IsSane mode none g w h =
      Ensures-bind (λ p. Unit {0}) (λ (t : State). IsSane mode t.0)
        (getpass4 os (some (codes "Password"))) _ w
        (Ensures-any (getpass4 os (some (codes "Password")) w)) asked
    where
      asked :
          (p : Option Pointer) (w' : World)
          → Unit {0}
          → Ensures (λ (t : State). IsSane mode t.0) (set_asked os p (g, false) w')
      asked none w' u = tt
      asked (some p) w' u = ground arith

  set_passwd-IsSane :
      (mode : ℕ) (s : State) (w : World)
      → IsSane mode s.0
      → Ensures (λ (t : State). IsSane mode t.0) (set_passwd os none s w)
  unfolding set_passwd
  set_passwd-IsSane mode (g, true) w h = h
  set_passwd-IsSane mode (g, false) w h = ask_passwd-IsSane mode g.passwd g w h

  parse_option-IsSane :
      (c : Choice) (mode : ℕ) (s : State) (w : World)
      → IsSane mode s.0
      → Ensures (λ (t : State). IsSane (mode_after mode c) t.0) (parse_option os c s w)
  unfolding parse_option
  parse_option-IsSane opt_help mode s w h = tt
  parse_option-IsSane opt_version mode s w h = tt
  parse_option-IsSane opt_verbose mode s w h = ground arith
  parse_option-IsSane (opt_wait t) mode s w h = ground arith
  parse_option-IsSane opt_udp mode s w h = record {
    is_mode = inl refl;
    chosen = rw h.chosen (select-udp mode h.is_mode);
    port_pos = h.port_pos;
    port_le = h.port_le;
  }
  parse_option-IsSane opt_raw mode s w h = record {
    is_mode = inr (inl refl);
    chosen = rw h.chosen (select-raw mode h.is_mode);
    port_pos = h.port_pos;
    port_le = h.port_le;
  }
  parse_option-IsSane (opt_proxy t) mode s w h = record {
    is_mode = inr (inr refl);
    chosen = rw h.chosen (select-proxy mode h.is_mode);
    port_pos = h.port_pos;
    port_le = h.port_le;
  }
  parse_option-IsSane (opt_host t) mode s w h = ground arith
  parse_option-IsSane (opt_port t) mode s w h = ground arith
  parse_option-IsSane (opt_file t) mode s w h = ground arith
  parse_option-IsSane (opt_passwd (some t)) mode s w h = ground arith
  parse_option-IsSane (opt_passwd none) mode s w h = set_passwd-IsSane mode s w h
  parse_option-IsSane opt_unknown mode s w h = h

  parse_options-IsSane :
      (cs : List Choice) (mode : ℕ) (s : State) (w : World)
      → IsSane mode s.0
      → Ensures (λ (t : State). IsSane (last_mode mode cs) t.0) (parse_options os cs s w)
  unfolding parse_options
  parse_options-IsSane [] mode s w h = h
  parse_options-IsSane (c ∷ cs) mode s w h =
      Ensures-bind (λ (t : State). IsSane (mode_after mode c) t.0)
        (λ (t : State). IsSane (last_mode mode (c ∷ cs)) t.0) (parse_option os c s) _ w
        (parse_option-IsSane c mode s w h)
        (λ t w'. parse_options-IsSane cs (mode_after mode c) t w')

-- What `main` may rely on.
pub record IsParsed (opt : Getopt) (g : Globals) : Type 0 where
  pub sane : IsSane (last_mode udp_mode opt.calls) g
  pub named : opt.operands ≡ [] → g.pathname ≢ none

check_operands-IsParsed :
    (opt : Getopt) (operands : List Text) (g : Globals) (w : World)
    → opt.operands ≡ operands
    → IsSane (last_mode udp_mode opt.calls) g
    → Ensures (IsParsed opt) (check_operands operands g w)
unfolding check_operands
check_operands-IsParsed opt [] g w e h = elim (Option-cases g.pathname) [
  | inl n ↦ rw (n, check_operands) tt
  | inr (p, n) ↦ rw (n, check_operands) (record { sane = ground arith; named = λ _. ground arith })
]
check_operands-IsParsed opt (s ∷ ss) g w e h = record {
  sane = ground arith;
  named = λ z. absurd (ground arith);
}

-- When `parse_args` returns, the packet mode is the one that the last of --udp, --raw and --proxy
-- chooses, and UDP if there is none; the port lies between 1 and 65535; and there is an address on
-- the command line or a file to read.
pub parse_args-IsParsed :
    (os : Os) (opt : Getopt) (w : World) → Ensures (IsParsed opt) (parse_args os opt w)
unfolding parse_args
parse_args-IsParsed os opt w = elim (Bool-cases (opt.argc == 1)) [
  | inl e ↦ rw e tt
  | inr e ↦ rw e (
      Ensures-bind (λ (t : State). IsSane (last_mode udp_mode opt.calls) t.0) (IsParsed opt)
        (parse_options os opt.calls (initial, false)) _ w
        (parse_options-IsSane os opt.calls udp_mode (initial, false) w start)
        (λ s w' h. check_operands-IsParsed opt opt.operands s.0 w' refl h))
]
  where
    start : IsSane udp_mode initial
    start = record {
      is_mode = inl refl;
      chosen = refl;
      port_pos = omega arith;
      port_le = omega arith;
    }
