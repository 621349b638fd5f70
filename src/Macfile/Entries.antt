-- ===== src/Macfile/Entries.antt =====
-- The lines that `get_tokens` of src/macfile.c takes: an address, a host, and each of a port and a
-- password or not.
use wake_on_lan.Base.{
  ℕ, ◌≡◌, ◌≢◌, refl, ap, sym, append-nil, ◌∙◌, Bool, true, false, Option, none, some, List, [], ◌∷◌,
  ◌++◌, arith, ◌==◌, Text, All, Stops, is_space, Bool-cases, inl, inr,
}
use wake_on_lan.Scan.{Directive, white, num, text, sscanf}
use wake_on_lan.Scan.Runs.{
  IsRun, sscanf-nil, sscanf-white, sscanf-white_none, sscanf-lit, sscanf-lit_other, sscanf-chars,
  sscanf-chars_none,
}
use wake_on_lan.Scan.Decimal.{IsPortText, decimal, is_digit, sscanf-unsigned}
use wake_on_lan.Macfile.{
  mac_fmt, host_fmt, pass_fmt, port_fmt, is_mac_char, is_host_char, is_pass_char,
}

-- What a line of a macfile names.
pub record Wanted : Type 0 where
  pub mac : Text
  pub host : Text
  pub port : Option Text
  pub passwd : Option Text

abbrev pub IsPort : Option Text → Type 0
IsPort none = Unit
IsPort (some t) = IsPortText t

abbrev pub IsPassword : Option Text → Type 0
IsPassword none = Unit
IsPassword (some p) = IsRun (some 17) is_pass_char p

pub record IsWanted (w : Wanted) : Type 0 where
  pub mac : IsRun (some 17) is_mac_char w.mac
  pub host : IsRun none is_host_char w.host
  pub port : IsPort w.port
  pub passwd : IsPassword w.passwd

-- The white space of a line: in front, behind the address, in front of the password, at the end.
pub record Spacing : Type 0 where
  pub lead : Text
  pub gap : Text
  pub second : Text
  pub tail : Text

pub record IsSpacing (g : Spacing) : Type 0 where
  pub lead : All is_space g.lead
  pub gap : All is_space g.gap
  pub gap_ne_nil : g.gap ≢ []
  pub second : All is_space g.second
  pub second_ne_nil : g.second ≢ []
  pub tail : All is_space g.tail

abbrev pub password_part : Spacing → Option Text → Text
password_part g none = g.tail
password_part g (some p) = g.second ++ (p ++ g.tail)

abbrev pub port_part : Spacing → Option Text → Option Text → Text
port_part g none passwd = password_part g passwd
port_part g (some t) passwd = b':' ∷ (t ++ password_part g passwd)

abbrev pub written : Spacing → Wanted → Text
written g w = g.lead ++ (w.mac ++ (g.gap ++ (w.host ++ port_part g w.port w.passwd)))

-- A class of characters without white space.
abbrev Excludes : (ℕ → Bool) → Type 0
Excludes p = (c : ℕ) → is_space c ≡ true → p c ≡ false

mac-Excludes : Excludes is_mac_char
mac-Excludes c h = ground arith

host-Excludes : Excludes is_host_char
host-Excludes c h = ground arith

pass-Excludes : Excludes is_pass_char
pass-Excludes c h = ground arith

digit-Excludes : Excludes is_digit
digit-Excludes c h = ground arith

Stops-space : (p : ℕ → Bool) (sp : Text) → Excludes p → All is_space sp → Stops p sp
Stops-space p [] x a = tt
Stops-space p (c ∷ sp) x a = x c a.0

Stops-gap :
    (p : ℕ → Bool) (sp rest : Text) → Excludes p → All is_space sp → sp ≢ [] → Stops p (sp ++ rest)
Stops-gap p [] rest x a ne = absurd (ne refl)
Stops-gap p (c ∷ sp) rest x a ne = x c a.0

module _ {w : Option ℕ} {p : ℕ → Bool} where
  Stops-run : (t rest : Text) → Excludes p → IsRun w p t → Stops is_space (t ++ rest)
  Stops-run [] rest x r = absurd (r.ne_nil refl)
  Stops-run (c ∷ t) rest x r = elim (Bool-cases (is_space c)) [
    | inl e ↦ absurd (cc (x c e, r.all.0))
    | inr e ↦ e
  ]

Stops-password_part :
    (p : ℕ → Bool) (g : Spacing) (passwd : Option Text)
    → Excludes p
    → IsSpacing g
    → Stops p (password_part g passwd)
Stops-password_part p g none x s = Stops-space p g.tail x s.tail
Stops-password_part p g (some t) x s = Stops-gap p g.second _ x s.second s.second_ne_nil

Stops-port_part :
    (g : Spacing) (port passwd : Option Text)
    → IsSpacing g
    → Stops is_host_char (port_part g port passwd)
Stops-port_part g none passwd s = Stops-password_part is_host_char g passwd host-Excludes s
Stops-port_part g (some t) passwd s = refl

-- The port's part is read by ":%5u", and what follows it by the rest of the format.
pub sscanf-port :
    (ds : List Directive) (g : Spacing) (t : Text) (passwd : Option Text)
    → IsSpacing g
    → IsPortText t
    → sscanf (port_fmt ds) (port_part g (some t) passwd)
      ≡ num (decimal 0 t) ∷ sscanf ds (password_part g passwd)
sscanf-port ds g t passwd s h =
    sscanf-lit _ b':' (t ++ password_part g passwd)
    ∙ sscanf-unsigned ds t (password_part g passwd) h
        (Stops-password_part is_digit g passwd digit-Excludes s)

pub sscanf-port_none :
    (ds : List Directive) (g : Spacing) (passwd : Option Text)
    → IsSpacing g
    → sscanf (port_fmt ds) (port_part g none passwd) ≡ []
sscanf-port_none ds g passwd s =
    sscanf-lit_other _ b':' (password_part g passwd)
      (Stops-password_part (λ x. x == b':') g passwd (λ c h. ground arith) s)

pub sscanf-passwd :
    (g : Spacing) (p : Text)
    → IsSpacing g
    → IsRun (some 17) is_pass_char p
    → sscanf (white ∷ pass_fmt ∷ []) (password_part g (some p)) ≡ text p ∷ []
sscanf-passwd g p s h =
    sscanf-white _ g.second (p ++ g.tail) s.second (Stops-run p g.tail pass-Excludes h)
    ∙ sscanf-chars [] (some 17) is_pass_char p g.tail h
        (Stops-space is_pass_char g.tail pass-Excludes s.tail)
    ∙ ap (◌∷◌ (text p)) (sscanf-nil g.tail)

-- Behind a host with no password there is white space only, or a port's colon.
pub sscanf-passwd_none :
    (g : Spacing) → IsSpacing g → sscanf (white ∷ pass_fmt ∷ []) (password_part g none) ≡ []
sscanf-passwd_none g s =
    ap (sscanf (white ∷ pass_fmt ∷ [])) (sym (append-nil g.tail))
    ∙ sscanf-white _ g.tail [] s.tail tt
    ∙ sscanf-chars_none [] (some 17) is_pass_char [] tt

pub sscanf-passwd_port :
    (g : Spacing) (t : Text) (passwd : Option Text)
    → sscanf (white ∷ pass_fmt ∷ []) (port_part g (some t) passwd) ≡ []
sscanf-passwd_port g t passwd =
    sscanf-white_none _ (port_part g (some t) passwd) refl
    ∙ sscanf-chars_none [] (some 17) is_pass_char (port_part g (some t) passwd) refl

module _ (g : Spacing) (w : Wanted) (s : IsSpacing g) (h : IsWanted w) where
  -- All four formats read the address and the host.
  pub sscanf-written :
      (ds : List Directive)
      → sscanf (white ∷ mac_fmt ∷ white ∷ host_fmt ∷ ds) (written g w)
        ≡ text w.mac ∷ text w.host ∷ sscanf ds (port_part g w.port w.passwd)
  sscanf-written ds =
      let part = port_part g w.port w.passwd in
      sscanf-white _ g.lead (w.mac ++ (g.gap ++ (w.host ++ part))) s.lead
        (Stops-run w.mac _ mac-Excludes h.mac)
      ∙ sscanf-chars _ (some 17) is_mac_char w.mac (g.gap ++ (w.host ++ part)) h.mac
          (Stops-gap is_mac_char g.gap _ mac-Excludes s.gap s.gap_ne_nil)
      ∙ ap (◌∷◌ (text w.mac)) (
          sscanf-white _ g.gap (w.host ++ part) s.gap (Stops-run w.host part host-Excludes h.host)
          ∙ sscanf-chars ds none is_host_char w.host part h.host
              (Stops-port_part g w.port w.passwd s))
