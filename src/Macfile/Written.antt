-- ===== src/Macfile/Written.antt =====
-- `get_tokens` of src/macfile.c on the lines that it takes: the tokens and what is stored.
use wake_on_lan.Base.{
  ℕ, ◌≡◌, refl, ap, ◌∙◌, ◌≤◌, false, ◌||◌, Option, none, some, [], ◌∷◌, length, arith, Text,
}
use wake_on_lan.Scan.{num, text}
use wake_on_lan.Scan.Runs.{sscanf-nil}
use wake_on_lan.Scan.Decimal.{decimal}
use wake_on_lan.Macfile.{
  Buffer, holds, Locals, get_tokens, format_all, format_no_port, format_no_pass, format_short,
  host_size, array_size, overruns, targets_all, targets_no_port, targets_no_pass, targets_short,
}
use wake_on_lan.Macfile.Attempts.{comment_format-nil, attempt_hit, attempt_miss}
use wake_on_lan.Macfile.Entries.{
  Wanted, IsWanted, Spacing, IsSpacing, written, sscanf-written, sscanf-port, sscanf-port_none,
  sscanf-passwd, sscanf-passwd_none, sscanf-passwd_port,
}

-- MAC | HOST, with PORT and PASS where the line has them.
abbrev pub tokens_of : Option Text → Option Text → ℕ
tokens_of none none = 3
tokens_of (some t) none = 7
tokens_of none (some p) = 11
tokens_of (some t) (some p) = 15

abbrev pub number_or : Option Text → ℕ → ℕ
number_or none old = old
number_or (some t) old = decimal 0 t

abbrev pub text_or : Option Text → Buffer → Buffer
text_or none old = old
text_or (some p) old = holds p

-- The line's parts, each in its place; a place whose part the line lacks keeps what it held.
abbrev pub filled : Wanted → Locals → Locals
filled w l = record {
  mac = holds w.mac;
  host = holds w.host;
  port = number_or w.port l.port;
  passwd = text_or w.passwd l.passwd;
  overflow = l.overflow || overruns host_size w.host;
}

fits : (s : Text) → length s ≤ 17 → overruns array_size s ≡ false
fits s h = ground arith

module _ (g : Spacing) (m h : Text) (l : Locals) (s : IsSpacing g) where
  abbrev line : Option Text → Option Text → Text
  line port passwd = written g (record { mac = m; host = h; port = port; passwd = passwd })

  abbrev Wants : Option Text → Option Text → Type 0
  Wants port passwd = IsWanted (record { mac = m; host = h; port = port; passwd = passwd })

  abbrev Reads : Option Text → Option Text → Type 0
  Reads port passwd = get_tokens (line port passwd) l ≡ (
    tokens_of port passwd,
    filled (record { mac = m; host = h; port = port; passwd = passwd }) l,
  )

  get_tokens_both : (t p : Text) → Wants (some t) (some p) → Reads (some t) (some p)
  unfolding get_tokens
  get_tokens_both t p w =
      let n = line (some t) (some p) in
      let e =
        sscanf-written g _ s w _
        ∙ ap (λ vs. text m ∷ text h ∷ vs)
            (sscanf-port _ g t (some p) s w.port
              ∙ ap (◌∷◌ (num (decimal 0 t))) (sscanf-passwd g p s w.passwd)) in
      rw (comment_format-nil n) (
        attempt_hit format_all targets_all 15 n _ l
          (text m ∷ text h ∷ num (decimal 0 t) ∷ text p ∷ []) e refl
        ∙ ground (arith, fits m w.mac.allowed, fits p w.passwd.allowed))

  get_tokens_port : (t : Text) → Wants (some t) none → Reads (some t) none
  unfolding get_tokens
  get_tokens_port t w =
      let n = line (some t) none in
      let both =
        ap (λ vs. text m ∷ text h ∷ vs)
          (sscanf-port _ g t none s w.port
            ∙ ap (◌∷◌ (num (decimal 0 t))) (sscanf-passwd_none g s)) in
      let first = sscanf-written g _ s w _ ∙ both in
      let second =
        sscanf-written g _ s w _ ∙ ap (λ vs. text m ∷ text h ∷ vs) (sscanf-passwd_port g t none) in
      let third =
        sscanf-written g _ s w _
        ∙ ap (λ vs. text m ∷ text h ∷ vs)
            (sscanf-port [] g t none s w.port ∙ ap (◌∷◌ (num (decimal 0 t))) (sscanf-nil _)) in
      rw (comment_format-nil n) (
        attempt_miss format_all targets_all 15 n _ l (text m ∷ text h ∷ num (decimal 0 t) ∷ [])
          first refl
        ∙ attempt_miss format_no_port targets_no_port 11 n _ _ (text m ∷ text h ∷ []) second refl
        ∙ attempt_hit format_no_pass targets_no_pass 7 n _ _
            (text m ∷ text h ∷ num (decimal 0 t) ∷ []) third refl
        ∙ ground (arith, fits m w.mac.allowed))

  get_tokens_passwd : (p : Text) → Wants none (some p) → Reads none (some p)
  unfolding get_tokens
  get_tokens_passwd p w =
      let n = line none (some p) in
      let first =
        sscanf-written g _ s w _
        ∙ ap (λ vs. text m ∷ text h ∷ vs) (sscanf-port_none _ g (some p) s) in
      let second =
        sscanf-written g _ s w _ ∙ ap (λ vs. text m ∷ text h ∷ vs) (sscanf-passwd g p s w.passwd) in
      rw (comment_format-nil n) (
        attempt_miss format_all targets_all 15 n _ l (text m ∷ text h ∷ []) first refl
        ∙ attempt_hit format_no_port targets_no_port 11 n _ _ (text m ∷ text h ∷ text p ∷ []) second
            refl
        ∙ ground (arith, fits m w.mac.allowed, fits p w.passwd.allowed))

  get_tokens_short : Wants none none → Reads none none
  unfolding get_tokens
  get_tokens_short w =
      let n = line none none in
      let both = text m ∷ text h ∷ [] in
      let first =
        sscanf-written g _ s w _ ∙ ap (λ vs. text m ∷ text h ∷ vs) (sscanf-port_none _ g none s) in
      let second =
        sscanf-written g _ s w _ ∙ ap (λ vs. text m ∷ text h ∷ vs) (sscanf-passwd_none g s) in
      let third =
        sscanf-written g _ s w _ ∙ ap (λ vs. text m ∷ text h ∷ vs) (sscanf-port_none [] g none s) in
      let fourth = sscanf-written g _ s w _ ∙ ap (λ vs. text m ∷ text h ∷ vs) (sscanf-nil _) in
      rw (comment_format-nil n) (
        attempt_miss format_all targets_all 15 n _ l both first refl
        ∙ attempt_miss format_no_port targets_no_port 11 n _ _ both second refl
        ∙ attempt_miss format_no_pass targets_no_pass 7 n _ _ both third refl
        ∙ attempt_hit format_short targets_short 3 n _ _ both fourth refl
        ∙ ground (arith, fits m w.mac.allowed))

  get_tokens_parts : (port passwd : Option Text) → Wants port passwd → Reads port passwd
  get_tokens_parts none none w = get_tokens_short w
  get_tokens_parts (some t) none w = get_tokens_port t w
  get_tokens_parts none (some p) w = get_tokens_passwd p w
  get_tokens_parts (some t) (some p) w = get_tokens_both t p w

-- A written line, with white space as it likes between its parts, gives just the tokens that it
-- has, and stores its parts: the address, the host, and the port's number and the password where
-- they are there. The only array that can overflow is the host's, by a host of 255 or more
-- characters.
pub get_tokens-written :
    (g : Spacing) (w : Wanted) (l : Locals)
    → IsSpacing g
    → IsWanted w
    → get_tokens (written g w) l ≡ (tokens_of w.port w.passwd, filled w l)
get_tokens-written g w l s h = get_tokens_parts g w.mac w.host l s w.port w.passwd h
