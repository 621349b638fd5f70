-- ===== src/Macfile/Bytes.antt =====
-- The lines that macfiles hold have no zero byte, so that `sscanf` sees them whole.
use wake_on_lan.Base.{
  ℕ, ◌≡◌, refl, ap, true, false, Bool, not, none, some, Option, [], ◌∷◌, ◌++◌, arith, ◌==◌, Text,
  All, is_space,
}
use wake_on_lan.Stream.{c_string}
use wake_on_lan.Scan.Decimal.{is_digit}
use wake_on_lan.Macfile.{is_mac_char, is_host_char, is_pass_char}
use wake_on_lan.Macfile.Entries.{
  Wanted, IsWanted, IsPort, IsPassword, Spacing, IsSpacing, written, password_part, port_part,
}

-- No zero byte.
abbrev pub is_char : ℕ → Bool
is_char c = not (c == 0)

pub c_string-All : (s : Text) → All is_char s → c_string s ≡ s
unfolding c_string
c_string-All [] a = refl
c_string-All (c ∷ s) a =
    let e : (c == 0) ≡ false = ground arith in rw e (ap (◌∷◌ c) (c_string-All s a.1))

pub All-append : (p : ℕ → Bool) (s t : Text) → All p s → All p t → All p (s ++ t)
All-append p [] t a b = b
All-append p (c ∷ s) t a b = (a.0, All-append p s t a.1 b)

All-char :
    (p : ℕ → Bool) (s : Text) → ((c : ℕ) → p c ≡ true → is_char c ≡ true) → All p s → All is_char s
All-char p [] f a = tt
All-char p (c ∷ s) f a = (f c a.0, All-char p s f a.1)

module _ (g : Spacing) (s : IsSpacing g) where
  space_chars : (sp : Text) → All is_space sp → All is_char sp
  space_chars sp = All-char is_space sp (λ c h. ground arith)

  password_part-chars :
      (passwd : Option Text) → IsPassword passwd → All is_char (password_part g passwd)
  password_part-chars none h = space_chars g.tail s.tail
  password_part-chars (some p) h =
      All-append is_char g.second (p ++ g.tail) (space_chars g.second s.second) (
        All-append is_char p g.tail (All-char is_pass_char p (λ c h. ground arith) h.all)
          (space_chars g.tail s.tail))

  port_part-chars :
      (port passwd : Option Text)
      → IsPort port
      → IsPassword passwd
      → All is_char (port_part g port passwd)
  port_part-chars none passwd h k = password_part-chars passwd k
  port_part-chars (some t) passwd h k = (
    refl,
    All-append is_char t (password_part g passwd)
        (All-char is_digit t (λ c h. ground arith) h.digits) (password_part-chars passwd k),
  )

  pub written-chars : (w : Wanted) → IsWanted w → All is_char (written g w)
  written-chars w h = All-append is_char g.lead _ (space_chars g.lead s.lead) (
      All-append is_char w.mac _ (All-char is_mac_char w.mac (λ c h. ground arith) h.mac.all) (
        All-append is_char g.gap _ (space_chars g.gap s.gap) (
          All-append is_char w.host _
            (All-char is_host_char w.host (λ c h. ground arith) h.host.all)
            (port_part-chars w.port w.passwd h.port h.passwd))))
