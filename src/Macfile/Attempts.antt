-- ===== src/Macfile/Attempts.antt =====
-- One `if (sscanf (...) == n)` of `get_tokens` in src/macfile.c, and the lines that no format takes.
use wake_on_lan.Base.{
  ℕ, ◌≡◌, refl, ◌∙◌, false, [], ◌∷◌, ◌++◌, List, length, arith, ◌==◌, Text, All, Stops, is_space,
  skip_space, skip_space-append,
}
use wake_on_lan.Scan.{Directive, Value, white, sscanf}
use wake_on_lan.Scan.Runs.{sscanf-chars_none}
use wake_on_lan.Macfile.{
  Locals, Target, assign, attempt, get_tokens, comment_format, mac_fmt, is_mac_char, format_all,
  format_no_port, format_no_pass, format_short,
}

-- " # %*s" stores nothing, so its count is never 1 and the early return is never taken.
pub comment_format-nil : (s : Text) → sscanf comment_format s ≡ []
unfolding sscanf
comment_format-nil s = ground arith

module _ (format : List Directive) (targets : List Target) (tokens : ℕ) (s : Text)
    (next : Locals → ℕ × Locals) (l : Locals) where
  pub attempt_hit :
      (vs : List Value)
      → sscanf format s ≡ vs
      → length vs ≡ length targets
      → attempt format targets tokens s next l ≡ (tokens, assign targets vs l)
  unfolding attempt
  attempt_hit vs e n = rw e (ground arith)

  pub attempt_miss :
      (vs : List Value)
      → sscanf format s ≡ vs
      → (length vs == length targets) ≡ false
      → attempt format targets tokens s next l ≡ next (assign targets vs l)
  unfolding attempt
  attempt_miss vs e n = rw (e, n)

-- After its leading white space the line begins with no character of an address, or is empty.
abbrev pub IsIgnored : Text → Type 0
IsIgnored s = Stops is_mac_char (skip_space s)

sscanf-IsIgnored :
    (ds : List Directive) (s : Text) → IsIgnored s → sscanf (white ∷ mac_fmt ∷ ds) s ≡ []
unfolding sscanf
sscanf-IsIgnored ds s h = sscanf-chars_none ds _ is_mac_char (skip_space s) h

-- A line that begins, behind its leading white space, with no character of an address gives no
-- tokens and fills nothing: so do empty lines, and comments, which begin with `#`.
pub get_tokens-IsIgnored : (s : Text) (l : Locals) → IsIgnored s → get_tokens s l ≡ (0, l)
unfolding get_tokens
get_tokens-IsIgnored s l h = rw (comment_format-nil s) (
    attempt_miss format_all _ _ s _ l [] (sscanf-IsIgnored _ s h) refl
    ∙ attempt_miss format_no_port _ _ s _ l [] (sscanf-IsIgnored _ s h) refl
    ∙ attempt_miss format_no_pass _ _ s _ l [] (sscanf-IsIgnored _ s h) refl
    ∙ attempt_miss format_short _ _ s _ l [] (sscanf-IsIgnored _ s h) refl)

-- A comment, behind any white space.
pub IsIgnored-comment : (sp s : Text) → All is_space sp → IsIgnored (sp ++ (b'#' ∷ s))
IsIgnored-comment sp s a = rw (skip_space-append sp (b'#' ∷ s) a refl) refl
