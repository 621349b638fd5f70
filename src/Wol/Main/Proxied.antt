-- ===== src/Wol/Main/Proxied.antt =====
-- The loops of `main` in src/wol.c in proxy mode: the string of a password is freed too often.
use wake_on_lan.Base.{
  ℕ, zero, suc, ◌+◌, ◌≡◌, refl, ◌∙◌, ap, Option, none, some, List, [], ◌∷◌, ◌++◌, replicate, length,
  Text,
}
use wake_on_lan.Macfile.{Entry, Buffer}
use wake_on_lan.System.{emit, pure, World, Outcome, live, ◌>>=◌, Origin, Pointer, heap, freed}
use wake_on_lan.System.Rules.{Post, Post-mono, Post-then}
use wake_on_lan.System.Blocks.{frees, blocks}
use wake_on_lan.Wol.{Globals}
use wake_on_lan.Wol.Send.{Host, assemble_and_send}
use wake_on_lan.Wol.Send.Proxied.{assemble_and_send-Spends}
use wake_on_lan.Wol.Main.{Session, free_passwd, hand_over, wake, wake_all, wake_entry}
use wake_on_lan.Wol.Main.Strings.{Hands, Both, Third, hand_over-Hands}

-- The piece returns with the same globals, and what was freed besides is this, newest first.
abbrev pub Frees : List Origin → Session → World → Outcome Session × World → Type 0
Frees os s w r =
    Post
      (λ s' w'.
        (s'.globals ≡ s.globals)
        × (live w'.history ≡ live w.history)
        × (w'.next ≡ w.next)
        × (frees w'.history ≡ os ++ frees w.history))
      r

-- What an entry leaves, if its globals are not looked at.
abbrev pub FreesEntry : List Origin → World → Outcome Session × World → Type 0
FreesEntry os w r =
    Post (λ s' w'. (live w'.history ≡ live w.history) × (frees w'.history ≡ os ++ frees w.history))
      r

replicate-append :
    (n : ℕ) (o : Origin) (os : List Origin) → replicate n o ++ (o ∷ os) ≡ o ∷ (replicate n o ++ os)
replicate-append zero o os = refl
replicate-append (suc n) o os = ap (◌∷◌ o) (replicate-append n o os)

module _ (h : Host) (sock : ℕ) where
  pub wake-Frees :
      (mac : Text) (s : Session) (p : Pointer) (w : World)
      → s.globals.packet_mode ≡ 4
      → s.globals.passwd ≡ some p
      → Frees (p.origin ∷ []) s w (wake h sock mac s w)
  unfolding wake
  wake-Frees mac s p w mode e =
      let g = s.globals in
      Post-then _ (Frees (p.origin ∷ []) s w)
        (assemble_and_send h g s.magic mac g.host_str.string g.port g.passwd sock) _ w
        (assemble_and_send-Spends h g s.magic mac g.host_str.string g.port sock g.passwd p w mode e)
        (λ sent w' (same, i, l, n, f, b). (refl, l, n, f))

  -- In proxy mode with a password, whatever the proxy answers: the loop over the words of the command
  -- line returns, and frees the password's string once for each word.
  pub wake_all-Frees :
      (macs : List Text) (s : Session) (p : Pointer) (w : World)
      → s.globals.packet_mode ≡ 4
      → s.globals.passwd ≡ some p
      → Frees (replicate (length macs) p.origin) s w (wake_all h sock macs s w)
  unfolding wake_all
  wake_all-Frees [] s p w mode e = (refl, refl, refl, refl)
  wake_all-Frees (mac ∷ macs) s p w mode e =
      Post-then _ (Frees (replicate (length (mac ∷ macs)) p.origin) s w) (wake h sock mac s) _ w
        (wake-Frees mac s p w mode e)
        λ next w1 (same, l, n, f).
          Post-mono _ _ (wake_all h sock macs next w1)
            (wake_all-Frees macs next p w1 (rw same mode) (rw same e))
            λ last w2 (same', l', n', f'). (
              same' ∙ same,
              l' ∙ l,
              n' ∙ n,
              f' ∙ rw f (replicate-append (length macs) p.origin (frees w.history)),
            )

  free_given :
      (entry : Entry) (g : Globals) (b : Buffer) (w w1 : World) (given : Pointer × Globals)
      (s : Session)
      → Hands entry g w given w1
      → entry.passwd ≡ some b
      → s.globals ≡ given.1
      → g.packet_mode ≡ 4
      → FreesEntry (blocks 3 w.next ++ (heap (2 + w.next) ∷ [])) w (
          (wake h sock given.0.string s >>= λ next. emit (freed given.0.origin) >>= λ u.
          emit (freed given.1.host_str.origin) >>= λ v.
          free_passwd given.1.passwd >>= λ x. pure next)
            w1)
  unfolding free_passwd
  free_given entry g b w w1 given s k e same mode =
      go given.1.passwd refl k.passwd (rw (← e) k.both)
    where
      go :
          (p : Option Pointer)
          → given.1.passwd ≡ p
          → Third w.next p w1.next
          → Both (some b) p
          → FreesEntry (blocks 3 w.next ++ (heap (2 + w.next) ∷ [])) w (
              (wake h sock given.0.string s >>= λ next. emit (freed given.0.origin) >>= λ u.
              emit (freed given.1.host_str.origin) >>= λ v. free_passwd p >>= λ x. pure next)
                w1)
      go none q t y = absurd y
      go (some p) q (at, t) y =
          Post-then _ (FreesEntry (blocks 3 w.next ++ (heap (2 + w.next) ∷ [])) w)
            (wake h sock given.0.string s) _ w1
            (wake-Frees given.0.string s p w1
              (ap (λ (x : Globals). x.packet_mode) same ∙ k.mode ∙ mode)
              (ap (λ (x : Globals). x.passwd) same ∙ q))
            λ next w2 (e2, l, n, f). (l ∙ k.descriptors, rw (k.mac, k.host, at, f, k.released, at))

  -- In proxy mode, and on an entry with a password, whatever the proxy answers: the round returns,
  -- the strings of the entry are freed, and the password's twice.
  pub wake_entry_double_free :
      (entry : Entry) (b : Buffer) (s : Session) (w : World)
      → s.globals.packet_mode ≡ 4
      → entry.passwd ≡ some b
      → FreesEntry (blocks 3 w.next ++ (heap (2 + w.next) ∷ [])) w (wake_entry h sock entry s w)
  unfolding wake_entry
  wake_entry_double_free entry b s w mode e =
      Post-then (Hands entry s.globals w)
        (FreesEntry (blocks 3 w.next ++ (heap (2 + w.next) ∷ [])) w)
        (hand_over h.os entry s.globals) _ w (hand_over-Hands h sock entry s.globals w)
        λ given w1 k.
          free_given entry s.globals b w w1 given (record s { globals = given.1 }) k e refl mode
