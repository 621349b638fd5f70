-- ===== src/Wol/Main/Denied.antt =====
-- `main` of src/wol.c in proxy mode, with one word and a proxy that takes every reply.
use wake_on_lan.Base.{
  ℕ, suc, ◌+◌, ◌<◌, ◌^◌, ◌≡◌, refl, ap, ◌∙◌, ◌++◌, inl, inr, ◌==◌, if◌then◌else◌, false, Option,
  none, some, List, [], ◌∷◌, length, arith, Text,
}
use wake_on_lan.System.{
  Event, Origin, heap, magic_block, packet_block, Answer-cases, World, Outcome, returns, exits,
  crashes, unfinished, ◌>>=◌, ◌>>◌, exit, Pointer, gives,
}
use wake_on_lan.System.Rules.{Post, Post-then}
use wake_on_lan.Net.{net_close}
use wake_on_lan.Proxy.{hex_challenge}
use wake_on_lan.Wol.{Globals}
use wake_on_lan.Wol.Send.{Host, Sent, error_code, assemble_and_send}
use wake_on_lan.Wol.Send.Modes.{assemble_and_send_proxy}
use wake_on_lan.System.Blocks.{frees}
use wake_on_lan.Wol.Main.Proxied.{wake-Frees}
use wake_on_lan.Wol.Main.{Session, wake, wake_all, wake_input, wake_up, magic_destroy}

-- Every challenge is whole, and every reply is taken.
pub record Accepts (h : Host) (sock : ℕ) : Type 0 where
  pub challenges :
      (past : List Event)
      → (bytes : List ℕ) × (h.os.recv past sock hex_challenge ≡ gives bytes)
        × (length bytes ≡ hex_challenge)
  pub takes :
      (past : List Event) (buf : List ℕ) → (n : ℕ) × (h.os.send past sock buf ≡ gives (suc n))

-- The same globals, and so many failures.
abbrev Failed : ℕ → Globals → Outcome Session × World → Type 0
Failed n g r = Post (λ s w. (s.globals ≡ g) × (s.ret ≡ n)) r

-- The program ends with this status, and what was freed besides is this, newest first.
abbrev pub FailsWith : ℕ → List Origin → World → Outcome (Unit {0}) × World → Type 0
FailsWith status os w (exits n, w') = (n ≡ status) × (frees w'.history ≡ os ++ frees w.history)
FailsWith status os w (o, w') = ⊥

-- Two predicates on what a piece returns.
Post-both :
    {A : Type 0} (P Q : A → World → Type 0) (r : Outcome A × World)
    → Post P r
    → Post Q r
    → Post (λ a w. P a w × Q a w) r
Post-both P Q (returns a, w) p q = (p, q)
Post-both P Q (exits n, w) p q = p
Post-both P Q (crashes, w) p q = p
Post-both P Q (unfinished, w) p q = p

module _ (h : Host) (sock : ℕ) (up : Accepts h sock) where
  send-Fails :
      (s : Session) (mac : Text) (p : Pointer) (pass : Option Pointer) (w : World)
      → s.globals.packet_mode ≡ 4
      → pass ≡ some p
      → Post
          (λ sent w'. sent.0 ≡ error_code)
          (assemble_and_send h s.globals s.magic mac s.globals.host_str.string s.globals.port pass
            sock w)
  send-Fails s mac p pass w mode e =
      let g = s.globals in
      let (bytes, got, whole) = up.challenges w.history in
      let (result, rest) =
        assemble_and_send_proxy h g s.magic mac g.host_str.string g.port sock p bytes w mode got
          whole up.takes in
      rw e (go _ result)
    where
      go :
          (r : Outcome Sent × World)
          → r.0 ≡ returns (error_code, s.magic)
          → Post (λ sent w'. sent.0 ≡ error_code) r
      go (returns sent, w') k = cc
      go (exits n, w') k = absurd (cc)
      go (crashes, w') k = absurd (cc)
      go (unfinished, w') k = absurd (cc)

  wake-Failed :
      (mac : Text) (s : Session) (p : Pointer) (w : World)
      → s.globals.packet_mode ≡ 4
      → s.globals.passwd ≡ some p
      → s.ret + 1 < 2 ^ 32
      → Failed (s.ret + 1) s.globals (wake h sock mac s w)
  unfolding wake
  wake-Failed mac s p w mode e lt =
      let g = s.globals in
      Post-then _ (Failed (s.ret + 1) g)
        (assemble_and_send h g s.magic mac g.host_str.string g.port g.passwd sock) _ w
        (send-Fails s mac p g.passwd w mode e) (λ sent w' failed. (refl, rw failed (omega arith)))

  one-Failed :
      (mac : Text) (s : Session) (p : Pointer) (w : World)
      → s.globals.packet_mode ≡ 4
      → s.globals.passwd ≡ some p
      → s.ret + 1 < 2 ^ 32
      → Post
          (λ s' w'.
            (s'.globals ≡ s.globals)
            × (s'.ret ≡ s.ret + 1)
            × (frees w'.history ≡ p.origin ∷ frees w.history))
          (wake_all h sock (mac ∷ []) s w)
  unfolding wake_all
  one-Failed mac s p w mode e lt =
      Post-then _ (Post _) (wake h sock mac s) _ w
        (Post-both _ _ (wake h sock mac s w) (wake-Failed mac s p w mode e lt)
          (wake-Frees h sock mac s p w mode e))
        λ named w1 ((same, ret), (same', l, n, f)). (same, ret, f)

  input-Failed :
      (fuel : ℕ) (s : Session) (w : World)
      → s.globals.request_stdin ≡ false
      → s.globals.pathname ≡ none
      → wake_input h sock fuel s w ≡ (returns s, w)
  unfolding wake_input
  input-Failed fuel s w i e = simp (i, e) refl

  ending-Fails :
      (ret n : ℕ) (os : List Origin) (w w' : World)
      → ret ≡ suc n
      → frees w'.history ≡ os ++ frees w.history
      → FailsWith 1
          (magic_block ∷ packet_block ∷ os)
          w
          ((net_close h.os sock >>= λ u. magic_destroy >> exit (if ret == 0 then 0 else 1)) w')
  unfolding net_close magic_destroy
  ending-Fails ret n os w w' e f = elim (Answer-cases (h.os.close w'.history sock)) [
    | inl (u, k) ↦ rw k (ground arith, ap (λ l. magic_block ∷ packet_block ∷ l) f)
    | inr (m, k) ↦ rw k (ground arith, ap (λ l. magic_block ∷ packet_block ∷ l) f)
  ]

  -- In proxy mode, with one word on the command line, nothing to read behind it, and a password on
  -- the heap, with a proxy that gives whole challenges and takes every reply: the program
  -- nevertheless ends with 1, the status of a failure, if the store that `proxy_send` makes behind
  -- `rsbuf` changes nothing. The password's string is freed once, then the
  -- packet and its record, and of the blocks that a pointer of the program holds no other.
  pub wake_up_denied :
      (fuel : ℕ) (mac : Text) (s : Session) (p : Pointer) (k : ℕ) (w : World)
      → s.ret ≡ 0
      → s.globals.packet_mode ≡ 4
      → s.globals.passwd ≡ some p
      → p.origin ≡ heap k
      → s.globals.request_stdin ≡ false
      → s.globals.pathname ≡ none
      → FailsWith 1
          (magic_block ∷ packet_block ∷ heap k ∷ [])
          w
          (wake_up h (mac ∷ []) fuel s sock w)
  unfolding wake_up
  wake_up_denied fuel mac s p k w z mode e at stdin path = simp (stdin) (
      Post-then _ (FailsWith 1 (magic_block ∷ packet_block ∷ heap k ∷ []) w)
        (wake_all h sock (mac ∷ []) s) _ w (one-Failed mac s p w mode e (omega arith))
        λ named w1 (same, ret, f).
          rw (input-Failed fuel named w1 (rw same stdin) (rw same path))
            (ending-Fails named.ret s.ret (heap k ∷ []) w w1 (omega arith) (f ∙ rw at refl)))
