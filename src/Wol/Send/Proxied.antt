-- ===== src/Wol/Send/Proxied.antt =====
-- `assemble_and_send` of src/wol.c in proxy mode, whatever the proxy answers: the string of the
-- password, and who frees it.
use wake_on_lan.Base.{ℕ, ◌≡◌, ◌∙◌, ap, true, false, Option, some, ◌∷◌, arith, Text}
use wake_on_lan.Magic.{Magic}
use wake_on_lan.System.{World, Outcome, live, Origin, Pointer, freed, log}
use wake_on_lan.System.Rules.{Post, Post-mono, Post-then}
use wake_on_lan.System.Blocks.{frees, outstanding, Quiet}
use wake_on_lan.Proxy.{proxy_send}
use wake_on_lan.Proxy.Quiet.{proxy_send-Quietly}
use wake_on_lan.Wol.{Globals, udp_mode, proxy_mode}
use wake_on_lan.Wol.Send.{
  Host, Sent, is_mode, announce, give_up, finish_send, proxy_pass, send_by_proxy, assemble_and_send,
}

-- The piece returns the packet as it was, has freed this string and no other that has a number, and
-- has neither read nor made one, nor opened or closed a descriptor; each block that a function took
-- for itself was given back.
abbrev pub Spends : Origin → Magic → World → Outcome Sent × World → Type 0
Spends o m w r =
    Post
      (λ sent w'.
        (sent.1 ≡ m)
        × (w'.stdin ≡ w.stdin)
        × (live w'.history ≡ live w.history)
        × (w'.next ≡ w.next)
        × (frees w'.history ≡ o ∷ frees w.history)
        × (outstanding w'.history ≡ outstanding w.history))
      r

module _ (h : Host) (g : Globals) where
  finish_send-Quiet :
      (mac host : Text) (port : ℕ) (m : Magic) (r : Option ℕ) (w : World)
      → Post (λ sent w'. (sent.1 ≡ m) × Quiet w w') (finish_send h g mac host port m r w)
  unfolding finish_send give_up announce
  finish_send-Quiet mac host port m r w = ground arith

  -- In proxy mode with a password, whatever the proxy answers: the call returns, leaves the packet as
  -- it was, and of the strings that a pointer of the program holds it frees that of the password,
  -- which is its caller's, and no other. The block that `proxy_send` takes is given back.
  pub assemble_and_send-Spends :
      (m : Magic) (mac host : Text) (port sock : ℕ) (pass : Option Pointer) (p : Pointer)
      (w : World)
      → g.packet_mode ≡ 4
      → pass ≡ some p
      → Spends p.origin m w (assemble_and_send h g m mac host port pass sock w)
  unfolding assemble_and_send send_by_proxy proxy_pass
  assemble_and_send-Spends m mac host port sock pass p w mode e0 =
      let no_udp : is_mode g.packet_mode udp_mode ≡ false = rw mode in
      let by_proxy : is_mode g.packet_mode proxy_mode ≡ true = rw mode in
      rw (e0, no_udp, by_proxy)
        (Post-then _ (Spends p.origin m w) (proxy_send h.os h.md5 sock mac p.string) _ w
          (proxy_send-Quietly h.os sock h.md5 mac p.string w)
          λ r w1 (i, l, n, f, b).
            Post-mono _ _ (finish_send h g mac host port m r (log (freed p.origin) w1))
              (finish_send-Quiet mac host port m r (log (freed p.origin) w1))
              λ sent w2 (e, (i', l', n', f', b')).
                (e, i' ∙ i, l' ∙ l, n' ∙ n, f' ∙ ap (◌∷◌ p.origin) f, b' ∙ b))
