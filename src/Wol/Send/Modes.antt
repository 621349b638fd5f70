-- ===== src/Wol/Send/Modes.antt =====
-- Packets of src/wol.c that go out through a proxy.
use wake_on_lan.Base.{
  ℕ, suc, ◌≡◌, refl, true, false, some, List, ◌∷◌, ◌++◌, drop, length, arith, Text,
}
use wake_on_lan.Magic.{Magic}
use wake_on_lan.System.{World, returns, Event, gives, sent, log, Pointer, told, cannot_send, freed}
use wake_on_lan.Net.{tcp_send}
use wake_on_lan.Proxy.{hex_challenge}
use wake_on_lan.Proxy.Reply.{pairs}
use wake_on_lan.Proxy.Challenge.{proxy_send-Answers}
use wake_on_lan.Wol.{Globals, udp_mode, proxy_mode}
use wake_on_lan.Wol.Send.{
  nonzero, is_mode, Host, error_code, give_up, finish_send, proxy_pass, send_by_proxy,
  assemble_and_send,
}

module _ (h : Host) (g : Globals) where
  finish_send_failed :
      (mac host : Text) (port n : ℕ) (m : Magic) (w : World)
      → finish_send h g mac host port m (some (suc n)) w
        ≡ (returns (error_code, m), record (log (told (cannot_send mac host port)) w) { errno = 0 })
  unfolding finish_send give_up
  finish_send_failed mac host port n m w =
      let failed : nonzero (some (suc n)) ≡ true = ground arith in rw failed

  -- In proxy mode with a password: a proxy that sends a whole challenge and takes the reply, so
  -- that `send` returns a positive count, is reported as a failure, and -1 is returned. The string
  -- of the password is freed wherever it lies.
  pub assemble_and_send_proxy :
      (m : Magic) (mac host : Text) (port sock : ℕ) (p : Pointer) (bytes : List ℕ) (w : World)
      → g.packet_mode ≡ 4
      → h.os.recv w.history sock hex_challenge ≡ gives bytes
      → length bytes ≡ hex_challenge
      → ((past : List Event) (buf : List ℕ) → (n : ℕ) × (h.os.send past sock buf ≡ gives (suc n)))
      → let r = assemble_and_send h g m mac host port (some p) sock w in
        (r.0 ≡ returns (error_code, m))
        × ((older : List Event) × (r.1.history
              ≡ told (cannot_send mac host port) ∷ freed p.origin ∷ older))
  unfolding assemble_and_send send_by_proxy proxy_pass tcp_send
  assemble_and_send_proxy m mac host port sock p bytes w mode got whole taken =
      let no_udp : is_mode g.packet_mode udp_mode ≡ false = rw mode in
      let by_proxy : is_mode g.packet_mode proxy_mode ≡ true = rw mode in
      let a = proxy_send-Answers h.os h.md5 sock mac p.string bytes w got whole in
      let (n, sending) = taken a.before.history (pairs a.sum ++ drop 32 bytes) in
      let sent_world = log (sent sock (pairs a.sum ++ drop 32 bytes)) a.before in
      rw (no_udp, by_proxy)
        (rw a.sends (
          rw sending (
            rw (finish_send_failed mac host port n m (log (freed p.origin) sent_world))
              (refl, (sent_world.history, refl)))))
