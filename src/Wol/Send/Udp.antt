-- ===== src/Wol/Send/Udp.antt =====
-- A packet of src/wol.c by UDP, from the written address to the network.
use wake_on_lan.Base.{ℕ, ◌≡◌, ◌%◌, ◌^◌, true, none, some, List, ◌∷◌, length, arith, Text}
use wake_on_lan.Scan.Laws.{Ends}
use wake_on_lan.Magic.{Magic, success}
use wake_on_lan.Magic.Layout.{frame}
use wake_on_lan.Magic.Assemble.{IsValid}
use wake_on_lan.Magic.Written.{Field, values, joined, assemble-joined}
use wake_on_lan.System.{World, returns, inet, gives, resolved}
use wake_on_lan.Net.Sending.{datagrams, udp_send_ok}
use wake_on_lan.Wol.{Globals, udp_mode}
use wake_on_lan.Wol.Send.{
  is_mode, Host, ok_code, assemble, assembled, announce, finish_send, send_by_udp,
  assemble_and_send,
}

module _ (h : Host) (g : Globals) where
  -- The report returns 0 and sends nothing.
  pub announce_lem :
      (mac host : Text) (port : ℕ) (m : Magic) (w : World)
      → ((announce h g mac host port m w).0 ≡ returns (ok_code, m))
        × (datagrams (announce h g mac host port m w).1.history ≡ datagrams w.history)
  unfolding announce
  announce_lem mac host port m w = (ground arith, ground arith)

  pub assemble_written :
      (m : Magic) (fs : List Field) (rest : Text) (w : World)
      → IsValid m
      → length fs ≡ 6
      → Ends rest
      → assemble h g m (joined b':' fs rest) none w
        ≡ (returns (success, record { packet = frame (values fs); size = 102 }), w)
  unfolding assemble
  assemble_written m fs rest w v six e =
      rw (assemble-joined h.alloc h.ethers w.errno m v fs rest six e, assemble)

  -- In UDP mode, with no password: an address that is written as six bytes, a host name that
  -- resolves and a `sendto` that takes the datagram. Then one datagram is sent, the frame of just
  -- these bytes, to the host's address and the port's low 16 bits, and 0 is returned.
  pub assemble_and_send_udp :
      (m : Magic) (fs : List Field) (rest host : Text) (port sock n : ℕ) (addr : List ℕ) (w : World)
      → g.packet_mode ≡ 1
      → IsValid m
      → length fs ≡ 6
      → Ends rest
      → h.os.gethostbyname w.history host ≡ some addr
      → h.os.sendto (resolved host ∷ w.history) sock (frame (values fs)) (inet addr (port % 2 ^ 16))
        ≡ gives n
      → let r = assemble_and_send h g m (joined b':' fs rest) host port none sock w in
        let made : Magic = record { packet = frame (values fs); size = 102 } in
        (r.0 ≡ returns (ok_code, made))
        × (datagrams r.1.history
            ≡ (frame (values fs), inet addr (port % 2 ^ 16)) ∷ datagrams w.history)
  unfolding assemble_and_send send_by_udp assembled finish_send
  assemble_and_send_udp m fs rest host port sock n addr w mode v six e found taken =
      let small : port % 2 ^ 16 % 2 ^ 16 ≡ port % 2 ^ 16 = omega arith in
      let made : Magic = record { packet = frame (values fs); size = 102 } in
      let by_udp : is_mode g.packet_mode udp_mode ≡ true = rw mode in
      rw by_udp (
        rw (assemble_written m fs rest w v six e) (
          rw
            (udp_send_ok h.os sock host (port % 2 ^ 16) (frame (values fs)) w addr n found
              (rw small taken))
            (rw small (announce_lem (joined b':' fs rest) host port made _))))
