-- ===== src/Wol/Deliver/Jobs.antt =====
-- `assemble_and_send` of src/wol.c on a job, in UDP and in raw mode.
use wake_on_lan.Base.{
  ℕ, ◌%◌, ◌^◌, ◌≡◌, refl, ◌∙◌, Bool, true, false, Option, none, some, List, [], ◌∷◌, arith, Text,
}
use wake_on_lan.Magic.{Magic, Status, success, bad_address, bad_password}
use wake_on_lan.Magic.Assemble.{IsValid}
use wake_on_lan.System.{inet, link, World, resolved, Pointer, M, ◌>>=◌}
use wake_on_lan.Net.{net_resolv, udp_send, raw_send}
use wake_on_lan.Wol.{Globals, udp_mode, proxy_mode}
use wake_on_lan.Wol.Send.{
  Host, Code, ok_code, error_code, Sent, is_mode, nonzero, assemble, assembled, announce, give_up,
  finish_send, send_by_udp, send_by_raw, assemble_and_send,
}
use wake_on_lan.Wol.Deliver.{Sends, Sends-bind}
use wake_on_lan.Wol.Deliver.Network.{
  Route, by_udp, by_raw, mode_of, Network, effect_of, to_address, Follows, Carries, Answers,
}
use wake_on_lan.Wol.Deliver.Packets.{
  text_of, packet_for, packet_for-IsValid, Makes, made, Refused, assemble-Denotes, assemble-Refused,
}

abbrev pub code_of : Bool → Code
code_of true = error_code
code_of false = ok_code

-- The result that goes with a failure or a success, and a valid packet.
abbrev pub Reports : Bool → Sent → Type 0
Reports failed sent = (sent.0 ≡ code_of failed) × IsValid sent.1

module _ (h : Host) (g : Globals) (mac host : Text) (port : ℕ) where
  announce-Sends :
      (m : Magic) (w : World)
      → IsValid m
      → Sends (Reports false) [] w (announce h g mac host port m w)
  unfolding announce
  announce-Sends m w v = ground arith

  finish_send-Sends :
      (m : Magic) (r : Option ℕ) (w : World) (failed : Bool)
      → IsValid m
      → nonzero r ≡ failed
      → Sends (Reports failed) [] w (finish_send h g mac host port m r w)
  unfolding finish_send give_up
  finish_send-Sends m r w true v e = rw e ((refl, v), refl, (refl, refl))
  finish_send-Sends m r w false v e = rw e (announce-Sends m w v)

  assembled-Sends :
      (parts : Status × Magic) (k : Magic → M Sent) (w : World)
      → Refused parts
      → Sends (Reports true) [] w (assembled h g mac parts k w)
  unfolding assembled give_up
  assembled-Sends (success, m) k w x = absurd x
  assembled-Sends (bad_address, m) k w v = ((refl, v), refl, (refl, refl))
  assembled-Sends (bad_password, m) k w v = ((refl, v), refl, (refl, refl))

  module _ (sock : ℕ) (net : Network) where
    -- A host's address is known, and the network takes the datagram or refuses it.
    sendto-Sends :
        (packet addr : List ℕ) (w : World) (refused : Bool)
        → h.os.gethostbyname w.history host ≡ some addr
        → let to = inet addr (port % 2 ^ 16) in
          Answers refused (h.os.sendto (resolved host ∷ w.history) sock packet to)
          → Sends
              (λ r. nonzero r ≡ refused)
              ((packet, to) ∷ [])
              w
              (udp_send h.os sock (some host) (port % 2 ^ 16) (some packet) w)
    unfolding udp_send
    sendto-Sends packet addr w true e (k, f) =
        let small : port % 2 ^ 16 % 2 ^ 16 ≡ port % 2 ^ 16 = omega arith in
        rw (e, net_resolv) (rw small (rw f (refl, refl, (refl, refl))))
    sendto-Sends packet addr w false e (n, f) =
        let small : port % 2 ^ 16 % 2 ^ 16 ≡ port % 2 ^ 16 = omega arith in
        rw (e, net_resolv) (rw small (rw f (refl, refl, (refl, refl))))

    udp_send-Sends :
        Follows h sock net
        → (packet : List ℕ) (w : World) (found : Option (List ℕ)) → net.lookup host ≡ found
        → let e = to_address net packet port found in
          Sends
            (λ r. nonzero r ≡ e.0)
            e.1
            w
            (udp_send h.os sock (some host) (port % 2 ^ 16) (some packet) w)
    unfolding udp_send
    udp_send-Sends up packet w none e =
        let unknown : h.os.gethostbyname w.history host ≡ none = up.names w.history host ∙ e in
        rw (unknown, net_resolv) (refl, refl, (refl, refl))
    udp_send-Sends up packet w (some addr) e =
        sendto-Sends packet addr w _ (up.names w.history host ∙ e) (up.sending _ packet _)

    raw_send-Sends :
        (packet : List ℕ) (w : World)
        → Sends (λ r. Unit {0}) ((packet, link) ∷ []) w (raw_send h.os sock (some packet) w)
    unfolding raw_send
    raw_send-Sends packet w = ground arith

    -- No packet is made, in either mode.
    refused-Sends :
        (m : Magic) (pass : Option Pointer) (text : Option Text) (k : Magic → M Sent) (w : World)
        → IsValid m
        → Makes h mac text none
        → text_of pass ≡ text
        → Sends
            (Reports true)
            []
            w
            ((assemble h g m mac pass >>= λ parts. assembled h g mac parts k) w)
    refused-Sends m pass text k w v makes f =
        Sends-bind Refused (Reports true) [] [] (assemble h g m mac pass)
          (λ parts. assembled h g mac parts k) w (assemble-Refused h g m mac pass text w v makes f)
          (λ parts w' x. assembled-Sends parts k w' x)

    send_by_udp-Sends :
        Follows h sock net
        → (m : Magic) (pass : Option Pointer) (text : Option Text) (packet : Option (List ℕ))
          (w : World)
        → IsValid m
        → Makes h mac text packet
        → text_of pass ≡ text
        → let e = effect_of by_udp net host port packet in
          Sends (Reports e.0) e.1 w (send_by_udp h g m mac host port pass sock w)
    unfolding send_by_udp assembled
    send_by_udp-Sends up m pass text none w v makes f = refused-Sends m pass text _ w v makes f
    send_by_udp-Sends up m pass text (some _) w v (made {octets} {passwd} {secret} d s) f =
        let packet = packet_for octets secret in
        let e = to_address net packet port (net.lookup host) in
        rw (assemble-Denotes h g m mac octets pass text secret w v d f s) (
          Sends-bind (λ r. nonzero r ≡ e.0) (Reports e.0) e.1 []
            (udp_send h.os sock (some host) (port % 2 ^ 16) (some packet)) _ w
            (udp_send-Sends up packet w (net.lookup host) refl)
            (λ r w' x. finish_send-Sends _ r w' e.0 (packet_for-IsValid d s) x))

    send_by_raw-Sends :
        (m : Magic) (pass : Option Pointer) (text : Option Text) (packet : Option (List ℕ))
        (w : World)
        → IsValid m
        → Makes h mac text packet
        → text_of pass ≡ text
        → let e = effect_of by_raw net host port packet in
          Sends (Reports e.0) e.1 w (send_by_raw h g m mac host port pass sock w)
    unfolding send_by_raw assembled
    send_by_raw-Sends m pass text none w v makes f = refused-Sends m pass text _ w v makes f
    send_by_raw-Sends m pass text (some _) w v (made {octets} {passwd} {secret} d s) f =
        let packet = packet_for octets secret in
        rw (assemble-Denotes h g m mac octets pass text secret w v d f s) (
          Sends-bind (λ r. Unit {0}) (Reports false) ((packet, link) ∷ []) []
            (raw_send h.os sock (some packet)) _ w (raw_send-Sends packet w)
            (λ r w' x. announce-Sends _ w' (packet_for-IsValid d s)))

    -- In UDP or raw mode, with a valid buffer, in UDP mode on a system that answers as the network
    -- says: `assemble_and_send` of an address and a password reports a failure where they make no
    -- packet, and in UDP mode where the host has no address or the network refuses the datagram,
    -- and else success; it hands over the packet, if there is one, to the host's address and port
    -- or in raw mode to the link, and nothing in UDP mode where the host has no address; it leaves
    -- a valid buffer, the standard input as it was, and the same descriptors open.
    pub assemble_and_send-Sends :
        (route : Route) (m : Magic) (pass : Option Pointer) (text : Option Text)
        (packet : Option (List ℕ)) (w : World)
        → Carries route h sock net
        → g.packet_mode ≡ mode_of route
        → IsValid m
        → Makes h mac text packet
        → text_of pass ≡ text
        → let e = effect_of route net host port packet in
          Sends (Reports e.0) e.1 w (assemble_and_send h g m mac host port pass sock w)
    unfolding assemble_and_send
    assemble_and_send-Sends by_udp m pass text packet w up mode v makes f =
        let to_udp : is_mode g.packet_mode udp_mode ≡ true = rw mode in
        rw to_udp (send_by_udp-Sends up m pass text packet w v makes f)
    assemble_and_send-Sends by_raw m pass text packet w up mode v makes f =
        let no_udp : is_mode g.packet_mode udp_mode ≡ false = rw mode in
        let no_proxy : is_mode g.packet_mode proxy_mode ≡ false = rw mode in
        rw (no_udp, no_proxy) (send_by_raw-Sends m pass text packet w v makes f)
