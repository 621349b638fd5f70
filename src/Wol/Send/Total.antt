-- ===== src/Wol/Send/Total.antt =====
-- `assemble_and_send` of src/wol.c returns in UDP and in raw mode, whatever the system answers.
use wake_on_lan.Base.{
  ℕ, zero, suc, ◌≡◌, refl, ◌⊎◌, inl, inr, true, false, Option, none, some, List, arith, Text,
}
use wake_on_lan.Magic.{Magic, Status, success, bad_address, bad_password}
use wake_on_lan.Magic.Assemble.{IsValid, Leaves, magic_assemble-Leaves}
use wake_on_lan.System.{Os, World, Outcome, M, ◌>>=◌, Pointer}
use wake_on_lan.System.Blocks.{Calm, Calm-trans}
use wake_on_lan.System.Rules.{Post, Post-mono, Post-then}
use wake_on_lan.Net.{udp_send, raw_send}
use wake_on_lan.Wol.{Globals, udp_mode, proxy_mode}
use wake_on_lan.Wol.Send.{
  Host, Sent, buffer_of, string_of, nonzero, is_mode, assemble, assembled, announce, give_up,
  finish_send, send_by_udp, send_by_raw, assemble_and_send,
}

-- A piece of the program returns, and a value for which the predicate holds; it leaves the standard
-- input, the open descriptors and the heap alone, and stores nothing behind an array.
abbrev pub Safe : {A : Type 0} → (A → Type 0) → World → Outcome A × World → Type 0
Safe P w r = Post (λ a w'. P a × Calm w w') r

pub Safe-bind :
    {A B : Type 0} (P : A → Type 0) (Q : B → Type 0) (m : M A) (f : A → M B) (w : World)
    → Safe P w (m w)
    → ((a : A) (w' : World) → P a → Safe Q w' (f a w'))
    → Safe Q w ((m >>= f) w)
Safe-bind P Q m f w h k = Post-then _ (Safe Q w) m f w h λ a w' (p, q).
    Post-mono _ _ (f a w') (k a w' p) λ b w'' (p', q'). (p', Calm-trans w w' w'' q q')

-- Nothing is said of the value.
abbrev pub Any : {A : Type 0} → A → Type 0
Any a = Unit

abbrev pub ValidSent : Sent → Type 0
ValidSent sent = IsValid sent.1

udp_send-Safe :
    (os : Os) (fd : ℕ) (ip : Text) (port : ℕ) (buf : List ℕ) (w : World)
    → Safe Any w (udp_send os fd (some ip) port (some buf) w)
unfolding udp_send
udp_send-Safe os fd ip port buf w = ground arith

raw_send-Safe :
    (os : Os) (fd : ℕ) (buf : List ℕ) (w : World) → Safe Any w (raw_send os fd (some buf) w)
unfolding raw_send
raw_send-Safe os fd buf w = ground arith

buffer_of-IsValid :
    (m : Magic) (pass : Option Text) (status : Status) (buffer : Option Magic)
    → IsValid m
    → Leaves pass status buffer
    → IsValid (buffer_of m buffer)
buffer_of-IsValid m pass status none v l = v
buffer_of-IsValid m pass success (some b) v l = l.0
buffer_of-IsValid m pass bad_address (some b) v l = l
buffer_of-IsValid m pass bad_password (some b) v l = l

module _ (h : Host) (g : Globals) where
  assemble-Safe :
      (m : Magic) (mac : Text) (pass : Option Pointer) (w : World)
      → IsValid m
      → Safe (λ (made : Status × Magic). IsValid made.1) w (assemble h g m mac pass w)
  unfolding assemble
  assemble-Safe m mac pass w v =
      let (a, e, l) =
        magic_assemble-Leaves h.alloc h.ethers w.errno (some m) (some mac) (string_of pass) v in
      rw (e, assemble)
        (buffer_of-IsValid m (string_of pass) a.status a.buffer v l, (refl, refl, refl, refl, refl))

  announce-Safe :
      (mac host : Text) (port : ℕ) (m : Magic) (w : World)
      → IsValid m
      → Safe ValidSent w (announce h g mac host port m w)
  unfolding announce
  announce-Safe mac host port m w v = ground arith

  finish_send-Safe :
      (mac host : Text) (port : ℕ) (m : Magic) (r : Option ℕ) (w : World)
      → IsValid m
      → Safe ValidSent w (finish_send h g mac host port m r w)
  unfolding finish_send give_up
  finish_send-Safe mac host port m none w v = (v, (refl, refl, refl, refl, refl))
  finish_send-Safe mac host port m (some zero) w v = announce-Safe mac host port m w v
  finish_send-Safe mac host port m (some (suc n)) w v =
      let refused : nonzero (some (suc n)) ≡ true = ground arith in
      rw refused (v, (refl, refl, refl, refl, refl))

  assembled-Safe :
      (mac : Text) (made : Status × Magic) (k : Magic → M Sent) (w : World)
      → IsValid made.1
      → ((b : Magic) (w' : World) → IsValid b → Safe ValidSent w' (k b w'))
      → Safe ValidSent w (assembled h g mac made k w)
  unfolding assembled give_up
  assembled-Safe mac (success, m) k w v later = later m w v
  assembled-Safe mac (bad_address, m) k w v later = (v, (refl, refl, refl, refl, refl))
  assembled-Safe mac (bad_password, m) k w v later = (v, (refl, refl, refl, refl, refl))

  module _ (m : Magic) (mac host : Text) (port : ℕ) (pass : Option Pointer) (sock : ℕ)
      (w : World) where
    send_by_udp-Safe : IsValid m → Safe ValidSent w (send_by_udp h g m mac host port pass sock w)
    unfolding send_by_udp
    send_by_udp-Safe v =
        Safe-bind (λ (made : Status × Magic). IsValid made.1) ValidSent (assemble h g m mac pass) _
          w (assemble-Safe m mac pass w v)
          λ made w1 v1. assembled-Safe mac made _ w1 v1 λ b w2 v2.
            Safe-bind Any ValidSent (udp_send h.os sock (some host) _ (some b.packet)) _ w2
              (udp_send-Safe h.os sock host _ b.packet w2)
              (λ r w3 u. finish_send-Safe mac host port b r w3 v2)

    send_by_raw-Safe : IsValid m → Safe ValidSent w (send_by_raw h g m mac host port pass sock w)
    unfolding send_by_raw
    send_by_raw-Safe v =
        Safe-bind (λ (made : Status × Magic). IsValid made.1) ValidSent (assemble h g m mac pass) _
          w (assemble-Safe m mac pass w v)
          λ made w1 v1. assembled-Safe mac made _ w1 v1 λ b w2 v2.
            Safe-bind Any ValidSent (raw_send h.os sock (some b.packet)) _ w2
              (raw_send-Safe h.os sock b.packet w2) (λ r w3 u. announce-Safe mac host port b w3 v2)

    -- In UDP or raw mode, with a valid buffer, `assemble_and_send` returns on every address and
    -- password and whatever the system answers. It leaves a valid buffer, the standard input
    -- as it was, and the same descriptors open, neither allocates nor frees a string, and stores
    -- nothing behind an array.
    pub assemble_and_send-Safe :
        (g.packet_mode ≡ 1) ⊎ (g.packet_mode ≡ 2)
        → IsValid m
        → Safe ValidSent w (assemble_and_send h g m mac host port pass sock w)
    unfolding assemble_and_send
    assemble_and_send-Safe (inl e) v =
        let by_udp : is_mode g.packet_mode udp_mode ≡ true = rw e in rw by_udp (send_by_udp-Safe v)
    assemble_and_send-Safe (inr e) v =
        let no_udp : is_mode g.packet_mode udp_mode ≡ false = rw e in
        let no_proxy : is_mode g.packet_mode proxy_mode ≡ false = rw e in
        rw (no_udp, no_proxy) (send_by_raw-Safe v)
