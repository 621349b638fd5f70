-- ===== src/Wol/Deliver/Whole.antt =====
-- `main` of src/wol.c as a whole, in UDP and in raw mode.
use wake_on_lan.Base.{ℕ, ◌≡◌, some, List, ◌∷◌, ◌++◌}
use wake_on_lan.System.{
  Domain, Kind, pf_inet, pf_packet, sock_dgram, sock_raw, opened, set_broadcast, Address, World,
  Outcome, exits, live, gives, log,
}
use wake_on_lan.Net.Sending.{datagrams}
use wake_on_lan.Wol.Send.{Host}
use wake_on_lan.Wol.Deliver.Network.{Route, by_udp, by_raw, Network}

-- The kinds of socket.
abbrev pub domain_of : Route → Domain
domain_of by_udp = pf_inet
domain_of by_raw = pf_packet

abbrev pub kind_of : Route → Kind
kind_of by_udp = sock_dgram
kind_of by_raw = sock_raw

-- The world behind a socket that can broadcast.
abbrev with_socket : Route → ℕ → World → World
with_socket route fd w =
    log (set_broadcast fd) (log (opened (domain_of route) (kind_of route) (some fd)) w)

-- A socket is given, and can broadcast.
pub record Connects (h : Host) (route : Route) (fd : ℕ) (w : World) : Type 0 where
  pub socket : h.os.socket w.history (domain_of route) (kind_of route) ≡ gives fd
  pub broadcast :
      h.os.setsockopt (opened (domain_of route) (kind_of route) (some fd) ∷ w.history) fd ≡ gives tt

-- The exit's status, the open descriptors, and what was handed over.
abbrev pub Delivers : ℕ → List (List ℕ × Address) → World → Outcome (Unit {0}) × World → Type 0
Delivers status ds w (exits n, w') =
    (n ≡ status)
    × (live w'.history ≡ live w.history)
    × (datagrams w'.history ≡ ds ++ datagrams w.history)
Delivers status ds w (o, w') = ⊥
