-- ===== src/Net/Descriptors.antt =====
-- The descriptors that the functions of src/net.c leave open.
use wake_on_lan.Base.{ℕ, ◌≡◌, refl, Option, none, some, List, ◌∷◌, arith, Text}
use wake_on_lan.System.{Os, World, Outcome, returns, live, remove}
use wake_on_lan.Net.{raw_open, udp_open, tcp_open, connect_to, net_close}

abbrev pub attach : Option ℕ → List ℕ → List ℕ
attach none fds = fds
attach (some fd) fds = fd ∷ fds

-- The call returns, and just the descriptor that it returns is open in addition: none where it
-- returns -1.
abbrev pub Opens : World → Outcome (Option ℕ) × World → Type 0
Opens w (returns r, w') = live w'.history ≡ attach r (live w.history)
Opens w (o, w') = ⊥

module _ (os : Os) (w : World) where
  -- `udp_open` returns, with a descriptor that is open or with -1 and none: a socket that cannot
  -- broadcast is closed again.
  pub udp_open-Opens : Opens w (udp_open os w)
  unfolding udp_open
  udp_open-Opens = ground arith

  -- So does `raw_open`.
  pub raw_open-Opens : Opens w (raw_open os w)
  unfolding raw_open
  raw_open-Opens = ground arith

connect_to-Opens :
    (os : Os) (ip : Text) (port : ℕ) (addr : List ℕ) (w : World)
    → Opens w (connect_to os ip port addr w)
unfolding connect_to
connect_to-Opens os ip port addr w = ground arith

-- `tcp_open` returns, with a descriptor that is open or with -1 and none, whether the name does
-- not resolve, there is no socket, or the connection fails.
pub tcp_open-Opens :
    (os : Os) (ip : Option Text) (port : ℕ) (w : World) → Opens w (tcp_open os ip port w)
unfolding tcp_open
tcp_open-Opens os none port w = refl
tcp_open-Opens os (some ip) port w = ground arith

-- `net_close` closes the descriptor whatever the system says, and returns.
pub net_close-live :
    (os : Os) (fd : ℕ) (w : World) → live (net_close os fd w).1.history ≡ remove fd (live w.history)
unfolding net_close
net_close-live os fd w = ground arith
