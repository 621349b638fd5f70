-- ===== src/Fallback.antt =====
-- lib/usleep.c and lib/ether_hostton.c, which stand in for functions that a system may lack.
use wake_on_lan.Base.{ℕ, ◌≡◌, Option, none, some, List, length, Text}
use wake_on_lan.Magic.{Ethers, mac_len}

-- `struct timeval`
pub record Timeval : Type 0 where
  pub tv_sec : ℕ
  pub tv_usec : ℕ

-- The time-out that `usleep` gives to `select`.
unfoldable pub usleep_timeout : ℕ → Timeval
usleep_timeout usec = record { tv_sec = 0; tv_usec = usec }

-- "not implemented yet": no name is known.
abbrev hostton : Text → Option (List ℕ)
hostton str = none

pub hostton_length :
    (name : Text) (octets : List ℕ) → hostton name ≡ some octets → length octets ≡ mac_len
hostton_length name octets e = cc

abbrev pub ether_hostton : Ethers
ether_hostton = record { hostton = hostton; length-hostton = hostton_length }
