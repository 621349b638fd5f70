-- ===== src/Net.antt =====
-- src/net.c: sockets. A descriptor of -1, or a count of -1, is `none`.
pub mod Descriptors
pub mod Sending
use wake_on_lan.Base.{ℕ, ◌%◌, ◌^◌, Option, none, some, List, ◌==◌, if◌then◌else◌, Text}
use wake_on_lan.Magic.{einval}
use wake_on_lan.System.{
  Domain, pf_inet, pf_packet, Kind, sock_dgram, sock_stream, sock_raw, Address, inet, link, Message,
  no_root_privileges, socket_failed, setsockopt_failed, close_failed, invalid_ip, could_not_connect,
  resolved, opened, set_broadcast, connected, sent_to, sent, received, closed, Os, World, M, ◌>>=◌,
  ◌>>◌, pure, emit, tell, set_errno, get_errno, answered, log, Answer, gives, fails, returns,
  Outcome,
}

abbrev pub eperm : ℕ
eperm = 1

-- A port as `htons` and unsigned short take it.
abbrev pub to_port : ℕ → ℕ
to_port port = port % 2 ^ 16

abbrev descriptor : Answer ℕ → Option ℕ
descriptor (gives fd) = some fd
descriptor (fails e) = none

module _ (os : Os) where
  sys_socket : Domain → Kind → M (Option ℕ)
  sys_socket d k w =
      let answer = os.socket w.history d k in
      answered answer (log (opened d k (descriptor answer)) w)

  sys_setsockopt : ℕ → M (Option (Unit {0}))
  sys_setsockopt fd w = answered (os.setsockopt w.history fd) (log (set_broadcast fd) w)

  sys_connect : ℕ → Address → M (Option (Unit {0}))
  sys_connect fd to w = answered (os.connect w.history fd to) (log (connected fd to) w)

  sys_close : ℕ → M (Option (Unit {0}))
  sys_close fd w = answered (os.close w.history fd) (log (closed fd) w)

  sys_sendto : ℕ → List ℕ → Address → M (Option ℕ)
  sys_sendto fd buf to w = answered (os.sendto w.history fd buf to) (log (sent_to fd buf to) w)

  -- The address's bytes, which the source copies to `*sin_addr`.
  unfoldable pub net_resolv : Text → M (Option (List ℕ))
  net_resolv hostname w = elim (os.gethostbyname w.history hostname) [
    | none ↦ (returns none, record (log (resolved hostname) w) { errno = einval })
    | some addr ↦ (returns (some addr), log (resolved hostname) w)
  ]

  unfoldable pub net_close : ℕ → M (Option (Unit {0}))
  unfolding sys_close
  net_close fd = do
    r ← sys_close fd
    elim r [ none ↦ (do tell close_failed; pure none) | some _ ↦ pure (some tt) ]

  -- `raw_open` and `udp_open` set SO_BROADCAST alike, and close the socket where that fails.
  allow_broadcast : ℕ → M (Option ℕ)
  unfolding sys_setsockopt sys_close
  allow_broadcast fd = do
    r ← sys_setsockopt fd
    elim r [
      | none ↦ (do tell setsockopt_failed; _ ← sys_close fd; pure none)
      | some _ ↦ pure (some fd)
    ]

  unfoldable pub raw_open : M (Option ℕ)
  unfolding sys_socket allow_broadcast
  raw_open = do
    fd ← sys_socket pf_packet sock_raw
    elim fd [
      | none ↦ (do
        e ← get_errno
        tell (if e == eperm then no_root_privileges else socket_failed)
        pure none)
      | some fd ↦ allow_broadcast fd
    ]

  unfoldable pub udp_open : M (Option ℕ)
  unfolding sys_socket allow_broadcast
  udp_open = do
    fd ← sys_socket pf_inet sock_dgram
    elim fd [ none ↦ (do tell socket_failed; pure none) | some fd ↦ allow_broadcast fd ]

  -- `tcp_open`, from the socket on.
  connect_to : Text → ℕ → List ℕ → M (Option ℕ)
  unfolding sys_socket sys_connect sys_close
  connect_to ip_str port addr = do
    fd ← sys_socket pf_inet sock_stream
    elim fd [
      | none ↦ (do tell socket_failed; pure none)
      | some fd ↦ (do
        r ← sys_connect fd (inet addr (to_port port))
        elim r [
          | none ↦ (do tell (could_not_connect ip_str (to_port port)); _ ← sys_close fd; pure none)
          | some _ ↦ pure (some fd)
        ])
    ]

  unfoldable pub tcp_open : Option Text → ℕ → M (Option ℕ)
  unfolding net_resolv connect_to
  tcp_open none port = pure none
  tcp_open (some ip_str) port = do
    r ← net_resolv ip_str
    elim r [ none ↦ (do tell invalid_ip; pure none) | some addr ↦ connect_to ip_str port addr ]

  -- 0, or -1: a count that is not -1 is dropped.
  zero_or_error : Option ℕ → Option ℕ
  zero_or_error none = none
  zero_or_error (some n) = some 0

  unfoldable pub raw_send : ℕ → Option (List ℕ) → M (Option ℕ)
  unfolding sys_sendto zero_or_error
  raw_send fd none = pure none
  raw_send fd (some buf) = do r ← sys_sendto fd buf link; pure (zero_or_error r)

  unfoldable pub udp_send : ℕ → Option Text → ℕ → Option (List ℕ) → M (Option ℕ)
  unfolding net_resolv sys_sendto zero_or_error
  udp_send fd (some ip_str) port (some buf) = do
    r ← net_resolv ip_str
    elim r [
      | none ↦ (do tell invalid_ip; pure none)
      | some addr ↦ (do n ← sys_sendto fd buf (inet addr (to_port port)); pure (zero_or_error n))
    ]
  udp_send fd ip_str port buf = pure none

  unfoldable pub tcp_send : ℕ → List ℕ → M (Option ℕ)
  tcp_send fd buf w = answered (os.send w.history fd buf) (log (sent fd buf) w)

  unfoldable pub tcp_recv : ℕ → ℕ → M (Option (List ℕ))
  tcp_recv fd len w = answered (os.recv w.history fd len) (log (received fd len) w)
