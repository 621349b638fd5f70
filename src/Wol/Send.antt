-- ===== src/Wol/Send.antt =====
-- `assemble_and_send` of src/wol.c: one address, by one of three ways. It returns 0 or -1 and the
-- packet's buffer.
pub mod Modes
pub mod Udp
pub mod Total
pub mod Proxied
use Prim.Native.Nat.{bit_and}
use wake_on_lan.Base.{
  codes, ℕ, ◌+◌, ◌%◌, ◌^◌, Bool, true, false, not, Option, none, some, List, ◌==◌, if◌then◌else◌,
  Text,
}
use wake_on_lan.Magic.{
  Magic, Allocator, Ethers, Assembly, Status, success, bad_address, bad_password, magic_assemble,
}
use wake_on_lan.System.{
  Os, World, Outcome, returns, crashes, M, ◌>>=◌, ◌>>◌, pure, exit, emit, tell, print, set_errno,
  Pointer, cannot_assemble, invalid_password, cannot_send, no_password, waking, with_host, dots,
  slept, freed,
}
use wake_on_lan.Net.{udp_send, raw_send}
use wake_on_lan.Proxy.{Md5, proxy_send}
use wake_on_lan.Getpass.{getpass4}
use wake_on_lan.Wol.{Globals, udp_mode, proxy_mode}

-- What the program takes from outside: the system, the allocator, the ethers database and MD5.
pub record Host : Type 0 where
  pub os : Os
  pub alloc : Allocator
  pub ethers : Ethers
  pub md5 : Md5

-- 0, or -1
pub data Code : Type 0 where
  ok_code error_code : Code

abbrev pub Sent : Type 0
Sent = Code × Magic

-- A test of an int in a condition.
abbrev pub nonzero : Option ℕ → Bool
nonzero none = true
nonzero (some n) = not (n == 0)

abbrev pub is_mode : ℕ → ℕ → Bool
is_mode mode bit = not (bit_and mode bit == 0)

abbrev pub string_of : Option Pointer → Option Text
string_of none = none
string_of (some p) = some p.string

-- The buffer that a call leaves; one is always given here.
abbrev pub buffer_of : Magic → Option Magic → Magic
buffer_of m none = m
buffer_of m (some b) = b

module _ (h : Host) (g : Globals) where
  -- `magic_assemble`, with its effect on `errno`.
  unfoldable pub assemble : Magic → Text → Option Pointer → M (Status × Magic)
  assemble m mac pass w =
      elim (magic_assemble h.alloc h.ethers w.errno (some m) (some mac) (string_of pass)) [
        | none ↦ (crashes, w)
        | some a ↦ (returns (a.status, buffer_of m a.buffer), record w { errno = a.errno })
      ]

  -- The report of a packet that is sent, and the pause.
  unfoldable pub announce : Text → Text → ℕ → Magic → M Sent
  announce mac host port m w =
      let shown : M (Unit {0}) = if g.verbose then print (with_host host port) else pure tt in
      let pause : M (Unit {0}) = if g.msecs == 0 then pure tt else emit (slept g.msecs) in
      let run : M Sent = (do print (waking mac); shown; print dots; pause; pure (ok_code, m)) in
      run w

  -- `errno = 0; return -1;`
  unfoldable pub give_up : Magic → M Sent
  give_up m = do set_errno 0; pure (error_code, m)

  -- The two errors of `magic_assemble`, or what is done with the packet.
  unfoldable pub assembled : Text → Status × Magic → (Magic → M Sent) → M Sent
  assembled mac (bad_address, m) k = do tell (cannot_assemble mac); give_up m
  assembled mac (bad_password, m) k = do tell (invalid_password mac); give_up m
  assembled mac (success, m) k = k m

  unfoldable pub finish_send : Text → Text → ℕ → Magic → Option ℕ → M Sent
  finish_send mac host port m r =
      if nonzero r
      then (do tell (cannot_send mac host port); give_up m)
      else announce mac host port m

  unfoldable pub send_by_udp : Magic → Text → Text → ℕ → Option Pointer → ℕ → M Sent
  send_by_udp m mac host port pass sock = do
    made ← assemble m mac pass
    assembled mac made λ b. do
      r ← udp_send h.os sock (some host) (port % 2 ^ 16) (some b.packet)
      finish_send mac host port b r

  -- The result of `raw_send` is not looked at.
  unfoldable pub send_by_raw : Magic → Text → Text → ℕ → Option Pointer → ℕ → M Sent
  send_by_raw m mac host port pass sock = do
    made ← assemble m mac pass
    assembled mac made λ b. do _ ← raw_send h.os sock (some b.packet); announce mac host port b

  -- The password that was given, or one that is asked for.
  unfoldable pub proxy_pass : Option Pointer → M Pointer
  proxy_pass (some p) = pure p
  proxy_pass none = do
    p ← getpass4 h.os (some (codes "Password"))
    elim p [ none ↦ (do tell no_password; exit 1) | some passwd ↦ pure passwd ]

  -- The password is freed, also where it is the caller's.
  unfoldable pub send_by_proxy : Magic → Text → Text → ℕ → Option Pointer → ℕ → M Sent
  send_by_proxy m mac host port pass sock = do
    p ← proxy_pass pass
    r ← proxy_send h.os h.md5 sock mac p.string
    emit (freed p.origin)
    finish_send mac host port m r

  unfoldable pub assemble_and_send : Magic → Text → Text → ℕ → Option Pointer → ℕ → M Sent
  assemble_and_send m mac host port pass sock =
      if is_mode g.packet_mode udp_mode
      then send_by_udp m mac host port pass sock
      else if is_mode g.packet_mode proxy_mode
      then send_by_proxy m mac host port pass sock
      else send_by_raw m mac host port pass sock
