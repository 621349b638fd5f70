-- ===== src/Wol/Main.antt =====
-- `main` of src/wol.c, and `magic_destroy` of src/magic.c, which it calls: the socket, the loop over
-- the operands, and the loop over a macfile, on fuel.
pub mod Strings
pub mod Endless
pub mod Ends
pub mod Exit
pub mod Proxied
pub mod Run
pub mod Denied
use wake_on_lan.Base.{
  ℕ, zero, suc, ◌+◌, ◌%◌, ◌^◌, ◌||◌, Bool, true, false, Option, none, some, List, [], ◌∷◌, ltb,
  ◌==◌, if◌then◌else◌, Text,
}
use wake_on_lan.Magic.{Magic, magic_create}
use wake_on_lan.Stream.{Stream, c_string}
use wake_on_lan.Macfile.{Buffer, indeterminate, holds, Entry, Parsed, failed, parsed, macfile_parse}
use wake_on_lan.System.{
  Os, World, Outcome, returns, unfinished, M, ◌>>=◌, ◌>>◌, pure, exit, emit, tell, log, Pointer,
  heap, freed, faulted, stray_write, indeterminate_read, packet_block, magic_block, opened_file,
  closed_file, cannot_open, Answer, gives, fails,
}
use wake_on_lan.Net.{udp_open, tcp_open, raw_open, net_close}
use wake_on_lan.Wol.{Globals, udp_mode, proxy_mode, default_port}
use wake_on_lan.Wol.Args.{Getopt, parse_args}
use wake_on_lan.Wol.Send.{Host, Code, ok_code, error_code, Sent, is_mode, assemble_and_send}

unfoldable pub magic_destroy : M (Unit {0})
magic_destroy = do emit (freed packet_block); emit (freed magic_block)

-- `ret -= assemble_and_send (...)`
abbrev pub add_code : Code → ℕ → ℕ
add_code ok_code ret = ret
add_code error_code ret = (ret + 1) % 2 ^ 32

-- What the loops change: the globals, the packet and `ret`.
pub record Session : Type 0 where
  pub globals : Globals
  pub magic : Magic
  pub ret : ℕ

-- The stream that is read. The standard input is also read for passwords.
pub data Input : Type 0 where
  standard : Input
  file : Stream → Input

abbrev pub current : Input → World → Stream
current standard w = w.stdin
current (file st) w = st

abbrev pub leave : Input → Stream → Input
leave standard st = standard
leave (file old) st = file st

abbrev pub leave_world : Input → Stream → World → World
leave_world standard st w = record w { stdin = st }
leave_world (file old) st w = w

-- `port == 0 || port > 65535`
abbrev pub valid_port : ℕ → ℕ
valid_port port = if port == 0 || ltb 65535 port then default_port else port

abbrev is_given : Option Pointer → Bool
is_given none = false
is_given (some p) = true

module _ (os : Os) where
  -- Where the array was never filled, what it holds is copied.
  strdup : Buffer → M Pointer
  strdup (holds s) w =
      (returns (record { origin = heap w.next; string = s }), record w { next = w.next + 1 })
  strdup indeterminate w =
      let text = c_string (os.stack w.history 255) in
      (
        returns (record { origin = heap w.next; string = text }),
        log (faulted indeterminate_read) (record w { next = w.next + 1 }),
      )

  strdup_passwd : Option Buffer → M (Option Pointer)
  unfolding strdup
  strdup_passwd none = pure none
  strdup_passwd (some b) = do p ← strdup b; pure (some p)

  -- The globals that `macfile_parse` sets. What it stored behind `host` is recorded here.
  unfoldable pub hand_over : Entry → Globals → M (Pointer × Globals)
  unfolding strdup strdup_passwd
  hand_over entry g =
      let check : M (Unit {0}) = if entry.overflow then emit (faulted stray_write) else pure tt in
      (do
        check
        mac ← strdup entry.mac
        host ← strdup entry.host
        passwd ← strdup_passwd entry.passwd
        pure (mac, record g { host_str = host; port = valid_port entry.port; passwd = passwd }))

unfoldable pub free_passwd : Option Pointer → M (Unit {0})
free_passwd none = pure tt
free_passwd (some p) = emit (freed p.origin)

module _ (h : Host) (sock : ℕ) where
  -- One word of the command line.
  unfoldable pub wake : Text → Session → M Session
  wake mac s = do
    sent ←
        assemble_and_send h s.globals s.magic mac s.globals.host_str.string s.globals.port
          s.globals.passwd sock
    pure (record s { magic = sent.1; ret = add_code sent.0 s.ret })

  unfoldable pub wake_all : List Text → Session → M Session
  wake_all [] s = pure s
  wake_all (mac ∷ macs) s = do next ← wake mac s; wake_all macs next

  -- One entry of a macfile: its strings are freed when the packet is sent.
  unfoldable pub wake_entry : Entry → Session → M Session
  wake_entry entry s = do
    given ← hand_over h.os entry s.globals
    let g = given.1
    next ← wake given.0.string (record s { globals = g })
    emit (freed given.0.origin)
    emit (freed g.host_str.origin)
    free_passwd g.passwd
    pure next

  -- The loop over the stream, on fuel.
  unfoldable pub wake_file : ℕ → Input → Session → M Session
  wake_file zero input s w = (unfinished, w)
  wake_file (suc fuel) input s w = elim (macfile_parse (current input w)) [
    | none ↦ (unfinished, w)
    | some r ↦ elim r [
      | failed port st ↦ (
        returns (record s { globals = record s.globals { port = port } }),
        leave_world input st w,
      )
      | parsed entry st ↦
          let rest : M Session = (do
            next ← wake_entry entry s
            wake_file fuel (leave input st) next) in
          rest (leave_world input st w)
    ]
  ]

  -- `-f`, or a dash: the file or the standard input is read to its end and closed.
  unfoldable pub wake_input : ℕ → Session → M Session
  wake_input fuel s w =
      if s.globals.request_stdin
      then (let run : M Session = (do
        next ← wake_file fuel standard s
        emit closed_file
        pure next) in
          run w)
      else elim s.globals.pathname [
        | none ↦ (returns s, w)
        | some pathname ↦ elim (h.os.fopen w.history pathname) [
          | fails e ↦
              (let run : M Session = (do tell (cannot_open pathname); exit 1) in
                run (log (opened_file pathname) (record w { errno = e })))
          | gives st ↦
              (let run : M Session = (do
                next ← wake_file fuel (file st) s
                emit closed_file
                pure next) in
                run (log (opened_file pathname) w))
        ]
      ]

unfoldable pub open_socket : Host → Globals → M (Option ℕ)
open_socket h g =
    if is_mode g.packet_mode udp_mode
    then udp_open h.os
    else if is_mode g.packet_mode proxy_mode
    then tcp_open h.os (some g.host_str.string) g.port
    else raw_open h.os

-- From the socket on.
unfoldable pub wake_up : Host → List Text → ℕ → Session → ℕ → M (Unit {0})
wake_up h operands fuel s sock = do
  let words = if s.globals.request_stdin then [] else operands
  named ← wake_all h sock words s
  last ← wake_input h sock fuel named
  _ ← net_close h.os sock
  magic_destroy
  exit (if last.ret == 0 then 0 else 1)

unfoldable pub main : Host → Getopt → ℕ → M (Unit {0})
main h opt fuel = do
  g ← parse_args h.os opt
  let m = magic_create h.alloc (is_given g.passwd)
  sock ← open_socket h g
  elim sock [
    | none ↦ exit 1
    | some fd ↦ wake_up h opt.operands fuel (record { globals = g; magic = m; ret = 0 }) fd
  ]
