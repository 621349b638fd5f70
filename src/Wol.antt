-- ===== src/Wol.antt =====
-- src/wol.c: the command line and the main program. Its globals are the record `Globals`; the
-- packet's buffer and the descriptor are handed on as values. A string is a pointer with the place
-- where it lies, so that the history shows what is freed.
pub mod Options
pub mod Reading
pub mod Args
pub mod Send
pub mod Main
pub mod Deliver
use wake_on_lan.Base.{ℕ, ◌-◌, ◌^◌, Bool, true, false, Option, none, some, List, [], codes, Text}
use wake_on_lan.System.{Pointer, literal}

abbrev pub udp_mode : ℕ
udp_mode = 0x1

abbrev pub raw_mode : ℕ
raw_mode = 0x2

abbrev pub proxy_mode : ℕ
proxy_mode = 0x4

abbrev pub default_port : ℕ
default_port = 40000

abbrev pub default_ipaddr : Text
default_ipaddr = codes "255.255.255.255"

pub record Globals : Type 0 where
  pub host_str : Pointer
  pub pathname : Option Text
  pub port : ℕ
  pub passwd : Option Pointer
  pub request_stdin : Bool
  pub verbose : Bool
  pub packet_mode : ℕ
  pub msecs : ℕ

-- Before `main` runs.
abbrev pub initial : Globals
initial = record {
  host_str = record { origin = literal; string = default_ipaddr };
  pathname = none;
  port = default_port;
  passwd = none;
  request_stdin = false;
  verbose = false;
  packet_mode = udp_mode;
  msecs = 0;
}
