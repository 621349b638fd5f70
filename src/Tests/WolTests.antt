-- ===== src/Tests/WolTests.antt =====
-- src/wol.c at concrete inputs.
use wake_on_lan.Base.{[], ◌∷◌, codes, Text}
use wake_on_lan.Magic.{Magic}
use wake_on_lan.Magic.Layout.{frame}
use wake_on_lan.System.{argument, Pointer}
use wake_on_lan.Wol.{Globals, initial}
use wake_on_lan.Wol.Args.{Getopt, parse_args, opt_raw, opt_udp, opt_port, opt_verbose}
use wake_on_lan.Wol.Args.Modes.{Ensures, IsParsed, parse_args-IsParsed}
use wake_on_lan.Tests.MagicTests.{octets}
use wake_on_lan.Tests.Values.{calm, start}

-- wol --raw -v -p 9 -u 00:11:22:aB:4:55
abbrev words : Getopt
words = record {
  argc = 7;
  calls = opt_raw ∷ opt_verbose ∷ opt_port (codes "9") ∷ opt_udp ∷ [];
  operands = codes "00:11:22:aB:4:55" ∷ [];
}

parse_args-IsParsed_example : Ensures (IsParsed words) (parse_args calm words start)
parse_args-IsParsed_example = parse_args-IsParsed calm words start

abbrev pub written : Text
written = codes "00:11:22:aB:4:55"

abbrev made : Magic
made = record { packet = frame octets; size = 102 }

abbrev by_raw : Globals
by_raw = record initial { packet_mode = 2 }

abbrev by_proxy : Globals
by_proxy = record initial { packet_mode = 4 }

abbrev word : Pointer
word = record { origin = argument; string = codes "pw" }
