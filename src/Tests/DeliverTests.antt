-- ===== src/Tests/DeliverTests.antt =====
-- Whole runs of src/wol.c at concrete inputs.
use wake_on_lan.Base.{
  ℕ, ◌≡◌, ◌<◌, refl, none, some, Option, List, [], ◌∷◌, ◌++◌, codes, Text, arith, length,
  all_pass-All, true, false,
}
use wake_on_lan.Scan.Laws.{one}
use wake_on_lan.Stream.{Stream}
use wake_on_lan.Magic.{resolve_mac, read_six}
use wake_on_lan.Scan.{sscanf, expect}
use wake_on_lan.Scan.Number.{
  scan_hex, hex_body, digits, read_digits, signed, store_unsigned, to_unsigned,
}
use wake_on_lan.Magic.Written.{Field}
use wake_on_lan.System.{World, gives, returns, argument, log, opened, pf_inet, sock_dgram}
use wake_on_lan.Wol.{initial, default_ipaddr, default_port}
use wake_on_lan.Wol.Args.{Getopt}
use wake_on_lan.Wol.Send.{Host}
use wake_on_lan.Wol.Main.{Session, wake_up}
use wake_on_lan.Wol.Deliver.Network.{Network, Job, Follows, by_udp, sent_for}
use wake_on_lan.Wol.Deliver.Packets.{
  Denotes, spelled, no_passwd, has_passwd, packet_for, Makes, made, no_address,
}
use wake_on_lan.Wol.Deliver.Words.{no_word, word, jobs_for}
use wake_on_lan.Wol.Deliver.Files.{Holds, no_job, job, Offers}
use wake_on_lan.Wol.Deliver.All.{Exits, Asks, a_file, wake_up-Exits}
use wake_on_lan.Scan.Decimal.{IsPortText, is_digit}
use wake_on_lan.Wol.Args.{
  opt_raw, opt_verbose, opt_host, opt_port, opt_file, opt_passwd, opt_wait, parse_args,
}
use wake_on_lan.Wol.Args.Chosen.{
  ArePlain, no_option, option, plain_raw, plain_verbose, plain_host, plain_port, plain_file,
  plain_passwd, plain_wait, parse_args-ArePlain,
}
use wake_on_lan.Tests.MagicTests.{address, octets}
use wake_on_lan.Tests.MacfileTests.{
  lab, lab-IsWanted, spacing, spacing-IsSpacing, lab_line, comments, comments-Skips,
}
use wake_on_lan.Tests.Values.{calm, host, start, empty}
use wake_on_lan.Tests.WolTests.{written}
use wake_on_lan.Tests.MainTests.{session}

-- Every name resolves to the same machine, and every datagram is taken.
abbrev pub network : Network
network = record { lookup = λ name. some (10 ∷ 0 ∷ 0 ∷ 255 ∷ []); refuses = λ packet to. false }

abbrev pub macs : Stream
macs = record empty { lines = comments ++ (lab_line ∷ comments) }

-- The database knows the names of one letter.
abbrev known : Text → Option (List ℕ)
known (c ∷ []) = some (2 ∷ 0 ∷ 0 ∷ 0 ∷ 0 ∷ c ∷ [])
known s = none

pub length-known : (name : Text) (found : List ℕ) → known name ≡ some found → length found ≡ 6
length-known [] found e = absurd (cc)
length-known (c ∷ []) found e = ground arith
length-known (c ∷ d ∷ s) found e = absurd (cc)

abbrev pub with_macs : Host
with_macs = record host {
  os = record calm { fopen = λ past name. gives macs };
  ethers = record { hostton = known; length-hostton = length-known };
}

with_macs-Follows : Follows with_macs 3 network
with_macs-Follows = record { names = λ past name. refl; sending = λ past buf to. (102, refl) }

pub written-Denotes : (h : Host) → Denotes h written octets
written-Denotes h = Denotes.address (spelled address [] refl tt)

letter-Denotes : Denotes with_macs (codes "x") (2 ∷ 0 ∷ 0 ∷ 0 ∷ 0 ∷ b'x' ∷ [])
unfolding read_six sscanf expect scan_hex hex_body digits read_digits signed store_unsigned
    to_unsigned
letter-Denotes = Denotes.listed refl refl

abbrev digit : (c d : ℕ) → (wake_on_lan.Base.hex_value c ≡ some d) → Field
digit c d h = record { digits = c ∷ []; value = d; is_byte = one h }

abbrev secret : List Field
secret =
    digit b'1' 1 refl
    ∷ digit b'2' 2 refl
    ∷ digit b'3' 3 refl
    ∷ digit b'4' 4 refl
    ∷ digit b'5' 5 refl
    ∷ digit b'6' 6 refl
    ∷ []

abbrev secret_octets : List ℕ
secret_octets = 1 ∷ 2 ∷ 3 ∷ 4 ∷ 5 ∷ 6 ∷ []

abbrev lab_job : Job
lab_job = record {
  packet = some (packet_for octets (some secret_octets));
  host = lab.host;
  port = 4000;
}

secret_spelled : (h : Host) → Makes h written (some (codes "1-2-3-4-5-6")) lab_job.packet
secret_spelled h = made (written-Denotes h) (has_passwd (spelled secret [] refl tt))

macs-Holds : Holds with_macs macs.lines (lab_job ∷ [])
macs-Holds =
    job comments spacing lab comments-Skips spacing-IsSpacing lab-IsWanted (omega arith)
      (secret_spelled with_macs) (no_job comments-Skips)

macs-Offers : Offers with_macs macs (lab_job ∷ [])
macs-Offers = record { fresh = refl; whole = refl; lines = macs-Holds }

abbrev pub with_file : Session
with_file = record session { globals = record initial { pathname = some (codes "macs") } }

with_file-Asks : Asks with_macs with_file.globals empty (lab_job ∷ [])
with_file-Asks = a_file (codes "macs") refl refl (λ past. (macs, refl, macs-Offers))

abbrev pub opened_world : World
opened_world = log (opened pf_inet sock_dgram (some 3)) start

-- No address, and no name that is known.
unknown : resolve_mac with_macs.ethers (codes "lab") ≡ none
unfolding resolve_mac read_six sscanf expect scan_hex hex_body digits read_digits signed
    store_unsigned to_unsigned
unknown = refl

abbrev three : List (Option (List ℕ))
three =
    none
    ∷ some (packet_for octets none)
    ∷ some (packet_for (2 ∷ 0 ∷ 0 ∷ 0 ∷ 0 ∷ b'x' ∷ []) none)
    ∷ []

wake_up-Exits_example :
    Exits 1 3
      (sent_for by_udp network (jobs_for default_ipaddr default_port three ++ (lab_job ∷ [])))
      opened_world
      (wake_up with_macs (codes "lab" ∷ written ∷ codes "x" ∷ []) 2 with_file 3 opened_world)
wake_up-Exits_example =
    wake_up-Exits with_macs 3 network by_udp with_macs-Follows three (lab_job ∷ []) 2
      (codes "lab" ∷ written ∷ codes "x" ∷ []) with_file opened_world refl refl refl
      (word (no_address unknown) (
        word (made (written-Denotes with_macs) no_passwd)
          (word (made letter-Denotes no_passwd) no_word)))
      with_file-Asks (omega arith) (omega arith)

-- wol --raw -v -h no -h lab -p 9 -w 20 -f macs --passwd=1-2-3-4-5-6 00:11:22:aB:4:55
abbrev pub command_line : Getopt
command_line = record {
  argc = 13;
  calls =
      opt_raw
      ∷ opt_verbose
      ∷ opt_host (codes "no")
      ∷ opt_host (codes "lab")
      ∷ opt_port (codes "9")
      ∷ opt_wait (codes "20")
      ∷ opt_file (codes "macs")
      ∷ opt_passwd (some (codes "1-2-3-4-5-6"))
      ∷ [];
  operands = written ∷ [];
}

nine-IsPortText : IsPortText (codes "9")
nine-IsPortText = record {
  digits = all_pass-All is_digit (codes "9") refl;
  ne_nil = λ e. cc;
  short = omega arith;
}

twenty-IsPortText : IsPortText (codes "20")
twenty-IsPortText = record {
  digits = all_pass-All is_digit (codes "20") refl;
  ne_nil = λ e. cc;
  short = omega arith;
}

pub command_line-ArePlain : ArePlain command_line.calls
command_line-ArePlain = option plain_raw (
    option plain_verbose (
      option (plain_host _) (
        option (plain_host _) (
          option (plain_port _ nine-IsPortText (omega arith) (omega arith)) (
            option (plain_wait _ twenty-IsPortText)
              (option (plain_file _) (option (plain_passwd _) no_option)))))))

parse_args-ArePlain_example : parse_args calm command_line start ≡ (
  returns (record {
    host_str = record { origin = argument; string = codes "lab" };
    pathname = some (codes "macs");
    port = 9;
    passwd = some (record { origin = argument; string = codes "1-2-3-4-5-6" });
    request_stdin = false;
    verbose = true;
    packet_mode = 2;
    msecs = 20000;
  }),
  start,
)
parse_args-ArePlain_example =
    parse_args-ArePlain calm command_line start refl command_line-ArePlain tt
