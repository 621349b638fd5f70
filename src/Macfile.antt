-- ===== src/Macfile.antt =====
-- src/macfile.c: one line of a macfile taken apart by four formats, and the loop that looks for
-- the next line that any of them takes. An array on the stack is `indeterminate` until a
-- conversion fills it; a store behind its end is recorded in `overflow`.
pub mod Attempts
pub mod Entries
pub mod Written
pub mod Parse
pub mod Bytes
pub mod Next
pub mod End
pub mod Unended
pub mod Terminated
pub mod Fitting
use Prim.Native.Nat.{bit_and, bit_or}
use wake_on_lan.Base.{
  ℕ, zero, suc, ◌+◌, Bool, true, false, ◌||◌, Option, none, some, List, [], ◌∷◌, ◌++◌, length, leb,
  ◌==◌, if◌then◌else◌, Text, within, dec_value, hex_value,
}
use wake_on_lan.Scan.{Directive, white, lit, unsigned, chars, skip_word, Value, num, text, sscanf}
use wake_on_lan.Stream.{Stream, no_line, line, getline, c_string}

pub data Buffer : Type 0 where
  indeterminate : Buffer
  holds : Text → Buffer

-- The caller's `*port` and the arrays `mac[18]`, `host[255]` and `passwd[18]`.
pub record Locals : Type 0 where
  pub mac : Buffer
  pub host : Buffer
  pub port : ℕ
  pub passwd : Buffer
  pub overflow : Bool

abbrev pub array_size : ℕ
array_size = 18

abbrev pub host_size : ℕ
host_size = 255

abbrev pub is_some {ℓ} : {A : Type ℓ} → Option A → Bool
is_some none = false
is_some (some a) = true

-- [0-9a-fA-F:]
abbrev pub is_mac_char : ℕ → Bool
is_mac_char c = is_some (hex_value c) || c == b':'

-- [0-9a-zA-Z._-]
abbrev pub is_host_char : ℕ → Bool
is_host_char c =
    within b'0' b'9' c
    || within b'a' b'z' c
    || within b'A' b'Z' c
    || c == b'.'
    || c == b'_'
    || c == b'-'

-- [0-9a-fA-F-]
abbrev pub is_pass_char : ℕ → Bool
is_pass_char c = is_some (hex_value c) || c == b'-'

abbrev pub mac_fmt : Directive
mac_fmt = chars (some 17) is_mac_char

abbrev pub host_fmt : Directive
host_fmt = chars none is_host_char

abbrev pub pass_fmt : Directive
pass_fmt = chars (some 17) is_pass_char

abbrev pub port_fmt : List Directive → List Directive
port_fmt ds = lit b':' ∷ unsigned (some 5) ∷ ds

-- " # %*s"
abbrev pub comment_format : List Directive
comment_format = white ∷ lit b'#' ∷ white ∷ skip_word ∷ []

abbrev pub format_all : List Directive
format_all = white ∷ mac_fmt ∷ white ∷ host_fmt ∷ port_fmt (white ∷ pass_fmt ∷ [])

abbrev pub format_no_port : List Directive
format_no_port = white ∷ mac_fmt ∷ white ∷ host_fmt ∷ white ∷ pass_fmt ∷ []

abbrev pub format_no_pass : List Directive
format_no_pass = white ∷ mac_fmt ∷ white ∷ host_fmt ∷ port_fmt []

abbrev pub format_short : List Directive
format_short = white ∷ mac_fmt ∷ white ∷ host_fmt ∷ []

-- The pointers that a call of `sscanf` is given.
pub data Target : Type 0 where
  to_mac to_host to_port to_passwd : Target

-- A string takes one place more than its characters.
abbrev pub overruns : ℕ → Text → Bool
overruns size s = leb size (length s)

abbrev pub assign_one : Target → Value → Locals → Locals
assign_one to_mac (text s) l = record l {
  mac = holds s;
  overflow = l.overflow || overruns array_size s;
}
assign_one to_host (text s) l = record l {
  host = holds s;
  overflow = l.overflow || overruns host_size s;
}
assign_one to_port (num v) l = record l { port = v }
assign_one to_passwd (text s) l = record l {
  passwd = holds s;
  overflow = l.overflow || overruns array_size s;
}
assign_one _ _ l = l

-- The conversions that were made fill the first targets.
abbrev pub assign : List Target → List Value → Locals → Locals
assign (t ∷ ts) (v ∷ vs) l = assign ts vs (assign_one t v l)
assign _ _ l = l

-- MAC, HOST, PORT and PASS
abbrev pub mac_token : ℕ
mac_token = 0x1

abbrev pub host_token : ℕ
host_token = 0x2

abbrev pub port_token : ℕ
port_token = 0x4

abbrev pub pass_token : ℕ
pass_token = 0x8

abbrev pub targets_all : List Target
targets_all = to_mac ∷ to_host ∷ to_port ∷ to_passwd ∷ []

abbrev pub targets_no_port : List Target
targets_no_port = to_mac ∷ to_host ∷ to_passwd ∷ []

abbrev pub targets_no_pass : List Target
targets_no_pass = to_mac ∷ to_host ∷ to_port ∷ []

abbrev pub targets_short : List Target
targets_short = to_mac ∷ to_host ∷ []

-- One `if (sscanf (...) == n) return tokens;`, with what is tried next.
unfoldable pub attempt :
    List Directive → List Target → ℕ → Text → (Locals → ℕ × Locals) → Locals → ℕ × Locals
attempt format targets tokens s next l =
    let stored = sscanf format s in
    let filled = assign targets stored l in
    if length stored == length targets then (tokens, filled) else next filled

unfoldable pub get_tokens : Text → Locals → ℕ × Locals
get_tokens s l =
    if length (sscanf comment_format s) == 1
    then (0, l)
    else attempt format_all targets_all
        (bit_or mac_token (bit_or host_token (bit_or port_token pass_token))) s
        (attempt format_no_port targets_no_port (bit_or mac_token (bit_or host_token pass_token)) s
          (attempt format_no_pass targets_no_pass (bit_or mac_token (bit_or host_token port_token))
            s
            (attempt format_short targets_short (bit_or mac_token host_token) s
              (λ last. (0, last)))))
        l

-- The copies that a successful call hands out: `strdup` of an array, and the password if any.
pub record Entry : Type 0 where
  pub mac : Buffer
  pub host : Buffer
  pub port : ℕ
  pub passwd : Option Buffer
  pub overflow : Bool

-- -1 with the value left in `*port`, or 0; the stream is left behind the lines read.
pub data Parsed : Type 0 where
  failed : ℕ → Stream → Parsed
  parsed : Entry → Stream → Parsed

-- What follows the loop.
unfoldable pub finish : ℕ → Locals → Stream → Parsed
finish tokens l st =
    if st.ferror
    then failed l.port st
    else parsed
        (record {
          mac = l.mac;
          host = l.host;
          port = l.port;
          passwd = if bit_and tokens pass_token == 0 then none else some l.passwd;
          overflow = l.overflow;
        })
        st

-- The loop, on fuel; `none` means that the fuel ran out. `willy` is the line that getline gives; its
-- block, which is freed where a line is taken and else leaked, has no part in the result.
unfoldable pub parse_loop : ℕ → Stream → Locals → Option Parsed
parse_loop zero st l = none
parse_loop (suc fuel) st l =
    if st.feof || st.ferror then some (finish 0 l st) else elim (getline st) [
      | no_line st' ↦ some (failed l.port st')
      | line s st' ↦
          let (tokens, l') = get_tokens (c_string s) l in
          let rest = parse_loop fuel st' l' in
          if tokens == 0 then rest else some (finish tokens l' st')
    ]

abbrev pub unset : Locals
unset = record {
  mac = indeterminate;
  host = indeterminate;
  port = 0;
  passwd = indeterminate;
  overflow = false;
}

-- One round for each line, one for what follows the last newline, and one to see the end.
unfoldable pub macfile_parse : Stream → Option Parsed
macfile_parse st = parse_loop (length st.lines + 2) st unset
