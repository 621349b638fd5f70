-- ===== src/Magic.antt =====
-- src/magic.c and include/magic.h: the buffer of a magic packet and its assembly. `struct magic`
-- is the record `Magic`, whose block is a list of bytes; a store that misses the block makes a
-- function return `none`. The allocator and the table of Ethernet names are parameters.
pub mod Layout
pub mod Assemble
pub mod Written
use wake_on_lan.Base.{
  ℕ, zero, suc, ◌+◌, ◌*◌, ◌%◌, ◌≡◌, ◌<◌, Bool, Option, none, some, List, [], ◌∷◌, map, length,
  replicate, copy_to, ◌==◌, if◌then◌else◌, ◌>>=◌, Text,
}
use wake_on_lan.Scan.{Directive, lit, hex, Value, num, text, sscanf}

abbrev pub magic_header : ℕ
magic_header = 6

abbrev pub mac_len : ℕ
mac_len = 6

abbrev pub magic_times : ℕ
magic_times = 16

abbrev pub magic_secureon : ℕ
magic_secureon = 6

-- `sizeof (struct packet)`: the header, and the address `MAGIC_TIMES` times.
abbrev pub packet_size : ℕ
packet_size = magic_header + magic_times * mac_len

-- `sizeof (struct secureon)`
abbrev pub secureon_size : ℕ
secureon_size = magic_header + magic_times * mac_len + magic_secureon

pub record Magic : Type 0 where
  pub packet : List ℕ
  pub size : ℕ

-- `xmalloc` and `xrealloc`, which end the program where memory is exhausted. What a new block
-- holds is not determined.
pub record Allocator : Type 0 where
  pub xmalloc : ℕ → List ℕ
  pub xrealloc : List ℕ → ℕ → List ℕ
  pub length-xmalloc : (n : ℕ) → length (xmalloc n) ≡ n
  pub length-xrealloc : (block : List ℕ) (n : ℕ) → length (xrealloc block n) ≡ n

-- `ether_hostton`, which looks a name up in the ethers database and fills `struct ether_addr`.
pub record Ethers : Type 0 where
  pub hostton : Text → Option (List ℕ)
  pub length-hostton :
      (name : Text) (octets : List ℕ) → hostton name ≡ some octets → length octets ≡ mac_len

abbrev pub einval : ℕ
einval = 22

-- The return value: 0, -1 or -2.
pub data Status : Type 0 where
  success bad_address bad_password : Status

-- What a call returns, and what it leaves in `errno` and in the buffer that it was given.
pub record Assembly : Type 0 where
  pub status : Status
  pub errno : ℕ
  pub buffer : Option Magic

-- "%2x:%2x:%2x:%2x:%2x:%2x", and the same with dashes
abbrev pub six_bytes : ℕ → List Directive
six_bytes c =
    hex 2 ∷ lit c ∷ hex 2 ∷ lit c ∷ hex 2 ∷ lit c ∷ hex 2 ∷ lit c ∷ hex 2 ∷ lit c ∷ hex 2 ∷ []

-- The array that the six pointers fill; `%x` stores numbers only.
abbrev pub int_of : Value → ℕ
int_of (num v) = v
int_of (text t) = 0

abbrev pub ints : List Value → List ℕ
ints = map int_of

-- The cast to unsigned char.
abbrev pub octet : ℕ → ℕ
octet v = v % 256

-- The six numbers of a string, if `sscanf` converts all of them.
unfoldable pub read_six : ℕ → Text → Option (List ℕ)
read_six c s =
    let values = sscanf (six_bytes c) s in
    if length values == mac_len then some (ints values) else none

module _ (alloc : Allocator) where
  unfoldable pub magic_create : Bool → Magic
  magic_create with_passwd =
      let size = if with_passwd then secureon_size else packet_size in
      record { packet = alloc.xmalloc size; size = size }

  abbrev resize : Magic → ℕ → Magic
  resize m n = record { packet = alloc.xrealloc m.packet n; size = n }

  -- "accommodate the packet chunk's size to the packet type"
  unfoldable pub fit : Magic → Option Text → Magic
  fit m (some _) = if m.size == secureon_size then m else resize m secureon_size
  fit m none = if m.size == packet_size then m else resize m packet_size

-- The address, from its six numbers or else from the ethers database.
unfoldable pub resolve_mac : Ethers → Text → Option (List ℕ)
resolve_mac ethers s = elim (read_six b':' s) [ some m ↦ some m | none ↦ ethers.hostton s ]

-- The loop over `j`, with the rounds that are left; the loop over `k` stores one address.
unfoldable pub put_addr : ℕ → ℕ → List ℕ → List ℕ → Option (List ℕ)
put_addr zero j packet m = some packet
put_addr (suc rounds) j packet m = do
  next ← copy_to packet (magic_header + j * mac_len) (map octet m)
  put_addr rounds (j + 1) next m

-- The header and the sixteen addresses.
unfoldable pub put_frame : List ℕ → List ℕ → Option (List ℕ)
put_frame packet m = do
  headed ← copy_to packet 0 (replicate magic_header 0xff)
  put_addr magic_times 0 headed m

-- The SecureON password, behind the sixteen addresses.
unfoldable pub put_passwd : ℕ → Magic → Option Text → Option Assembly
put_passwd errno b none = some (record { status = success; errno = errno; buffer = some b })
put_passwd errno b (some passwd) = elim (read_six b'-' passwd) [
  | none ↦ some (record { status = bad_password; errno = einval; buffer = some b })
  | some s ↦ do
    packet ← copy_to b.packet packet_size (map octet s)
    some (record { status = success; errno = errno; buffer = some (record b { packet = packet }) })
]

module _ (alloc : Allocator) (ethers : Ethers) where
  unfoldable pub assemble_at : ℕ → Magic → Text → Option Text → Option Assembly
  assemble_at errno b mac passwd = elim (resolve_mac ethers mac) [
    | none ↦ some (record { status = bad_address; errno = einval; buffer = some b })
    | some m ↦ do
      let fitted = fit alloc b passwd
      packet ← put_frame fitted.packet m
      put_passwd errno (record fitted { packet = packet }) passwd
  ]

  -- `magic_assemble`, on pointers that may be null.
  unfoldable pub magic_assemble : ℕ → Option Magic → Option Text → Option Text → Option Assembly
  magic_assemble errno (some b) (some mac) passwd = assemble_at errno b mac passwd
  magic_assemble errno buffer mac passwd =
      some (record { status = bad_address; errno = errno; buffer = buffer })
