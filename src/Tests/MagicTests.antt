-- ===== src/Tests/MagicTests.antt =====
-- src/magic.c at concrete inputs.
use wake_on_lan.Base.{
  ℕ, Option, ◌≡◌, refl, none, some, List, [], ◌∷◌, ◌++◌, length, length-replicate, replicate, codes,
  Text, ◌*◌, ◌+◌, true,
}
use wake_on_lan.Scan.Laws.{IsByteText, one, two}
use wake_on_lan.Scan.Number.{
  scan_hex, hex_body, digits, read_digits, signed, store_unsigned, to_unsigned,
}
use wake_on_lan.Scan.{sscanf, expect}
use wake_on_lan.Magic.{
  Magic, Allocator, Ethers, Assembly, success, bad_address, magic_create, magic_assemble,
  assemble_at, resolve_mac, read_six, einval,
}
use wake_on_lan.Magic.Layout.{frame}
use wake_on_lan.Magic.Assemble.{Leaves, magic_assemble-Leaves}
use wake_on_lan.Magic.Written.{Field, assemble-joined, assemble-joined_passwd}

abbrev pub zeroes : Allocator
zeroes = record {
  xmalloc = λ n. replicate n 0;
  xrealloc = λ block n. replicate n 0;
  length-xmalloc = λ n. length-replicate n 0;
  length-xrealloc = λ block n. length-replicate n 0;
}

pub none-length :
    (name : Text) (octets : List ℕ)
    → ◌≡◌ {A = Option (List ℕ)} none (some octets)
    → length octets ≡ 6
none-length name octets e = cc

abbrev pub no_ethers : Ethers
no_ethers = record { hostton = λ name. none; length-hostton = none-length }

-- A buffer that an earlier packet has left.
abbrev pub used : Magic
used = record { packet = replicate 102 7; size = 102 }

abbrev pub byte : (c d x y : ℕ) → IsByteText (c ∷ d ∷ []) (x * 16 + y) → Field
byte c d x y h = record { digits = c ∷ d ∷ []; value = x * 16 + y; is_byte = h }

abbrev pub address : List Field
address =
    byte b'0' b'0' 0 0 (two refl refl)
    ∷ byte b'1' b'1' 1 1 (two refl refl)
    ∷ byte b'2' b'2' 2 2 (two refl refl)
    ∷ byte b'a' b'B' 10 11 (two refl refl)
    ∷ record { digits = b'4' ∷ []; value = 4; is_byte = one refl }
    ∷ byte b'5' b'5' 5 5 (two refl refl)
    ∷ []

abbrev pub octets : List ℕ
octets = 0 ∷ 0x11 ∷ 0x22 ∷ 0xab ∷ 4 ∷ 0x55 ∷ []

assemble-joined_example :
    magic_assemble zeroes no_ethers 0 (some used) (some (codes "00:11:22:aB:4:55 ")) none
    ≡ some (record {
      status = success;
      errno = 0;
      buffer = some (record { packet = frame octets; size = 102 });
    })
assemble-joined_example =
    assemble-joined zeroes no_ethers 0 used refl address (b' ' ∷ []) refl (refl, refl)

assemble-joined_passwd_example :
    magic_assemble zeroes no_ethers 0
      (some used)
      (some (codes "00:11:22:aB:4:55"))
      (some (codes "00-11-22-aB-4-55"))
    ≡ some (record {
      status = success;
      errno = 0;
      buffer = some (record { packet = frame octets ++ octets; size = 108 });
    })
assemble-joined_passwd_example =
    assemble-joined_passwd zeroes no_ethers 0 used refl address address [] [] refl refl tt tt

read_address : resolve_mac no_ethers (codes "00:11:22:aB:4:55") ≡ some octets
unfolding resolve_mac read_six sscanf expect scan_hex hex_body digits read_digits signed
    store_unsigned to_unsigned
read_address = refl

read_password : read_six b'-' (codes "1-2-3-4-5-6") ≡ some (1 ∷ 2 ∷ 3 ∷ 4 ∷ 5 ∷ 6 ∷ [])
unfolding read_six sscanf expect scan_hex hex_body digits read_digits signed store_unsigned
    to_unsigned
read_password = refl

refuse_password : read_six b'-' (codes "1:2") ≡ none
unfolding read_six sscanf expect scan_hex hex_body digits read_digits signed store_unsigned
    to_unsigned
refuse_password = refl

magic_assemble-Leaves_example :
    (a : Assembly) × (magic_assemble zeroes no_ethers 5
        (some used)
        (some (codes "00:11:22:aB:4:55"))
        (some (codes "1-2-3-4-5-6"))
      ≡ some a)
    × Leaves (some (codes "1-2-3-4-5-6")) a.status a.buffer
magic_assemble-Leaves_example =
    magic_assemble-Leaves zeroes no_ethers 5 (some used) (some (codes "00:11:22:aB:4:55"))
      (some (codes "1-2-3-4-5-6")) refl

-- A sign is a number's, and its byte is what is left of the unsigned int.
read_signs : read_six b':' (codes "-1:+2: 3:4:5:6") ≡ some (0xffff_ffff ∷ 2 ∷ 3 ∷ 4 ∷ 5 ∷ 6 ∷ [])
unfolding read_six sscanf expect scan_hex hex_body digits read_digits signed store_unsigned
    to_unsigned
read_signs = refl

unknown_name :
    magic_assemble zeroes no_ethers 0 (some (magic_create zeroes true)) (some (codes "lab")) none
    ≡ some (record {
      status = bad_address;
      errno = einval;
      buffer = some (record { packet = replicate 108 0; size = 108 });
    })
unfolding magic_assemble assemble_at magic_create resolve_mac read_six sscanf expect scan_hex
    hex_body digits read_digits signed store_unsigned to_unsigned
unknown_name = refl
