-- ===== src/Magic/Assemble.antt =====
-- What `magic_assemble` of src/magic.c returns and leaves in its buffer, on every path.
use wake_on_lan.Base.{
  ℕ, ◌+◌, ◌≤◌, ◌≡◌, refl, ◌∙◌, ap, Bool, Option, none, some, List, [], ◌++◌, map, append-nil, arith,
  length, drop, copy_to-append, drop_all, length-map, length-append, length-drop, Option-cases, inl,
  inr, Text,
}
use wake_on_lan.Scan.{sscanf}
use wake_on_lan.Magic.{
  Magic, Allocator, Ethers, Assembly, Status, success, bad_address, bad_password, mac_len,
  packet_size, secureon_size, einval, six_bytes, int_of, octet, read_six, fit, resolve_mac,
  put_passwd, assemble_at, magic_create, magic_assemble,
}
use wake_on_lan.Magic.Layout.{frame, put_frame_lem, length-frame}

-- The block is as long as `size` says.
abbrev pub IsValid : Magic → Type 0
IsValid b = length b.packet ≡ b.size

-- The size that a packet with or without password has.
abbrev pub packet_length : Option Text → ℕ
packet_length none = packet_size
packet_length (some _) = secureon_size

pub length-read_six : (c : ℕ) (s : Text) {m : List ℕ} → read_six c s ≡ some m → length m ≡ mac_len
unfolding read_six
length-read_six c s {m} h =
    ground (arith, length-map int_of (sscanf (six_bytes c) s), ap (length {A = ℕ}))

pub length-resolve_mac :
    (ethers : Ethers) (s : Text) {m : List ℕ} → resolve_mac ethers s ≡ some m → length m ≡ mac_len
unfolding resolve_mac
length-resolve_mac ethers s {m} h = elim (Option-cases (read_six b':' s)) [
  | inl e ↦ ethers.length-hostton s m (rw (e, resolve_mac) at h)
  | inr (m', e) ↦ length-read_six b':' s (e ∙ rw (e, resolve_mac) at h)
]

pub magic_create-IsValid :
    (alloc : Allocator) (with_passwd : Bool) → IsValid (magic_create alloc with_passwd)
unfolding magic_create
magic_create-IsValid alloc with_passwd = alloc.length-xmalloc _

module _ (alloc : Allocator) where
  -- After the accommodation the block has the size of the packet's kind.
  fit_lem :
      (b : Magic) (passwd : Option Text)
      → IsValid b
      → (length (fit alloc b passwd).packet ≡ packet_length passwd)
        × ((fit alloc b passwd).size ≡ packet_length passwd)
  unfolding fit
  fit_lem b none v = ground (arith, alloc.length-xrealloc b.packet packet_size)
  fit_lem b (some p) v = ground (arith, alloc.length-xrealloc b.packet secureon_size)

-- The password's six bytes go behind the frame, into the block's last six places.
put_passwd_lem :
    (errno : ℕ) (f tail s : List ℕ) (p : Text) (size : ℕ)
    → length f ≡ packet_size
    → length tail ≡ 6
    → read_six b'-' p ≡ some s
    → put_passwd errno (record { packet = f ++ tail; size = size }) (some p)
      ≡ some (record {
        status = success;
        errno = errno;
        buffer = some (record { packet = f ++ map octet s; size = size });
      })
unfolding put_passwd
put_passwd_lem errno f tail s p size ef et h =
    let e = length-map octet s ∙ length-read_six b'-' p h in
    rw (h, put_passwd)
      (rw (
        copy_to-append f tail (map octet s) packet_size (omega arith) (omega arith),
        drop_all (length (map octet s)) tail (omega arith),
        append-nil,
      ))

module _ (alloc : Allocator) (ethers : Ethers) (errno : ℕ) (b : Magic) (mac : Text) where
  abbrev run : Option Text → Option Assembly
  run = magic_assemble alloc ethers errno (some b) (some mac)

  -- With an address that resolves, the run is that of the password's step on the frame, in a
  -- block of the right size, whose bytes behind the frame are what the allocator left there.
  assemble_framed :
      (passwd : Option Text) {m : List ℕ}
      → IsValid b
      → resolve_mac ethers mac ≡ some m
      → (tail : List ℕ) × (length tail + packet_size ≡ packet_length passwd)
        × (run passwd
            ≡ put_passwd errno
                (record { packet = frame (map octet m) ++ tail; size = packet_length passwd })
                passwd)
  unfolding magic_assemble assemble_at
  assemble_framed passwd {m} v h =
      let fitted = fit alloc b passwd in
      let (len, size) = fit_lem alloc b passwd v in
      let room : packet_size ≤ length fitted.packet = ground arith in
      (
        drop packet_size fitted.packet,
        omega (arith, length-drop packet_size fitted.packet),
        rw (h, assemble_at)
            (rw (put_frame_lem fitted.packet m (length-resolve_mac ethers mac h) room, size)),
      )

  -- Without a password, a valid buffer and an address that resolves give a packet of 102 bytes:
  -- six bytes 0xff and sixteen times the address's bytes. `errno` keeps its value.
  pub assemble_plain :
      {m : List ℕ}
      → IsValid b
      → resolve_mac ethers mac ≡ some m
      → run none
        ≡ some (record {
          status = success;
          errno = errno;
          buffer = some (record { packet = frame (map octet m); size = 102 });
        })
  unfolding put_passwd
  assemble_plain {m} v h =
      let (tail, len, e) = assemble_framed none v h in
      let empty : tail ≡ [] = ground arith in e ∙ rw empty (simp append-nil)

  -- With a password of six bytes, the packet has 108 bytes: the password follows the frame.
  pub assemble_secure :
      (p : Text) {m s : List ℕ}
      → IsValid b
      → resolve_mac ethers mac ≡ some m
      → read_six b'-' p ≡ some s
      → run (some p)
        ≡ some (record {
          status = success;
          errno = errno;
          buffer = some (record { packet = frame (map octet m) ++ map octet s; size = 108 });
        })
  assemble_secure p {m} {s} v h k =
      let (tail, len, e) = assemble_framed (some p) v h in
      e
      ∙ put_passwd_lem errno (frame (map octet m)) tail s p secureon_size
          (length-frame (map octet m) (length-map octet m ∙ length-resolve_mac ethers mac h))
          (omega arith) k

  -- A password that is not six bytes is refused with EINVAL, after the frame is written: the
  -- buffer is left with 108 bytes, of which the last six are not determined.
  pub assemble_bad_password :
      (p : Text) {m : List ℕ}
      → IsValid b
      → resolve_mac ethers mac ≡ some m
      → read_six b'-' p ≡ none
      → (tail : List ℕ) × (length tail ≡ 6)
        × (run (some p)
            ≡ some (record {
              status = bad_password;
              errno = einval;
              buffer = some (record { packet = frame (map octet m) ++ tail; size = 108 });
            }))
  unfolding put_passwd
  assemble_bad_password p v h k =
      let (tail, len, e) = assemble_framed (some p) v h in
      (tail, omega arith, e ∙ rw (k, put_passwd))

  -- An address that neither `sscanf` nor the ethers database knows is refused with EINVAL, and
  -- the buffer keeps its size and its bytes.
  pub assemble_bad_address :
      (passwd : Option Text)
      → resolve_mac ethers mac ≡ none
      → run passwd ≡ some (record { status = bad_address; errno = einval; buffer = some b })
  unfolding magic_assemble assemble_at
  assemble_bad_address passwd h = rw (h, assemble_at)

-- What a call leaves: no buffer only where none was given, which is refused; otherwise a valid
-- one, and after a success one of the size of the packet's kind.
abbrev pub Leaves : Option Text → Status → Option Magic → Type 0
Leaves passwd status none = status ≡ bad_address
Leaves passwd success (some b) = IsValid b × (b.size ≡ packet_length passwd)
Leaves passwd status (some b) = IsValid b

abbrev pub IsValidOrNull : Option Magic → Type 0
IsValidOrNull none = Unit
IsValidOrNull (some b) = IsValid b

module _ (alloc : Allocator) (ethers : Ethers) (errno : ℕ) where
  Leaves-framed :
      (b : Magic) (mac : Text) (passwd : Option Text) {m : List ℕ}
      → IsValid b
      → resolve_mac ethers mac ≡ some m
      → (a : Assembly) × (magic_assemble alloc ethers errno (some b) (some mac) passwd ≡ some a)
        × Leaves passwd a.status a.buffer
  Leaves-framed b mac none {m} v h =
      let addr =
        length-frame (map octet m) (length-map octet m ∙ length-resolve_mac ethers mac h) in
      (_, assemble_plain alloc ethers errno b mac v h, (addr, refl))
  Leaves-framed b mac (some p) {m} v h =
      let f = frame (map octet m) in
      let addr =
        length-frame (map octet m) (length-map octet m ∙ length-resolve_mac ethers mac h) in
      elim (Option-cases (read_six b'-' p)) [
        | inl k ↦
            let (tail, len, e) = assemble_bad_password alloc ethers errno b mac p v h k in
            (_, e, omega (arith, length-append f tail))
        | inr (s, k) ↦
            let six = length-map octet s ∙ length-read_six b'-' p k in
            (
              _,
              assemble_secure alloc ethers errno b mac p v h k,
              (omega (arith, length-append f (map octet s)), refl),
            )
      ]

  -- On every valid or null buffer, and every address and password, null or not, the call returns
  -- and makes no store outside the block; it leaves a valid buffer, of 102 or 108 bytes as the
  -- password asks where it succeeds.
  pub magic_assemble-Leaves :
      (buffer : Option Magic) (mac passwd : Option Text)
      → IsValidOrNull buffer
      → (a : Assembly) × (magic_assemble alloc ethers errno buffer mac passwd ≡ some a)
        × Leaves passwd a.status a.buffer
  unfolding magic_assemble
  magic_assemble-Leaves none mac passwd v = (_, refl, refl)
  magic_assemble-Leaves (some b) none passwd v = (_, refl, v)
  magic_assemble-Leaves (some b) (some mac) passwd v =
      elim (Option-cases (resolve_mac ethers mac)) [
        | inl h ↦ (_, assemble_bad_address alloc ethers errno b mac passwd h, v)
        | inr (m, h) ↦ Leaves-framed b mac passwd v h
      ]
