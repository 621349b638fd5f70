-- ===== src/Magic/Layout.antt =====
-- What the stores of src/magic.c leave in a block: the frame of the comment at the top of that file.
use wake_on_lan.Base.{
  ℕ, zero, suc, ◌+◌, ◌*◌, ◌≤◌, ◌≡◌, refl, ap, ◌∙◌, some, List, [], ◌++◌, map, append_assoc, arith,
  length, drop, replicate, repeated, copy_to-append, drop-drop, length-append, length-map,
  length-drop, length-repeated,
}
use wake_on_lan.Magic.{mac_len, packet_size, octet, put_addr, put_frame}

-- Six bytes 0xff, then the address sixteen times.
abbrev pub frame : List ℕ → List ℕ
frame addr = replicate 6 0xff ++ repeated 16 addr

put_addr_lem :
    (rounds j : ℕ) (written rest m : List ℕ)
    → length m ≡ mac_len
    → length written ≡ 6 + j * 6
    → rounds * 6 ≤ length rest
    → put_addr rounds j (written ++ rest) m
      ≡ some (written ++ (repeated rounds (map octet m) ++ drop (rounds * 6) rest))
unfolding put_addr
put_addr_lem zero j written rest m e w h = refl
put_addr_lem (suc rounds) j written rest m e w h =
    let addr = map octet m in
    let six : length addr ≡ 6 = length-map octet m ∙ e in
    let tail = drop (length addr) rest in
    rw (
      copy_to-append written rest addr (6 + j * 6) (omega arith) (omega arith),
      ← append_assoc written addr tail,
      put_addr_lem rounds (j + 1) (written ++ addr) tail m e
          (omega (arith, length-append written addr))
          (omega (arith, length-drop (length addr) rest)),
      drop-drop (rounds * 6) (length addr) (suc rounds * 6) rest (omega arith),
      append_assoc written addr,
      append_assoc addr,
    )

pub put_frame_lem :
    (packet m : List ℕ)
    → length m ≡ mac_len
    → packet_size ≤ length packet
    → put_frame packet m ≡ some (frame (map octet m) ++ drop packet_size packet)
unfolding put_frame
put_frame_lem packet m e h = rw (copy_to-append [] packet (replicate 6 0xff) 0 refl (omega arith)) (
    put_addr_lem 16 0 (replicate 6 0xff) (drop 6 packet) m e refl
      (omega (arith, length-drop 6 packet))
    ∙ rw (drop-drop 96 6 102 packet refl))

pub length-frame : (addr : List ℕ) → length addr ≡ mac_len → length (frame addr) ≡ packet_size
length-frame addr e = omega (arith, length-repeated 16 addr, ap (λ (n : ℕ). 16 * n) e)
