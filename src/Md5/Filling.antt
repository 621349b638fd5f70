-- ===== src/Md5/Filling.antt =====
-- The blocks of the buffer, which the first part of `md5_process_bytes` takes.
use wake_on_lan.Base.{
  ℕ, ◌+◌, ◌*◌, ◌/◌, ◌%◌, ◌≤◌, ◌≡◌, ◌⊎◌, refl, sym, ap, ◌∙◌, true, false, some, List, [], ◌++◌,
  length, length-append, length-drop, take, drop, take-drop, take-append, drop-append_within,
  take_all, copy_to, copy_to-append, append_assoc, ltb, arith,
}
use wake_on_lan.Md5
use wake_on_lan.Md5.{
  Ctx, md5_process_block, flush, room, fill_up, top_up, copy_blocks, take_blocks, keep_rest,
  md5_process_bytes, is_unaligned,
}
use wake_on_lan.Md5.Rounds.{word_mod}
use wake_on_lan.Md5.Absorbed.{Taken, Absorbed, process_block-Taken}

pub Taken-rebuffer :
    (front : List ℕ) (c : Ctx) (n : ℕ) (block : List ℕ)
    → Taken front c
    → Taken front (record c { buflen = n; buffer = block })
Taken-rebuffer front c n block t = record {
  blocks = t.blocks;
  size = t.size;
  absorbed = t.absorbed;
  in_range = t.in_range;
  low = t.low;
  high = t.high;
}

-- The buffer's whole blocks are taken, and what is left moves to its start.
pub record Settles (front content : List ℕ) (n left : ℕ) (c : Ctx) : Type 0 where
  pub block : List ℕ
  pub moves : copy_to c.buffer 0 (take left (drop n c.buffer)) ≡ some block
  pub now :
      Absorbed
        (front ++ content)
        (record (md5_process_block c.buffer n c) { buflen = left; buffer = block })

pub settles :
    (front content junk : List ℕ) (k n left : ℕ) (c : Ctx)
    → Taken front c
    → c.buffer ≡ content ++ junk
    → length content + length junk ≡ 128
    → n ≡ 64 * k
    → n + left ≡ length content
    → left ≤ 64
    → Settles front content n left c
settles front content junk k n left c t held size e split small =
    let rest = drop n content in
    let count : length rest ≡ left = omega (arith, length-drop n content) in
    let all : length (content ++ junk) ≡ 128 = omega (arith, length-append content junk) in
    let whole : length c.buffer ≡ 128 = ap length held ∙ all in
    let below : drop n c.buffer ≡ rest ++ junk =
      ap (drop n) held ∙ drop-append_within n content junk (omega arith) in
    let first : take left (drop n c.buffer) ≡ rest =
      ap (take left) below
      ∙ (take-append left rest junk (omega arith) ∙ take_all left rest (omega arith)) in
    let blocks : take n c.buffer ≡ take n content =
      ap (take n) held ∙ take-append n content junk (omega arith) in
    let block = rest ++ drop left c.buffer in
    let moves : copy_to c.buffer 0 (take left (drop n c.buffer)) ≡ some block =
      ap (copy_to c.buffer 0) first
      ∙ (copy_to-append [] c.buffer rest 0 refl (omega arith)
          ∙ ap (λ (i : ℕ). some (rest ++ drop i c.buffer)) count) in
    let taken = process_block-Taken front c.buffer k n c t e (omega arith) (omega arith) in
    record {
      block = block;
      moves = moves;
      now = record {
        front = front ++ take n c.buffer;
        rest = rest;
        tail = drop left c.buffer;
        whole =
            ap (λ (l : List ℕ). front ++ l) (sym (take-drop n content))
            ∙ (sym (append_assoc front (take n content) rest)
                ∙ ap (λ (l : List ℕ). (front ++ l) ++ rest) (sym blocks));
        taken =
            Taken-rebuffer (front ++ take n c.buffer) (md5_process_block c.buffer n c) left block
              taken;
        filled = sym count;
        held = refl;
        room = omega (arith, length-drop left c.buffer);
        small = omega arith;
      };
    }

-- What part of the work is done: `left` is still to come, and where there is any, nothing is buffered.
pub record Step (msg bytes left : List ℕ) (c : Ctx) : Type 0 where
  pub taken : List ℕ
  pub split : bytes ≡ taken ++ left
  pub now : Absorbed (msg ++ taken) c
  pub clear : (length left ≡ 0) ⊎ (c.buflen ≡ 0)

pub flush-Absorbed :
    (front content junk : List ℕ) (filled : ℕ) (c : Ctx)
    → Taken front c
    → c.buffer ≡ content ++ junk
    → length content + length junk ≡ 128
    → c.buflen ≡ length content
    → filled ≡ c.buflen
    → (c' : Ctx) × (flush filled c ≡ some c')
      × Absorbed (front ++ content) c'
      × (c'.buflen ≡ c.buflen % 64)
unfolding flush md5_process_block Md5.count
flush-Absorbed front content junk filled c t held size e f =
    let k = c.buflen / 64 in
    let s =
      settles front content junk k (k * 64) (c.buflen % 64) c t held size (omega arith)
        (omega arith) (omega arith) in
    (
      record (md5_process_block c.buffer (k * 64) c) { buflen = c.buflen % 64; buffer = s.block },
      ap (λ (n : ℕ). flush n c) f ∙ rw s.moves,
      s.now,
      refl,
    )

pub room_lem :
    (left_over len : ℕ)
    → left_over ≤ 128
    → (room left_over len ≤ len)
      × (left_over + room left_over len ≤ 128)
      × ((room left_over len ≡ len) ⊎ (left_over + room left_over len ≡ 128))
unfolding room
room_lem left_over len h = ground arith

module _ (add : ℕ) (bytes block : List ℕ) (c : Ctx)
    (stored : copy_to c.buffer c.buflen (take add bytes) ≡ some block)
    (cut : (c.buflen + add) % word_mod ≡ c.buflen + add) where
  pub fill_up_full :
      (c' : Ctx)
      → ltb 64 (c.buflen + add) ≡ true
      → flush (c.buflen + add) (record c { buflen = c.buflen + add; buffer = block }) ≡ some c'
      → fill_up add bytes c ≡ some (add, c')
  unfolding fill_up
  fill_up_full c' e flushed = rw (stored, cut, e, flushed)

  pub fill_up_short :
      ltb 64 (c.buflen + add) ≡ false
      → fill_up add bytes c ≡ some (add, record c { buflen = c.buflen + add; buffer = block })
  unfolding fill_up
  fill_up_short e = rw (stored, cut, e)
