-- ===== src/Md5/Taking.antt =====
-- The second part of `md5_process_bytes`, which takes whole blocks of its bytes, aligned or not.
use wake_on_lan.Base.{
  ℕ, zero, suc, ◌+◌, ◌*◌, ◌/◌, ◌≤◌, ◌<◌, ◌≡◌, refl, sym, ap, ◌∙◌, Bool, true, false, Bool-cases,
  inl, inr, Option, some, List, [], ◌∷◌, ◌++◌, length, length-append, length-take, length-drop,
  take, drop, take-drop, take-append, take_all, copy_to, copy_to-append, append_assoc, append-nil,
  ltb, leb, if◌then◌else◌, arith,
}
use wake_on_lan.Md5
use wake_on_lan.Md5.{
  Ctx, md5_process_block, top_up, copy_blocks, take_blocks, keep_rest, md5_process_bytes,
  is_unaligned,
}
use wake_on_lan.Md5.Rounds.{word_mod}
use wake_on_lan.Md5.Absorbed.{Taken, Absorbed, process_block-Taken}
use wake_on_lan.Md5.Filling.{Taken-rebuffer}

-- Nothing is buffered: the message was whole blocks.
pub record Clear (msg : List ℕ) (c : Ctx) : Type 0 where
  pub taken : Taken msg c
  pub empty : c.buflen ≡ 0
  pub size : length c.buffer ≡ 128

pub nil_of_length : (xs : List ℕ) → length xs ≡ 0 → xs ≡ []
nil_of_length [] h = refl
nil_of_length (x ∷ xs) h = absurd (omega arith)

pub Absorbed-Clear : (msg : List ℕ) (c : Ctx) → Absorbed msg c → c.buflen ≡ 0 → Clear msg c
Absorbed-Clear msg c a e =
    let none_left = nil_of_length a.rest (omega (arith, a.filled)) in
    let whole : a.front ≡ msg =
      sym (a.whole ∙ (ap (λ (l : List ℕ). a.front ++ l) none_left ∙ append-nil a.front)) in
    record {
      taken = rw whole at a.taken;
      empty = e;
      size = ap length a.held ∙ omega (arith, length-append a.rest a.tail, a.room);
    }

pub Clear-Absorbed : (msg : List ℕ) (c : Ctx) → Clear msg c → Absorbed msg c
Clear-Absorbed msg c k = record {
  front = msg;
  rest = [];
  tail = c.buffer;
  whole = sym (append-nil msg);
  taken = k.taken;
  filled = k.empty;
  held = refl;
  room = omega (arith, k.size);
  small = omega arith;
}

-- Blocks that a call takes, up to one that may be left.
pub record Takes (msg bytes : List ℕ) (r : Option (List ℕ × Ctx)) : Type 0 where
  pub taken : List ℕ
  pub left : List ℕ
  pub ctx : Ctx
  pub runs : r ≡ some (left, ctx)
  pub split : bytes ≡ taken ++ left
  pub now : Clear (msg ++ taken) ctx
  pub short : length left ≤ 64

none_taken :
    (msg bytes : List ℕ) (c : Ctx)
    → Clear msg c
    → length bytes ≤ 64
    → Takes msg bytes (some (bytes, c))
none_taken msg bytes c k h = record {
  taken = [];
  left = bytes;
  ctx = c;
  runs = refl;
  split = refl;
  now = rw (append-nil msg) k;
  short = h;
}

-- One block through the buffer.
copied-Clear :
    (msg bytes : List ℕ) (c : Ctx)
    → Clear msg c
    → 64 < length bytes
    → (let block = take 64 bytes ++ drop 64 c.buffer in
        (copy_to c.buffer 0 (take 64 bytes) ≡ some block)
        × Clear (msg ++ take 64 bytes) (md5_process_block block 64 (record c { buffer = block })))
unfolding md5_process_block Md5.count
copied-Clear msg bytes c k h =
    let first = take 64 bytes in
    let size = length-take 64 bytes (omega arith) in
    let block = first ++ drop 64 c.buffer in
    let stored : copy_to c.buffer 0 first ≡ some block =
      copy_to-append [] c.buffer first 0 refl (omega (arith, size, k.size))
      ∙ ap (λ (n : ℕ). some (first ++ drop n c.buffer)) size in
    let long : length block ≡ 128 =
      omega
        (arith, length-append first (drop 64 c.buffer), length-drop 64 c.buffer, size, k.size) in
    let same : take 64 block ≡ first =
      take-append 64 first (drop 64 c.buffer) (omega (arith, size))
      ∙ take_all 64 first (omega (arith, size)) in
    let t =
      process_block-Taken msg block 1 64 (record c { buffer = block })
        (Taken-rebuffer msg c c.buflen block k.taken) refl (omega (arith, long)) (omega arith) in
    (stored, record { taken = rw same at t; empty = k.empty; size = long })

copy_blocks-Takes :
    (n : ℕ) (msg bytes : List ℕ) (c : Ctx)
    → Clear msg c
    → length bytes ≤ 64 * n + 64
    → Takes msg bytes (copy_blocks n bytes c)
unfolding copy_blocks
copy_blocks-Takes zero msg bytes c k h =
    let small : ltb 64 (length bytes) ≡ false = ground arith in
    rw small (none_taken msg bytes c k (omega arith))
copy_blocks-Takes (suc n) msg bytes c k h = elim (Bool-cases (ltb 64 (length bytes))) [
  | inl e ↦
      let (stored, cleared) = copied-Clear msg bytes c k (ground arith) in
      let ih =
        copy_blocks-Takes n (msg ++ take 64 bytes) (drop 64 bytes) _ cleared
          (omega (arith, length-drop 64 bytes)) in
      rw (e, stored)
        (record {
          taken = take 64 bytes ++ ih.taken;
          left = ih.left;
          ctx = ih.ctx;
          runs = ih.runs;
          split =
              sym (take-drop 64 bytes)
              ∙ (ap (λ (l : List ℕ). take 64 bytes ++ l) ih.split
                  ∙ sym (append_assoc (take 64 bytes) ih.taken ih.left));
          now = rw (← append_assoc msg (take 64 bytes) ih.taken) ih.now;
          short = ih.short;
        })
  | inr e ↦ rw e (none_taken msg bytes c k (ground arith))
]

pub take_blocks-Takes :
    (unaligned : Bool) (msg bytes : List ℕ) (c : Ctx)
    → Clear msg c
    → length bytes < word_mod
    → Takes msg bytes (take_blocks unaligned bytes c)
unfolding take_blocks md5_process_block Md5.count
take_blocks-Takes unaligned msg bytes c k small = elim (Bool-cases (leb 64 (length bytes))) [
  | inl e ↦ rw e (go unaligned)
  | inr e ↦ rw e (none_taken msg bytes c k (ground arith))
]
  where
    n : ℕ
    n = length bytes / 64 * 64

    go :
        (u : Bool)
        → Takes msg bytes (
            if u
            then copy_blocks (length bytes / 64) bytes c
            else some (drop n bytes, md5_process_block bytes n c))
    go true = copy_blocks-Takes (length bytes / 64) msg bytes c k (omega arith)
    go false = record {
      taken = take n bytes;
      left = drop n bytes;
      ctx = md5_process_block bytes n c;
      runs = refl;
      split = sym (take-drop n bytes);
      now = record {
        taken =
            process_block-Taken msg bytes (length bytes / 64) n c k.taken (omega arith)
              (omega arith) (omega arith);
        empty = k.empty;
        size = k.size;
      };
      short = omega (arith, length-drop n bytes);
    }
