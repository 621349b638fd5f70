-- ===== src/Md5/Absorbed.antt =====
-- What the state of lib/md5.c holds of a message: `Taken` of its whole blocks, and `Absorbed` of all
-- of it, with the rest in the buffer.
use wake_on_lan.Base.{
  ℕ, zero, suc, ◌+◌, ◌*◌, ◌/◌, ◌%◌, ◌≤◌, ◌<◌, ◌≡◌, refl, sym, ap, ◌∙◌, List, [], ◌∷◌, ◌++◌, length,
  length-append, length-take, length-drop, take, drop, take-append, drop-append_within, take-take,
  drop-take, arith,
}
use wake_on_lan.Md5.{Ctx, count, md5_process_block, md5_init_ctx}
use wake_on_lan.Md5.Rounds.{Regs, word_mod}
use wake_on_lan.Md5.Rfc.{absorb, compress, rfc_init}
use wake_on_lan.Md5.Steps.{InRange}
use wake_on_lan.Md5.Blocks.{process_blocks_lem}

-- The whole blocks of a message are in the registers, and their bytes in the count, modulo 2 ^ 64.
pub record Taken (front : List ℕ) (ctx : Ctx) : Type 0 where
  pub blocks : ℕ
  pub size : length front ≡ 64 * blocks
  pub absorbed : ctx.regs ≡ absorb blocks front rfc_init
  pub in_range : InRange ctx.regs
  pub low : ctx.total_0 ≡ length front % word_mod
  pub high : ctx.total_1 ≡ length front / word_mod % word_mod

-- The rest, of one block at most, stands at the start of the buffer of 128 bytes.
pub record Absorbed (msg : List ℕ) (ctx : Ctx) : Type 0 where
  pub front : List ℕ
  pub rest : List ℕ
  pub tail : List ℕ
  pub whole : msg ≡ front ++ rest
  pub taken : Taken front ctx
  pub filled : ctx.buflen ≡ length rest
  pub held : ctx.buffer ≡ rest ++ tail
  pub room : length rest + length tail ≡ 128
  pub small : length rest ≤ 64

pub init-Absorbed : (stack : List ℕ) → length stack ≡ 128 → Absorbed [] (md5_init_ctx stack)
unfolding md5_init_ctx absorb
init-Absorbed stack h = record {
  front = [];
  rest = [];
  tail = stack;
  whole = refl;
  taken = record {
    blocks = 0;
    size = refl;
    absorbed = refl;
    in_range = record { a = omega arith; b = omega arith; c = omega arith; d = omega arith };
    low = refl;
    high = refl;
  };
  filled = refl;
  held = refl;
  room = omega arith;
  small = omega arith;
}

pub absorb-append :
    (n k m : ℕ) (front xs : List ℕ) (r : Regs)
    → length front ≡ 64 * n
    → n + k ≡ m
    → absorb m (front ++ xs) r ≡ absorb k xs (absorb n front r)
unfolding absorb
absorb-append zero k m [] xs r h e = let same : m ≡ k = omega arith in rw same
absorb-append zero k m (x ∷ front) xs r h e = absurd (omega arith)
absorb-append (suc n) k zero front xs r h e = absurd (omega arith)
absorb-append (suc n) k (suc m) front xs r h e =
    rw (take-append 64 front xs (omega arith), drop-append_within 64 front xs (omega arith))
      (absorb-append n k m (drop 64 front) xs (compress (take 64 front) r)
        (omega (arith, length-drop 64 front)) (omega arith))

pub absorb-take :
    (k n : ℕ) (xs : List ℕ) (r : Regs) → n ≡ 64 * k → absorb k (take n xs) r ≡ absorb k xs r
unfolding absorb
absorb-take zero n xs r e = refl
absorb-take (suc k) n xs r e =
    rw (take-take 64 (64 * k) n xs (omega arith), drop-take 64 (64 * k) n xs (omega arith))
      (absorb-take k (64 * k) (drop 64 xs) (compress (take 64 xs) r) refl)

-- The two words of the count.
pub count_lem :
    (total n : ℕ) (ctx : Ctx)
    → n < word_mod
    → ctx.total_0 ≡ total % word_mod
    → ctx.total_1 ≡ total / word_mod % word_mod
    → ((count n ctx).total_0 ≡ (total + n) % word_mod)
      × ((count n ctx).total_1 ≡ (total + n) / word_mod % word_mod)
unfolding count
count_lem total n ctx h low high = (omega arith, ground arith)

-- `md5_process_block` takes whole blocks.
pub process_block-Taken :
    (front bytes : List ℕ) (k len : ℕ) (ctx : Ctx)
    → Taken front ctx
    → len ≡ 64 * k
    → len ≤ length bytes
    → len < word_mod
    → Taken (front ++ take len bytes) (md5_process_block bytes len ctx)
unfolding md5_process_block
process_block-Taken front bytes k len ctx t e fits small =
    let rounds : (len / 4 + 15) / 16 ≡ k = omega arith in
    let (same, range) = process_blocks_lem k bytes ctx.regs t.in_range in
    let sum : length (front ++ take len bytes) ≡ length front + len =
      omega (arith, length-append front (take len bytes), length-take len bytes fits) in
    let (low, high) = count_lem (length front) len ctx small t.low t.high in
    let joined : absorb (t.blocks + k) (front ++ take len bytes) rfc_init
        ≡ absorb k bytes (absorb t.blocks front rfc_init) =
      absorb-append t.blocks k (t.blocks + k) front (take len bytes) rfc_init t.size refl
      ∙ absorb-take k len bytes (absorb t.blocks front rfc_init) e in
    rw rounds (record {
      blocks = t.blocks + k;
      size = omega (arith, sum, t.size);
      absorbed = same ∙ (ap (absorb k bytes) t.absorbed ∙ sym joined);
      in_range = range;
      low = rw sum low;
      high = rw sum high;
    })
