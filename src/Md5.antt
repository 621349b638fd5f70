-- ===== src/Md5.antt =====
-- lib/md5.c and lib/md5.h: the digest that src/proxy.c asks for by `md5_buffer`. A word is a number
-- below 2 ^ 32, a block of memory is a list of bytes, and a store outside of one gives `none`.
pub mod Rounds
pub mod Bits
pub mod Rfc
pub mod Steps
pub mod Block
pub mod Blocks
pub mod Absorbed
pub mod Filling
pub mod Filled
pub mod Taking
pub mod Bytes
pub mod Padding
pub mod Digest
pub mod Chunks
pub mod Stream
use wake_on_lan.Base.{
  ℕ, zero, suc, ◌+◌, ◌-◌, ◌*◌, ◌/◌, ◌%◌, ◌^◌, Bool, true, false, not, Option, none, some, List, [],
  ◌∷◌, ◌++◌, ◌>>=◌, length, take, drop, replicate, copy_to, ltb, leb, ◌==◌, if◌then◌else◌,
}
use wake_on_lan.Md5.Rounds.{Regs, word_mod, process_blocks}
use Prim.Native.Nat.{bit_or}

-- `struct md5_ctx`
pub record Ctx : Type 0 where
  pub regs : Regs
  pub total_0 : ℕ
  pub total_1 : ℕ
  pub buflen : ℕ
  pub buffer : List ℕ

-- `fillbuf`
abbrev pub fillbuf : List ℕ
fillbuf = 0x80 ∷ replicate 63 0

abbrev pub init_regs : Regs
init_regs = record { a = 0x67452301; b = 0xefcdab89; c = 0x98badcfe; d = 0x10325476 }

-- The buffer keeps what it holds.
unfoldable pub md5_init_ctx : List ℕ → Ctx
md5_init_ctx buffer = record {
  regs = init_regs;
  total_0 = 0;
  total_1 = 0;
  buflen = 0;
  buffer = buffer;
}

-- `ctx->total[0] += n; if (ctx->total[0] < n) ++ctx->total[1];`
unfoldable pub count : ℕ → Ctx → Ctx
count n ctx =
    let total = (ctx.total_0 + n) % word_mod in
    record ctx {
      total_0 = total;
      total_1 = if ltb total n then (ctx.total_1 + 1) % word_mod else ctx.total_1;
    }

-- `len` bytes of the data. The loop runs while less than `len / 4` words are taken.
unfoldable pub md5_process_block : List ℕ → ℕ → Ctx → Ctx
md5_process_block bytes len ctx =
    let rounds = (len / 4 + 15) / 16 in
    record (count len ctx) { regs = process_blocks rounds bytes ctx.regs }

-- The bytes that a store of a word leaves.
abbrev pub word_bytes : ℕ → List ℕ
word_bytes v = v % 256 ∷ v / 256 % 256 ∷ v / 65536 % 256 ∷ v / 16777216 % 256 ∷ []

unfoldable pub md5_read_ctx : Ctx → List ℕ
md5_read_ctx ctx =
    word_bytes ctx.regs.a
    ++ (word_bytes ctx.regs.b ++ (word_bytes ctx.regs.c ++ word_bytes ctx.regs.d))

-- `bytes >= 56 ? 64 + 56 - bytes : 56 - bytes`, in an unsigned int of 32 bits.
abbrev pub padding : ℕ → ℕ
padding bytes = if leb 56 bytes then (2 ^ 32 + 64 + 56 - bytes) % 2 ^ 32 else 56 - bytes

unfoldable pub md5_finish_ctx : Ctx → Option (List ℕ)
md5_finish_ctx ctx = do
  let bytes = ctx.buflen
  let counted = count bytes ctx
  let pad = padding bytes
  padded ← copy_to ctx.buffer bytes (take pad fillbuf)
  low ← copy_to padded (bytes + pad) (word_bytes (counted.total_0 * 8 % word_mod))
  high ←
      copy_to low (bytes + pad + 4)
        (word_bytes (bit_or (counted.total_1 * 8 % word_mod) (counted.total_0 / 2 ^ 29)))
  let last = md5_process_block high (bytes + pad + 8) (record counted { buffer = high })
  some (md5_read_ctx last)

-- Behind `buflen` more than 64: the whole blocks of the buffer are taken, and the rest moves down.
unfoldable pub flush : ℕ → Ctx → Option Ctx
flush filled ctx = do
  let taken = md5_process_block ctx.buffer (ctx.buflen / 64 * 64) ctx
  let left = ctx.buflen % 64
  moved ← copy_to taken.buffer 0 (take left (drop (filled / 64 * 64) taken.buffer))
  some (record taken { buflen = left; buffer = moved })

-- `128 - left_over > len ? len : 128 - left_over`, in a size_t of 64 bits.
unfoldable pub room : ℕ → ℕ → ℕ
room left_over len =
    let free = (2 ^ 64 + 128 - left_over) % 2 ^ 64 in if ltb len free then len else free

-- The first part of `md5_process_bytes`, behind its test: `add` bytes fill the buffer up.
unfoldable pub fill_up : ℕ → List ℕ → Ctx → Option (ℕ × Ctx)
fill_up add bytes ctx = do
  let left_over = ctx.buflen
  buffer ← copy_to ctx.buffer left_over (take add bytes)
  let filled = record ctx { buflen = (left_over + add) % word_mod; buffer = buffer }
  flushed ← if ltb 64 filled.buflen then flush (left_over + add) filled else some filled
  some (add, flushed)

-- The first part. It gives the number of the bytes taken.
unfoldable pub top_up : List ℕ → Ctx → Option (ℕ × Ctx)
top_up bytes ctx =
    if ctx.buflen == 0 then some (0, ctx) else fill_up (room ctx.buflen (length bytes)) bytes ctx

-- `while (len > 64)`, over data that is not aligned, with the rounds that are left.
unfoldable pub copy_blocks : ℕ → List ℕ → Ctx → Option (List ℕ × Ctx)
copy_blocks zero bytes ctx = if ltb 64 (length bytes) then none else some (bytes, ctx)
copy_blocks (suc n) bytes ctx =
    let round : Option (List ℕ × Ctx) = (do
      buffer ← copy_to ctx.buffer 0 (take 64 bytes)
      copy_blocks n (drop 64 bytes)
          (md5_process_block buffer 64 (record ctx { buffer = buffer }))) in
    if ltb 64 (length bytes) then round else some (bytes, ctx)

-- The second part, which takes whole blocks.
unfoldable pub take_blocks : Bool → List ℕ → Ctx → Option (List ℕ × Ctx)
take_blocks unaligned bytes ctx =
    let len = length bytes in
    if leb 64 len
    then if unaligned
      then copy_blocks (len / 64) bytes ctx
      else some (drop (len / 64 * 64) bytes, md5_process_block bytes (len / 64 * 64) ctx)
    else some (bytes, ctx)

-- The third part, which keeps what is left in the buffer.
unfoldable pub keep_rest : List ℕ → Ctx → Option Ctx
keep_rest bytes ctx =
    let len = length bytes in
    if ltb 0 len
    then (do
      buffer ← copy_to ctx.buffer ctx.buflen bytes
      let kept = record ctx { buffer = buffer }
      let left_over = ctx.buflen + len
      if leb 64 left_over
          then (do
            let taken = md5_process_block buffer 64 kept
            moved ← copy_to taken.buffer 0 (take (left_over - 64) (drop 64 taken.buffer))
            some (record taken { buflen = (left_over - 64) % word_mod; buffer = moved }))
          else some (record kept { buflen = left_over % word_mod }))
    else some ctx

-- `UNALIGNED_P`, of an address
abbrev pub is_unaligned : ℕ → Bool
is_unaligned address = not (address % 4 == 0)

-- The bytes stand at an address.
unfoldable pub md5_process_bytes : ℕ → List ℕ → Ctx → Option Ctx
md5_process_bytes address bytes ctx = do
  (add, filled) ← top_up bytes ctx
  (rest, taken) ← take_blocks (is_unaligned (address + add)) (drop add bytes) filled
  keep_rest rest taken

-- The local context's buffer is indeterminate at first.
unfoldable pub md5_buffer : List ℕ → ℕ → List ℕ → Option (List ℕ)
md5_buffer stack address bytes = do
  ctx ← md5_process_bytes address bytes (md5_init_ctx stack)
  md5_finish_ctx ctx
