-- ===== src/Md5/Digest.antt =====
-- `md5_finish_ctx` and `md5_buffer`: the digest is that of RFC 1321.
use Prim.Native.Nat.{bit_or}
use wake_on_lan.Base.{
  ℕ, suc, ◌+◌, ◌-◌, ◌*◌, ◌/◌, ◌%◌, ◌^◌, ◌≤◌, ◌<◌, ◌≡◌, refl, sym, ap, ◌∙◌, some, List, [], ◌∷◌,
  ◌++◌, length, length-append, length-replicate, take, take-append, take_all, replicate, copy_to,
  arith,
}
use mathlib.Core.Path.{ap₂}
use wake_on_lan.Md5
use wake_on_lan.Md5.{
  Ctx, count, fillbuf, padding, word_bytes, md5_read_ctx, md5_process_block, md5_finish_ctx,
  md5_process_bytes, md5_init_ctx, md5_buffer,
}
use wake_on_lan.Md5.Rounds.{word_mod}
use wake_on_lan.Md5.Rfc.{low_bytes, pad, absorb, rfc_init, rfc_md5}
use wake_on_lan.Md5.Absorbed.{Taken, Absorbed, count_lem, process_block-Taken, init-Absorbed}
use wake_on_lan.Md5.Bytes.{process_bytes-Absorbed}
use wake_on_lan.Md5.Padding.{
  copy_eq, count-regs, fill_lem, high_word, length-low_bytes, low_word, md5_read_ctx_lem, output,
  padding_lem, regroup, stores, word_bytes_lem,
}

finish_runs :
    (c : Ctx) (x y z : List ℕ)
    → (let b = c.buflen in
        let p = padding b in
        let t = count b c in
        (copy_to c.buffer b (take p fillbuf) ≡ some x)
        → (copy_to x (b + p) (word_bytes (t.total_0 * 8 % word_mod)) ≡ some y)
        → (copy_to y
              (b + p + 4)
              (word_bytes (bit_or (t.total_1 * 8 % word_mod) (t.total_0 / 2 ^ 29)))
            ≡ some z)
        → md5_finish_ctx c
          ≡ some (md5_read_ctx (md5_process_block z (b + p + 8) (record t { buffer = z }))))
unfolding md5_finish_ctx
finish_runs c x y z e f g = rw (e, f, g)

-- The last blocks of a message: what is buffered, and the padding.
last-Taken :
    (front content junk : List ℕ) (n : ℕ) (c t : Ctx)
    → Taken front c
    → t.regs ≡ c.regs
    → n ≡ length content
    → n % 64 ≡ 0
    → n ≤ 128
    → (let r = (md5_process_block (content ++ junk) n t).regs in
        r ≡ absorb (length (front ++ content) / 64) (front ++ content) rfc_init)
unfolding md5_process_block
last-Taken front content junk n c t k same e m fits =
    let bytes = content ++ junk in
    let exact : take n bytes ≡ content =
      take-append n content junk (omega arith) ∙ take_all n content (omega arith) in
    let d =
      process_block-Taken front bytes (n / 64) n c k (omega arith)
        (omega (arith, length-append content junk)) (omega arith) in
    let whole : length (front ++ content) ≡ 64 * d.blocks =
      ap (λ (l : List ℕ). length (front ++ l)) (sym exact) ∙ d.size in
    let rounds : d.blocks ≡ length (front ++ content) / 64 = omega (arith, whole) in
    ap (λ r. Md5.process_blocks ((n / 4 + 15) / 16) bytes r) same
    ∙ (d.absorbed ∙ ap₂ (λ k (l : List ℕ). absorb k (front ++ l) rfc_init) rounds exact)

digest_of :
    (last : Ctx) (xs ys : List ℕ)
    → last.regs ≡ absorb (length xs / 64) xs rfc_init
    → xs ≡ ys
    → md5_read_ctx last ≡ output (absorb (length ys / 64) ys rfc_init)
digest_of last xs ys e f =
    md5_read_ctx_lem last ∙ ap output (e ∙ ap (λ (l : List ℕ). absorb (length l / 64) l rfc_init) f)

pub length-rfc_md5 : (bytes : List ℕ) → length (rfc_md5 bytes) ≡ 16
unfolding rfc_md5 low_bytes
length-rfc_md5 bytes = refl

-- md5_finish_ctx, on a context that has absorbed a message, makes no store outside the buffer and
-- gives the message's digest.
pub finish_ctx-Digests :
    (msg : List ℕ) (c : Ctx) → Absorbed msg c → md5_finish_ctx c ≡ some (rfc_md5 msg)
unfolding rfc_md5 pad
finish_ctx-Digests msg c a =
    let b = c.buflen in
    let p = padding b in
    let t = count b c in
    let n = length msg in
    let total : n ≡ length a.front + b =
      ap length a.whole ∙ omega (arith, length-append a.front a.rest, a.filled) in
    let (low, high) =
      count_lem (length a.front) b c (omega (arith, a.filled, a.small)) a.taken.low a.taken.high in
    let z = (119 - n % 64) % 64 in
    let pads : p ≡ suc z =
      padding_lem b n (omega (arith, a.filled, a.small)) (omega (arith, total, a.taken.size)) in
    let zeros : List ℕ = 0x80 ∷ replicate z 0 in
    let fills : take p fillbuf ≡ zeros =
      ap (λ (k : ℕ). take k fillbuf) pads ∙ fill_lem z (omega arith) in
    let low_bits = low_bytes 4 (8 * n % word_mod) in
    let high_bits = low_bytes 4 (8 * n / word_mod % word_mod) in
    let count_zeros : length zeros ≡ p = omega (arith, length-replicate {A = ℕ} z 0, pads) in
    let (junk, s1, s2, s3) = stores a.rest zeros low_bits high_bits a.tail (
      omega (
        arith,
        count_zeros,
        length-low_bytes 4 (8 * n % word_mod),
        length-low_bytes 4 (8 * n / word_mod % word_mod),
        a.room,
        a.filled,
        a.small,
        total,
        a.taken.size,
      )) in
    let t0 : t.total_0 ≡ n % word_mod = omega (arith, low, total) in
    let t1 : t.total_1 ≡ n / word_mod % word_mod = omega (arith, high, total) in
    let bits_0 = ap word_bytes (low_word n t.total_0 t0) ∙ word_bytes_lem (8 * n % word_mod) in
    let bits_1 =
      ap word_bytes (high_word n t.total_0 t.total_1 t0 t1)
      ∙ word_bytes_lem (8 * n / word_mod % word_mod) in
    let two = length-append a.rest zeros in
    let three = length-append (a.rest ++ zeros) low_bits in
    let content = ((a.rest ++ zeros) ++ low_bits) ++ high_bits in
    let four : length content ≡ length ((a.rest ++ zeros) ++ low_bits) + length high_bits =
      length-append ((a.rest ++ zeros) ++ low_bits) high_bits in
    let l0 = length-low_bytes 4 (8 * n % word_mod) in
    let l1 = length-low_bytes 4 (8 * n / word_mod % word_mod) in
    let block = content ++ junk in
    let runs =
      finish_runs c _ _ block
        (copy_eq c.buffer (a.rest ++ a.tail) b (length a.rest) (take p fillbuf) zeros _ a.held
          a.filled fills s1)
        (copy_eq _ _ (b + p) (length (a.rest ++ zeros)) _ low_bits _ refl
          (omega (arith, two, count_zeros, a.filled)) bits_0 s2)
        (copy_eq _ _ (b + p + 4) (length ((a.rest ++ zeros) ++ low_bits)) _ high_bits _ refl
          (omega (arith, two, three, l0, count_zeros, a.filled)) bits_1 s3) in
    let last = md5_process_block block (b + p + 8) (record t { buffer = block }) in
    let taken : last.regs
        ≡ absorb (length (a.front ++ content) / 64) (a.front ++ content) rfc_init =
      last-Taken a.front content junk (b + p + 8) c (record t { buffer = block }) a.taken
        (count-regs b c) (omega (arith, two, three, four, l0, l1, count_zeros, a.filled))
        (omega (arith, pads, total, a.taken.size))
        (omega (arith, pads, total, a.taken.size, a.filled, a.small)) in
    let whole : a.front ++ content ≡ msg ++ pad n =
      regroup a.front a.rest zeros low_bits high_bits
      ∙ ap (λ (l : List ℕ). l ++ pad n) (sym a.whole) in
    runs ∙ ap some (digest_of last (a.front ++ content) (msg ++ pad n) taken whole)

-- md5_buffer, on fewer than 2 ^ 32 bytes at any address, gives the digest of RFC 1321, whatever the
-- buffer of its context held at first.
pub buffer-Digests :
    (stack : List ℕ) (address : ℕ) (bytes : List ℕ)
    → length stack ≡ 128
    → length bytes < word_mod
    → md5_buffer stack address bytes ≡ some (rfc_md5 bytes)
unfolding md5_buffer
buffer-Digests stack address bytes h small =
    let (c, runs, a) =
      process_bytes-Absorbed address [] bytes (md5_init_ctx stack) (init-Absorbed stack h) small in
    rw runs (finish_ctx-Digests bytes c a)
