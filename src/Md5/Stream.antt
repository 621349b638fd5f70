-- ===== src/Md5/Stream.antt =====
-- `md5_stream` of lib/md5.c. What `fread` answers is a list: the bytes of each call, and whether the
-- stream's end and its error flag are set behind it. The array is the bytes read into it so far.
use wake_on_lan.Base.{
  ℕ, ◌+◌, ◌<◌, ◌≡◌, refl, sym, ap, ◌∙◌, Bool, Bool-cases, inl, inr, true, false, Option, some, none,
  ◌>>=◌, List, [], ◌∷◌, ◌++◌, length, length-append, take, take_all, append_assoc, append-nil, ltb,
  ◌==◌, if◌then◌else◌, arith,
}
use wake_on_lan.Md5
use wake_on_lan.Md5.{Ctx, md5_init_ctx, md5_process_block, md5_process_bytes, md5_finish_ctx}
use wake_on_lan.Md5.Rfc.{rfc_md5}
use wake_on_lan.Md5.Absorbed.{init-Absorbed, process_block-Taken}
use wake_on_lan.Md5.Taking.{Clear, Absorbed-Clear, Clear-Absorbed}
use wake_on_lan.Md5.Bytes.{process_bytes-Absorbed}
use wake_on_lan.Md5.Digest.{finish_ctx-Digests}

pub record Read : Type 0 where
  pub bytes : List ℕ
  pub eof : Bool
  pub error : Bool

-- What the call returns: 0 with the digest, 1, or a store outside the context's buffer. `unread` is
-- a list of answers that is too short.
pub data Streamed : Type 0 where
  digested : List ℕ → Streamed
  failed : Streamed
  fault : Streamed
  unread : Streamed

abbrev pub block_size : ℕ
block_size = 4096

abbrev finished : Option (List ℕ) → Streamed
finished none = fault
finished (some sum) = digested sum

-- From `process_partial_block` on, with the array's address.
unfoldable pub process_partial_block : ℕ → List ℕ → Ctx → Streamed
process_partial_block address buffer ctx = finished (
    (if ltb 0 (length buffer) then md5_process_bytes address buffer ctx else some ctx)
    >>= md5_finish_ctx)

-- Both loops: behind a whole block the array is filled anew.
unfoldable pub stream_loop : ℕ → List Read → List ℕ → Ctx → Streamed
stream_loop address [] buffer ctx = unread
stream_loop address (r ∷ rs) buffer ctx =
    let filled = buffer ++ r.bytes in
    let next_block = stream_loop address rs [] (md5_process_block filled block_size ctx) in
    let next_read = stream_loop address rs filled ctx in
    if length filled == block_size
    then next_block
    else if length r.bytes == 0
    then if r.error then failed else process_partial_block address filled ctx
    else if r.eof
    then process_partial_block address filled ctx
    else next_read

unfoldable pub md5_stream : List ℕ → ℕ → List Read → Streamed
md5_stream stack address reads = stream_loop address reads [] (md5_init_ctx stack)

-- What a stream gives, with the room that is left in the array: the bytes up to its end, and whether
-- that is an error. `fread` gives no more than it is asked for.
pub data Gives : ℕ → List Read → List ℕ → Bool → Type 0 where
  ended :
      {room : ℕ} {all : List ℕ} (r : Read) (rs : List Read)
      → 0 < room
      → r.bytes ≡ []
      → all ≡ []
      → Gives room (r ∷ rs) all r.error
  last :
      {room : ℕ} {all : List ℕ} {broke : Bool} (r : Read) (rs : List Read)
      → 0 < length r.bytes
      → length r.bytes < room
      → r.eof ≡ true
      → all ≡ r.bytes
      → broke ≡ false
      → Gives room (r ∷ rs) all broke
  more :
      {room : ℕ} {all : List ℕ} {broke : Bool} (r : Read) (rs : List Read) (left : ℕ)
      (later : List ℕ)
      → 0 < length r.bytes
      → 0 < left
      → room ≡ length r.bytes + left
      → r.eof ≡ false
      → Gives left rs later broke
      → all ≡ r.bytes ++ later
      → Gives room (r ∷ rs) all broke
  whole :
      {room : ℕ} {all : List ℕ} {broke : Bool} (r : Read) (rs : List Read) (later : List ℕ)
      → 0 < room
      → length r.bytes ≡ room
      → Gives block_size rs later broke
      → all ≡ r.bytes ++ later
      → Gives room (r ∷ rs) all broke

abbrev pub result : List ℕ → Bool → Streamed
result all broke = if broke then failed else digested (rfc_md5 all)

partial-digested :
    (address : ℕ) (msg buffer : List ℕ) (c : Ctx)
    → Clear msg c
    → length buffer < block_size
    → process_partial_block address buffer c ≡ digested (rfc_md5 (msg ++ buffer))
unfolding process_partial_block
partial-digested address msg [] c k h =
    rw (finish_ctx-Digests msg c (Clear-Absorbed msg c k), append-nil msg)
partial-digested address msg (x ∷ xs) c k h =
    let some_left : ltb 0 (length (x ∷ xs)) ≡ true = ground arith in
    let (c', runs, a) =
      process_bytes-Absorbed address msg (x ∷ xs) c (Clear-Absorbed msg c k) (omega arith) in
    rw (some_left, runs, finish_ctx-Digests (msg ++ (x ∷ xs)) c' a)

block-Clear :
    (msg block : List ℕ) (c : Ctx)
    → Clear msg c
    → length block ≡ block_size
    → Clear (msg ++ block) (md5_process_block block block_size c)
unfolding md5_process_block Md5.count
block-Clear msg block c k h =
    let all : take block_size block ≡ block = take_all block_size block (omega (arith, h)) in
    record {
      taken = rw all at (
          process_block-Taken msg block 64 block_size c k.taken refl (omega (arith, h))
            (omega arith));
      empty = k.empty;
      size = k.size;
    }

loop-gives :
    (address room : ℕ) (msg buffer : List ℕ) (reads : List Read) (all : List ℕ) (broke : Bool)
    (c : Ctx)
    → Clear msg c
    → length buffer + room ≡ block_size
    → Gives room reads all broke
    → stream_loop address reads buffer c ≡ result (msg ++ (buffer ++ all)) broke
unfolding stream_loop
loop-gives address room msg buffer reads all broke c k h (ended r rs some_room e f) =
    let size = length-append buffer r.bytes in
    let no_bytes : length r.bytes ≡ 0 = ap length e in
    let short : (length (buffer ++ r.bytes) == block_size) ≡ false = ground (arith, size) in
    let stop : (length r.bytes == 0) ≡ true = ground arith in
    let digest =
      partial-digested address msg (buffer ++ r.bytes) c k (omega (arith, size))
      ∙ ap (λ (l : List ℕ). digested (rfc_md5 (msg ++ (buffer ++ l)))) (e ∙ sym f) in
    elim (Bool-cases r.error) [
      | inl broken ↦ rw (short, stop, broken)
      | inr fine ↦ rw (short, stop, fine) digest
    ]
loop-gives address room msg buffer reads all broke c k h (last r rs some_read within at_end e f) =
    let size = length-append buffer r.bytes in
    let short : (length (buffer ++ r.bytes) == block_size) ≡ false = ground (arith, size) in
    let going : (length r.bytes == 0) ≡ false = ground arith in
    let digest =
      partial-digested address msg (buffer ++ r.bytes) c k (omega (arith, size))
      ∙ ap (λ (l : List ℕ). digested (rfc_md5 (msg ++ (buffer ++ l)))) (sym e) in
    rw (short, going, at_end, f) digest
loop-gives address room msg buffer reads all broke c k h
      (more r rs left later some_read some_left e goes g f) =
    let size = length-append buffer r.bytes in
    let short : (length (buffer ++ r.bytes) == block_size) ≡ false = ground (arith, size) in
    let going : (length r.bytes == 0) ≡ false = ground arith in
    let ih =
      loop-gives address left msg (buffer ++ r.bytes) rs later broke c k (omega (arith, size)) g in
    rw (short, going, goes)
      (ih
        ∙ ap (λ (l : List ℕ). result (msg ++ l) broke)
            (append_assoc buffer r.bytes later ∙ ap (λ (l : List ℕ). buffer ++ l) (sym f)))
loop-gives address room msg buffer reads all broke c k h (whole r rs later some_room full g f) =
    let size = length-append buffer r.bytes in
    let filled : length (buffer ++ r.bytes) ≡ block_size = omega (arith, size) in
    let test : (length (buffer ++ r.bytes) == block_size) ≡ true = ground arith in
    let k' = block-Clear msg (buffer ++ r.bytes) c k filled in
    let ih =
      loop-gives address block_size (msg ++ (buffer ++ r.bytes)) [] rs later broke _ k' refl g in
    rw test (
      ih
      ∙ ap (λ (l : List ℕ). result l broke)
          (append_assoc msg (buffer ++ r.bytes) later
            ∙ ap (λ (l : List ℕ). msg ++ l)
                (append_assoc buffer r.bytes later ∙ ap (λ (l : List ℕ). buffer ++ l) (sym f))))

-- md5_stream, on a stream that `fread` reads in parts of any sizes, each no longer than was asked for:
-- it returns 1 where the stream ends in an error, and else 0 with the digest that RFC 1321 gives for
-- all of the stream's bytes; no store misses a buffer.
pub stream-Digests :
    (stack : List ℕ) (address : ℕ) (reads : List Read) (all : List ℕ) (broke : Bool)
    → length stack ≡ 128
    → Gives block_size reads all broke
    → md5_stream stack address reads ≡ result all broke
unfolding md5_stream md5_init_ctx
stream-Digests stack address reads all broke h g =
    loop-gives address block_size [] [] reads all broke (md5_init_ctx stack)
      (Absorbed-Clear [] (md5_init_ctx stack) (init-Absorbed stack h) refl) refl g
