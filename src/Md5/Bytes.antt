-- ===== src/Md5/Bytes.antt =====
-- `md5_process_bytes`: the state that has absorbed a message absorbs the bytes too.
use wake_on_lan.Base.{
  le_of_leb, ℕ, ◌+◌, ◌-◌, ◌%◌, ◌≤◌, ◌<◌, ◌≡◌, refl, sym, ap, ◌∙◌, Bool, true, false, Bool-cases,
  inl, inr, some, List, [], ◌∷◌, ◌++◌, length, length-drop, take, drop, copy_to, copy_to-append,
  append_assoc, append-nil, ltb, leb, arith,
}
use wake_on_lan.Md5
use wake_on_lan.Md5.{
  Ctx, md5_process_block, top_up, copy_blocks, take_blocks, keep_rest, md5_process_bytes,
  is_unaligned,
}
use wake_on_lan.Md5.Rounds.{word_mod}
use wake_on_lan.Md5.Absorbed.{Absorbed}
use wake_on_lan.Md5.Filling.{Taken-rebuffer, settles}
use wake_on_lan.Md5.Filled.{top_up-Step}
use wake_on_lan.Md5.Taking.{Clear, Clear-Absorbed, Absorbed-Clear, take_blocks-Takes, nil_of_length}

-- What is kept of a block.
module _ (msg bytes block : List ℕ) (c : Ctx)
    (stored : copy_to c.buffer c.buflen bytes ≡ some block) where
  keep_block :
      (moved : List ℕ)
      → ltb 0 (length bytes) ≡ true
      → leb 64 (c.buflen + length bytes) ≡ true
      → (c.buflen + length bytes - 64) % word_mod ≡ c.buflen + length bytes - 64
      → copy_to block 0 (take (c.buflen + length bytes - 64) (drop 64 block)) ≡ some moved
      → keep_rest bytes c
        ≡ some (record (md5_process_block block 64 (record c { buffer = block })) {
          buflen = c.buflen + length bytes - 64;
          buffer = moved;
        })
  unfolding keep_rest md5_process_block Md5.count
  keep_block moved some_left e cut moves = rw (some_left, stored, e, moves, cut)

  keep_short :
      ltb 0 (length bytes) ≡ true
      → leb 64 (c.buflen + length bytes) ≡ false
      → (c.buflen + length bytes) % word_mod ≡ c.buflen + length bytes
      → keep_rest bytes c ≡ some (record c { buflen = c.buflen + length bytes; buffer = block })
  unfolding keep_rest
  keep_short some_left e cut = rw (some_left, stored, e, cut)

keep_rest-Absorbed :
    (msg bytes : List ℕ) (c : Ctx)
    → Clear msg c
    → length bytes ≤ 64
    → (c' : Ctx) × (keep_rest bytes c ≡ some c') × Absorbed (msg ++ bytes) c'
unfolding keep_rest
keep_rest-Absorbed msg [] c k h = (c, refl, rw (append-nil msg) (Clear-Absorbed msg c k))
keep_rest-Absorbed msg (x ∷ xs) c k h =
    let bytes = x ∷ xs in
    let len = c.buflen + length bytes in
    let tail = drop (length bytes) c.buffer in
    let block = bytes ++ tail in
    let stored : copy_to c.buffer c.buflen bytes ≡ some block =
      copy_to-append [] c.buffer bytes c.buflen k.empty (omega (arith, k.size)) in
    let sum : length bytes + length tail ≡ 128 =
      omega (arith, length-drop (length bytes) c.buffer, k.size) in
    let some_left : ltb 0 (length bytes) ≡ true = ground arith in
    let kept = record c { buffer = block } in
    let t = Taken-rebuffer msg c c.buflen block k.taken in
    elim (Bool-cases (leb 64 len)) [
      | inl e ↦
          let s =
            settles msg bytes tail 1 64 (len - 64) kept t refl sum refl
              (ground (arith, k.empty, le_of_leb 64 len e)) (omega (arith, k.empty)) in
          (
            _,
            keep_block msg bytes block c stored s.block some_left e (omega (arith, k.empty))
                s.moves,
            s.now,
          )
      | inr e ↦ (
        _,
        keep_short msg bytes block c stored some_left e (omega (arith, k.empty)),
        record {
          front = msg;
          rest = bytes;
          tail = tail;
          whole = refl;
          taken = Taken-rebuffer msg c len block k.taken;
          filled = omega (arith, k.empty);
          held = refl;
          room = sum;
          small = h;
        },
      )
    ]

take_nothing : (unaligned : Bool) (c : Ctx) → take_blocks unaligned [] c ≡ some ([], c)
unfolding take_blocks
take_nothing unaligned c = refl

keep_nothing : (c : Ctx) → keep_rest [] c ≡ some c
unfolding keep_rest
keep_nothing c = refl

process_bytes_runs :
    (address add : ℕ) (bytes left : List ℕ) (c c1 c2 c3 : Ctx)
    → top_up bytes c ≡ some (add, c1)
    → take_blocks (is_unaligned (address + add)) (drop add bytes) c1 ≡ some (left, c2)
    → keep_rest left c2 ≡ some c3
    → md5_process_bytes address bytes c ≡ some c3
unfolding md5_process_bytes
process_bytes_runs address add bytes left c c1 c2 c3 p q r = rw (p, q, r)

-- On a context that has absorbed a message, md5_process_bytes returns for bytes at any address, makes
-- no store outside the buffer, and leaves a context that has absorbed the message and the bytes.
pub process_bytes-Absorbed :
    (address : ℕ) (msg bytes : List ℕ) (c : Ctx)
    → Absorbed msg c
    → length bytes < word_mod
    → (c' : Ctx) × (md5_process_bytes address bytes c ≡ some c') × Absorbed (msg ++ bytes) c'
process_bytes-Absorbed address msg bytes c a small =
    let (add, c1, runs1, s) = top_up-Step msg bytes c a in
    let unaligned = is_unaligned (address + add) in
    elim s.clear [
      | inl e ↦
          let nothing = nil_of_length (drop add bytes) e in
          let all : s.taken ≡ bytes =
            sym (s.split ∙ (ap (λ (l : List ℕ). s.taken ++ l) nothing ∙ append-nil s.taken)) in
          (
            c1,
            process_bytes_runs address add bytes [] c c1 c1 c1 runs1
                (ap (λ (l : List ℕ). take_blocks unaligned l c1) nothing
                  ∙ take_nothing unaligned c1)
                (keep_nothing c1),
            rw all at s.now,
          )
      | inr e ↦
          let k = Absorbed-Clear (msg ++ s.taken) c1 s.now e in
          let t =
            take_blocks-Takes unaligned (msg ++ s.taken) (drop add bytes) c1 k
              (omega (arith, length-drop add bytes)) in
          let (c3, keeps, now) =
            keep_rest-Absorbed ((msg ++ s.taken) ++ t.taken) t.left t.ctx t.now t.short in
          let whole : ((msg ++ s.taken) ++ t.taken) ++ t.left ≡ msg ++ bytes =
            append_assoc (msg ++ s.taken) t.taken t.left
            ∙ (ap (λ (l : List ℕ). (msg ++ s.taken) ++ l) (sym t.split)
                ∙ (append_assoc msg s.taken (drop add bytes)
                    ∙ ap (λ (l : List ℕ). msg ++ l) (sym s.split))) in
          (
            c3,
            process_bytes_runs address add bytes t.left c c1 t.ctx c3 runs1 t.runs keeps,
            rw whole at now,
          )
    ]
