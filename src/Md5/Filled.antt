-- ===== src/Md5/Filled.antt =====
-- The first part of `md5_process_bytes`: behind it nothing is left to take, or nothing is buffered.
use wake_on_lan.Base.{
  le_of_ltb, ℕ, ◌+◌, ◌%◌, ◌≤◌, ◌≡◌, ◌⊎◌, refl, sym, ap, ◌∙◌, Bool-cases, inl, inr, some, List, [],
  ◌++◌, length, length-append, length-take, length-drop, take, drop, take-drop, copy_to,
  copy_to-append, append_assoc, append-nil, ltb, ◌==◌, arith,
}
use wake_on_lan.Md5.{Ctx, room, fill_up, top_up}
use wake_on_lan.Md5.Rounds.{word_mod}
use wake_on_lan.Md5.Absorbed.{Absorbed}
use wake_on_lan.Md5.Filling.{
  room_lem, Taken-rebuffer, fill_up_short, Step, flush-Absorbed, fill_up_full,
}

fill_up-Step :
    (msg bytes : List ℕ) (add : ℕ) (c : Ctx)
    → Absorbed msg c
    → add ≤ length bytes
    → c.buflen + add ≤ 128
    → (add ≡ length bytes) ⊎ (c.buflen + add ≡ 128)
    → (c' : Ctx) × (fill_up add bytes c ≡ some (add, c')) × Step msg bytes (drop add bytes) c'
fill_up-Step msg bytes add c a fits within full =
    let taken = take add bytes in
    let content = a.rest ++ taken in
    let tail = drop (length taken) a.tail in
    let size = length-take add bytes fits in
    let block = content ++ tail in
    let stored : copy_to c.buffer c.buflen taken ≡ some block =
      ap (λ (b : List ℕ). copy_to b c.buflen taken) a.held
      ∙ (copy_to-append a.rest a.tail taken c.buflen a.filled
            (omega (arith, a.filled, a.room, size))
          ∙ ap some (sym (append_assoc a.rest taken tail))) in
    let cut : (c.buflen + add) % word_mod ≡ c.buflen + add = omega arith in
    let long : length content ≡ c.buflen + add =
      omega (arith, length-append a.rest taken, size, a.filled) in
    let sum : length content + length tail ≡ 128 =
      omega (arith, long, length-drop (length taken) a.tail, size, a.room, a.filled) in
    let c1 = record c { buflen = c.buflen + add; buffer = block } in
    let t1 = Taken-rebuffer a.front c (c.buflen + add) block a.taken in
    let whole : a.front ++ content ≡ msg ++ taken =
      sym (append_assoc a.front a.rest taken) ∙ ap (λ (l : List ℕ). l ++ taken) (sym a.whole) in
    elim (Bool-cases (ltb 64 (c.buflen + add))) [
      | inl e ↦
          let (c2, flushed, now, left) =
            flush-Absorbed a.front content tail (c.buflen + add) c1 t1 refl sum (sym long) refl in
          (
            c2,
            fill_up_full add bytes block c stored cut c2 e flushed,
            record {
              taken = taken;
              split = sym (take-drop add bytes);
              now = rw (← whole) now;
              clear = omega (arith, length-drop add bytes, left, full);
            },
          )
      | inr e ↦ (
        c1,
        fill_up_short add bytes block c stored cut e,
        record {
          taken = taken;
          split = sym (take-drop add bytes);
          now = record {
            front = a.front;
            rest = content;
            tail = tail;
            whole = sym whole;
            taken = t1;
            filled = sym long;
            held = refl;
            room = sum;
            small = ground (arith, long);
          };
          clear = inl (omega (arith, length-drop add bytes, le_of_ltb 64 (c.buflen + add) e, full));
        },
      )
    ]

pub top_up-Step :
    (msg bytes : List ℕ) (c : Ctx)
    → Absorbed msg c
    → (add : ℕ) × (c' : Ctx) × (top_up bytes c ≡ some (add, c'))
      × Step msg bytes (drop add bytes) c'
unfolding top_up
top_up-Step msg bytes c a = elim (Bool-cases (c.buflen == 0)) [
  | inl e ↦ (
    0,
    c,
    rw e,
    record { taken = []; split = refl; now = rw (append-nil msg) a; clear = inr (ground arith) },
  )
  | inr e ↦
      let (fits, within, full) =
        room_lem c.buflen (length bytes) (omega (arith, a.filled, a.small)) in
      let add = room c.buflen (length bytes) in
      let (c', runs, step) = fill_up-Step msg bytes add c a fits within full in
      (add, c', rw e runs, step)
]
