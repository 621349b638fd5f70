-- ===== src/Getline/Fits.antt =====
-- The block of `getstr` in lib/getstr.c, from an offset of 0: what fits in it, and the stores at its
-- end.
use wake_on_lan.Base.{
  ℕ, ◌+◌, ◌-◌, ◌%◌, ◌^◌, ◌<◌, ◌≤◌, ◌≡◌, ◌≢◌, refl, sym, ◌∙◌, ap, ◌⊎◌, inl, inr, true, false, none,
  some, List, [], ◌∷◌, ◌++◌, append_assoc, length, length-append, store, store-append, arith, ◌==◌,
  Bool-cases, Option-cases,
}
use wake_on_lan.Getline.{
  Bytes, Memory, Room, Got, eof, got, grown, terminate, partial_line, make_room, asserts, is_scarce,
  int_bits, size_minus, size_of_int,
}

-- A heap on which no block is refused.
pub record IsPlenty (mem : Memory) : Type 0 where
  pub malloc_gives : (n : ℕ) → (b : List ℕ) × (mem.malloc n ≡ some b)
  pub realloc_gives : (old : List ℕ) (n : ℕ) → (b : List ℕ) × (mem.realloc old n ≡ some b)

-- What was read stands at the beginning; the counts fit the block, and its size fits an int.
pub record Fits (ws : List ℕ) (r : Room) : Type 0 where
  pub free : List ℕ
  pub whole : r.block ≡ ws ++ free
  pub at : r.pos ≡ length ws
  pub count : length free ≡ r.avail
  pub size : r.n ≡ r.avail + r.pos
  pub narrow : r.n < 2 ^ 31

-- The call returns the characters read, as a string at the block's beginning.
pub record Returns (ws : List ℕ) (st : Bytes) (result : Got) : Type 0 where
  pub block : List ℕ
  pub n : ℕ
  pub tail : List ℕ
  pub is_got : result ≡ got (length ws) block n st
  pub holds : block ≡ ws ++ (0 ∷ tail)
  pub fits : length block ≡ n

-- -1, with the block and its size.
pub record IsEof (st : Bytes) (result : Got) : Type 0 where
  pub block : List ℕ
  pub n : ℕ
  pub is_eof : result ≡ eof (some block) n st
  pub fits : length block ≡ n
  pub narrow : n < 2 ^ 31

pub Fits-assertion : (ws : List ℕ) (r : Room) → Fits ws r → asserts r ≡ true
Fits-assertion ws r f = let small = f.narrow in ground (arith, f.size)

-- Fewer characters than make the block's size leave an int.
abbrev pub IsShort : List ℕ → Type 0
IsShort ws = length ws + 1 < 2 ^ 30

module _ (mem : Memory) where
  -- The block is large enough, or the request for a larger one is refused.
  pub make_room_result :
      (ws : List ℕ) (r : Room)
      → Fits ws r
      → IsShort ws
      → ((make_room mem r ≡ none) × (mem.realloc r.block (grown r.n) ≡ none))
        ⊎ ((r' : Room) × (make_room mem r ≡ some r') × Fits ws r' × (2 ≤ r'.avail))
  unfolding make_room
  make_room_result ws r f short = elim (Bool-cases (is_scarce r.avail)) [
    | inr e ↦ inr (r, rw e, f, ground arith)
    | inl e ↦ elim (Option-cases (mem.realloc r.block (grown r.n))) [
      | inl k ↦ inl (simp (e, k), k)
      | inr (b, k) ↦
          let size = f.size in
          let small = f.narrow in
          let scarce : r.avail < 2 = ground arith in
          let larger : r.n + 2 ≤ grown r.n = ground arith in
          let bounded : grown r.n < 2 ^ 31 = ground (arith, f.at) in
          let avail : int_bits (size_minus (grown r.n) r.pos) ≡ grown r.n - r.pos = omega arith in
          let pos : size_minus (grown r.n) (size_of_int (grown r.n - r.pos)) ≡ r.pos =
            ground arith in
          let inside : length r.block ≤ grown r.n =
            omega (
              arith,
              ap (length {A = ℕ}) f.whole,
              length-append ws f.free,
              f.count,
              f.size,
              f.at,
            ) in
          let (extra, whole, size) = mem.realloc_keeps r.block (grown r.n) b inside k in
          let kept : b ≡ ws ++ (f.free ++ extra) =
            whole ∙ rw (f.whole, append_assoc ws f.free extra) in
          let r' : Room = record r { block = b; n = grown r.n; avail = grown r.n - r.pos } in
          inr (
            r',
            simp (e, k, avail, pos),
            record {
              free = f.free ++ extra;
              whole = kept;
              at = f.at;
              count = omega (
                arith,
                size,
                ap (length {A = ℕ}) kept,
                length-append ws (f.free ++ extra),
                f.at,
                f.size,
                larger,
              );
              size = omega (arith, f.size, larger);
              narrow = bounded;
            },
            omega (arith, f.size, larger),
          )
    ]
  ]

module _ (mem : Memory) (plenty : IsPlenty mem) where
  pub make_room-Fits :
      (ws : List ℕ) (r : Room)
      → Fits ws r
      → IsShort ws
      → (r' : Room) × (make_room mem r ≡ some r') × Fits ws r' × (2 ≤ r'.avail)
  make_room-Fits ws r f short = elim (make_room_result mem ws r f short) [
    | inr found ↦ found
    | inl (e, k) ↦ let (b, j) = plenty.realloc_gives r.block (grown r.n) in absurd (cc)
  ]

-- A store of the next character.
pub store-Fits :
    (ws : List ℕ) (r : Room) (c : ℕ)
    → Fits ws r
    → 2 ≤ r.avail
    → (b : List ℕ) × (store r.block r.pos c ≡ some b)
      × Fits
          (ws ++ (c ∷ []))
          (record { block = b; n = r.n; avail = (r.avail + 2 ^ 32 - 1) % 2 ^ 32; pos = r.pos + 1 })
store-Fits ws r c f lt = go f.free f.whole f.count
  where
    go :
        (free : List ℕ)
        → r.block ≡ ws ++ free
        → length free ≡ r.avail
        → (b : List ℕ) × (store r.block r.pos c ≡ some b)
          × Fits (ws ++ (c ∷ [])) (record {
            block = b;
            n = r.n;
            avail = (r.avail + 2 ^ 32 - 1) % 2 ^ 32;
            pos = r.pos + 1;
          })
    go [] e k = absurd (omega arith)
    go (y ∷ free) e k = (
      ws ++ (c ∷ free),
      rw (e, f.at) (store-append ws free y c),
      record {
        free = free;
        whole = sym (append_assoc ws (c ∷ []) free);
        at = omega (arith, f.at, length-append ws (c ∷ []));
        count = omega (arith, f.size, f.narrow);
        size = omega (arith, f.size, f.narrow);
        narrow = f.narrow;
      },
    )

pub terminate-Returns :
    (ws : List ℕ) (r : Room) (st : Bytes)
    → Fits ws r
    → 1 ≤ r.avail
    → Returns ws st (terminate 0 r st)
unfolding terminate
terminate-Returns ws r st f lt = go f.free f.whole f.count
  where
    go :
        (free : List ℕ)
        → r.block ≡ ws ++ free
        → length free ≡ r.avail
        → Returns ws st (terminate 0 r st)
    go [] e k = absurd (omega arith)
    go (y ∷ free) e k =
        let stored : store r.block r.pos 0 ≡ some (ws ++ (0 ∷ free)) =
          rw (e, f.at) (store-append ws free y 0) in
        let same : int_bits (r.pos - 0) ≡ length ws = omega (arith, f.at, f.size, f.narrow) in
        record {
          block = ws ++ (0 ∷ free);
          n = r.n;
          tail = free;
          is_got = rw (stored, terminate) (rw same);
          holds = refl;
          fits = omega (arith, length-append ws (0 ∷ free), f.size, f.at);
        }

pub at_end :
    (ws : List ℕ) (r : Room) (st : Bytes)
    → Fits ws r
    → 1 ≤ r.avail
    → ((ws ≡ []) × IsEof st (partial_line 0 r st))
      ⊎ ((ws ≢ []) × Returns ws st (partial_line 0 r st))
unfolding partial_line
at_end [] r st f lt =
    let none_read : r.pos ≡ 0 = f.at in
    let same : partial_line 0 r st ≡ eof (some r.block) r.n st = ground arith in
    inl (
      refl,
      record {
        block = r.block;
        n = r.n;
        is_eof = same;
        fits = omega (arith, ap (length {A = ℕ}) f.whole, f.count, f.size, f.at);
        narrow = f.narrow;
      },
    )
at_end (c ∷ ws) r st f lt =
    let some_read : (r.pos == 0) ≡ false = ground (arith, f.at) in
    let same : partial_line 0 r st ≡ terminate 0 r st = simp (some_read) in
    inr ((λ e. cc), rw same (terminate-Returns (c ∷ ws) r st f lt))
