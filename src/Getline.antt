-- ===== src/Getline.antt =====
-- lib/getstr.c and lib/getline.c: `getline` by single characters, with a block that grows. An int is
-- its 32 bits, of which a number of 2 ^ 31 or more stands for a negative int; size_t has 64. The
-- stream is the C library's, read by `getc`; `malloc` and `realloc` are parameters, and may fail.
pub mod Fits
pub mod Loop
pub mod Refines
pub mod Inside
use wake_on_lan.Base.{
  ℕ, zero, suc, ◌+◌, ◌-◌, ◌*◌, ◌%◌, ◌^◌, ◌≤◌, ◌≡◌, Bool, true, false, not, ◌||◌, ◌&&◌, Option, none,
  some, List, [], ◌∷◌, ◌++◌, length, store, ltb, ◌==◌, if◌then◌else◌,
}

-- The characters to come, whether they end in a read error, and the two flags.
pub record Bytes : Type 0 where
  pub bytes : List ℕ
  pub broken : Bool
  pub feof : Bool
  pub ferror : Bool

-- The stream after `getc` has returned EOF.
abbrev pub at_eof : Bytes → Bytes
at_eof st = record st { bytes = []; feof = not st.broken; ferror = st.broken }

-- A new block is of the size that was asked for; a block that is resized keeps what it held.
pub record Memory : Type 0 where
  pub malloc : ℕ → Option (List ℕ)
  pub realloc : List ℕ → ℕ → Option (List ℕ)
  pub length-malloc : (n : ℕ) (b : List ℕ) → malloc n ≡ some b → length b ≡ n
  pub realloc_keeps :
      (old : List ℕ) (n : ℕ) (b : List ℕ)
      → length old ≤ n
      → realloc old n ≡ some b
      → (extra : List ℕ) × (b ≡ old ++ extra) × (length b ≡ n)

abbrev pub min_chunk : ℕ
min_chunk = 64

-- `*lineptr`, `*n`, the bits of `nchars_avail`, and `read_pos` as an index of the block.
pub record Room : Type 0 where
  pub block : List ℕ
  pub n : ℕ
  pub avail : ℕ
  pub pos : ℕ

-- -1, with what is left in `*lineptr` and `*n`, or the bits of a count of characters. A store outside the block
-- and an assertion that fails are results of the model.
pub data Got : Type 0 where
  eof : Option (List ℕ) → ℕ → Bytes → Got
  got : ℕ → List ℕ → ℕ → Bytes → Got
  overrun : Got
  aborted : Got

abbrev pub grown : ℕ → ℕ
grown n = if ltb min_chunk n then n * 2 % 2 ^ 64 else n + min_chunk

-- The conversion of a size_t, or of a difference of pointers, to int.
abbrev pub int_bits : ℕ → ℕ
int_bits size = size % 2 ^ 32

-- The conversion of an int to size_t, which extends the sign.
abbrev pub size_of_int : ℕ → ℕ
size_of_int bits = if ltb bits (2 ^ 31) then bits else 2 ^ 64 - 2 ^ 32 + bits

-- A difference in size_t.
abbrev pub size_minus : ℕ → ℕ → ℕ
size_minus a b = (a + 2 ^ 64 - b) % 2 ^ 64

-- `*n - nchars_avail == read_pos - *lineptr`
abbrev pub asserts : Room → Bool
asserts r = size_minus r.n (size_of_int r.avail) == r.pos

-- `nchars_avail < 2`, of a signed int.
abbrev pub is_scarce : ℕ → Bool
is_scarce avail = ltb avail 2 || not (ltb avail (2 ^ 31))

-- "Done - NUL terminate and return the number of chars read."
unfoldable pub terminate : ℕ → Room → Bytes → Got
terminate offset r st = elim (store r.block r.pos 0) [
  | none ↦ overrun
  | some b ↦ got (int_bits (r.pos - offset)) b r.n st
]

-- EOF, or a stream with its error flag: a partial line, if there is any.
unfoldable pub partial_line : ℕ → Room → Bytes → Got
unfolding terminate
partial_line offset r st = if r.pos == 0 then eof (some r.block) r.n st else terminate offset r st

module _ (mem : Memory) where
  -- At least one character is left in the block after the next.
  unfoldable pub make_room : Room → Option Room
  make_room r =
      let n = grown r.n in
      let avail = int_bits (size_minus n r.pos) in
      if is_scarce r.avail
      then elim (mem.realloc r.block n) [
        | none ↦ none
        | some b ↦
            some
              (record { block = b; n = n; avail = avail; pos = size_minus n (size_of_int avail) })
      ]
      else some r

  module _ (delim1 delim2 offset : ℕ) where
    abbrev pub is_delim : ℕ → Bool
    is_delim c = c == delim1 || (not (delim2 == 0) && c == delim2)

    -- The loop, on the characters of the stream.
    unfoldable pub read_chars : List ℕ → Bytes → Room → Got
    read_chars [] st r =
        if asserts r
        then elim (make_room r) [
          | none ↦ eof none (grown r.n) (at_eof st)
          | some r' ↦ partial_line offset r' (at_eof st)
        ]
        else aborted
    read_chars (c ∷ cs) st r =
        let rest = λ (r' : Room). read_chars cs st r' in
        let left = record st { bytes = cs } in
        if asserts r
        then elim (make_room r) [
          | none ↦ eof none (grown r.n) left
          | some r' ↦
              if st.ferror then partial_line offset r' left else elim (store r'.block r'.pos c) [
                | none ↦ overrun
                | some b ↦
                    let next : Room = record {
                      block = b;
                      n = r'.n;
                      avail = (r'.avail + 2 ^ 32 - 1) % 2 ^ 32;
                      pos = r'.pos + 1;
                    } in
                    if is_delim c then terminate offset next left else rest next
              ]
        ]
        else aborted

    -- The three pointers are given, or else the call returns -1.
    unfoldable pub getstr : Bool → Option (List ℕ) → ℕ → Bytes → Got
    getstr false lineptr n st = eof lineptr n st
    getstr true (some block) n st =
        read_chars st.bytes st
          (record { block = block; n = n; avail = int_bits (size_minus n offset); pos = offset })
    getstr true none n st = elim (mem.malloc min_chunk) [
      | none ↦ eof none min_chunk st
      | some block ↦ read_chars st.bytes st (record {
        block = block;
        n = min_chunk;
        avail = int_bits (size_minus min_chunk offset);
        pos = offset;
      })
    ]

  unfoldable pub getline : Bool → Option (List ℕ) → ℕ → Bytes → Got
  getline given lineptr n st = getstr b'\n' 0 0 given lineptr n st

  unfoldable pub getdelim : ℕ → Bool → Option (List ℕ) → ℕ → Bytes → Got
  getdelim delimiter given lineptr n st = getstr delimiter 0 0 given lineptr n st
