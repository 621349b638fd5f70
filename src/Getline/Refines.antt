-- ===== src/Getline/Refines.antt =====
-- `getline` of lib/getline.c and lib/getstr.c reads what a stream by lines gives.
use wake_on_lan.Base.{
  ℕ, ◌+◌, ◌^◌, ◌<◌, ◌≡◌, ◌≢◌, refl, ◌⊎◌, inl, inr, Bool, true, false, not, Option, none, some, List,
  [], ◌∷◌, ◌++◌, length, arith, ◌==◌, All, Text,
}
use wake_on_lan.Stream
use wake_on_lan.Stream.{Stream, Line, no_line, line}
use wake_on_lan.Getline.{
  Bytes, at_eof, Memory, min_chunk, int_bits, size_minus, Room, Got, read_chars, getstr, getline,
}
use wake_on_lan.Getline.Fits.{IsPlenty, Fits, IsShort, Returns, IsEof}
use wake_on_lan.Getline.Loop.{read_chars-line, read_chars-text}

abbrev no_newline : ℕ → Bool
no_newline c = not (c == b'\n')

-- The characters of a stream that is given by lines.
abbrev pub flat : List Text → Text → List ℕ
flat [] rest = rest
flat (s ∷ ss) rest = s ++ (b'\n' ∷ flat ss rest)

abbrev pub bytes_of : Stream → Bytes
bytes_of st = record {
  bytes = flat st.lines st.rest;
  broken = st.broken;
  feof = st.feof;
  ferror = st.ferror;
}

-- No line has a newline in it, and neither has what is behind the last.
abbrev pub IsSplit : List Text → Text → Type 0
IsSplit [] rest = All no_newline rest
IsSplit (s ∷ ss) rest = All no_newline s × IsSplit ss rest

-- No line is so long that the block's size leaves an int.
abbrev pub AreShort : List Text → Text → Type 0
AreShort [] rest = IsShort rest
AreShort (s ∷ ss) rest = IsShort s × AreShort ss rest

-- The same characters, count and stream, in a block of the size that is given back.
abbrev pub Agrees : Line → Got → Type 0
Agrees (no_line st) result = IsEof (bytes_of st) result
Agrees (line s st) result = Returns s (bytes_of st) result

-- No block, or one whose size is as given, and fits an int.
abbrev pub IsBuffer : Option (List ℕ) → ℕ → Type 0
IsBuffer none n = Unit {0}
IsBuffer (some block) n = (length block ≡ n) × (n < 2 ^ 31)

pub empty-Fits :
    (block : List ℕ) (n : ℕ)
    → (length block ≡ n) × (n < 2 ^ 31)
    → Fits [] (record { block = block; n = n; avail = int_bits (size_minus n 0); pos = 0 })
empty-Fits block n (e, small) = record {
  free = block;
  whole = refl;
  at = refl;
  count = omega arith;
  size = omega arith;
  narrow = small;
}

module _ (mem : Memory) (plenty : IsPlenty mem) where
  -- Where no line is left.
  at_end :
      (st : Stream) (cs : List ℕ) (r : Room)
      → Fits [] r
      → st.ferror ≡ false
      → length cs + 1 < 2 ^ 30
      → All no_newline cs
      → ((cs ≡ []) × IsEof (at_eof (bytes_of st)) (read_chars mem b'\n' 0 0 cs (bytes_of st) r))
        ⊎ ((cs ≢ [])
            × Returns cs (at_eof (bytes_of st)) (read_chars mem b'\n' 0 0 cs (bytes_of st) r))
  at_end st cs r f clean short a =
      read_chars-text mem plenty b'\n' cs [] (bytes_of st) r f (omega arith) clean a

  loop-Agrees :
      (st : Stream) (r : Room)
      → Fits [] r
      → st.ferror ≡ false
      → AreShort st.lines st.rest
      → IsSplit st.lines st.rest
      → Agrees
          (Stream.getline st)
          (read_chars mem b'\n' 0 0 (flat st.lines st.rest) (bytes_of st) r)
  unfolding Stream.getline
  loop-Agrees st r f clean short split =
      go st.lines st.rest st.broken st.feof st.ferror clean short split
    where
      go :
          (lines : List Text) (rest : Text) (broken feof ferror : Bool)
          → ferror ≡ false
          → AreShort lines rest
          → IsSplit lines rest
          → Agrees
              (Stream.getline (record {
                lines = lines;
                rest = rest;
                broken = broken;
                feof = feof;
                ferror = ferror;
              }))
              (read_chars mem b'\n' 0 0
                (flat lines rest)
                (bytes_of (record {
                  lines = lines;
                  rest = rest;
                  broken = broken;
                  feof = feof;
                  ferror = ferror;
                }))
                r)
      go [] [] broken feof ferror clean short split =
          elim (at_end
            (record { lines = []; rest = []; broken = broken; feof = feof; ferror = ferror }) [] r f
            clean short split) [
              | inl (e, result) ↦ result
              | inr (some_read, result) ↦ absurd (some_read refl)
            ]
      go [] (c ∷ rest) broken feof ferror clean short split =
          elim (at_end
            (record { lines = []; rest = c ∷ rest; broken = broken; feof = feof; ferror = ferror })
            (c ∷ rest) r f clean short split) [
              | inl (e, result) ↦ absurd (cc)
              | inr (some_read, result) ↦ result
            ]
      go (s ∷ ss) rest broken feof ferror clean short split =
          read_chars-line mem plenty b'\n' s [] (flat ss rest) _ r f (omega (arith, short.0)) clean
            split.0

  -- On a heap that refuses no block, `getline` of the repository and that of a stream by lines
  -- agree, for a buffer whose size is as given and below 2 ^ 31, or none, and a stream whose error
  -- flag is clear, whose lines, and what is behind the last, are of fewer than 2 ^ 30 - 1 characters.
  pub getline-Agrees :
      (st : Stream) (lineptr : Option (List ℕ)) (n : ℕ)
      → IsBuffer lineptr n
      → st.ferror ≡ false
      → AreShort st.lines st.rest
      → IsSplit st.lines st.rest
      → Agrees (Stream.getline st) (getline mem true lineptr n (bytes_of st))
  unfolding getline getstr
  getline-Agrees st (some block) n size clean short split =
      loop-Agrees st _ (empty-Fits block n size) clean short split
  getline-Agrees st none n size clean short split =
      let (b, k) = plenty.malloc_gives min_chunk in
      rw (k, getstr)
        (loop-Agrees st _ (empty-Fits b min_chunk (mem.length-malloc min_chunk b k, omega arith))
          clean short split)
