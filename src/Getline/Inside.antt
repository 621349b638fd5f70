-- ===== src/Getline/Inside.antt =====
-- `getstr` of lib/getstr.c on a heap that may refuse a block: it stays inside its block.
use wake_on_lan.Base.{
  ℕ, ◌+◌, ◌^◌, ◌≡◌, ◌<◌, ◌≤◌, ap, inl, inr, Bool, true, false, Option, none, some, List, [], ◌∷◌,
  ◌++◌, length, length-append, arith, if◌then◌else◌, Option-cases,
}
use wake_on_lan.Getline.{
  Bytes, at_eof, Memory, min_chunk, Room, Got, eof, got, overrun, aborted, partial_line, is_delim,
  read_chars, getstr,
}
use wake_on_lan.Getline.Fits.{
  Fits, Returns, IsEof, Fits-assertion, make_room_result, store-Fits, terminate-Returns, at_end,
}
use wake_on_lan.Getline.Refines.{IsBuffer, empty-Fits}

-- No store outside the block, no assertion that fails; the size is the block's, and the count of
-- characters leaves room for the zero behind them.
abbrev pub IsInside : Got → Type 0
IsInside (eof lineptr n st) = IsBuffer lineptr n
IsInside (got count block n st) = (length block ≡ n) × (count < n)
IsInside overrun = ⊥
IsInside aborted = ⊥

Returns-IsInside :
    {ws : List ℕ} {st : Bytes} {result : Got} → Returns ws st result → IsInside result
Returns-IsInside {ws} r =
    rw (r.is_got)
      (r.fits, omega (arith, r.fits, ap (length {A = ℕ}) r.holds, length-append ws (0 ∷ r.tail)))

IsEof-IsInside : {st : Bytes} {result : Got} → IsEof st result → IsInside result
IsEof-IsInside r = rw (r.is_eof) (r.fits, r.narrow)

partial_line-IsInside :
    (ws : List ℕ) (r : Room) (st : Bytes) → Fits ws r → 1 ≤ r.avail → IsInside (partial_line 0 r st)
partial_line-IsInside ws r st f lt = elim (at_end ws r st f lt) [
  | inl (e, result) ↦ IsEof-IsInside result
  | inr (e, result) ↦ Returns-IsInside result
]

if-IsInside : (b : Bool) (x y : Got) → IsInside x → IsInside y → IsInside (if b then x else y)
if-IsInside true x y h k = h
if-IsInside false x y h k = k

module _ (mem : Memory) (delim1 delim2 : ℕ) where
  read_chars-IsInside :
      (cs ws : List ℕ) (st : Bytes) (r : Room)
      → Fits ws r
      → length ws + length cs + 1 < 2 ^ 30
      → IsInside (read_chars mem delim1 delim2 0 cs st r)
  unfolding read_chars
  read_chars-IsInside [] ws st r f h =
      let check = Fits-assertion ws r f in
      elim (make_room_result mem ws r f (omega arith)) [
        | inl (e, k) ↦ simp (check, e) tt
        | inr (r', e, f', lt) ↦
            simp (check, e) (partial_line-IsInside ws r' (at_eof st) f' (omega arith))
      ]
  read_chars-IsInside (c ∷ cs) ws st r f h =
      let check = Fits-assertion ws r f in
      let left = record st { bytes = cs } in
      elim (make_room_result mem ws r f (omega arith)) [
        | inl (e, k) ↦ simp (check, e) tt
        | inr (r', e, f', lt) ↦
            let (b, stored, f2) = store-Fits ws r' c f' lt in
            let stops =
              Returns-IsInside (terminate-Returns (ws ++ (c ∷ [])) _ left f2 (omega arith)) in
            let goes_on =
              read_chars-IsInside cs (ws ++ (c ∷ [])) st _ f2
                (omega (arith, length-append ws (c ∷ []))) in
            simp (check, e)
              (if-IsInside st.ferror _ _ (partial_line-IsInside ws r' left f' (omega arith)) (
                rw (stored, read_chars)
                  (if-IsInside (is_delim mem delim1 delim2 0 c) _ _ stops goes_on)))
      ]

  -- `getstr` from an offset of 0 stays inside its block, whichever blocks the heap refuses, for a
  -- buffer whose size is as given and below 2 ^ 31, or none, and a stream that has fewer than
  -- 2 ^ 30 - 1 characters left: no assertion fails, the size that is handed back is the block's, and a
  -- count that is returned is less.
  pub getstr-IsInside :
      (given : Bool) (lineptr : Option (List ℕ)) (n : ℕ) (st : Bytes)
      → IsBuffer lineptr n
      → length st.bytes + 1 < 2 ^ 30
      → IsInside (getstr mem delim1 delim2 0 given lineptr n st)
  unfolding getstr
  getstr-IsInside false lineptr n st size short = size
  getstr-IsInside true (some block) n st size short =
      read_chars-IsInside st.bytes [] st _ (empty-Fits block n size) (omega arith)
  getstr-IsInside true none n st size short = elim (Option-cases (mem.malloc min_chunk)) [
    | inl e ↦ rw (e, getstr) tt
    | inr (b, e) ↦
        rw (e, getstr)
          (read_chars-IsInside st.bytes [] st _
            (empty-Fits b min_chunk (mem.length-malloc min_chunk b e, omega arith)) (omega arith))
  ]
