-- ===== src/Getline/Loop.antt =====
-- The loop of `getstr` in lib/getstr.c, from an offset of 0 and with one delimiter: no store falls
-- outside the block, no assertion fails, and what was read stands at the block's beginning.
use wake_on_lan.Base.{
  ℕ, ◌+◌, ◌-◌, ◌%◌, ◌^◌, ◌<◌, ◌≡◌, ◌≢◌, ◌∙◌, ◌⊎◌, true, false, List, [], ◌∷◌, ◌++◌, length,
  length-append, append_assoc, append-nil, arith, not, ◌==◌, if_false, All,
}
use wake_on_lan.Getline.{Bytes, at_eof, Memory, Room, terminate, partial_line, read_chars}
use wake_on_lan.Getline.Fits.{
  IsPlenty, Fits, IsShort, Returns, IsEof, Fits-assertion, make_room-Fits, store-Fits,
  terminate-Returns, at_end,
}

module _ (mem : Memory) (plenty : IsPlenty mem) (d : ℕ) where
  -- One round on a character that is no delimiter.
  read_chars_round :
      (ws cs : List ℕ) (c : ℕ) (st : Bytes) (r : Room)
      → Fits ws r
      → IsShort ws
      → st.ferror ≡ false
      → (c == d) ≡ false
      → (r' : Room) × Fits (ws ++ (c ∷ [])) r'
        × (read_chars mem d 0 0 (c ∷ cs) st r ≡ read_chars mem d 0 0 cs st r')
  unfolding read_chars
  read_chars_round ws cs c st r f short clean other =
      let (r1, made, f1, lt) = make_room-Fits mem plenty ws r f short in
      let (b, stored, f2) = store-Fits ws r1 c f1 lt in
      let check = Fits-assertion ws r f in
      (
        _,
        f2,
        simp (check)
            (rw (made, read_chars) (simp (clean) (rw (stored, read_chars) (simp (other))))),
      )

  -- The round that meets the delimiter.
  read_chars_last :
      (ws cs : List ℕ) (st : Bytes) (r : Room)
      → Fits ws r
      → IsShort ws
      → st.ferror ≡ false
      → Returns (ws ++ (d ∷ [])) (record st { bytes = cs }) (read_chars mem d 0 0 (d ∷ cs) st r)
  unfolding read_chars
  read_chars_last ws cs st r f short clean =
      let (r1, made, f1, lt) = make_room-Fits mem plenty ws r f short in
      let (b, stored, f2) = store-Fits ws r1 d f1 lt in
      let check = Fits-assertion ws r f in
      let here : (d == d) ≡ true = ground arith in
      let done = terminate-Returns (ws ++ (d ∷ [])) _ (record st { bytes = cs }) f2 (omega arith) in
      let next : Room = record {
        block = b;
        n = r1.n;
        avail = (r1.avail + 2 ^ 32 - 1) % 2 ^ 32;
        pos = r1.pos + 1;
      } in
      let same : read_chars mem d 0 0 (d ∷ cs) st r ≡ terminate 0 next (record st { bytes = cs }) =
        simp (check) (
          rw (made, read_chars)
            (if_false st.ferror _ _ clean ∙ rw (stored, read_chars) (simp (here)))) in
      rw same done

  -- The round that meets the end.
  read_chars_end :
      (ws : List ℕ) (st : Bytes) (r : Room)
      → Fits ws r
      → IsShort ws
      → ((ws ≡ []) × IsEof (at_eof st) (read_chars mem d 0 0 [] st r))
        ⊎ ((ws ≢ []) × Returns ws (at_eof st) (read_chars mem d 0 0 [] st r))
  unfolding read_chars
  read_chars_end ws st r f short =
      let (r1, made, f1, lt) = make_room-Fits mem plenty ws r f short in
      let check = Fits-assertion ws r f in
      let same : read_chars mem d 0 0 [] st r ≡ partial_line 0 r1 (at_eof st) =
        simp (check) (rw (made, read_chars)) in
      rw same (at_end ws r1 (at_eof st) f1 (omega arith))

  pub read_chars-line :
      (cs ws rest : List ℕ) (st : Bytes) (r : Room)
      → Fits ws r
      → length ws + length cs + 1 < 2 ^ 30
      → st.ferror ≡ false
      → All (λ c. not (c == d)) cs
      → Returns
          (ws ++ (cs ++ (d ∷ [])))
          (record st { bytes = rest })
          (read_chars mem d 0 0 (cs ++ (d ∷ rest)) st r)
  read_chars-line [] ws rest st r f h clean a = read_chars_last ws rest st r f (omega arith) clean
  read_chars-line (c ∷ cs) ws rest st r f h clean a =
      let other : (c == d) ≡ false = ground arith in
      let (r', f', e) = read_chars_round ws (cs ++ (d ∷ rest)) c st r f (omega arith) clean other in
      rw (e, ← append_assoc ws (c ∷ []) (cs ++ (d ∷ [])))
        (read_chars-line cs (ws ++ (c ∷ [])) rest st r' f'
          (omega (arith, length-append ws (c ∷ []))) clean a.1)

  pub read_chars-text :
      (cs ws : List ℕ) (st : Bytes) (r : Room)
      → Fits ws r
      → length ws + length cs + 1 < 2 ^ 30
      → st.ferror ≡ false
      → All (λ c. not (c == d)) cs
      → ((ws ++ cs ≡ []) × IsEof (at_eof st) (read_chars mem d 0 0 cs st r))
        ⊎ ((ws ++ cs ≢ []) × Returns (ws ++ cs) (at_eof st) (read_chars mem d 0 0 cs st r))
  read_chars-text [] ws st r f h clean a =
      rw (append-nil ws) (read_chars_end ws st r f (omega arith))
  read_chars-text (c ∷ cs) ws st r f h clean a =
      let other : (c == d) ≡ false = ground arith in
      let (r', f', e) = read_chars_round ws cs c st r f (omega arith) clean other in
      rw (e, ← append_assoc ws (c ∷ []) cs)
        (read_chars-text cs (ws ++ (c ∷ [])) st r' f' (omega (arith, length-append ws (c ∷ [])))
          clean a.1)
