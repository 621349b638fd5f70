-- ===== src/Proxy/Decoded.antt =====
-- The challenge that src/proxy.c reads out of its hexadecimal digits, and what it digests.
use wake_on_lan.Base.{
  ℕ, zero, suc, ◌+◌, ◌-◌, ◌*◌, ◌≡◌, ◌<◌, refl, false, some, List, [], ◌∷◌, ◌++◌, append_assoc,
  append-nil, length, length-append, drop, drop-append, arith, Text, ◌==◌, Bool-cases, inl, inr,
  hex_value,
}
use wake_on_lan.Scan.{num, hex, sscanf}
use wake_on_lan.Scan.Laws.{two, IsByteText-lt, scan_hex-two}
use wake_on_lan.Stream.{c_string}
use wake_on_lan.System.{World, Outcome, returns, faulted, over_read, log}
use wake_on_lan.Proxy.{has_zero, string_at, decode_byte, decode}
use wake_on_lan.Proxy.Placed.{strays, poke_word-Placed}

-- A text is these bytes, each by two hexadecimal digits.
pub data Digits : Text → List ℕ → Type 0 where
  no_byte : Digits [] []
  byte :
      {c d x y : ℕ} {s : Text} {vs : List ℕ}
      → hex_value c ≡ some x
      → hex_value d ≡ some y
      → Digits s vs
      → Digits (c ∷ d ∷ s) ((x * 16 + y) ∷ vs)

-- Those of four bytes at a time, at each index of an array of a size.
abbrev pub over : ℕ → ℕ
over zero = 0
over (suc n) = (3 - n) + over n

-- A string that begins with two digits is read with both, and nothing is stored.
record Begins (c d : ℕ) (w : World) (r : Outcome Text × World) : Type 0 where
  more : Text
  after : World
  result : r ≡ (returns (c ∷ d ∷ more), after)
  count : strays after.history ≡ strays w.history

string_at-Begins :
    {x y : ℕ} (c d : ℕ) (more : Text) (w : World)
    → hex_value c ≡ some x
    → hex_value d ≡ some y
    → Begins c d w (string_at (c ∷ d ∷ more) w)
unfolding string_at c_string
string_at-Begins c d more w h k =
    let first : (c == 0) ≡ false = ground arith in
    let second : (d == 0) ≡ false = ground arith in
    elim (Bool-cases (has_zero more)) [
      | inl e ↦ record {
        more = c_string more;
        after = w;
        result = rw (first, second, e);
        count = refl;
      }
      | inr e ↦ record {
        more = more;
        after = log (faulted over_read) w;
        result = rw (first, second, e);
        count = refl;
      }
    ]

sscanf_two :
    {x y : ℕ} (c d : ℕ) (more : Text)
    → hex_value c ≡ some x
    → hex_value d ≡ some y
    → sscanf (hex 2 ∷ []) (c ∷ d ∷ more) ≡ num (x * 16 + y) ∷ []
unfolding sscanf
sscanf_two c d more h k = rw (sscanf, scan_hex-two c d more h k)

-- What the loop leaves: the bytes, with some stores behind the end of the array.
pub record Decodes (done vs : List ℕ) (w : World) (r : Outcome (List ℕ) × World) : Type 0 where
  pub after : World
  pub result : r ≡ (returns (done ++ vs), after)
  pub count : strays after.history ≡ over (length vs) + strays w.history

pub decode-Digits :
    (rounds i j : ℕ) {ds : Text} {vs : List ℕ} (before tail done block : List ℕ) (w : World)
    → Digits ds vs
    → rounds ≡ length vs
    → length block ≡ length vs
    → i ≡ length before
    → j ≡ length done
    → Decodes done vs w (decode rounds i j (before ++ (ds ++ tail)) (done ++ block) w)
unfolding decode decode_byte
decode-Digits zero i j before tail done [] w no_byte e f g k = record {
  after = w;
  result = rw (append-nil done);
  count = omega arith;
}
decode-Digits zero i j before tail done (y ∷ block) w no_byte e f g k = absurd (omega arith)
decode-Digits (suc rounds) i j before tail done block w no_byte e f g k = absurd (omega arith)
decode-Digits zero i j before tail done block w (byte h h' ds) e f g k = absurd (omega arith)
decode-Digits (suc rounds) i j before tail done [] w (byte h h' ds) e f g k = absurd (omega arith)
decode-Digits (suc rounds) i j before tail done (z ∷ block) w
      (byte {c} {d} {x} {y} {s} {vs} h h' ds) e f g k =
    let v = x * 16 + y in
    let rsbuf = before ++ (c ∷ d ∷ (s ++ tail)) in
    let here : drop i rsbuf ≡ c ∷ d ∷ (s ++ tail) =
      rw g (drop-append before (c ∷ d ∷ (s ++ tail))) in
    let b = string_at-Begins c d (s ++ tail) w h h' in
    let small : v < 256 = IsByteText-lt (two {c = c} {d = d} h h') in
    let p = poke_word-Placed done block z v j b.after small k in
    let r =
      decode-Digits rounds (i + 2) (j + 1) (before ++ (c ∷ d ∷ [])) tail (done ++ (v ∷ [])) p.next
        p.after ds (omega arith) (omega (arith, p.same_length))
        (omega (arith, length-append before (c ∷ d ∷ [])))
        (omega (arith, length-append done (v ∷ []))) in
    record {
      after = r.after;
      result = rw (
        here,
        b.result,
        sscanf_two c d b.more h h',
        p.result,
        ← append_assoc before (c ∷ d ∷ []) (s ++ tail),
        ← append_assoc done (v ∷ []) p.next,
        r.result,
        append_assoc done (v ∷ []) vs,
      );
      count = omega (arith, r.count, p.count, b.count);
    }
