-- ===== src/Md5/Padding.antt =====
-- The parts of `md5_finish_ctx`: the words of the result, the count of bits, and the padding.
use Prim.Native.Nat.{bit_or}
use wake_on_lan.Base.{
  ℕ, zero, suc, ◌+◌, ◌-◌, ◌*◌, ◌/◌, ◌%◌, ◌^◌, ◌≤◌, ◌≡◌, refl, sym, ap, ◌∙◌, Option, some, List, ◌∷◌,
  ◌++◌, length, length-drop, take, drop, replicate, copy_to, copy_to-append, append_assoc, arith,
}
use wake_on_lan.Md5.{Ctx, count, fillbuf, padding, word_bytes, md5_read_ctx}
use wake_on_lan.Md5.Rounds.{Regs, word_mod}
use wake_on_lan.Md5.Rfc.{low_bytes}
use wake_on_lan.Md5.Bits.{or_fields}

pub word_bytes_lem : (v : ℕ) → word_bytes v ≡ low_bytes 4 v
unfolding low_bytes
word_bytes_lem v = ground arith

-- The four words of the result.
abbrev pub output : Regs → List ℕ
output r = low_bytes 4 r.a ++ (low_bytes 4 r.b ++ (low_bytes 4 r.c ++ low_bytes 4 r.d))

pub md5_read_ctx_lem : (c : Ctx) → md5_read_ctx c ≡ output c.regs
unfolding md5_read_ctx
md5_read_ctx_lem c = rw (
  ← word_bytes_lem c.regs.a,
  ← word_bytes_lem c.regs.b,
  ← word_bytes_lem c.regs.c,
  ← word_bytes_lem c.regs.d,
)

-- The number of bits, as two words.
pub low_word : (n t : ℕ) → t ≡ n % word_mod → t * 8 % word_mod ≡ 8 * n % word_mod
low_word n t e = omega arith

pub high_word :
    (n t u : ℕ)
    → t ≡ n % word_mod
    → u ≡ n / word_mod % word_mod
    → bit_or (u * 8 % word_mod) (t / 2 ^ 29) ≡ 8 * n / word_mod % word_mod
high_word n t u e f =
    let cut : u * 8 % word_mod ≡ u % 2 ^ 29 * 2 ^ 3 = omega arith in
    rw cut (or_fields 3 (u % 2 ^ 29) (t / 2 ^ 29) (omega arith) ∙ omega arith)

take-replicate : (z n a : ℕ) → z ≤ n → take z (replicate n a) ≡ replicate z a
take-replicate zero n a h = refl
take-replicate (suc z) zero a h = absurd (omega arith)
take-replicate (suc z) (suc n) a h = ap (◌∷◌ a) (take-replicate z n a (omega arith))

pub padding_lem : (b n : ℕ) → b ≤ 64 → n % 64 ≡ b % 64 → padding b ≡ suc ((119 - n % 64) % 64)
padding_lem b n h e = ground arith

pub fill_lem : (z : ℕ) → z ≤ 63 → take (suc z) fillbuf ≡ 0x80 ∷ replicate z 0
fill_lem z h = ap (◌∷◌ 0x80) (take-replicate z 63 0 h)

-- Three stores, one behind the other.
pub stores :
    (rest p low high tail : List ℕ)
    → length p + length low + length high ≤ length tail
    → (junk : List ℕ) × (copy_to (rest ++ tail) (length rest) p
        ≡ some ((rest ++ p) ++ drop (length p) tail))
      × (copy_to ((rest ++ p) ++ drop (length p) tail) (length (rest ++ p)) low
          ≡ some (((rest ++ p) ++ low) ++ drop (length low) (drop (length p) tail)))
      × (copy_to
            (((rest ++ p) ++ low) ++ drop (length low) (drop (length p) tail))
            (length ((rest ++ p) ++ low))
            high
          ≡ some ((((rest ++ p) ++ low) ++ high) ++ junk))
stores rest p low high tail h =
    let t1 = drop (length p) tail in
    let t2 = drop (length low) t1 in
    (
      drop (length high) t2,
      copy_to-append rest tail p (length rest) refl (omega arith)
          ∙ ap some (sym (append_assoc rest p t1)),
      copy_to-append (rest ++ p) t1 low (length (rest ++ p)) refl
            (omega (arith, length-drop (length p) tail))
          ∙ ap some (sym (append_assoc (rest ++ p) low t2)),
      copy_to-append ((rest ++ p) ++ low) t2 high (length ((rest ++ p) ++ low)) refl
            (omega (arith, length-drop (length p) tail, length-drop (length low) t1))
          ∙ ap some (sym (append_assoc ((rest ++ p) ++ low) high (drop (length high) t2))),
    )

pub length-low_bytes : (n v : ℕ) → length (low_bytes n v) ≡ n
unfolding low_bytes
length-low_bytes zero v = refl
length-low_bytes (suc n) v = ap suc (length-low_bytes n (v / 256))

pub count-regs : (n : ℕ) (c : Ctx) → (count n c).regs ≡ c.regs
unfolding count
count-regs n c = refl

pub regroup : (a b c d e : List ℕ) → a ++ (((b ++ c) ++ d) ++ e) ≡ (a ++ b) ++ (c ++ (d ++ e))
regroup a b c d e = simp append_assoc

pub copy_eq :
    (xs xs' : List ℕ) (i i' : ℕ) (v v' : List ℕ) (r : Option (List ℕ))
    → xs ≡ xs'
    → i ≡ i'
    → v ≡ v'
    → copy_to xs' i' v' ≡ r
    → copy_to xs i v ≡ r
copy_eq xs xs' i i' v v' r e f g h = rw (e, f, g) h
