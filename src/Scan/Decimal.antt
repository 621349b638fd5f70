-- ===== src/Scan/Decimal.antt =====
-- How `%5u` reads a number that is written in decimal digits.
use wake_on_lan.Base.{
  ℕ, zero, suc, ◌+◌, ◌*◌, ◌-◌, ◌^◌, ◌≤◌, ◌<◌, ◌≡◌, ◌≢◌, refl, ap, ◌∙◌, Bool, false, true, none,
  some, List, [], ◌∷◌, ◌++◌, append-nil, length, arith, Text, ◌==◌, All, Stops, within, dec_value,
  is_space, skip_space,
}
use wake_on_lan.Scan.{Directive, unsigned, num, sscanf}
use wake_on_lan.Scan.Number.{read_digits, digits, dec_body, store_unsigned, signed, scan_unsigned}

abbrev pub is_digit : ℕ → Bool
is_digit = within b'0' b'9'

-- The number that a row of digits writes, after the digits that `acc` stands for.
abbrev pub decimal : ℕ → Text → ℕ
decimal acc [] = acc
decimal acc (c ∷ s) = decimal (acc * 10 + (c - b'0')) s

abbrev largest : ℕ → ℕ → ℕ
largest zero acc = acc
largest (suc n) acc = largest n (acc * 10 + 9)

largest_mono : (n a b : ℕ) → a ≤ b → largest n a ≤ largest n b
largest_mono zero a b h = h
largest_mono (suc n) a b h = largest_mono n _ _ (omega arith)

decimal-le : (acc : ℕ) (t : Text) → All is_digit t → decimal acc t ≤ largest (length t) acc
decimal-le acc [] a = omega arith
decimal-le acc (c ∷ t) a =
    let next = acc * 10 + (c - b'0') in
    let small : c ≤ b'9' = ground arith in
    omega (arith, decimal-le next t a.1, largest_mono (length t) next (acc * 10 + 9) (omega arith))

largest_five : (n : ℕ) → n ≤ 5 → largest n 0 ≤ 99999
largest_five zero h = omega arith
largest_five (suc zero) h = omega arith
largest_five (suc (suc zero)) h = omega arith
largest_five (suc (suc (suc zero))) h = omega arith
largest_five (suc (suc (suc (suc zero)))) h = omega arith
largest_five (suc (suc (suc (suc (suc zero))))) h = omega arith
largest_five (suc (suc (suc (suc (suc (suc n)))))) h = absurd (omega arith)

-- A port as it is written: one to five digits.
pub record IsPortText (t : Text) : Type 0 where
  pub digits : All is_digit t
  pub ne_nil : t ≢ []
  pub short : length t ≤ 5

pub decimal-le_five : (t : Text) → IsPortText t → decimal 0 t ≤ 99999
decimal-le_five t h = omega (arith, decimal-le 0 t h.digits, largest_five (length t) h.short)

dec_value_digit : (c : ℕ) → is_digit c ≡ true → dec_value c ≡ some (c - b'0')
dec_value_digit c h = ground arith

dec_value_other : (c : ℕ) → is_digit c ≡ false → dec_value c ≡ none
dec_value_other c h = ground arith

read_digits-decimal :
    (acc w : ℕ) (t rest : Text)
    → All is_digit t
    → Stops is_digit rest
    → length t ≤ w
    → read_digits dec_value 10 acc w (t ++ rest) ≡ (decimal acc t, rest)
unfolding read_digits
read_digits-decimal acc zero [] rest a h le = refl
read_digits-decimal acc (suc w) [] [] a h le = refl
read_digits-decimal acc (suc w) [] (c ∷ rest) a h le = rw (dec_value_other c h, read_digits)
read_digits-decimal acc zero (c ∷ t) rest a h le = absurd (omega arith)
read_digits-decimal acc (suc w) (c ∷ t) rest a h le =
    rw (dec_value_digit c a.0, read_digits)
      (read_digits-decimal (acc * 10 + (c - b'0')) w t rest a.1 h (omega arith))

digits-decimal :
    (w : ℕ) (t rest : Text)
    → All is_digit t
    → t ≢ []
    → Stops is_digit rest
    → length t ≤ w
    → digits dec_value 10 w (t ++ rest) ≡ some (decimal 0 t, rest)
unfolding digits
digits-decimal w [] rest a ne h le = absurd (ne refl)
digits-decimal zero (c ∷ t) rest a ne h le = absurd (omega arith)
digits-decimal (suc w) (c ∷ t) rest a ne h le =
    let e : 0 + (c - b'0') ≡ c - b'0' = omega arith in
    rw (dec_value_digit c a.0, digits)
      (rw e (ap some (read_digits-decimal (c - b'0') w t rest a.1 h (omega arith))))

-- A number that begins with a digit has no sign.
signed_digit :
    (w c : ℕ) (s : Text)
    → is_digit c ≡ true
    → signed dec_body w (skip_space (c ∷ s)) ≡ store_unsigned false (dec_body w (c ∷ s))
unfolding signed
signed_digit w c s h =
    let space : is_space c ≡ false = ground arith in
    let minus : (c == b'-') ≡ false = ground arith in
    let plus : (c == b'+') ≡ false = ground arith in rw (space, minus, plus)

store_unsigned_small :
    (v : ℕ) (s : Text) → v < 2 ^ 32 → store_unsigned false (some (v, s)) ≡ some (v, s)
unfolding store_unsigned
store_unsigned_small v s h = ground arith

scan_unsigned-decimal :
    (t rest : Text)
    → IsPortText t
    → Stops is_digit rest
    → scan_unsigned (some 5) (t ++ rest) ≡ some (decimal 0 t, rest)
unfolding scan_unsigned dec_body
scan_unsigned-decimal [] rest h stops = absurd (h.ne_nil refl)
scan_unsigned-decimal (c ∷ t) rest h stops =
    signed_digit 5 c (t ++ rest) h.digits.0
    ∙ rw (digits-decimal 5 (c ∷ t) rest h.digits h.ne_nil stops h.short)
        (store_unsigned_small _ rest (omega (arith, decimal-le_five (c ∷ t) h)))

pub sscanf-unsigned :
    (ds : List Directive) (t rest : Text)
    → IsPortText t
    → Stops is_digit rest
    → sscanf (unsigned (some 5) ∷ ds) (t ++ rest) ≡ num (decimal 0 t) ∷ sscanf ds rest
unfolding sscanf
sscanf-unsigned ds t rest h stops = rw (scan_unsigned-decimal t rest h stops, sscanf)

-- `%u`, without a width.
pub sscanf-unsigned_whole :
    (t : Text) → IsPortText t → sscanf (unsigned none ∷ []) t ≡ num (decimal 0 t) ∷ []
unfolding sscanf scan_unsigned dec_body
sscanf-unsigned_whole [] h = absurd (h.ne_nil refl)
sscanf-unsigned_whole (c ∷ t) h =
    let whole : digits dec_value 10 (length (c ∷ t)) (c ∷ t) ≡ some (decimal 0 (c ∷ t), []) =
      rw (← append-nil (c ∷ t))
        (digits-decimal (length (c ∷ t)) (c ∷ t) [] h.digits h.ne_nil tt (omega arith)) in
    let read : scan_unsigned none (c ∷ t) ≡ some (decimal 0 (c ∷ t), []) =
      signed_digit (length (c ∷ t)) c t h.digits.0
      ∙ rw whole (store_unsigned_small _ [] (omega (arith, decimal-le_five (c ∷ t) h))) in
    rw (sscanf, read)
