-- ===== src/Magic/Written.antt =====
-- Addresses and passwords as they are written: six bytes in hexadecimal with `:` or `-` between
-- them, which the formats of src/magic.c read back.
use wake_on_lan.Base.{
  ℕ, zero, suc, ◌≡◌, refl, ap, ◌∙◌, none, some, List, [], ◌∷◌, ◌++◌, map, length, length-map, arith,
  Text,
}
use wake_on_lan.Scan.{Directive, hex, lit, num, expect, sscanf}
use wake_on_lan.Scan.Laws.{IsByteText, Ends, scan_hex-IsByteText, IsByteText-lt}
use wake_on_lan.Magic.{
  Magic, Allocator, Ethers, success, octet, int_of, read_six, resolve_mac, magic_assemble,
}
use wake_on_lan.Magic.Layout.{frame}
use wake_on_lan.Magic.Assemble.{IsValid, assemble_plain, assemble_secure}

-- One written byte, with or without a leading zero, in either case.
pub record Field : Type 0 where
  pub digits : Text
  pub value : ℕ
  pub is_byte : IsByteText digits value

abbrev pub values : List Field → List ℕ
values [] = []
values (f ∷ fs) = f.value ∷ values fs

-- The fields with a separator between them, in front of further text.
abbrev pub joined : ℕ → List Field → Text → Text
joined c [] rest = rest
joined c (f ∷ []) rest = f.digits ++ rest
joined c (f ∷ g ∷ fs) rest = f.digits ++ (c ∷ joined c (g ∷ fs) rest)

abbrev fields : ℕ → ℕ → List Directive
fields c zero = []
fields c (suc zero) = hex 2 ∷ []
fields c (suc (suc n)) = hex 2 ∷ lit c ∷ fields c (suc n)

sscanf-hex :
    (ds : List Directive) (f : Field) (rest : Text)
    → Ends rest
    → sscanf (hex 2 ∷ ds) (f.digits ++ rest) ≡ num f.value ∷ sscanf ds rest
unfolding sscanf
sscanf-hex ds f rest e = rw (scan_hex-IsByteText rest f.is_byte e, sscanf)

sscanf-lit : (c : ℕ) (ds : List Directive) (s : Text) → sscanf (lit c ∷ ds) (c ∷ s) ≡ sscanf ds s
unfolding sscanf expect
sscanf-lit c ds s = ground arith

module _ (c : ℕ) (sep : Ends (c ∷ [])) where
  sscanf-fields :
      (fs : List Field) (rest : Text)
      → Ends rest
      → sscanf (fields c (length fs)) (joined c fs rest) ≡ map num (values fs)
  sscanf-fields [] rest e = unfold sscanf in refl
  sscanf-fields (f ∷ []) rest e =
      sscanf-hex [] f rest e ∙ ap (◌∷◌ (num f.value)) (unfold sscanf in refl)
  sscanf-fields (f ∷ g ∷ fs) rest e =
      let later = joined c (g ∷ fs) rest in
      let ds = fields c (length (g ∷ fs)) in
      sscanf-hex (lit c ∷ ds) f (c ∷ later) sep
      ∙ ap (◌∷◌ (num f.value)) (sscanf-lit c ds later ∙ sscanf-fields (g ∷ fs) rest e)

map-int_of-num : (vs : List ℕ) → map int_of (map num vs) ≡ vs
map-int_of-num [] = refl
map-int_of-num (v ∷ vs) = ap (◌∷◌ v) (map-int_of-num vs)

pub length-values : (fs : List Field) → length (values fs) ≡ length fs
length-values [] = refl
length-values (f ∷ fs) = ap suc (length-values fs)

pub map-octet-values : (fs : List Field) → map octet (values fs) ≡ values fs
map-octet-values [] = refl
map-octet-values (f ∷ fs) =
    let small = IsByteText-lt f.is_byte in
    let whole : octet f.value ≡ f.value = omega arith in rw (whole, map-octet-values fs)

pub read_six-joined :
    (c : ℕ) (fs : List Field) (rest : Text)
    → Ends (c ∷ [])
    → length fs ≡ 6
    → Ends rest
    → read_six c (joined c fs rest) ≡ some (values fs)
unfolding read_six
read_six-joined c fs rest sep six e =
    let scanned = rw six at (sscanf-fields c sep fs rest e) in
    rw (scanned, length-map num (values fs), length-values fs, six, map-int_of-num (values fs))

pub resolve_mac-joined :
    (ethers : Ethers) (fs : List Field) (rest : Text)
    → length fs ≡ 6
    → Ends rest
    → resolve_mac ethers (joined b':' fs rest) ≡ some (values fs)
unfolding resolve_mac
resolve_mac-joined ethers fs rest six e =
    rw (read_six-joined b':' fs rest (refl, refl) six e, resolve_mac)

module _ (alloc : Allocator) (ethers : Ethers) (errno : ℕ) (b : Magic) (v : IsValid b) where
  -- An address written as six bytes with colons gives the packet of just these bytes, whatever
  -- text that is no digit follows it, whatever the ethers database says, and whatever a valid
  -- buffer held.
  pub assemble-joined :
      (fs : List Field) (rest : Text)
      → length fs ≡ 6
      → Ends rest
      → magic_assemble alloc ethers errno (some b) (some (joined b':' fs rest)) none
        ≡ some (record {
          status = success;
          errno = errno;
          buffer = some (record { packet = frame (values fs); size = 102 });
        })
  assemble-joined fs rest six e = rw (← map-octet-values fs) (
      assemble_plain alloc ethers errno b (joined b':' fs rest) v
        (resolve_mac-joined ethers fs rest six e))

  -- The same with a password, six bytes with dashes, which follow the frame.
  pub assemble-joined_passwd :
      (fs ps : List Field) (rest more : Text)
      → length fs ≡ 6
      → length ps ≡ 6
      → Ends rest
      → Ends more
      → magic_assemble alloc ethers errno
          (some b)
          (some (joined b':' fs rest))
          (some (joined b'-' ps more))
        ≡ some (record {
          status = success;
          errno = errno;
          buffer = some (record { packet = frame (values fs) ++ values ps; size = 108 });
        })
  assemble-joined_passwd fs ps rest more six six' e e' =
      rw (← map-octet-values fs, ← map-octet-values ps)
        (assemble_secure alloc ethers errno b (joined b':' fs rest) (joined b'-' ps more) v
          (resolve_mac-joined ethers fs rest six e)
          (read_six-joined b'-' ps more (refl, refl) six' e'))
