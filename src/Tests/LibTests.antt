-- ===== src/Tests/LibTests.antt =====
-- The files of lib/ at concrete inputs.
use wake_on_lan.Base.{
  all_pass-All, not, ◌==◌, ℕ, ◌-◌, ◌≤◌, ◌≡◌, refl, true, none, some, Option, List, [], ◌∷◌, ◌++◌,
  length, length-append, replicate, length-replicate, codes, arith,
}
use wake_on_lan.Stream
use wake_on_lan.Stream.{Stream}
use wake_on_lan.Scan.{sscanf, expect}
use wake_on_lan.Scan.Number.{
  scan_hex, hex_body, digits, read_digits, signed, store_unsigned, to_unsigned,
}
use wake_on_lan.Magic.{read_six}
use wake_on_lan.Getpass.{getpass4}
use wake_on_lan.Getpass.Typed.{Types, getpass4-Types}
use wake_on_lan.Macfile.Bytes.{is_char}
use wake_on_lan.Getpass.Echo.{Restores, getpass4-Restores}
use wake_on_lan.System.{World, gives}
use wake_on_lan.Getline.{Memory, getline, getstr}
use wake_on_lan.Getline.Fits.{IsPlenty, Returns}
use wake_on_lan.Getline.Refines.{IsSplit, bytes_of, getline-Agrees}
use wake_on_lan.Getline.Inside.{IsInside, getstr-IsInside}
use wake_on_lan.Tests.Values.{calm, start, empty}

-- A line without its newline, and a line.
abbrev typed : Stream
typed = record empty { lines = codes "secret" ∷ []; rest = codes "more" }

abbrev at_prompt : World
at_prompt = record start { stdin = typed }

getpass4-Restores_example :
    Restores calm
      (gives (record { echo = true; others = 7 }))
      at_prompt
      (getpass4 calm (some (codes "Password")) at_prompt)
getpass4-Restores_example = getpass4-Restores calm (some (codes "Password")) at_prompt

getpass4-Types_example :
    Types (codes "secret") [] at_prompt (getpass4 calm (some (codes "Password")) at_prompt)
getpass4-Types_example =
    getpass4-Types calm (codes "Password") (codes "secret") [] (record { echo = true; others = 7 })
      at_prompt refl refl refl (all_pass-All is_char (codes "secret") refl)

unwritten : read_six b':' (codes "lab") ≡ none
unfolding read_six sscanf expect scan_hex hex_body digits read_digits signed store_unsigned
    to_unsigned
unwritten = refl

abbrev enlarged : List ℕ → ℕ → List ℕ
enlarged old n = old ++ replicate (n - length old) 0

plenty_realloc :
    (old : List ℕ) (n : ℕ) (b : List ℕ)
    → length old ≤ n
    → some (enlarged old n) ≡ some b
    → (extra : List ℕ) × (b ≡ old ++ extra) × (length b ≡ n)
plenty_realloc old n b h e =
    let same : enlarged old n ≡ b = cc in
    let zeros : List ℕ = replicate (n - length old) 0 in
    let size : length (enlarged old n) ≡ n =
      omega (arith, length-append old zeros, length-replicate {A = ℕ} (n - length old) 0) in
    (zeros, cc, rw (← same) size)

malloc_length : (n : ℕ) (b : List ℕ) → some (replicate {A = ℕ} n 0) ≡ some b → length b ≡ n
malloc_length n b e =
    let same : replicate {A = ℕ} n 0 ≡ b = cc in rw (← same) (length-replicate {A = ℕ} n 0)

abbrev heap : Memory
heap = record {
  malloc = λ n. some (replicate n 0);
  realloc = λ old n. some (enlarged old n);
  length-malloc = malloc_length;
  realloc_keeps = plenty_realloc;
}

heap-IsPlenty : IsPlenty heap
heap-IsPlenty = record {
  malloc_gives = λ n. (replicate n 0, refl);
  realloc_gives = λ old n. (enlarged old n, refl);
}

typed-IsSplit : IsSplit typed.lines typed.rest
typed-IsSplit = (
  all_pass-All (λ c. not (c == b'\n')) (codes "secret") refl,
  all_pass-All (λ c. not (c == b'\n')) (codes "more") refl,
)

getline-Agrees_example :
    Returns
      (codes "secret\n")
      (bytes_of (record typed { lines = [] }))
      (getline heap true (some (1 ∷ 2 ∷ 3 ∷ [])) 3 (bytes_of typed))
unfolding Stream.getline
getline-Agrees_example =
    getline-Agrees heap heap-IsPlenty typed (some (1 ∷ 2 ∷ 3 ∷ [])) 3 (refl, omega arith) refl
      (omega arith, omega arith) typed-IsSplit

no_realloc :
    (old : List ℕ) (n : ℕ) (b : List ℕ)
    → length old ≤ n
    → ◌≡◌ {A = Option (List ℕ)} none (some b)
    → (extra : List ℕ) × (b ≡ old ++ extra) × (length b ≡ n)
no_realloc old n b h e = absurd (cc)

-- No block is enlarged.
abbrev tight : Memory
tight = record heap { realloc = λ old n. none; realloc_keeps = no_realloc }

getstr-IsInside_example :
    IsInside (getstr tight b'\n' 0 0 true (some (1 ∷ 2 ∷ 3 ∷ [])) 3 (bytes_of typed))
getstr-IsInside_example =
    getstr-IsInside tight b'\n' 0 true (some (1 ∷ 2 ∷ 3 ∷ [])) 3 (bytes_of typed)
      (refl, omega arith) (omega arith)
