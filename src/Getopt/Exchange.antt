-- ===== src/Getopt/Exchange.antt =====
-- `exchange` of lib/getopt.c: two adjacent parts of argv change places by swaps of its elements. An
-- index that lies outside of the array is left alone.
use wake_on_lan.Base.{
  ℕ, zero, suc, ◌+◌, ◌-◌, ◌&&◌, none, some, List, [], ◌∷◌, get_elem?, ltb, if◌then◌else◌, Text,
}

unfoldable pub set : List Text → ℕ → Text → List Text
set [] i v = []
set (x ∷ xs) zero v = v ∷ xs
set (x ∷ xs) (suc i) v = x ∷ set xs i v

-- `tem = argv[i]; argv[i] = argv[j]; argv[j] = tem;`
unfoldable pub swap : ℕ → ℕ → List Text → List Text
swap i j argv = elim (get_elem? argv i) [
  | none ↦ argv
  | some x ↦ elim (get_elem? argv j) [ none ↦ argv | some y ↦ set (set argv i y) j x ]
]

-- `for (i = 0; i < len; i++)`, with the rounds that are left.
unfoldable pub swap_range : ℕ → ℕ → ℕ → List Text → List Text
swap_range zero i j argv = argv
swap_range (suc n) i j argv = swap_range n (i + 1) (j + 1) (swap i j argv)

-- The loop `while (top > middle && middle > bottom)`. The fuel is `top - bottom`, which falls.
unfoldable pub exchange_loop : ℕ → ℕ → ℕ → ℕ → List Text → List Text
exchange_loop zero bottom middle top argv = argv
exchange_loop (suc fuel) bottom middle top argv =
    let short = middle - bottom in
    let rest = top - middle in
    let low =
      exchange_loop fuel bottom middle (top - short) (swap_range short bottom (top - short) argv) in
    let high = exchange_loop fuel (bottom + rest) middle top (swap_range rest bottom middle argv) in
    if ltb middle top && ltb bottom middle then if ltb short rest then low else high else argv
