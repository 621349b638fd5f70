-- ===== src/Md5/Chunks.antt =====
-- A message that is handed to lib/md5.c in pieces.
use wake_on_lan.Base.{
  ℕ, ◌<◌, ◌≡◌, refl, Option, some, ◌>>=◌, List, [], ◌∷◌, ◌++◌, length, append_assoc, append-nil,
}
use wake_on_lan.Md5.{Ctx, md5_init_ctx, md5_process_bytes, md5_finish_ctx}
use wake_on_lan.Md5.Rounds.{word_mod}
use wake_on_lan.Md5.Rfc.{rfc_md5}
use wake_on_lan.Md5.Absorbed.{Absorbed, init-Absorbed}
use wake_on_lan.Md5.Bytes.{process_bytes-Absorbed}
use wake_on_lan.Md5.Digest.{finish_ctx-Digests}

-- Calls of `md5_process_bytes`, one for each piece, which has an address and bytes.
unfoldable pub process_pieces : List (ℕ × List ℕ) → Ctx → Option Ctx
process_pieces [] c = some c
process_pieces ((address, bytes) ∷ pieces) c =
    md5_process_bytes address bytes c >>= process_pieces pieces

abbrev pub joined : List (ℕ × List ℕ) → List ℕ
joined [] = []
joined ((address, bytes) ∷ pieces) = bytes ++ joined pieces

abbrev pub AllShort : List (ℕ × List ℕ) → Type 0
AllShort [] = Unit
AllShort ((address, bytes) ∷ pieces) = (length bytes < word_mod) × AllShort pieces

pieces-Absorbed :
    (msg : List ℕ) (pieces : List (ℕ × List ℕ)) (c : Ctx)
    → Absorbed msg c
    → AllShort pieces
    → (c' : Ctx) × (process_pieces pieces c ≡ some c') × Absorbed (msg ++ joined pieces) c'
unfolding process_pieces
pieces-Absorbed msg [] c a h = (c, refl, rw (append-nil msg) a)
pieces-Absorbed msg ((address, bytes) ∷ pieces) c a h =
    let (c1, first, a1) = process_bytes-Absorbed address msg bytes c a h.0 in
    let (c2, rest, a2) = pieces-Absorbed (msg ++ bytes) pieces c1 a1 h.1 in
    (c2, rw first rest, rw (← append_assoc msg bytes (joined pieces)) a2)

-- md5_init_ctx, then md5_process_bytes for each of any number of pieces, each of fewer than 2 ^ 32
-- bytes and at any address, then md5_finish_ctx: no store misses the buffer, and the result is the
-- digest that RFC 1321 gives for the pieces one behind the other, whatever the buffer held at first.
pub pieces-Digest :
    (stack : List ℕ) (pieces : List (ℕ × List ℕ))
    → length stack ≡ 128
    → AllShort pieces
    → (process_pieces pieces (md5_init_ctx stack) >>= md5_finish_ctx)
      ≡ some (rfc_md5 (joined pieces))
pieces-Digest stack pieces h short =
    let (c, runs, a) =
      pieces-Absorbed [] pieces (md5_init_ctx stack) (init-Absorbed stack h) short in
    rw runs (finish_ctx-Digests (joined pieces) c a)
