-- ===== src/Tests/Md5Tests.antt =====
-- lib/md5.c: test messages of RFC 1321, and a message in pieces.
use wake_on_lan.Base.{
  ℕ, List, [], ◌∷◌, ◌≡◌, refl, some, true, false, ◌>>=◌, replicate, codes, arith,
}
use wake_on_lan.Md5
use wake_on_lan.Md5.{md5_buffer, md5_init_ctx, md5_finish_ctx}
use wake_on_lan.Md5.Rfc.{rfc_md5}
use wake_on_lan.Md5.Chunks.{process_pieces, pieces-Digest}
use wake_on_lan.Md5.Stream.{Read, ended, more, md5_stream, digested, stream-Digests}

abbrev pub stack : List ℕ
stack = replicate 128 0xaa

abbrev abc_digest : List ℕ
abc_digest =
    0x90 ∷ 0x01 ∷ 0x50 ∷ 0x98 ∷ 0x3c ∷ 0xd2 ∷ 0x4f ∷ 0xb0 ∷ 0xd6 ∷ 0x96 ∷ 0x3f ∷ 0x7d ∷ 0x28 ∷ 0xe1
    ∷ 0x7f ∷ 0x72 ∷ []

-- The RFC's own digest of "abc", by its description.
rfc_abc : rfc_md5 (codes "abc") ≡ abc_digest
unfolding rfc_md5 Md5.Rfc.pad Md5.Rfc.low_bytes Md5.Rfc.absorb Md5.Rfc.compress Md5.Rfc.steps
    Md5.Rfc.step Md5.Rfc.rotate Md5.Rfc.rfc_words
rfc_abc = refl

pieces-Digest_example :
    (process_pieces ((3, codes "a") ∷ (4, codes "bc") ∷ []) (md5_init_ctx stack) >>= md5_finish_ctx)
    ≡ some (rfc_md5 (codes "abc"))
pieces-Digest_example =
    pieces-Digest stack ((3, codes "a") ∷ (4, codes "bc") ∷ []) refl (omega arith)

abbrev read_abc : Read
read_abc = record { bytes = codes "abc"; eof = false; error = false }

abbrev read_end : Read
read_end = record { bytes = []; eof = true; error = false }

stream-Digests_example :
    md5_stream stack 0 (read_abc ∷ read_end ∷ []) ≡ digested (rfc_md5 (codes "abc"))
stream-Digests_example =
    stream-Digests stack 0 (read_abc ∷ read_end ∷ []) (codes "abc") false refl (
      more read_abc (read_end ∷ []) 4093 [] (omega arith) (omega arith) refl refl
        (ended read_end [] (omega arith) refl refl) refl)
