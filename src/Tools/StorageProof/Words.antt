-- ===== src/Tools/StorageProof/Words.antt =====
-- The words of the tool, beside those of the realm.
use gno_ibc.Prelude.{ℕ, ◌≡◌, ap, [], ◌++◌, replicate, arith}
use gno_ibc.Encoding.Word.{put_uint64, u64_word}
use gno_ibc.Tools.StorageProof.{word_loop, word_from_uint64}

word_loop-put_uint64 : (v : ℕ) → word_loop 8 v [] ≡ put_uint64 v
unfolding word_loop put_uint64
word_loop-put_uint64 v = ground arith

-- The tool's loop, a byte at a time from the last, writes every number as the realm's big-endian word of
-- 32 bytes.
pub word_from_uint64-u64_word : (v : ℕ) → word_from_uint64 v ≡ u64_word v
unfolding word_from_uint64 u64_word
word_from_uint64-u64_word v = ap (λ low. replicate 24 0 ++ low) (word_loop-put_uint64 v)
