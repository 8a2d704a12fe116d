-- ===== src/Encoding/Word.antt =====
-- The 32-byte big-endian words of the Solidity ABI: `encodeUint64Word` of encoding/abi/encode.gno, and
-- `u64ToH256` and `u32ToH256` of ibc/union/types/abi.gno. Numbers are below 2 ^ 64.
use gno_ibc.Prelude.{
  ℕ, ◌/◌, ◌%◌, ◌^◌, ◌<◌, ◌≡◌, refl, [], ◌∷◌, ◌++◌, Bytes, length, replicate, arith, append_split,
  ◌∙◌, sym,
}

-- `binary.BigEndian.PutUint64` into eight bytes
unfoldable pub put_uint64 : ℕ → Bytes
put_uint64 v =
    (v / 2 ^ 56 % 256)
    ∷ (v / 2 ^ 48 % 256)
    ∷ (v / 2 ^ 40 % 256)
    ∷ (v / 2 ^ 32 % 256)
    ∷ (v / 2 ^ 24 % 256)
    ∷ (v / 2 ^ 16 % 256)
    ∷ (v / 2 ^ 8 % 256)
    ∷ (v % 256)
    ∷ []

-- `binary.BigEndian.PutUint32` into four bytes
unfoldable pub put_uint32 : ℕ → Bytes
put_uint32 v = (v / 2 ^ 24 % 256) ∷ (v / 2 ^ 16 % 256) ∷ (v / 2 ^ 8 % 256) ∷ (v % 256) ∷ []

-- `encodeUint64Word` and `u64ToH256`
unfoldable pub u64_word : ℕ → Bytes
unfolding put_uint64
u64_word v = replicate 24 0 ++ put_uint64 v

-- `u32ToH256`
unfoldable pub u32_word : ℕ → Bytes
unfolding put_uint32
u32_word v = replicate 28 0 ++ put_uint32 v

pub length-u64_word : (v : ℕ) → length (u64_word v) ≡ 32
unfolding u64_word
length-u64_word v = refl

pub length-u32_word : (v : ℕ) → length (u32_word v) ≡ 32
unfolding u32_word
length-u32_word v = refl

put_uint64_injective : (a b : ℕ) → a < 2 ^ 64 → b < 2 ^ 64 → put_uint64 a ≡ put_uint64 b → a ≡ b
unfolding put_uint64
put_uint64_injective a b ha hb e = ground arith

pub u64_word_injective : (a b : ℕ) → a < 2 ^ 64 → b < 2 ^ 64 → u64_word a ≡ u64_word b → a ≡ b
unfolding u64_word
u64_word_injective a b ha hb e =
    put_uint64_injective a b ha hb (append_split (replicate 24 0) (replicate 24 0) _ _ refl e).1

-- Words that are followed by anything are still told apart.
pub u64_word_split :
    (a b : ℕ) (xs ys : Bytes)
    → a < 2 ^ 64
    → b < 2 ^ 64
    → u64_word a ++ xs ≡ u64_word b ++ ys
    → (a ≡ b) × (xs ≡ ys)
u64_word_split a b xs ys ha hb e =
    let (same, rest) =
      append_split (u64_word a) (u64_word b) xs ys (length-u64_word a ∙ sym (length-u64_word b))
        e in
    (u64_word_injective a b ha hb same, rest)
