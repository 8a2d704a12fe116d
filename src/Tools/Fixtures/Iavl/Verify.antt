-- ===== src/Tools/Fixtures/Iavl/Verify.antt =====
-- A verifier of membership proofs. It reads the wire format and knows nothing of how the proofs were
-- built.
use gno_ibc.Prelude.{
  ℕ, ◌&&◌, Option, none, some, List, [], ◌∷◌, ◌++◌, Bytes, length, eqb, if◌then◌else◌,
}
use gno_ibc.Prelude.Eq.{◌==◌, bytes_eq}
use gno_ibc.Tools.Fixtures.Wire.{pb_varint}
use gno_ibc.Tools.Fixtures.Wire.Read.{Entry, number, chunk, read_message}

-- The first field with a number, and all; a missing field has the value 0 or no bytes.
abbrev pub number_of : ℕ → List Entry → ℕ
number_of field_num [] = 0
number_of field_num (chunk n bz ∷ entries) = number_of field_num entries
number_of field_num (number n v ∷ entries) =
    let rest = number_of field_num entries in if eqb n field_num then v else rest

abbrev pub chunk_of : ℕ → List Entry → Bytes
chunk_of field_num [] = []
chunk_of field_num (number n v ∷ entries) = chunk_of field_num entries
chunk_of field_num (chunk n bz ∷ entries) =
    let rest = chunk_of field_num entries in if eqb n field_num then bz else rest

abbrev pub chunks_of : ℕ → List Entry → List Bytes
chunks_of field_num [] = []
chunks_of field_num (number n v ∷ entries) = chunks_of field_num entries
chunks_of field_num (chunk n bz ∷ entries) =
    let rest = chunks_of field_num entries in if eqb n field_num then bz ∷ rest else rest

-- What an existence proof shows: that a root has a value under a key.
pub record Shown : Type 0 where
  pub key : Bytes
  pub value : Bytes
  pub root : Bytes

infixl 5 ◌>>=◌
abbrev pub ◌>>=◌ : {A B : Type 0} → Option A → (A → Option B) → Option B
none >>= next = none
some a >>= next = next a

module _ (sum256 : Bytes → Bytes) where
  -- The hash above a child, by an encoded inner operation.
  unfoldable pub run_inner_op : Bytes → Bytes → Option Bytes
  run_inner_op op child = do
    entries ← read_message op
    if eqb (number_of 1 entries) 1
        then some (sum256 (chunk_of 2 entries ++ (child ++ chunk_of 3 entries)))
        else none

  unfoldable pub run_inner_ops : List Bytes → Bytes → Option Bytes
  unfolding run_inner_op
  run_inner_ops [] child = some child
  run_inner_ops (op ∷ ops) child = run_inner_op op child >>= run_inner_ops ops

  -- The hash of a leaf, by an encoded leaf operation: the key as it is, the value hashed, each after
  -- its length.
  unfoldable pub run_leaf_op : Bytes → Bytes → Bytes → Option Bytes
  run_leaf_op op key value = do
    entries ← read_message op
    if eqb (number_of 1 entries) 1
          && eqb (number_of 2 entries) 0
          && eqb (number_of 3 entries) 1
          && eqb (number_of 4 entries) 1
        then some (
            sum256 (
              chunk_of 5 entries
              ++ (pb_varint (length key)
                  ++ (key ++ (pb_varint (length (sum256 value)) ++ sum256 value)))))
        else none

  unfoldable pub run_existence_proof : Bytes → Option Shown
  unfolding run_leaf_op run_inner_ops
  run_existence_proof proof = do
    entries ← read_message proof
    let key = chunk_of 1 entries
    let value = chunk_of 2 entries
    leaf ← run_leaf_op (chunk_of 3 entries) key value
    root ← run_inner_ops (chunks_of 4 entries) leaf
    some (record { key = key; value = value; root = root })

  -- Two proofs, the second of which shows the root of the first.
  unfoldable pub run_chained : Option Shown → Bytes → Option (Shown × Shown)
  unfolding run_existence_proof
  run_chained first commitment = do
    shown ← first
    entries ← read_message commitment
    above ← run_existence_proof (chunk_of 1 entries)
    if above.value == shown.root then some (shown, above) else none

  unfoldable pub run_membership : Bytes → Option (Shown × Shown)
  unfolding run_chained
  run_membership proof = do
    entries ← read_message proof
    elim (chunks_of 1 entries) [
      | [] ↦ none
      | first ∷ others ↦ elim others [
        | [] ↦ none
        | second ∷ _ ↦ do
          inner ← read_message first
          run_chained (run_existence_proof (chunk_of 1 inner)) second
      ]
    ]
