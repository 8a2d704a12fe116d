-- ===== src/Tools/Fixtures/Sets/Shown.antt =====
-- What the verifier finds in the messages that the program encodes.
use gno_ibc.Prelude.{◌≡◌, refl, ap, some, List, [], ◌∷◌, map, Bytes}
use gno_ibc.Prelude.Eq.{bytes_eq, ==_refl}
use gno_ibc.Tools.Fixtures.Wire.{
  encode_existence_proof, encode_commitment_exist, encode_merkle_proof,
}
use gno_ibc.Tools.Fixtures.Wire.Read.{chunk}
use gno_ibc.Tools.Fixtures.Wire.Messages.{
  read_message-encode_existence_proof, read_message-encode_leaf_op,
  read_message-encode_merkle_proof, read_message-encode_commitment_exist,
}
use gno_ibc.Tools.Fixtures.Iavl.{apply_leaf}
use gno_ibc.Tools.Fixtures.Iavl.Verify.{
  Shown, chunks_of, run_leaf_op, run_inner_ops, run_existence_proof, run_chained, run_membership,
  ◌>>=◌,
}
use gno_ibc.Tools.Fixtures.Sets.{leaf_op}

chunks_of-map : (ops : List Bytes) → chunks_of 4 (map (chunk 4) ops) ≡ ops
chunks_of-map [] = refl
chunks_of-map (op ∷ ops) = ap (λ rest. op ∷ rest) (chunks_of-map ops)

module _ (sum256 : Bytes → Bytes) where
  run_leaf_op-leaf_op :
      (prefix key value : Bytes)
      → run_leaf_op sum256 (leaf_op prefix) key value ≡ some (apply_leaf sum256 prefix key value)
  unfolding run_leaf_op leaf_op apply_leaf
  run_leaf_op-leaf_op prefix key value = rw (read_message-encode_leaf_op 1 0 1 1 prefix, ◌>>=◌) refl

  -- An existence proof shows its value under its key, at the root that its operations run to.
  pub run_existence_proof-encode :
      (prefix key value : Bytes) (ops : List Bytes) (root : Bytes)
      → run_inner_ops sum256 ops (apply_leaf sum256 prefix key value) ≡ some root
      → run_existence_proof sum256 (encode_existence_proof key value (leaf_op prefix) ops)
        ≡ some (record { key = key; value = value; root = root })
  unfolding run_existence_proof
  run_existence_proof-encode prefix key value ops root ran =
      rw
        (
          read_message-encode_existence_proof key value (leaf_op prefix) ops,
          ◌>>=◌,
          run_leaf_op-leaf_op prefix key value,
          chunks_of-map ops,
          ran,
        )
        refl

  -- Two existence proofs, the second over the root of the first.
  pub run_membership-encode :
      (first second : Bytes) (shown above : Shown)
      → run_existence_proof sum256 first ≡ some shown
      → run_existence_proof sum256 second ≡ some above
      → above.value ≡ shown.root
      → run_membership sum256 (
          encode_merkle_proof (encode_commitment_exist first ∷ encode_commitment_exist second ∷ []))
        ≡ some (shown, above)
  unfolding run_membership run_chained
  run_membership-encode first second shown above ran ran' linked =
      rw
        (
          read_message-encode_merkle_proof
              (encode_commitment_exist first ∷ encode_commitment_exist second ∷ []),
          ◌>>=◌,
          read_message-encode_commitment_exist first,
          read_message-encode_commitment_exist second,
          ran,
          ran',
          linked,
          ==_refl shown.root,
        )
        refl
