-- ===== src/Tools/Fixtures/Wire/Messages.antt =====
-- The messages of tools/cometbls-fixtures/main.go, each read back as the fields that it consists of.
use gno_ibc.Prelude.{ℕ, ◌≡◌, refl, ap, ◌∙◌, sym, some, List, [], ◌∷◌, ◌++◌, map, Bytes}
use mathlib.Core.List.{append_assoc, append-nil}
use gno_ibc.Tools.Fixtures.Wire.{
  pb_bytes_field, encode_leaf_op, bytes_fields, encode_existence_proof, optional_field,
  encode_inner_op, encode_non_existence_proof, encode_commitment_exist, encode_commitment_nonexist,
  encode_merkle_proof,
}
use gno_ibc.Tools.Fixtures.Wire.Read.{
  Entry, number, chunk, read_message, write_entry, write_entries, read_message-write_entries,
}

-- The messages, as the fields that they consist of.
chunks :
    (field_num : ℕ) (items : List Bytes)
    → bytes_fields field_num items ≡ write_entries (map (chunk field_num) items)
unfolding bytes_fields
chunks field_num [] = refl
chunks field_num (item ∷ items) =
    ap (λ rest. pb_bytes_field field_num item ++ rest) (chunks field_num items)

abbrev pub optional_entry : ℕ → Bytes → List Entry
optional_entry field_num [] = []
optional_entry field_num (b ∷ bs) = chunk field_num (b ∷ bs) ∷ []

optional :
    (field_num : ℕ) (bz : Bytes)
    → optional_field field_num bz ≡ write_entries (optional_entry field_num bz)
unfolding optional_field
optional field_num [] = refl
optional field_num (b ∷ bs) = sym (append-nil (pb_bytes_field field_num (b ∷ bs)))

write_entries-append :
    (xs ys : List Entry) → write_entries xs ++ write_entries ys ≡ write_entries (xs ++ ys)
write_entries-append [] ys = refl
write_entries-append (x ∷ xs) ys =
    append_assoc (write_entry x) (write_entries xs) (write_entries ys)
    ∙ ap (λ rest. write_entry x ++ rest) (write_entries-append xs ys)

read_entries :
    {bz : Bytes} (entries : List Entry)
    → bz ≡ write_entries entries
    → read_message bz ≡ some entries
read_entries entries e = rw e (read_message-write_entries entries)

-- The bytes of an existence proof are read back, by a reader that does not know the encoder, as the key,
-- the value, the leaf operation and every inner operation in order.
pub read_message-encode_existence_proof :
    (key value leaf : Bytes) (inner_ops : List Bytes)
    → read_message (encode_existence_proof key value leaf inner_ops)
      ≡ some (chunk 1 key ∷ chunk 2 value ∷ chunk 3 leaf ∷ map (chunk 4) inner_ops)
unfolding encode_existence_proof
read_message-encode_existence_proof key value leaf inner_ops =
    read_entries (chunk 1 key ∷ chunk 2 value ∷ chunk 3 leaf ∷ map (chunk 4) inner_ops)
      (rw (chunks 4 inner_ops) refl)

pub read_message-encode_leaf_op :
    (hash prehash_key prehash_value len : ℕ) (prefix : Bytes)
    → read_message (encode_leaf_op hash prehash_key prehash_value len prefix)
      ≡ some (
          number 1 hash
          ∷ number 2 prehash_key
          ∷ number 3 prehash_value
          ∷ number 4 len
          ∷ chunk 5 prefix
          ∷ [])
unfolding encode_leaf_op
read_message-encode_leaf_op hash prehash_key prehash_value len prefix =
    read_entries
      (number 1 hash
        ∷ number 2 prehash_key
        ∷ number 3 prehash_value
        ∷ number 4 len
        ∷ chunk 5 prefix
        ∷ [])
      (rw (append-nil (pb_bytes_field 5 prefix)) refl)

pub read_message-encode_inner_op :
    (hash : ℕ) (prefix suffix : Bytes)
    → read_message (encode_inner_op hash prefix suffix)
      ≡ some (number 1 hash ∷ chunk 2 prefix ∷ optional_entry 3 suffix)
unfolding encode_inner_op
read_message-encode_inner_op hash prefix suffix =
    read_entries (number 1 hash ∷ chunk 2 prefix ∷ optional_entry 3 suffix)
      (rw (optional 3 suffix) refl)

-- The bytes of a non-existence proof are read back as its key and its neighbours, of which the empty ones
-- are left out.
pub read_message-encode_non_existence_proof :
    (key left right : Bytes)
    → read_message (encode_non_existence_proof key left right)
      ≡ some (optional_entry 1 key ++ (optional_entry 2 left ++ optional_entry 3 right))
unfolding encode_non_existence_proof
read_message-encode_non_existence_proof key left right =
    read_entries (optional_entry 1 key ++ (optional_entry 2 left ++ optional_entry 3 right)) (
      rw
        (
          optional 1 key,
          optional 2 left,
          optional 3 right,
          write_entries-append (optional_entry 2 left) (optional_entry 3 right),
        )
        (write_entries-append (optional_entry 1 key) _))

pub read_message-encode_merkle_proof :
    (proofs : List Bytes) → read_message (encode_merkle_proof proofs) ≡ some (map (chunk 1) proofs)
unfolding encode_merkle_proof
read_message-encode_merkle_proof proofs = read_entries (map (chunk 1) proofs) (chunks 1 proofs)

pub read_message-encode_commitment_exist :
    (proof : Bytes) → read_message (encode_commitment_exist proof) ≡ some (chunk 1 proof ∷ [])
unfolding encode_commitment_exist
read_message-encode_commitment_exist proof =
    read_entries (chunk 1 proof ∷ []) (sym (append-nil (pb_bytes_field 1 proof)))

pub read_message-encode_commitment_nonexist :
    (proof : Bytes) → read_message (encode_commitment_nonexist proof) ≡ some (chunk 2 proof ∷ [])
unfolding encode_commitment_nonexist
read_message-encode_commitment_nonexist proof =
    read_entries (chunk 2 proof ∷ []) (sym (append-nil (pb_bytes_field 2 proof)))
