-- ===== src/Tools/Fixtures/Wire.antt =====
-- tools/cometbls-fixtures/main.go: the protobuf wire format, written by the `pb…` and `encode…`
-- functions. The numbers of the source are in the ranges of their types.
pub mod Read
pub mod Messages
use gno_ibc.Prelude.{
  ℕ, zero, suc, ◌+◌, ◌*◌, ◌/◌, ◌%◌, List, [], ◌∷◌, ◌++◌, Bytes, length, ltb, if◌then◌else◌,
}

-- `binary.AppendUvarint(nil, v)`: seven bits a byte, the lowest first. Each round divides by 128, so
-- `v` rounds are enough.
uvarint_rounds : ℕ → ℕ → Bytes
uvarint_rounds zero v = v ∷ []
uvarint_rounds (suc rounds) v =
    let rest = uvarint_rounds rounds (v / 128) in
    if ltb v 128 then v ∷ [] else (v % 128 + 128) ∷ rest

-- `pbVarint`
unfoldable pub pb_varint : ℕ → Bytes
unfolding uvarint_rounds
pb_varint v = uvarint_rounds v v

-- `binary.AppendVarint` of a number that is not negative: the sign bit comes last.
abbrev pub append_varint : Bytes → ℕ → Bytes
append_varint out v = out ++ pb_varint (2 * v)

-- `pbTag`; `fieldNum << 3 | wireType`, as a wire type is below 8
unfoldable pub pb_tag : ℕ → ℕ → Bytes
unfolding pb_varint
pb_tag field_num wire_type = pb_varint (field_num * 8 + wire_type)

-- The operation codes of ICS-23 that the program writes.
abbrev pub hash_op_sha256 : ℕ
hash_op_sha256 = 1

abbrev pub hash_op_no_hash : ℕ
hash_op_no_hash = 0

abbrev pub length_op_var_proto : ℕ
length_op_var_proto = 1

abbrev pub wire_type_varint : ℕ
wire_type_varint = 0

abbrev pub wire_type_bytes : ℕ
wire_type_bytes = 2

-- `withLength`
unfoldable pub with_length : Bytes → Bytes
unfolding pb_varint
with_length bz = pb_varint (length bz) ++ bz

-- `pbBytesField` and `pbVarintField`
unfoldable pub pb_bytes_field : ℕ → Bytes → Bytes
unfolding pb_tag
pb_bytes_field field_num bz = pb_tag field_num wire_type_bytes ++ (pb_varint (length bz) ++ bz)

unfoldable pub pb_varint_field : ℕ → ℕ → Bytes
unfolding pb_tag
pb_varint_field field_num v = pb_tag field_num wire_type_varint ++ pb_varint v

-- `encodeLeafOp`
unfoldable pub encode_leaf_op : ℕ → ℕ → ℕ → ℕ → Bytes → Bytes
unfolding pb_bytes_field pb_varint_field
encode_leaf_op hash prehash_key prehash_value len prefix =
    pb_varint_field 1 hash
    ++ (pb_varint_field 2 prehash_key
        ++ (pb_varint_field 3 prehash_value ++ (pb_varint_field 4 len ++ pb_bytes_field 5 prefix)))

-- The loop of `encodeExistenceProof`, and of `encodeMerkleProof`.
unfoldable pub bytes_fields : ℕ → List Bytes → Bytes
unfolding pb_bytes_field
bytes_fields field_num [] = []
bytes_fields field_num (item ∷ items) =
    pb_bytes_field field_num item ++ bytes_fields field_num items

-- `encodeExistenceProof`
unfoldable pub encode_existence_proof : Bytes → Bytes → Bytes → List Bytes → Bytes
unfolding pb_bytes_field bytes_fields
encode_existence_proof key value leaf inner_ops =
    pb_bytes_field 1 key
    ++ (pb_bytes_field 2 value ++ (pb_bytes_field 3 leaf ++ bytes_fields 4 inner_ops))

-- `if len(data) > 0 { … }`
unfoldable pub optional_field : ℕ → Bytes → Bytes
unfolding pb_bytes_field
optional_field field_num [] = []
optional_field field_num (b ∷ bs) = pb_bytes_field field_num (b ∷ bs)

-- `encodeInnerOp`
unfoldable pub encode_inner_op : ℕ → Bytes → Bytes → Bytes
unfolding pb_bytes_field pb_varint_field optional_field
encode_inner_op hash prefix suffix =
    pb_varint_field 1 hash ++ (pb_bytes_field 2 prefix ++ optional_field 3 suffix)

-- `encodeNonExistenceProof`
unfoldable pub encode_non_existence_proof : Bytes → Bytes → Bytes → Bytes
unfolding optional_field
encode_non_existence_proof key left right =
    optional_field 1 key ++ (optional_field 2 left ++ optional_field 3 right)

-- `encodeCommitmentExist`, `encodeCommitmentNonexist` and `encodeMerkleProof`
unfoldable pub encode_commitment_exist : Bytes → Bytes
unfolding pb_bytes_field
encode_commitment_exist proof = pb_bytes_field 1 proof

unfoldable pub encode_commitment_nonexist : Bytes → Bytes
unfolding pb_bytes_field
encode_commitment_nonexist proof = pb_bytes_field 2 proof

unfoldable pub encode_merkle_proof : List Bytes → Bytes
unfolding bytes_fields
encode_merkle_proof proofs = bytes_fields 1 proofs
