-- ===== src/Tools/Fixtures/Sets.antt =====
-- tools/cometbls-fixtures/main.go: `makeFixtureSet`, and what it calls but the tree. Go's `sort.Slice`
-- is an insertion sort for at most twelve items; longer sets differ from it in the order of equal
-- keys only.
pub mod Keys
pub mod Neighbors
pub mod Shown
pub mod Leaves
pub mod Writes
pub mod Verified
pub mod Total
use gno_ibc.Prelude.{
  ℕ, zero, suc, ◌+◌, ◌&&◌, Bool, true, false, Option, none, some, List, [], ◌∷◌, ◌++◌, Bytes,
  length, replicate, set, ltb, if◌then◌else◌,
}
use gno_ibc.Prelude.Result.{Result, ok, err, ◌>>=◌}
use gno_ibc.Encoding.Hex.{codes, hex_decode}
use gno_ibc.Tools.Fixtures.Wire.{
  encode_leaf_op, encode_existence_proof, encode_non_existence_proof, encode_commitment_exist,
  encode_commitment_nonexist, encode_merkle_proof, hash_op_sha256, hash_op_no_hash,
  length_op_var_proto,
}
use gno_ibc.Tools.Fixtures.Iavl.{
  FixtureInput, LeafNode, Node, Panic, index_out_of_range, invalid_hex, key_exists,
  iavl_leaf_prefix, apply_leaf, build_iavl_root,
}
use Prim.Native.Nat.{compare, Ordering}

-- `fixture`
pub record Fixture : Type 0 where
  pub input : FixtureInput
  pub subroot : Bytes
  pub app_root : Bytes
  pub proof_bz : Bytes
  pub non_membership_proof : Bytes

abbrev pub wasm_store_key : Bytes
wasm_store_key = codes "wasm"

abbrev pub contract_address : Bytes
contract_address = codes "0cf2ffe8f45a20514018173d3007644817a9767dc0fbdb246696fd9c261ce3bc"

-- `mustHex`
unfoldable pub must_hex : Bytes → Result Panic Bytes
unfolding hex_decode
must_hex s = elim (hex_decode s) [ none ↦ err invalid_hex | some bz ↦ ok bz ]

-- `wasmContractStoreKeyPrefix` and `wasmContractStoreKey`
unfoldable pub wasm_contract_store_key_prefix : Result Panic Bytes
unfolding must_hex
wasm_contract_store_key_prefix = do
  address ← must_hex contract_address
  ok (3 ∷ (address ++ 0 ∷ []))

unfoldable pub wasm_contract_store_key : Bytes → Result Panic Bytes
unfolding wasm_contract_store_key_prefix
wasm_contract_store_key key = do prefix ← wasm_contract_store_key_prefix; ok (prefix ++ key)

-- `bytes.Compare`
unfoldable pub bytes_compare : Bytes → Bytes → Ordering
bytes_compare [] [] = Ordering.eq
bytes_compare [] (y ∷ ys) = Ordering.lt
bytes_compare (x ∷ xs) [] = Ordering.gt
bytes_compare (x ∷ xs) (y ∷ ys) =
    let rest = bytes_compare xs ys in
    elim (compare x y) [
      | Ordering.lt ↦ Ordering.lt
      | Ordering.gt ↦ Ordering.gt
      | Ordering.eq ↦ rest
    ]

unfoldable pub bytes_lt : Bytes → Bytes → Bool
unfolding bytes_compare
bytes_lt a b = elim (bytes_compare a b) [ Ordering.lt ↦ true | _ ↦ false ]

-- `sort.Slice` by the keys: each leaf moves in front of the sorted leaves with greater keys.
unfoldable pub insert_leaf : LeafNode → List LeafNode → List LeafNode
unfolding bytes_lt
insert_leaf leaf [] = leaf ∷ []
insert_leaf leaf (other ∷ leaves) =
    let rest = insert_leaf leaf leaves in
    if bytes_lt leaf.input.key other.input.key then leaf ∷ other ∷ leaves else other ∷ rest

unfoldable pub insert_leaves : List LeafNode → List LeafNode → List LeafNode
unfolding insert_leaf
insert_leaves sorted [] = sorted
insert_leaves sorted (leaf ∷ leaves) = insert_leaves (insert_leaf leaf sorted) leaves

unfoldable pub sort_leaves : List LeafNode → List LeafNode
unfolding insert_leaves
sort_leaves leaves = insert_leaves [] leaves

-- `encodeIavlExistenceProof`
unfoldable pub encode_iavl_existence_proof : Bytes → LeafNode → Result Panic Bytes
encode_iavl_existence_proof iavl_leaf leaf = do
  key ← wasm_contract_store_key leaf.input.key
  ok (encode_existence_proof key leaf.input.value iavl_leaf leaf.proof)

-- `nonMembershipNeighbors`, its loop first
unfoldable pub neighbors_loop :
    List LeafNode → Bytes → Bytes → Bytes → Bytes → Result Panic (Bytes × Bytes)
neighbors_loop [] key target_key iavl_leaf left = ok (left, [])
neighbors_loop (leaf ∷ leaves) key target_key iavl_leaf left =
    wasm_contract_store_key leaf.input.key >>= λ leaf_key.
    elim (bytes_compare leaf_key target_key) [
      | Ordering.lt ↦
          encode_iavl_existence_proof iavl_leaf leaf
          >>= neighbors_loop leaves key target_key iavl_leaf
      | Ordering.gt ↦ encode_iavl_existence_proof iavl_leaf leaf >>= λ right. ok (left, right)
      | Ordering.eq ↦ err (key_exists key)
    ]

unfoldable pub non_membership_neighbors :
    List LeafNode → Bytes → Bytes → Result Panic (Bytes × Bytes)
non_membership_neighbors leaves key iavl_leaf = do
  target_key ← wasm_contract_store_key key
  neighbors_loop leaves key target_key iavl_leaf []

-- The non-membership proof of a leaf, which is empty where its input names no key.
unfoldable pub make_non_membership_proof :
    List LeafNode → Bytes → Bytes → Bytes → Result Panic Bytes
make_non_membership_proof leaves [] iavl_leaf tm_exist = ok []
make_non_membership_proof leaves (b ∷ bs) iavl_leaf tm_exist = do
  (left, right) ← non_membership_neighbors leaves (b ∷ bs) iavl_leaf
  let iavl_nonexist = encode_non_existence_proof (b ∷ bs) left right
  ok (
      encode_merkle_proof
        (encode_commitment_nonexist iavl_nonexist ∷ encode_commitment_exist tm_exist ∷ []))

-- The leaves that the first loop of `makeFixtureSet` makes, from an index on.
unfoldable pub new_leaves : (Bytes → Bytes) → Bytes → ℕ → List FixtureInput → List LeafNode
new_leaves sum256 prefix i [] = []
new_leaves sum256 prefix i (input ∷ inputs) =
    record {
      input = input;
      input_idx = i;
      hash = apply_leaf sum256 iavl_leaf_prefix (prefix ++ input.key) input.value;
      proof = [];
    }
    ∷ new_leaves sum256 prefix (suc i) inputs

-- The leaf operation, by its prefix.
unfoldable pub leaf_op : Bytes → Bytes
leaf_op prefix =
    encode_leaf_op hash_op_sha256 hash_op_no_hash hash_op_sha256 length_op_var_proto prefix

-- The body of the last loop: the fixture of a leaf, by the tree's root.
unfoldable pub make_fixture :
    List LeafNode → Bytes → Bytes → Bytes → LeafNode → Result Panic Fixture
make_fixture leaves iavl_root tm_exist app_root leaf = do
  iavl_exist ← encode_iavl_existence_proof (leaf_op iavl_leaf_prefix) leaf
  let proof =
      encode_merkle_proof
        (encode_commitment_exist iavl_exist ∷ encode_commitment_exist tm_exist ∷ [])
  non_membership_proof ←
      make_non_membership_proof leaves leaf.input.non_membership_key (leaf_op iavl_leaf_prefix)
        tm_exist
  ok (record {
    input = leaf.input;
    subroot = iavl_root;
    app_root = app_root;
    proof_bz = proof;
    non_membership_proof = non_membership_proof;
  })

-- `for _, leaf := range leaves { … out[leaf.inputIdx] = … }`
unfoldable pub write_fixtures :
    (LeafNode → Result Panic Fixture) → List LeafNode → List Fixture → Result Panic (List Fixture)
write_fixtures make [] out = ok out
write_fixtures make (leaf ∷ leaves) out = make leaf >>= λ fx.
    elim (ltb leaf.input_idx (length out)) [
      | true ↦ write_fixtures make leaves (set out leaf.input_idx fx)
      | false ↦ err index_out_of_range
    ]

abbrev pub zero_fixture : Fixture
zero_fixture = record {
  input = record { name = []; key = []; value = []; non_membership_key = [] };
  subroot = [];
  app_root = [];
  proof_bz = [];
  non_membership_proof = [];
}

-- `makeFixtureSet`
unfoldable pub make_fixture_set : (Bytes → Bytes) → List FixtureInput → Result Panic (List Fixture)
make_fixture_set sum256 inputs = do
  prefix ← wasm_contract_store_key_prefix
  root ← build_iavl_root sum256 (sort_leaves (new_leaves sum256 prefix 0 inputs))
  let tm_exist = encode_existence_proof wasm_store_key root.hash (leaf_op (0 ∷ [])) []
  let app_root = apply_leaf sum256 (0 ∷ []) wasm_store_key root.hash
  write_fixtures (make_fixture root.leaves root.hash tm_exist app_root) root.leaves
      (replicate (length inputs) zero_fixture)
