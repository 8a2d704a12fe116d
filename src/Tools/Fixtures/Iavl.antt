-- ===== src/Tools/Fixtures/Iavl.antt =====
-- tools/cometbls-fixtures/main.go: the tree over the leaves, with a proof at each leaf. The hash is a
-- parameter. A leaf stands in the one node of each level that owns it, so a node holds its leaves
-- themselves, and what the source reads through its slice of pointers are the leaves of the root.
pub mod Verify
pub mod Build
pub mod Shape
use gno_ibc.Prelude.{ℕ, zero, suc, ◌+◌, List, [], ◌∷◌, ◌++◌, map, Bytes, length, ltb, if◌then◌else◌}
use gno_ibc.Prelude.Result.{Result, ok, err}
use gno_ibc.Encoding.Hex.{codes}
use gno_ibc.Tools.Fixtures.Wire.{
  append_varint, pb_varint, with_length, encode_inner_op, encode_existence_proof, hash_op_sha256,
}

-- `fixtureInput`, `iavlLeafNode` and `iavlNode`
pub record FixtureInput : Type 0 where
  pub name : Bytes
  pub key : Bytes
  pub value : Bytes
  pub non_membership_key : Bytes

pub record LeafNode : Type 0 where
  pub input : FixtureInput
  pub input_idx : ℕ
  pub hash : Bytes
  pub proof : List Bytes

pub record Node : Type 0 where
  pub hash : Bytes
  pub height : ℕ
  pub size : ℕ
  pub leaves : List LeafNode

-- The panics of the program, and a loop that is cut short.
pub data Panic : Type 0 where
  index_out_of_range : Panic
  invalid_hex : Panic
  key_exists : Bytes → Panic
  out_of_rounds : Panic

-- `iavlInnerPrefix` and `iavlLeafPrefix`
unfoldable pub iavl_inner_prefix : ℕ → ℕ → Bytes
iavl_inner_prefix height size = append_varint (append_varint (append_varint [] height) size) 1

unfoldable pub iavl_leaf_prefix : Bytes
unfolding iavl_inner_prefix
iavl_leaf_prefix = iavl_inner_prefix 0 1

abbrev pub max : ℕ → ℕ → ℕ
max a b = if ltb a b then b else a

-- `leaf.proof = append(leaf.proof, op)` in a loop over leaves
unfoldable pub append_op : Bytes → List LeafNode → List LeafNode
append_op op [] = []
append_op op (leaf ∷ leaves) = record leaf { proof = leaf.proof ++ op ∷ [] } ∷ append_op op leaves

-- The first loop of `buildIavlRoot`
unfoldable pub leaf_nodes : List LeafNode → List Node
leaf_nodes [] = []
leaf_nodes (leaf ∷ leaves) =
    record { hash = leaf.hash; height = 0; size = 1; leaves = leaf ∷ [] } ∷ leaf_nodes leaves

module _ (sum256 : Bytes → Bytes) where
  -- `applyLeaf` and `applyInner`
  unfoldable pub apply_leaf : Bytes → Bytes → Bytes → Bytes
  apply_leaf prefix key value =
      let value_hash = sum256 value in
      sum256 (
        prefix
        ++ (pb_varint (length key) ++ (key ++ (pb_varint (length value_hash) ++ value_hash))))

  unfoldable pub apply_inner : Bytes → Bytes → Bytes → Bytes
  unfolding with_length
  apply_inner prefix left right = sum256 (prefix ++ (with_length left ++ with_length right))

  -- `combineIavlNodes`
  unfoldable pub combine_iavl_nodes : Node → Node → Node
  unfolding apply_inner append_op
  combine_iavl_nodes left right =
      let height = max left.height right.height + 1 in
      let size = left.size + right.size in
      let prefix = iavl_inner_prefix height size in
      let left_op_prefix = prefix ++ pb_varint (length left.hash) in
      let right_op_prefix = prefix ++ (with_length left.hash ++ pb_varint (length right.hash)) in
      let left_op = encode_inner_op hash_op_sha256 left_op_prefix (with_length right.hash) in
      let right_op = encode_inner_op hash_op_sha256 right_op_prefix [] in
      record {
        hash = apply_inner prefix left.hash right.hash;
        height = height;
        size = size;
        leaves = append_op left_op left.leaves ++ append_op right_op right.leaves;
      }

  -- The inner loop of `buildIavlRoot`: one level.
  unfoldable pub next_level : List Node → List Node
  unfolding combine_iavl_nodes
  next_level [] = []
  next_level (node ∷ []) = node ∷ []
  next_level (left ∷ right ∷ nodes) = combine_iavl_nodes left right ∷ next_level nodes

  -- The outer loop, for a number of rounds.
  unfoldable pub build_levels : ℕ → List Node → Result Panic Node
  unfolding next_level
  build_levels rounds [] = err index_out_of_range
  build_levels rounds (node ∷ []) = ok node
  build_levels zero (left ∷ right ∷ nodes) = err out_of_rounds
  build_levels (suc rounds) (left ∷ right ∷ nodes) =
      build_levels rounds (next_level (left ∷ right ∷ nodes))

  -- `buildIavlRoot`; each round leaves fewer nodes, so as many rounds as leaves are enough.
  unfoldable pub build_iavl_root : List LeafNode → Result Panic Node
  unfolding leaf_nodes build_levels
  build_iavl_root leaves = build_levels (length leaves) (leaf_nodes leaves)
