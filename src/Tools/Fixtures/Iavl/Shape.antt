-- ===== src/Tools/Fixtures/Iavl/Shape.antt =====
-- The shape of the tree that `buildIavlRoot` builds: its leaves stay in order, and it always ends.
use gno_ibc.Prelude.{
  ℕ, zero, suc, ◌+◌, ◌/◌, ◌≤◌, ◌≡◌, refl, sym, ap, ◌∙◌, List, [], ◌∷◌, ◌++◌, Bytes, length, arith,
}
use gno_ibc.Prelude.Result.{ok}
use mathlib.Core.List.{append_assoc, append-nil}
use gno_ibc.Tools.Fixtures.Iavl.{
  FixtureInput, LeafNode, Node, append_op, leaf_nodes, combine_iavl_nodes, next_level, build_levels,
  build_iavl_root,
}

-- What of a leaf the tree keeps.
abbrev pub Origin : Type 0
Origin = FixtureInput × ℕ × Bytes

abbrev pub origins : List LeafNode → List Origin
origins [] = []
origins (leaf ∷ leaves) = (leaf.input, leaf.input_idx, leaf.hash) ∷ origins leaves

abbrev pub node_origins : List Node → List Origin
node_origins [] = []
node_origins (node ∷ nodes) = origins node.leaves ++ node_origins nodes

origins-append : (xs ys : List LeafNode) → origins (xs ++ ys) ≡ origins xs ++ origins ys
origins-append [] ys = refl
origins-append (x ∷ xs) ys =
    ap (λ rest. (x.input, x.input_idx, x.hash) ∷ rest) (origins-append xs ys)

origins-append_op :
    (op : Bytes) (leaves : List LeafNode) → origins (append_op op leaves) ≡ origins leaves
unfolding append_op
origins-append_op op [] = refl
origins-append_op op (leaf ∷ leaves) =
    ap (λ rest. (leaf.input, leaf.input_idx, leaf.hash) ∷ rest) (origins-append_op op leaves)

pub origins-leaf_nodes :
    (leaves : List LeafNode) → node_origins (leaf_nodes leaves) ≡ origins leaves
unfolding leaf_nodes
origins-leaf_nodes [] = refl
origins-leaf_nodes (leaf ∷ leaves) =
    ap (λ rest. (leaf.input, leaf.input_idx, leaf.hash) ∷ rest) (origins-leaf_nodes leaves)

length-leaf_nodes : (leaves : List LeafNode) → length (leaf_nodes leaves) ≡ length leaves
unfolding leaf_nodes
length-leaf_nodes [] = refl
length-leaf_nodes (leaf ∷ leaves) = ap suc (length-leaf_nodes leaves)

module _ (sum256 : Bytes → Bytes) where
  next_level-origins :
      (nodes : List Node) → node_origins (next_level sum256 nodes) ≡ node_origins nodes
  unfolding next_level combine_iavl_nodes
  next_level-origins [] = refl
  next_level-origins (node ∷ []) = refl
  next_level-origins (left ∷ right ∷ nodes) =
      rw
        (
          origins-append (append_op _ left.leaves) (append_op _ right.leaves),
          origins-append_op _ left.leaves,
          origins-append_op _ right.leaves,
          next_level-origins nodes,
        )
        (append_assoc (origins left.leaves) (origins right.leaves) (node_origins nodes))

  build_levels-origins :
      (rounds : ℕ) (nodes : List Node) {root : Node}
      → build_levels sum256 rounds nodes ≡ ok root
      → origins root.leaves ≡ node_origins nodes
  unfolding build_levels
  build_levels-origins rounds [] built = cc
  build_levels-origins rounds (node ∷ []) {root} built =
      let same : node ≡ root = cc in rw (← same) (sym (append-nil (origins node.leaves)))
  build_levels-origins zero (left ∷ right ∷ nodes) built = cc
  build_levels-origins (suc rounds) (left ∷ right ∷ nodes) built =
      build_levels-origins rounds (next_level sum256 (left ∷ right ∷ nodes)) built
      ∙ next_level-origins (left ∷ right ∷ nodes)

  -- The tree has the leaves that it was built from, in their order.
  pub build_iavl_root-origins :
      (leaves : List LeafNode) {root : Node}
      → build_iavl_root sum256 leaves ≡ ok root
      → origins root.leaves ≡ origins leaves
  unfolding build_iavl_root
  build_iavl_root-origins leaves built =
      build_levels-origins (length leaves) (leaf_nodes leaves) built ∙ origins-leaf_nodes leaves

  next_level-shrinks :
      (nodes : List Node) → length (next_level sum256 nodes) ≡ (length nodes + 1) / 2
  unfolding next_level
  next_level-shrinks [] = omega arith
  next_level-shrinks (node ∷ []) = omega arith
  next_level-shrinks (left ∷ right ∷ nodes) = omega (arith, next_level-shrinks nodes)

  build_levels_total :
      (rounds : ℕ) (node : Node) (nodes : List Node)
      → length nodes ≤ rounds
      → (root : Node) × (build_levels sum256 rounds (node ∷ nodes) ≡ ok root)
  unfolding build_levels
  build_levels_total rounds node [] enough = (node, refl)
  build_levels_total zero left (right ∷ nodes) enough = absurd (omega arith)
  build_levels_total (suc rounds) left (right ∷ nodes) enough =
      unfold next_level in
      build_levels_total rounds (combine_iavl_nodes sum256 left right) (next_level sum256 nodes)
        (omega (arith, next_level-shrinks nodes))

  pub build_iavl_root_total :
      (leaf : LeafNode) (leaves : List LeafNode)
      → (root : Node) × (build_iavl_root sum256 (leaf ∷ leaves) ≡ ok root)
  unfolding build_iavl_root leaf_nodes
  build_iavl_root_total leaf leaves =
      build_levels_total (suc (length leaves)) _ (leaf_nodes leaves)
        (omega (arith, length-leaf_nodes leaves))
