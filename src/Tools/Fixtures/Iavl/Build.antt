-- ===== src/Tools/Fixtures/Iavl/Build.antt =====
-- The proofs in the tree that `buildIavlRoot` builds run to its root.
use gno_ibc.Prelude.{
  ℕ, zero, suc, ◌+◌, ◌≡◌, refl, subst, ◌∙◌, some, Option-cases, inl, inr, List, [], ◌∷◌, ◌++◌,
  Bytes, length, arith,
}
use gno_ibc.Prelude.Result.{ok}
use mathlib.Core.List.{append_assoc, append-nil}
use gno_ibc.Tools.Fixtures.Wire.{pb_varint, with_length, encode_inner_op, hash_op_sha256}
use gno_ibc.Tools.Fixtures.Wire.Messages.{optional_entry, read_message-encode_inner_op}
use gno_ibc.Tools.Fixtures.Iavl.{
  LeafNode, Node, max, iavl_inner_prefix, append_op, leaf_nodes, apply_inner, combine_iavl_nodes,
  next_level, build_levels, build_iavl_root,
}
use gno_ibc.Tools.Fixtures.Iavl.Verify.{chunk_of, run_inner_op, run_inner_ops, ◌>>=◌}

chunk_of-optional : (n : ℕ) (bz : Bytes) → chunk_of 3 (optional_entry 3 bz) ≡ bz
chunk_of-optional n [] = refl
chunk_of-optional n (b ∷ bs) = refl

-- Leaves before the tree is built.
abbrev pub AllFresh : List LeafNode → Type 0
AllFresh [] = Unit
AllFresh (leaf ∷ leaves) = (leaf.proof ≡ []) × AllFresh leaves

module _ (sum256 : Bytes → Bytes) where
  -- An encoded inner operation, run.
  run_inner_op-encode_inner_op :
      (prefix suffix child : Bytes)
      → run_inner_op sum256 (encode_inner_op hash_op_sha256 prefix suffix) child
        ≡ some (sum256 (prefix ++ (child ++ suffix)))
  unfolding run_inner_op
  run_inner_op-encode_inner_op prefix suffix child =
      rw (read_message-encode_inner_op 1 prefix suffix, chunk_of-optional 3 suffix) refl

  run_inner_ops-append :
      (ops : List Bytes) (op child mid last : Bytes)
      → run_inner_ops sum256 ops child ≡ some mid
      → run_inner_op sum256 op mid ≡ some last
      → run_inner_ops sum256 (ops ++ op ∷ []) child ≡ some last
  unfolding run_inner_ops
  run_inner_ops-append [] op child mid last ran ran' = ground arith
  run_inner_ops-append (first ∷ ops) op child mid last ran ran' =
      elim (Option-cases (run_inner_op sum256 first child)) [
        | inl none_ran ↦ absurd (ground (arith, none_ran))
        | inr (next, first_ran) ↦
            rw (first_ran, ◌>>=◌)
              (run_inner_ops-append ops op next mid last (rw (first_ran, ◌>>=◌) at ran) ran')
      ]

  -- The operations of a combined node, at its two children.
  left_op_reaches :
      (prefix left right : Bytes)
      → run_inner_op sum256
          (encode_inner_op hash_op_sha256 (prefix ++ pb_varint (length left)) (with_length right))
          left
        ≡ some (apply_inner sum256 prefix left right)
  unfolding apply_inner with_length
  left_op_reaches prefix left right =
      run_inner_op-encode_inner_op (prefix ++ pb_varint (length left)) (with_length right) left
      ∙ simp append_assoc

  right_op_reaches :
      (prefix left right : Bytes)
      → run_inner_op sum256
          (encode_inner_op hash_op_sha256
            (prefix ++ (with_length left ++ pb_varint (length right)))
            [])
          right
        ≡ some (apply_inner sum256 prefix left right)
  unfolding apply_inner with_length
  right_op_reaches prefix left right =
      run_inner_op-encode_inner_op (prefix ++ (with_length left ++ pb_varint (length right))) []
        right
      ∙ simp (append_assoc, append-nil)

  -- All leaves have proofs that run to a hash.
  abbrev pub Proven : Bytes → List LeafNode → Type 0
  Proven root [] = Unit
  Proven root (leaf ∷ leaves) =
      (run_inner_ops sum256 leaf.proof leaf.hash ≡ some root) × Proven root leaves

  abbrev pub NodesProven : List Node → Type 0
  NodesProven [] = Unit
  NodesProven (node ∷ nodes) = Proven node.hash node.leaves × NodesProven nodes

  append_op-Proven :
      (low high op : Bytes) (leaves : List LeafNode)
      → run_inner_op sum256 op low ≡ some high
      → Proven low leaves
      → Proven high (append_op op leaves)
  unfolding append_op
  append_op-Proven low high op [] ran p = tt
  append_op-Proven low high op (leaf ∷ leaves) ran (here, rest) = (
    run_inner_ops-append leaf.proof op leaf.hash low high here ran,
    append_op-Proven low high op leaves ran rest,
  )

  Proven-append :
      (root : Bytes) (xs ys : List LeafNode)
      → Proven root xs
      → Proven root ys
      → Proven root (xs ++ ys)
  Proven-append root [] ys p q = q
  Proven-append root (x ∷ xs) ys (here, rest) q = (here, Proven-append root xs ys rest q)

  combine-Proven :
      (left right : Node)
      → Proven left.hash left.leaves
      → Proven right.hash right.leaves
      → let node = combine_iavl_nodes sum256 left right in Proven node.hash node.leaves
  unfolding combine_iavl_nodes
  combine-Proven left right p q =
      let prefix = iavl_inner_prefix (max left.height right.height + 1) (left.size + right.size) in
      let hash = apply_inner sum256 prefix left.hash right.hash in
      Proven-append hash (append_op _ left.leaves) (append_op _ right.leaves)
        (append_op-Proven left.hash hash _ left.leaves (left_op_reaches prefix left.hash right.hash)
          p)
        (append_op-Proven right.hash hash _ right.leaves
          (right_op_reaches prefix left.hash right.hash) q)

  next_level-Proven :
      (nodes : List Node) → NodesProven nodes → NodesProven (next_level sum256 nodes)
  unfolding next_level
  next_level-Proven [] p = tt
  next_level-Proven (node ∷ []) p = p
  next_level-Proven (left ∷ right ∷ nodes) (p, (q, rest)) =
      (combine-Proven left right p q, next_level-Proven nodes rest)

  build_levels-Proven :
      (rounds : ℕ) (nodes : List Node) {root : Node}
      → NodesProven nodes
      → build_levels sum256 rounds nodes ≡ ok root
      → Proven root.hash root.leaves
  unfolding build_levels
  build_levels-Proven rounds [] p built = cc
  build_levels-Proven rounds (node ∷ []) {root} (p, _) built =
      let same : node ≡ root = cc in subst (λ reached. Proven reached.hash reached.leaves) same p
  build_levels-Proven zero (left ∷ right ∷ nodes) p built = cc
  build_levels-Proven (suc rounds) (left ∷ right ∷ nodes) p built =
      build_levels-Proven rounds (next_level sum256 (left ∷ right ∷ nodes))
        (next_level-Proven (left ∷ right ∷ nodes) p) built

  leaf_nodes-Proven : (leaves : List LeafNode) → AllFresh leaves → NodesProven (leaf_nodes leaves)
  unfolding leaf_nodes run_inner_ops
  leaf_nodes-Proven [] fresh = tt
  leaf_nodes-Proven (leaf ∷ leaves) (fresh, rest) =
      ((rw fresh refl, tt), leaf_nodes-Proven leaves rest)

  -- Where the tree is built, the operations of every leaf run to the hash of the root.
  pub build_iavl_root-Proven :
      (leaves : List LeafNode) {root : Node}
      → AllFresh leaves
      → build_iavl_root sum256 leaves ≡ ok root
      → Proven root.hash root.leaves
  unfolding build_iavl_root
  build_iavl_root-Proven leaves fresh built =
      build_levels-Proven (length leaves) (leaf_nodes leaves) (leaf_nodes-Proven leaves fresh) built
