-- ===== src/Tools/Fixtures/Sets/Verified.antt =====
-- `makeFixtureSet`: what its fixtures prove, and for which inputs it returns.
use gno_ibc.Prelude.{
  ℕ, ◌+◌, ◌<◌, ◌≡◌, refl, ap, subst, ◌∙◌, sym, inl, inr, Option, some, List, [], ◌∷◌, ◌++◌, Bytes,
  length, replicate, length-replicate, get_elem?, get_elem?-lt, All, arith,
}
use gno_ibc.Prelude.Result.{Result, ok, ◌>>=◌, >>=-eq-ok}
use gno_ibc.Tools.Fixtures.Wire.{encode_existence_proof}
use gno_ibc.Tools.Fixtures.Iavl.{
  FixtureInput, LeafNode, Node, iavl_leaf_prefix, apply_leaf, build_iavl_root,
}
use gno_ibc.Tools.Fixtures.Iavl.Build.{Proven, build_iavl_root-Proven}
use gno_ibc.Tools.Fixtures.Iavl.Shape.{origins, build_iavl_root-origins}
use gno_ibc.Tools.Fixtures.Iavl.Verify.{run_inner_ops, run_membership}
use gno_ibc.Tools.Fixtures.Sets.{
  Fixture, wasm_store_key, make_non_membership_proof, leaf_op, sort_leaves, new_leaves,
  make_fixture, write_fixtures, zero_fixture, make_fixture_set,
}
use gno_ibc.Tools.Fixtures.Sets.Keys.{store_key_prefix, wasm_contract_store_key_prefix_lem}
use gno_ibc.Tools.Fixtures.Sets.Neighbors.{existence, encode_iavl_existence_proof_lem}
use gno_ibc.Tools.Fixtures.Sets.Shown.{run_existence_proof-encode, run_membership-encode}
use gno_ibc.Tools.Fixtures.Sets.Writes.{Makes, write_fixtures-Cell, length-write_fixtures}
use gno_ibc.Tools.Fixtures.Sets.Leaves.{
  HasIdx, IsLeafOf, All-sort_leaves, HasIdx-sort_leaves, sort_leaves-AllFresh, new_leaves-IsLeafOf,
  new_leaves-AllFresh, new_leaves-HasIdx,
}

-- A membership proof is accepted, for the key in the contract's store, and from there to the app root.
abbrev pub IsVerified : (Bytes → Bytes) → Fixture → Type 0
IsVerified sum256 fx =
    run_membership sum256 fx.proof_bz
    ≡ some (
      record { key = store_key_prefix ++ fx.input.key; value = fx.input.value; root = fx.subroot },
      record { key = wasm_store_key; value = fx.subroot; root = fx.app_root },
    )

ok_injective : {E A : Type 0} {a b : A} → ◌≡◌ {A = Result E A} (ok a) (ok b) → a ≡ b
ok_injective e = cc

some_injective : {A : Type 0} {a b : A} → ◌≡◌ {A = Option A} (some a) (some b) → a ≡ b
some_injective e = cc

zero-add : (j : ℕ) → 0 + j ≡ j
zero-add j = omega arith

module _ (sum256 : Bytes → Bytes) (inputs : List FixtureInput) where
  -- What is written at an index: a verified fixture of the input of that index.
  abbrev IsFixtureAt : ℕ → Fixture → Type 0
  IsFixtureAt i fx = (get_elem? inputs i ≡ some fx.input) × IsVerified sum256 fx

  abbrev pub new : List LeafNode
  new = new_leaves sum256 store_key_prefix 0 inputs

  make_fixture-IsFixtureAt :
      (leaves : List LeafNode) (root : Bytes) (leaf : LeafNode) {fx : Fixture}
      → IsLeafOf sum256 store_key_prefix inputs (leaf.input, leaf.input_idx, leaf.hash)
      → run_inner_ops sum256 leaf.proof leaf.hash ≡ some root
      → make_fixture leaves root
          (encode_existence_proof wasm_store_key root (leaf_op (0 ∷ [])) [])
          (apply_leaf sum256 (0 ∷ []) wasm_store_key root)
          leaf
        ≡ ok fx
      → IsFixtureAt leaf.input_idx fx
  unfolding make_fixture
  make_fixture-IsFixtureAt leaves root leaf {fx} (found, hashed) ran made =
      let iavl_exist = existence (leaf_op iavl_leaf_prefix) leaf in
      let tm_exist = encode_existence_proof wasm_store_key root (leaf_op (0 ∷ [])) [] in
      let app_root = apply_leaf sum256 (0 ∷ []) wasm_store_key root in
      let (non_membership_proof, _, last) =
        >>=-eq-ok
          (make_non_membership_proof leaves leaf.input.non_membership_key (leaf_op iavl_leaf_prefix)
            tm_exist)
          _ (rw (encode_iavl_existence_proof_lem (leaf_op iavl_leaf_prefix) leaf, ◌>>=◌) at made) in
      let verified =
        run_membership-encode sum256 iavl_exist tm_exist _ _
          (run_existence_proof-encode sum256 iavl_leaf_prefix (store_key_prefix ++ leaf.input.key)
            leaf.input.value leaf.proof root (rw hashed at ran))
          (run_existence_proof-encode sum256 (0 ∷ []) wasm_store_key root [] app_root
            (unfold run_inner_ops in refl))
          refl in
      subst (IsFixtureAt leaf.input_idx) (ok_injective last) (found, verified)

  Makes-All :
      (all leaves : List LeafNode) (root : Bytes)
      → All (IsLeafOf sum256 store_key_prefix inputs) (origins leaves)
      → Proven sum256 root leaves
      → All
          (Makes
            (make_fixture all root
              (encode_existence_proof wasm_store_key root (leaf_op (0 ∷ [])) [])
              (apply_leaf sum256 (0 ∷ []) wasm_store_key root))
            IsFixtureAt)
          leaves
  Makes-All all [] root of proven = tt
  Makes-All all (leaf ∷ leaves) root (of, rest) (ran, proven) = (
    λ fx made. make_fixture-IsFixtureAt all root leaf of ran made,
    Makes-All all leaves root rest proven,
  )

  -- What the set consists of: the tree, and the loop over its leaves.
  abbrev IsSetOf : Node → List Fixture → Type 0
  IsSetOf root out =
      (build_iavl_root sum256 (sort_leaves new) ≡ ok root)
      × (write_fixtures
            (make_fixture root.leaves root.hash
              (encode_existence_proof wasm_store_key root.hash (leaf_op (0 ∷ [])) [])
              (apply_leaf sum256 (0 ∷ []) wasm_store_key root.hash))
            root.leaves (replicate (length inputs) zero_fixture)
          ≡ ok out)

  make_fixture_set-IsSetOf :
      {out : List Fixture}
      → make_fixture_set sum256 inputs ≡ ok out
      → (root : Node) × IsSetOf root out
  unfolding make_fixture_set
  make_fixture_set-IsSetOf {out} made =
      let (root, built, wrote) =
        >>=-eq-ok (build_iavl_root sum256 (sort_leaves new)) _
          (rw (wasm_contract_store_key_prefix_lem, ◌>>=◌) at made) in
      (root, (built, wrote))

  pub IsSetOf-All :
      (root : Node)
      → build_iavl_root sum256 (sort_leaves new) ≡ ok root
      → All (IsLeafOf sum256 store_key_prefix inputs) (origins root.leaves)
  IsSetOf-All root built = rw (build_iavl_root-origins sum256 (sort_leaves new) built) (
      All-sort_leaves _ new (
        new_leaves-IsLeafOf sum256 store_key_prefix 0 inputs inputs
          (λ j. ap (get_elem? inputs) (zero-add j))))

  IsSetOf-HasIdx :
      (root : Node) (i : ℕ)
      → build_iavl_root sum256 (sort_leaves new) ≡ ok root
      → i < length inputs
      → HasIdx i (origins root.leaves)
  IsSetOf-HasIdx root i built fits = rw (build_iavl_root-origins sum256 (sort_leaves new) built) (
      HasIdx-sort_leaves i new
        (new_leaves-HasIdx sum256 store_key_prefix 0 i inputs (omega arith) (omega arith)))

  -- Every index has its fixture.
  set-Cell :
      {out : List Fixture}
      → make_fixture_set sum256 inputs ≡ ok out
      → (i : ℕ) → i < length inputs
      → (fx : Fixture) × (get_elem? out i ≡ some fx) × IsFixtureAt i fx
  set-Cell made i fits =
      let (root, (built, wrote)) = make_fixture_set-IsSetOf made in
      let proven =
        build_iavl_root-Proven sum256 (sort_leaves new)
          (sort_leaves-AllFresh new (new_leaves-AllFresh sum256 store_key_prefix 0 inputs)) built in
      elim (write_fixtures-Cell _ IsFixtureAt root.leaves (replicate (length inputs) zero_fixture)
        (Makes-All root.leaves root.leaves root.hash (IsSetOf-All root built) proven) wrote i) [
          | inl (left, missing) ↦ absurd (missing (IsSetOf-HasIdx root i built fits))
          | inr written ↦ written
        ]

  pub length-make_fixture_set :
      {out : List Fixture} → make_fixture_set sum256 inputs ≡ ok out → length out ≡ length inputs
  length-make_fixture_set made =
      let (root, (built, wrote)) = make_fixture_set-IsSetOf made in
      length-write_fixtures _ IsFixtureAt root.leaves (replicate (length inputs) zero_fixture) wrote
      ∙ length-replicate (length inputs) zero_fixture

-- In a set that is returned, the fixture at an index has the input of that index, and a membership
-- proof that an independent verifier accepts: it shows the input's value under its key in the
-- contract's store, at the subroot of the fixture, and the subroot under the store's key at the app
-- root.
pub make_fixture_set-IsVerified :
    (sum256 : Bytes → Bytes) (inputs : List FixtureInput) (i : ℕ) {out : List Fixture}
    {fx : Fixture}
    → make_fixture_set sum256 inputs ≡ ok out
    → get_elem? out i ≡ some fx
    → (get_elem? inputs i ≡ some fx.input) × IsVerified sum256 fx
make_fixture_set-IsVerified sum256 inputs i {out} {fx} made found =
    let fits : i < length inputs =
      omega (arith, get_elem?-lt out i found, length-make_fixture_set sum256 inputs made) in
    let (fx', found', good) = set-Cell sum256 inputs made i fits in
    subst (IsFixtureAt sum256 inputs i) (some_injective (sym found' ∙ found)) good
