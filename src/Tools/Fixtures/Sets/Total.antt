-- ===== src/Tools/Fixtures/Sets/Total.antt =====
-- `makeFixtureSet` returns: where there is an input and no non-membership key is a key of the set.
use gno_ibc.Prelude.{
  ℕ, zero, suc, subst, ◌<◌, ◌≡◌, ◌≢◌, refl, ◌∙◌, sym, ◌⊎◌, inl, inr, some, List, [], ◌∷◌, ◌++◌,
  Bytes, length, replicate, length-replicate, get_elem?, set, length-set, get_elem?-lt, All, lt→ltb,
  arith,
}
use gno_ibc.Prelude.Result.{Result, ok, err, ◌>>=◌, >>=_returns}
use gno_ibc.Tools.Fixtures.Wire.{encode_existence_proof}
use gno_ibc.Tools.Fixtures.Iavl.{
  FixtureInput, LeafNode, Node, Panic, index_out_of_range, iavl_leaf_prefix, apply_leaf,
  build_iavl_root,
}
use gno_ibc.Tools.Fixtures.Iavl.Shape.{origins, build_iavl_root_total}
use gno_ibc.Tools.Fixtures.Sets.{
  Fixture, wasm_store_key, make_non_membership_proof, leaf_op, insert_leaf, insert_leaves,
  sort_leaves, new_leaves, make_fixture, write_fixtures, zero_fixture, make_fixture_set,
}
use gno_ibc.Tools.Fixtures.Sets.Keys.{store_key_prefix, keys, wasm_contract_store_key_prefix_lem}
use gno_ibc.Tools.Fixtures.Sets.Neighbors.{
  encode_iavl_existence_proof_lem, non_membership_neighbors_total,
}
use gno_ibc.Tools.Fixtures.Sets.Leaves.{IsLeafOf, insert_leaves-nonempty}
use gno_ibc.Tools.Fixtures.Sets.Verified.{new, IsSetOf-All, length-make_fixture_set}

-- No input's non-membership key is a key of the inputs.
abbrev pub AreMissing : List FixtureInput → Type 0
AreMissing inputs =
    All
      (λ input.
        (input.non_membership_key ≡ [])
        ⊎ All (λ other. other.key ≢ input.non_membership_key) inputs)
      inputs

All-get :
    (P : FixtureInput → Type 0) (xs : List FixtureInput) (i : ℕ) {x : FixtureInput}
    → All P xs
    → get_elem? xs i ≡ some x
    → P x
All-get P [] i all found = cc
All-get P (x ∷ xs) zero (here, rest) found = subst P (cc) here
All-get P (x ∷ xs) (suc i) (here, rest) found = All-get P xs i rest found

make_non_membership_proof_total :
    (leaves : List LeafNode) (key iavl_leaf tm_exist : Bytes)
    → (key ≡ []) ⊎ All (λ other. other ≢ key) (keys leaves)
    → (proof : Bytes) × (make_non_membership_proof leaves key iavl_leaf tm_exist ≡ ok proof)
unfolding make_non_membership_proof
make_non_membership_proof_total leaves [] iavl_leaf tm_exist absent = ([], refl)
make_non_membership_proof_total leaves (b ∷ bs) iavl_leaf tm_exist (inl empty) = absurd (cc)
make_non_membership_proof_total leaves (b ∷ bs) iavl_leaf tm_exist (inr absent) =
    let (found, looked) = non_membership_neighbors_total leaves (b ∷ bs) iavl_leaf absent in
    >>=_returns _ _ found looked (_, refl)

make_fixture_total :
    (leaves : List LeafNode) (root tm_exist app_root : Bytes) (leaf : LeafNode)
    → (leaf.input.non_membership_key ≡ [])
      ⊎ All (λ other. other ≢ leaf.input.non_membership_key) (keys leaves)
    → (fx : Fixture) × (make_fixture leaves root tm_exist app_root leaf ≡ ok fx)
unfolding make_fixture
make_fixture_total leaves root tm_exist app_root leaf absent =
    let (proof, made) =
      make_non_membership_proof_total leaves leaf.input.non_membership_key
        (leaf_op iavl_leaf_prefix) tm_exist absent in
    >>=_returns _ _ _ (encode_iavl_existence_proof_lem (leaf_op iavl_leaf_prefix) leaf)
      (>>=_returns _ _ proof made (_, refl))

write_fixtures_total :
    (make : LeafNode → Result Panic Fixture) (n : ℕ) (leaves : List LeafNode) (out : List Fixture)
    → n ≡ length out
    → All (λ leaf. ((fx : Fixture) × (make leaf ≡ ok fx)) × (leaf.input_idx < n)) leaves
    → (final : List Fixture) × (write_fixtures make leaves out ≡ ok final)
unfolding write_fixtures
write_fixtures_total make n [] out same all = (out, refl)
write_fixtures_total make n (leaf ∷ leaves) out same (((fx, made), fits), rest) =
    let (final, wrote) =
      write_fixtures_total make n leaves (set out leaf.input_idx fx)
        (same ∙ sym (length-set out leaf.input_idx fx)) rest in
    >>=_returns (make leaf) _ fx made
      (final, rw (lt→ltb leaf.input_idx (length out) (omega arith)) wrote)

module _ (sum256 : Bytes → Bytes) (inputs : List FixtureInput) (missing : AreMissing inputs) where
  keys-ne :
      (leaves : List LeafNode) (key : Bytes)
      → All (IsLeafOf sum256 store_key_prefix inputs) (origins leaves)
      → All (λ other. other.key ≢ key) inputs
      → All (λ other. other ≢ key) (keys leaves)
  keys-ne [] key of apart = tt
  keys-ne (leaf ∷ leaves) key ((found, _), rest) apart = (
    All-get (λ other. other.key ≢ key) inputs leaf.input_idx apart found,
    keys-ne leaves key rest apart,
  )

  makes-All :
      (all leaves : List LeafNode) (root tm_exist app_root : Bytes)
      → All (IsLeafOf sum256 store_key_prefix inputs) (origins all)
      → All (IsLeafOf sum256 store_key_prefix inputs) (origins leaves)
      → All
          (λ leaf.
            ((fx : Fixture) × (make_fixture all root tm_exist app_root leaf ≡ ok fx))
            × (leaf.input_idx < length inputs))
          leaves
  makes-All all [] root tm_exist app_root of rest = tt
  makes-All all (leaf ∷ leaves) root tm_exist app_root of ((found, _), rest) = (
    (
      make_fixture_total all root tm_exist app_root leaf
          (elim (All-get _ inputs leaf.input_idx missing found) [
            | inl empty ↦ inl empty
            | inr apart ↦ inr (keys-ne all leaf.input.non_membership_key of apart)
          ]),
      get_elem?-lt inputs leaf.input_idx found,
    ),
    makes-All all leaves root tm_exist app_root of rest,
  )

sort_leaves-nonempty :
    (leaf : LeafNode) (leaves : List LeafNode)
    → (least : LeafNode) × (others : List LeafNode) × (sort_leaves (leaf ∷ leaves) ≡ least ∷ others)
unfolding sort_leaves insert_leaves insert_leaf
sort_leaves-nonempty leaf leaves = insert_leaves-nonempty leaf [] leaves

build-new :
    (sum256 : Bytes → Bytes) (input : FixtureInput) (inputs : List FixtureInput)
    → (root : Node) × (build_iavl_root sum256 (sort_leaves (new sum256 (input ∷ inputs))) ≡ ok root)
unfolding new_leaves
build-new sum256 input inputs =
    let leaf : LeafNode = record {
      input = input;
      input_idx = 0;
      hash = apply_leaf sum256 iavl_leaf_prefix (store_key_prefix ++ input.key) input.value;
      proof = [];
    } in
    let (least, others, sorted) =
      sort_leaves-nonempty leaf (new_leaves sum256 store_key_prefix 1 inputs) in
    let (root, built) = build_iavl_root_total sum256 least others in (root, rw sorted built)

-- The set of a list of inputs that is not empty, where no input's non-membership key is a key of the
-- inputs, is made without a panic, and has a fixture for each input.
pub make_fixture_set_total :
    (sum256 : Bytes → Bytes) (input : FixtureInput) (inputs : List FixtureInput)
    → AreMissing (input ∷ inputs)
    → (out : List Fixture) × (make_fixture_set sum256 (input ∷ inputs) ≡ ok out)
      × (length out ≡ suc (length inputs))
make_fixture_set_total sum256 input inputs missing =
    let (root, built) = build-new sum256 input inputs in
    let of = IsSetOf-All sum256 (input ∷ inputs) root built in
    let (out, wrote) =
      write_fixtures_total _ (suc (length inputs)) root.leaves
        (replicate (suc (length inputs)) zero_fixture)
        (sym (length-replicate (suc (length inputs)) zero_fixture))
        (makes-All sum256 (input ∷ inputs) missing root.leaves root.leaves root.hash
          (encode_existence_proof wasm_store_key root.hash (leaf_op (0 ∷ [])) [])
          (apply_leaf sum256 (0 ∷ []) wasm_store_key root.hash) of of) in
    let made : make_fixture_set sum256 (input ∷ inputs) ≡ ok out =
      unfold make_fixture_set in rw (wasm_contract_store_key_prefix_lem, ◌>>=◌, built) wrote in
    (out, made, length-make_fixture_set sum256 (input ∷ inputs) made)

-- A set of no inputs panics: `buildIavlRoot` reads the first of no nodes.
pub make_fixture_set-nil :
    (sum256 : Bytes → Bytes) → make_fixture_set sum256 [] ≡ err index_out_of_range
unfolding make_fixture_set new_leaves sort_leaves build_iavl_root
make_fixture_set-nil sum256 = rw (wasm_contract_store_key_prefix_lem, ◌>>=◌) refl
