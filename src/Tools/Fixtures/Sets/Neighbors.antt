-- ===== src/Tools/Fixtures/Sets/Neighbors.antt =====
-- `nonMembershipNeighbors`: which leaves it finds, and when it panics.
use gno_ibc.Prelude.{
  ◌≡◌, ◌≢◌, refl, ap, ◌∙◌, sym, true, inl, inr, List, [], ◌∷◌, ◌++◌, Bytes, All, arith,
}
use mathlib.Core.Bool.{false≢true}
use gno_ibc.Prelude.Result.{Result, ok, err, ◌>>=◌}
use gno_ibc.Tools.Fixtures.Wire.{encode_existence_proof}
use gno_ibc.Tools.Fixtures.Iavl.{LeafNode, Panic, key_exists}
use gno_ibc.Tools.Fixtures.Sets.{
  bytes_compare, bytes_lt, encode_iavl_existence_proof, neighbors_loop, non_membership_neighbors,
}
use gno_ibc.Tools.Fixtures.Sets.Keys.{
  store_key_prefix, wasm_contract_store_key_lem, bytes_compare-append, bytes_compare-eq,
  bytes_compare-gt, bytes_lt_trans, bytes_lt-cases, Ordering-cases, keys, IsSorted, NotBelow,
}
use Prim.Native.Nat.{Ordering}

-- The existence proof of a leaf; without a leaf there is none.
abbrev pub existence : Bytes → LeafNode → Bytes
existence iavl_leaf leaf =
    encode_existence_proof (store_key_prefix ++ leaf.input.key) leaf.input.value iavl_leaf
      leaf.proof

abbrev pub first_existence : Bytes → List LeafNode → Bytes
first_existence iavl_leaf [] = []
first_existence iavl_leaf (leaf ∷ leaves) = existence iavl_leaf leaf

abbrev pub last_existence : Bytes → Bytes → List LeafNode → Bytes
last_existence iavl_leaf before [] = before
last_existence iavl_leaf before (leaf ∷ leaves) =
    last_existence iavl_leaf (existence iavl_leaf leaf) leaves

pub encode_iavl_existence_proof_lem :
    (iavl_leaf : Bytes) (leaf : LeafNode)
    → encode_iavl_existence_proof iavl_leaf leaf ≡ ok (existence iavl_leaf leaf)
unfolding encode_iavl_existence_proof
encode_iavl_existence_proof_lem iavl_leaf leaf =
    rw (wasm_contract_store_key_lem leaf.input.key, ◌>>=◌) refl

-- A key that no leaf has, placed among the leaves: those below it, and those above it.
pub record IsBracketed (iavl_leaf left key : Bytes) (leaves : List LeafNode) (found : Bytes × Bytes)
    : Type 0 where
  pub below : List LeafNode
  pub above : List LeafNode
  pub split : leaves ≡ below ++ above
  pub all_below : All (λ other. bytes_lt other key ≡ true) (keys below)
  pub all_above : All (λ other. bytes_lt key other ≡ true) (keys above)
  pub last_below : found.0 ≡ last_existence iavl_leaf left below
  pub first_above : found.1 ≡ first_existence iavl_leaf above

bytes_lt_of_compare : (a b : Bytes) → bytes_compare a b ≡ Ordering.lt → bytes_lt a b ≡ true
unfolding bytes_lt
bytes_lt_of_compare a b lt = ground arith

All-above_of :
    (key first : Bytes) (others : List Bytes)
    → bytes_lt key first ≡ true
    → All (NotBelow first) others
    → All (λ other. bytes_lt key other ≡ true) others
All-above_of key first [] lt rest = tt
All-above_of key first (other ∷ others) lt (here, rest) = (
  elim (bytes_lt-cases first other) [
    | inl after ↦ bytes_lt_trans key first other lt after
    | inr (inl same) ↦ rw (← same) lt
    | inr (inr before) ↦ absurd (false≢true (sym here ∙ before))
  ],
  All-above_of key first others lt rest,
)

-- One step of the loop, by how the key compares.
neighbors_loop_step :
    (leaf : LeafNode) (leaves : List LeafNode) (key iavl_leaf left : Bytes)
    → neighbors_loop (leaf ∷ leaves) key (store_key_prefix ++ key) iavl_leaf left
      ≡ elim (bytes_compare leaf.input.key key) [
        | Ordering.lt ↦
            neighbors_loop leaves key (store_key_prefix ++ key) iavl_leaf (existence iavl_leaf leaf)
        | Ordering.gt ↦ ok (left, existence iavl_leaf leaf)
        | Ordering.eq ↦ err (key_exists key)
      ]
unfolding neighbors_loop
neighbors_loop_step leaf leaves key iavl_leaf left = ground (
  arith,
  wasm_contract_store_key_lem leaf.input.key,
  bytes_compare-append store_key_prefix leaf.input.key key,
  encode_iavl_existence_proof_lem iavl_leaf leaf,
)

neighbors_loop-IsBracketed :
    (leaves : List LeafNode) (key iavl_leaf left : Bytes) {found : Bytes × Bytes}
    → IsSorted (keys leaves)
    → neighbors_loop leaves key (store_key_prefix ++ key) iavl_leaf left ≡ ok found
    → IsBracketed iavl_leaf left key leaves found
neighbors_loop-IsBracketed [] key iavl_leaf left {found} sorted looped =
    let same : (left, []) ≡ found = unfold neighbors_loop in cc in
    record {
      below = [];
      above = [];
      split = refl;
      all_below = tt;
      all_above = tt;
      last_below = ap (λ pair. pair.0) (sym same);
      first_above = ap (λ pair. pair.1) (sym same);
    }
neighbors_loop-IsBracketed (leaf ∷ leaves) key iavl_leaf left {found} (first, sorted) looped =
    let stepped = sym (neighbors_loop_step leaf leaves key iavl_leaf left) ∙ looped in
    elim (Ordering-cases (bytes_compare leaf.input.key key)) [
      | inl lt ↦
          let rest =
            neighbors_loop-IsBracketed leaves key iavl_leaf (existence iavl_leaf leaf) sorted
              (rw lt at stepped) in
          record {
            below = leaf ∷ rest.below;
            above = rest.above;
            split = ap (λ others. leaf ∷ others) rest.split;
            all_below = (bytes_lt_of_compare leaf.input.key key lt, rest.all_below);
            all_above = rest.all_above;
            last_below = rest.last_below;
            first_above = rest.first_above;
          }
      | inr (inl eq) ↦ absurd (ground (arith, eq, stepped))
      | inr (inr gt) ↦
          let after =
            bytes_lt_of_compare key leaf.input.key (bytes_compare-gt leaf.input.key key gt) in
          let same : ◌≡◌ {A = Result Panic (Bytes × Bytes)} (ok (left, existence iavl_leaf leaf))
              (ok found) =
            rw gt at stepped in
          record {
            below = [];
            above = leaf ∷ leaves;
            split = refl;
            all_below = tt;
            all_above = (after, All-above_of key leaf.input.key (keys leaves) after first);
            last_below = cc;
            first_above = cc;
          }
    ]

-- The neighbours of a key among sorted leaves: the last leaf below it and the first above it.
pub non_membership_neighbors-IsBracketed :
    (leaves : List LeafNode) (key iavl_leaf : Bytes) {found : Bytes × Bytes}
    → IsSorted (keys leaves)
    → non_membership_neighbors leaves key iavl_leaf ≡ ok found
    → IsBracketed iavl_leaf [] key leaves found
unfolding non_membership_neighbors
non_membership_neighbors-IsBracketed leaves key iavl_leaf sorted found =
    neighbors_loop-IsBracketed leaves key iavl_leaf [] sorted
      (rw (wasm_contract_store_key_lem key, ◌>>=◌) at found)

neighbors_loop_total :
    (leaves : List LeafNode) (key iavl_leaf left : Bytes)
    → All (λ other. other ≢ key) (keys leaves)
    → (found : Bytes × Bytes) × (neighbors_loop leaves key (store_key_prefix ++ key) iavl_leaf left
        ≡ ok found)
neighbors_loop_total [] key iavl_leaf left absent = ((left, []), unfold neighbors_loop in refl)
neighbors_loop_total (leaf ∷ leaves) key iavl_leaf left (here, rest) =
    let step = neighbors_loop_step leaf leaves key iavl_leaf left in
    elim (Ordering-cases (bytes_compare leaf.input.key key)) [
      | inl lt ↦
          let (found, looped) =
            neighbors_loop_total leaves key iavl_leaf (existence iavl_leaf leaf) rest in
          (found, step ∙ rw lt looped)
      | inr (inl eq) ↦ absurd (here (bytes_compare-eq leaf.input.key key eq))
      | inr (inr gt) ↦ ((left, existence iavl_leaf leaf), step ∙ rw gt refl)
    ]

-- A key that no leaf has makes no panic.
pub non_membership_neighbors_total :
    (leaves : List LeafNode) (key iavl_leaf : Bytes)
    → All (λ other. other ≢ key) (keys leaves)
    → (found : Bytes × Bytes) × (non_membership_neighbors leaves key iavl_leaf ≡ ok found)
unfolding non_membership_neighbors
non_membership_neighbors_total leaves key iavl_leaf absent =
    let (found, looped) = neighbors_loop_total leaves key iavl_leaf [] absent in
    (found, rw (wasm_contract_store_key_lem key, ◌>>=◌) looped)
