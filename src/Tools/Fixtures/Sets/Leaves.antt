-- ===== src/Tools/Fixtures/Sets/Leaves.antt =====
-- The leaves of a fixture set, from the inputs to the tree: what each keeps of its input.
use gno_ibc.Prelude.{
  ℕ, suc, ◌+◌, ◌<◌, ◌≤◌, ◌≡◌, refl, ◌⊎◌, inl, inr, Bool-cases, eqb, some, List, [], ◌∷◌, ◌++◌,
  Bytes, length, get_elem?, All, arith,
}
use gno_ibc.Tools.Fixtures.Iavl.{FixtureInput, LeafNode, iavl_leaf_prefix, apply_leaf}
use gno_ibc.Tools.Fixtures.Iavl.Build.{AllFresh}
use gno_ibc.Tools.Fixtures.Iavl.Shape.{Origin, origins}
use gno_ibc.Tools.Fixtures.Sets.{bytes_lt, insert_leaf, insert_leaves, sort_leaves, new_leaves}

-- Some leaf has an index.
abbrev pub HasIdx : ℕ → List Origin → Type 0
HasIdx i [] = ⊥
HasIdx i ((input, input_idx, hash) ∷ others) = (input_idx ≡ i) ⊎ HasIdx i others

-- The sort keeps what holds of every leaf, and every index.
module _ (P : Origin → Type 0) where
  All-insert_leaf :
      (leaf : LeafNode) (leaves : List LeafNode)
      → P (leaf.input, leaf.input_idx, leaf.hash)
      → All P (origins leaves)
      → All P (origins (insert_leaf leaf leaves))
  unfolding insert_leaf
  All-insert_leaf leaf [] here rest = (here, tt)
  All-insert_leaf leaf (other ∷ leaves) here (there, rest) =
      elim (Bool-cases (bytes_lt leaf.input.key other.input.key)) [
        | inl below ↦ rw below (here, (there, rest))
        | inr above ↦ rw above (there, All-insert_leaf leaf leaves here rest)
      ]

  All-insert_leaves :
      (sorted leaves : List LeafNode)
      → All P (origins sorted)
      → All P (origins leaves)
      → All P (origins (insert_leaves sorted leaves))
  unfolding insert_leaves
  All-insert_leaves sorted [] p q = p
  All-insert_leaves sorted (leaf ∷ leaves) p (here, rest) =
      All-insert_leaves (insert_leaf leaf sorted) leaves (All-insert_leaf leaf sorted here p) rest

  pub All-sort_leaves :
      (leaves : List LeafNode) → All P (origins leaves) → All P (origins (sort_leaves leaves))
  unfolding sort_leaves
  All-sort_leaves leaves p = All-insert_leaves [] leaves tt p

HasIdx-insert_leaf :
    (i : ℕ) (leaf : LeafNode) (leaves : List LeafNode)
    → HasIdx i (origins (leaf ∷ leaves))
    → HasIdx i (origins (insert_leaf leaf leaves))
unfolding insert_leaf
HasIdx-insert_leaf i leaf [] has = has
HasIdx-insert_leaf i leaf (other ∷ leaves) has =
    elim (Bool-cases (bytes_lt leaf.input.key other.input.key)) [
      | inl below ↦ rw below has
      | inr above ↦ rw above (elim has [
        | inl here ↦ inr (HasIdx-insert_leaf i leaf leaves (inl here))
        | inr (inl next) ↦ inl next
        | inr (inr later) ↦ inr (HasIdx-insert_leaf i leaf leaves (inr later))
      ])
    ]

HasIdx-insert_leaves :
    (i : ℕ) (sorted leaves : List LeafNode)
    → HasIdx i (origins sorted) ⊎ HasIdx i (origins leaves)
    → HasIdx i (origins (insert_leaves sorted leaves))
unfolding insert_leaves
HasIdx-insert_leaves i sorted [] (inl has) = has
HasIdx-insert_leaves i sorted [] (inr has) = elim has [ ]
HasIdx-insert_leaves i sorted (leaf ∷ leaves) (inl has) =
    HasIdx-insert_leaves i (insert_leaf leaf sorted) leaves
      (inl (HasIdx-insert_leaf i leaf sorted (inr has)))
HasIdx-insert_leaves i sorted (leaf ∷ leaves) (inr (inl here)) =
    HasIdx-insert_leaves i (insert_leaf leaf sorted) leaves
      (inl (HasIdx-insert_leaf i leaf sorted (inl here)))
HasIdx-insert_leaves i sorted (leaf ∷ leaves) (inr (inr later)) =
    HasIdx-insert_leaves i (insert_leaf leaf sorted) leaves (inr later)

pub HasIdx-sort_leaves :
    (i : ℕ) (leaves : List LeafNode)
    → HasIdx i (origins leaves)
    → HasIdx i (origins (sort_leaves leaves))
unfolding sort_leaves
HasIdx-sort_leaves i leaves has = HasIdx-insert_leaves i [] leaves (inr has)

insert_leaf-AllFresh :
    (leaf : LeafNode) (leaves : List LeafNode)
    → leaf.proof ≡ []
    → AllFresh leaves
    → AllFresh (insert_leaf leaf leaves)
unfolding insert_leaf
insert_leaf-AllFresh leaf [] here rest = (here, tt)
insert_leaf-AllFresh leaf (other ∷ leaves) here (there, rest) =
    elim (Bool-cases (bytes_lt leaf.input.key other.input.key)) [
      | inl below ↦ rw below (here, (there, rest))
      | inr above ↦ rw above (there, insert_leaf-AllFresh leaf leaves here rest)
    ]

insert_leaves-AllFresh :
    (sorted leaves : List LeafNode)
    → AllFresh sorted
    → AllFresh leaves
    → AllFresh (insert_leaves sorted leaves)
unfolding insert_leaves
insert_leaves-AllFresh sorted [] p q = p
insert_leaves-AllFresh sorted (leaf ∷ leaves) p (here, rest) =
    insert_leaves-AllFresh (insert_leaf leaf sorted) leaves
      (insert_leaf-AllFresh leaf sorted here p) rest

pub sort_leaves-AllFresh :
    (leaves : List LeafNode) → AllFresh leaves → AllFresh (sort_leaves leaves)
unfolding sort_leaves
sort_leaves-AllFresh leaves fresh = insert_leaves-AllFresh [] leaves tt fresh

insert_leaf-nonempty :
    (leaf : LeafNode) (leaves : List LeafNode)
    → (first : LeafNode) × (others : List LeafNode) × (insert_leaf leaf leaves ≡ first ∷ others)
unfolding insert_leaf
insert_leaf-nonempty leaf [] = (leaf, [], refl)
insert_leaf-nonempty leaf (other ∷ leaves) =
    elim (Bool-cases (bytes_lt leaf.input.key other.input.key)) [
      | inl below ↦ (leaf, other ∷ leaves, rw below refl)
      | inr above ↦ (other, insert_leaf leaf leaves, rw above refl)
    ]

pub insert_leaves-nonempty :
    (first : LeafNode) (sorted leaves : List LeafNode)
    → (least : LeafNode) × (others : List LeafNode) × (insert_leaves (first ∷ sorted) leaves
        ≡ least ∷ others)
unfolding insert_leaves
insert_leaves-nonempty first sorted [] = (first, sorted, refl)
insert_leaves-nonempty first sorted (leaf ∷ leaves) =
    let (least, others, inserted) = insert_leaf-nonempty leaf (first ∷ sorted) in
    let (least', others', same) = insert_leaves-nonempty least others leaves in
    (least', others', rw inserted same)

add_zero : (i : ℕ) → i + 0 ≡ i
add_zero i = omega arith

next_index : (i j : ℕ) → suc i + j ≡ i + suc j
next_index i j = omega arith

le-cases : (i j : ℕ) → i ≤ j → (i ≡ j) ⊎ (suc i ≤ j)
le-cases i j h = elim (Bool-cases (eqb i j)) [
  | inl same ↦ inl (ground arith)
  | inr apart ↦ inr (ground arith)
]

module _ (sum256 : Bytes → Bytes) (prefix : Bytes) where
  -- A leaf has the input of its index, and the hash of its key and value.
  abbrev pub IsLeafOf : List FixtureInput → Origin → Type 0
  IsLeafOf inputs (input, input_idx, hash) =
      (get_elem? inputs input_idx ≡ some input)
      × (hash ≡ apply_leaf sum256 iavl_leaf_prefix (prefix ++ input.key) input.value)

  pub new_leaves-IsLeafOf :
      (i : ℕ) (all inputs : List FixtureInput)
      → ((j : ℕ) → get_elem? all (i + j) ≡ get_elem? inputs j)
      → All (IsLeafOf all) (origins (new_leaves sum256 prefix i inputs))
  unfolding new_leaves
  new_leaves-IsLeafOf i all [] tails = tt
  new_leaves-IsLeafOf i all (input ∷ inputs) tails = (
    (rw (add_zero i) at (tails 0), refl),
    new_leaves-IsLeafOf (suc i) all inputs (λ j. rw (next_index i j) (tails (suc j))),
  )

  pub new_leaves-AllFresh :
      (i : ℕ) (inputs : List FixtureInput) → AllFresh (new_leaves sum256 prefix i inputs)
  unfolding new_leaves
  new_leaves-AllFresh i [] = tt
  new_leaves-AllFresh i (input ∷ inputs) = (refl, new_leaves-AllFresh (suc i) inputs)

  pub new_leaves-HasIdx :
      (i j : ℕ) (inputs : List FixtureInput)
      → i ≤ j
      → j < i + length inputs
      → HasIdx j (origins (new_leaves sum256 prefix i inputs))
  unfolding new_leaves
  new_leaves-HasIdx i j [] low high = omega arith
  new_leaves-HasIdx i j (input ∷ inputs) low high = elim (le-cases i j low) [
    | inl same ↦ inl same
    | inr later ↦ inr (new_leaves-HasIdx (suc i) j inputs later (omega arith))
  ]
