-- ===== src/Tools/Fixtures/Sets/Keys.antt =====
-- The order of the keys, and the sort by it.
use gno_ibc.Prelude.{
  ◌≡◌, refl, true, false, Bool-cases, inl, inr, ◌⊎◌, Option, none, some, List, [], ◌∷◌, ◌++◌, Bytes,
  All, arith,
}
use gno_ibc.Prelude.Result.{ok}
use gno_ibc.Encoding.Hex.{hex_decode}
use gno_ibc.Tools.Fixtures.Iavl.{LeafNode}
use gno_ibc.Tools.Fixtures.Sets.{
  contract_address, wasm_contract_store_key_prefix, wasm_contract_store_key, bytes_compare,
  bytes_lt, insert_leaf, insert_leaves, sort_leaves,
}
use Prim.Native.Nat.{Ordering}

abbrev pub bytes_or_nil : Option Bytes → Bytes
bytes_or_nil none = []
bytes_or_nil (some bz) = bz

-- The key of the contract's store: a tag, the address and a zero.
pub store_key_prefix : Bytes
store_key_prefix = 3 ∷ (bytes_or_nil (hex_decode contract_address) ++ 0 ∷ [])

pub wasm_contract_store_key_prefix_lem : wasm_contract_store_key_prefix ≡ ok store_key_prefix
unfolding wasm_contract_store_key_prefix store_key_prefix hex_decode
wasm_contract_store_key_prefix_lem = refl

pub wasm_contract_store_key_lem :
    (key : Bytes) → wasm_contract_store_key key ≡ ok (store_key_prefix ++ key)
unfolding wasm_contract_store_key wasm_contract_store_key_prefix store_key_prefix hex_decode
wasm_contract_store_key_lem key = refl

pub bytes_compare-append : (p a b : Bytes) → bytes_compare (p ++ a) (p ++ b) ≡ bytes_compare a b
unfolding bytes_compare
bytes_compare-append [] a b = refl
bytes_compare-append (x ∷ p) a b = ground (arith, bytes_compare-append p a b)

pub bytes_compare-eq : (a b : Bytes) → bytes_compare a b ≡ Ordering.eq → a ≡ b
unfolding bytes_compare
bytes_compare-eq [] [] e = refl
bytes_compare-eq [] (y ∷ ys) e = cc
bytes_compare-eq (x ∷ xs) [] e = cc
bytes_compare-eq (x ∷ xs) (y ∷ ys) e = ground (arith, bytes_compare-eq xs ys)

pub bytes_compare-gt :
    (a b : Bytes) → bytes_compare a b ≡ Ordering.gt → bytes_compare b a ≡ Ordering.lt
unfolding bytes_compare
bytes_compare-gt [] [] e = cc
bytes_compare-gt [] (y ∷ ys) e = cc
bytes_compare-gt (x ∷ xs) [] e = refl
bytes_compare-gt (x ∷ xs) (y ∷ ys) e = ground (arith, bytes_compare-gt xs ys)

pub bytes_lt_trans :
    (a b c : Bytes) → bytes_lt a b ≡ true → bytes_lt b c ≡ true → bytes_lt a c ≡ true
unfolding bytes_lt
bytes_lt_trans [] [] c e f = ground arith
bytes_lt_trans [] (y ∷ ys) [] e f = ground arith
bytes_lt_trans [] (y ∷ ys) (z ∷ zs) e f = ground arith
bytes_lt_trans (x ∷ xs) [] c e f = ground arith
bytes_lt_trans (x ∷ xs) (y ∷ ys) [] e f = ground arith
bytes_lt_trans (x ∷ xs) (y ∷ ys) (z ∷ zs) e f = ground (arith, bytes_lt_trans xs ys zs)

bytes_lt_irrefl : (a : Bytes) → bytes_lt a a ≡ true → ⊥
unfolding bytes_lt
bytes_lt_irrefl [] e = cc
bytes_lt_irrefl (x ∷ xs) e = ground (arith, bytes_lt_irrefl xs)

pub Ordering-cases : (o : Ordering) → (o ≡ Ordering.lt) ⊎ (o ≡ Ordering.eq) ⊎ (o ≡ Ordering.gt)
Ordering-cases Ordering.lt = inl refl
Ordering-cases Ordering.eq = inr (inl refl)
Ordering-cases Ordering.gt = inr (inr refl)

-- How two keys compare.
pub bytes_lt-cases : (a b : Bytes) → (bytes_lt a b ≡ true) ⊎ (a ≡ b) ⊎ (bytes_lt b a ≡ true)
unfolding bytes_lt
bytes_lt-cases a b = elim (Ordering-cases (bytes_compare a b)) [
  | inl lt ↦ inl (rw (lt, bytes_lt) refl)
  | inr (inl eq) ↦ inr (inl (bytes_compare-eq a b eq))
  | inr (inr gt) ↦ inr (inr (rw (bytes_compare-gt a b gt, bytes_lt) refl))
]

abbrev pub keys : List LeafNode → List Bytes
keys [] = []
keys (leaf ∷ leaves) = leaf.input.key ∷ keys leaves

-- No key is below one that stands before it.
abbrev pub NotBelow : Bytes → Bytes → Type 0
NotBelow key other = bytes_lt other key ≡ false

abbrev pub IsSorted : List Bytes → Type 0
IsSorted [] = Unit
IsSorted (key ∷ others) = All (NotBelow key) others × IsSorted others

NotBelow-trans : (a b c : Bytes) → bytes_lt a b ≡ true → NotBelow b c → NotBelow a c
NotBelow-trans a b c lt above = elim (Bool-cases (bytes_lt c a)) [
  | inl below ↦ ground (arith, bytes_lt_trans c a b below lt)
  | inr above' ↦ above'
]

NotBelow-flip : (a b : Bytes) → bytes_lt a b ≡ true → NotBelow a b
NotBelow-flip a b lt = elim (Bool-cases (bytes_lt b a)) [
  | inl below ↦ absurd (bytes_lt_irrefl a (bytes_lt_trans a b a lt below))
  | inr above ↦ above
]

All-NotBelow :
    (a b : Bytes) (others : List Bytes)
    → bytes_lt a b ≡ true
    → All (NotBelow b) others
    → All (NotBelow a) others
All-NotBelow a b [] lt all = tt
All-NotBelow a b (c ∷ others) lt (here, rest) =
    (NotBelow-trans a b c lt here, All-NotBelow a b others lt rest)

All-insert_leaf :
    (key : Bytes) (leaf : LeafNode) (leaves : List LeafNode)
    → NotBelow key leaf.input.key
    → All (NotBelow key) (keys leaves)
    → All (NotBelow key) (keys (insert_leaf leaf leaves))
unfolding insert_leaf
All-insert_leaf key leaf [] here rest = (here, tt)
All-insert_leaf key leaf (other ∷ leaves) here (there, rest) =
    elim (Bool-cases (bytes_lt leaf.input.key other.input.key)) [
      | inl below ↦ rw below (here, (there, rest))
      | inr above ↦ rw above (there, All-insert_leaf key leaf leaves here rest)
    ]

insert_leaf-IsSorted :
    (leaf : LeafNode) (leaves : List LeafNode)
    → IsSorted (keys leaves)
    → IsSorted (keys (insert_leaf leaf leaves))
unfolding insert_leaf
insert_leaf-IsSorted leaf [] sorted = (tt, tt)
insert_leaf-IsSorted leaf (other ∷ leaves) (first, sorted) =
    elim (Bool-cases (bytes_lt leaf.input.key other.input.key)) [
      | inl below ↦ rw below (
        (
          NotBelow-flip leaf.input.key other.input.key below,
          All-NotBelow leaf.input.key other.input.key (keys leaves) below first,
        ),
        (first, sorted),
      )
      | inr above ↦ rw above (
        All-insert_leaf other.input.key leaf leaves above first,
        insert_leaf-IsSorted leaf leaves sorted,
      )
    ]

insert_leaves-IsSorted :
    (sorted leaves : List LeafNode)
    → IsSorted (keys sorted)
    → IsSorted (keys (insert_leaves sorted leaves))
unfolding insert_leaves
insert_leaves-IsSorted sorted [] s = s
insert_leaves-IsSorted sorted (leaf ∷ leaves) s =
    insert_leaves-IsSorted (insert_leaf leaf sorted) leaves (insert_leaf-IsSorted leaf sorted s)

pub sort_leaves-IsSorted : (leaves : List LeafNode) → IsSorted (keys (sort_leaves leaves))
unfolding sort_leaves
sort_leaves-IsSorted leaves = insert_leaves-IsSorted [] leaves tt
