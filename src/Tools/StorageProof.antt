-- ===== src/Tools/StorageProof.antt =====
-- tools/gen-ethereum-storage-proof-fixture/main.go. Parameters: the trie and its database, keccak256, and
-- RLP, of go-ethereum. A hash is its 32 bytes; a map has each key once.
pub mod Unseen
pub mod Order
pub mod Words
pub mod Main
pub mod Tests
use gno_ibc.Prelude.{
  ℕ, zero, suc, ◌+◌, ◌-◌, ◌/◌, ◌%◌, ◌&&◌, not, Bool, true, false, Option, none, some, List, [], ◌∷◌,
  ◌++◌, Bytes, length, take, drop, replicate, eqb, leb, if◌then◌else◌,
}
use gno_ibc.Prelude.Eq.{bytes_eq}
use gno_ibc.Prelude.Map.{Map, lookup, insert}
use gno_ibc.Prelude.Result.{Result, ok, err, ◌>>=◌}

abbrev pub Hash : Type 0
Hash = Bytes

-- The panics of the tool, and a loop that is cut short.
pub data Panic : Type 0 where
  library_error proof_cycle ambiguous_proof_path path_not_32_bytes out_of_rounds : Panic
  unexpected_node_shape : ℕ → Panic
  missing_nodes : ℕ → ℕ → Panic

-- `common.BytesToHash`: the last 32 bytes, after zeros
unfoldable pub bytes_to_hash : Bytes → Hash
bytes_to_hash bz =
    if leb 32 (length bz) then drop (length bz - 32) bz else replicate (32 - length bz) 0 ++ bz

-- `copyBytes`
unfoldable pub copy_bytes : Bytes → Bytes
copy_bytes [] = []
copy_bytes (b ∷ bs) = b ∷ copy_bytes bs

-- `collectNodes`: what the iterator gives, as a map
unfoldable pub collect_loop : Map Hash Bytes → List (Bytes × Bytes) → Map Hash Bytes
unfolding copy_bytes bytes_to_hash
collect_loop out [] = out
collect_loop out ((key, value) ∷ rest) =
    collect_loop (insert (bytes_to_hash (copy_bytes key)) (copy_bytes value) out) rest

unfoldable pub collect_nodes : List (Bytes × Bytes) → Map Hash Bytes
unfolding collect_loop
collect_nodes db = collect_loop [] db

-- `seen[ref]`
unfoldable pub was_seen : Hash → Map Hash Bool → Bool
was_seen ref seen = elim (lookup ref seen) [ none ↦ false | some b ↦ b ]

-- The reference in an item of a node: 33 bytes, the first of which is 0xa0.
unfoldable pub item_refs : List Bytes → List Hash
item_refs [] = []
item_refs ([] ∷ items) = item_refs items
item_refs ((b ∷ bs) ∷ items) =
    let rest = item_refs items in
    if eqb (length bs) 32 && eqb b 160 then bytes_to_hash bs ∷ rest else rest

-- The references of a node that was decoded: a branch's sixteen children, or the second of two items.
unfoldable pub node_refs : List Bytes → Result Panic (List Hash)
unfolding item_refs
node_refs items =
    if eqb (length items) 17
    then ok (item_refs (take 16 items))
    else if eqb (length items) 2
    then ok (item_refs (drop 1 items))
    else err (unexpected_node_shape (length items))

-- The references that are nodes and were not seen.
unfoldable pub candidates_of : Map Hash Bytes → Map Hash Bool → List Hash → List Hash
candidates_of nodes seen [] = []
candidates_of nodes seen (ref ∷ refs) =
    let rest = candidates_of nodes seen refs in
    elim (lookup ref nodes) [
      | none ↦ rest
      | some node ↦ if was_seen ref seen then rest else ref ∷ rest
    ]

-- The one candidate; sorting them first changes nothing, since two are refused.
unfoldable pub only_candidate : List Hash → Result Panic (Option Hash)
only_candidate [] = ok none
only_candidate (ref ∷ []) = ok (some ref)
only_candidate (ref ∷ other ∷ refs) = err ambiguous_proof_path

-- `wordFromUint64`: eight bytes from the last, after zeros
unfoldable pub word_loop : ℕ → ℕ → Bytes → Bytes
word_loop zero v out = out
word_loop (suc rounds) v out = word_loop rounds (v / 256) ((v % 256) ∷ out)

unfoldable pub word_from_uint64 : ℕ → Bytes
unfolding word_loop
word_from_uint64 v = replicate 24 0 ++ word_loop 8 v []

-- `ibcCommitmentKey`
unfoldable pub ibc_commitment_key : (Bytes → Hash) → Bytes → Result Panic Hash
ibc_commitment_key keccak path =
    if eqb (length path) 32 then ok (keccak (path ++ replicate 32 0)) else err path_not_32_bytes

module _ (decode_list : Bytes → Option (List Bytes)) where
  -- The references of an encoded node.
  unfoldable pub refs_of : Bytes → Result Panic (List Hash)
  unfolding node_refs
  refs_of encoded = elim (decode_list encoded) [
    | none ↦ err library_error
    | some items ↦ node_refs items
  ]

  -- `nextHashedChild`
  unfoldable pub next_hashed_child :
      Bytes → Map Hash Bytes → Map Hash Bool → Result Panic (Option Hash)
  unfolding candidates_of only_candidate
  next_hashed_child encoded nodes seen = do
    refs ← refs_of encoded
    only_candidate (candidates_of nodes seen refs)

  -- The loop of `orderProof`, for a number of rounds
  unfoldable pub order_loop :
      ℕ → Map Hash Bytes → Hash → Map Hash Bool → List Bytes → Result Panic (List Bytes)
  order_loop zero nodes next seen ordered = err out_of_rounds
  order_loop (suc rounds) nodes next seen ordered = elim (lookup next nodes) [
    | none ↦ ok ordered
    | some node ↦ elim (was_seen next seen) [
      | true ↦ err proof_cycle
      | false ↦ next_hashed_child node nodes (insert next true seen) >>= λ child. elim child [
        | none ↦ ok (ordered ++ node ∷ [])
        | some ref ↦ order_loop rounds nodes ref (insert next true seen) (ordered ++ node ∷ [])
      ]
    ]
  ]

  -- `orderProof`; each round sees a node that was not seen before.
  unfoldable pub order_proof : Hash → Map Hash Bytes → Result Panic (List Bytes)
  order_proof root nodes = do
    ordered ← order_loop (length nodes + 1) nodes root [] []
    if eqb (length ordered) (length nodes)
        then ok ordered
        else err (missing_nodes (length ordered) (length nodes))
