-- ===== src/Tools/StorageProof/Tests.antt =====
-- Runs on concrete inputs: a proof of two nodes, the first an extension that refers to the second.
use gno_ibc.Prelude.{◌≡◌, refl, Option, some, List, [], ◌∷◌, Bytes, length, replicate}
use gno_ibc.Prelude.Eq.{bytes_eq}
use gno_ibc.Prelude.Map.{Map, lookup, insert}
use gno_ibc.Prelude.Result.{ok, err}
use gno_ibc.Encoding.Word.{u64_word}
use gno_ibc.Tools.StorageProof.{
  Hash, missing_nodes, was_seen, candidates_of, only_candidate, refs_of, next_hashed_child,
  order_loop, order_proof, word_from_uint64, bytes_to_hash,
}
use gno_ibc.Tools.StorageProof.Order.{IsStuck, IsPath, order_proof_fails, order_proof-IsPath}
use gno_ibc.Tools.StorageProof.Words.{word_from_uint64-u64_word}

abbrev root : Hash
root = replicate 32 1

abbrev child : Hash
child = replicate 32 2

-- A toy decoder: a node of one byte is an extension of `child`; any other is a leaf.
abbrev decode_list : Bytes → Option (List Bytes)
decode_list (b ∷ []) = some ((32 ∷ []) ∷ (160 ∷ child) ∷ [])
decode_list _ = some ((32 ∷ []) ∷ (5 ∷ []) ∷ [])

abbrev nodes : Map Hash Bytes
nodes = (child, 8 ∷ 9 ∷ []) ∷ (root, 7 ∷ []) ∷ []

ordered : order_proof decode_list root nodes ≡ ok ((7 ∷ []) ∷ (8 ∷ 9 ∷ []) ∷ [])
unfolding order_proof order_loop next_hashed_child refs_of candidates_of only_candidate was_seen
    lookup insert bytes_to_hash
ordered = refl

order_proof-IsPath_example :
    IsPath decode_list nodes root ((7 ∷ []) ∷ (8 ∷ 9 ∷ []) ∷ []) × (2 ≡ length nodes)
order_proof-IsPath_example =
    order_proof-IsPath decode_list nodes root {ordered = (7 ∷ []) ∷ (8 ∷ 9 ∷ []) ∷ []} ordered

from_child : order_proof decode_list child nodes ≡ err (missing_nodes 1 2)
unfolding order_proof order_loop next_hashed_child refs_of candidates_of only_candidate was_seen
    lookup insert bytes_to_hash
from_child = refl

order_proof_fails_example : ¬ IsStuck (missing_nodes 1 2)
order_proof_fails_example =
    order_proof_fails decode_list nodes child {panic = missing_nodes 1 2} from_child

word_from_uint64-u64_word_example : word_from_uint64 0xdeadbeef ≡ u64_word 0xdeadbeef
word_from_uint64-u64_word_example = word_from_uint64-u64_word 0xdeadbeef
