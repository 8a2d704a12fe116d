-- ===== src/Tools/EmbeddedProof/Tests.antt =====
-- A run on a concrete database, with a trie that keeps nothing.
use gno_ibc.Prelude.{◌≡◌, ◌≢◌, ◌⊎◌, some, [], ◌∷◌, Bytes, length}
use gno_ibc.Prelude.Result.{ok, err}
use gno_ibc.Encoding.Hex.{codes}
use gno_ibc.Tools.EmbeddedProof.{Db, Geth, not_one_node, print_proof_and_verify}
use gno_ibc.Tools.EmbeddedProof.Counts.{print_proof_and_verify_cases}

abbrev geth : Geth
geth = record {
  Trie = Unit;
  empty = some tt;
  update = λ key value tr. tr;
  root_of = λ tr. [];
  prove = λ key tr. some [];
  verify_proof = λ root key db. ([], codes "nil");
  rlp_uint64 = λ v. some (v ∷ []);
}

abbrev db : Db
db = (1 ∷ [], 2 ∷ []) ∷ []

print_proof_and_verify_cases_example :
    ((length db ≡ 1)
      × ((out : Bytes) × (print_proof_and_verify geth (codes "existence") [] [] db ≡ ok out)))
    ⊎ ((length db ≢ 1)
        × (print_proof_and_verify geth (codes "existence") [] [] db
            ≡ err (not_one_node (codes "existence") (length db))))
print_proof_and_verify_cases_example =
    print_proof_and_verify_cases geth (codes "existence") [] [] db
