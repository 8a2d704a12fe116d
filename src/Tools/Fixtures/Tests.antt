-- ===== src/Tools/Fixtures/Tests.antt =====
-- Runs on concrete inputs, with a toy hash: the number of the bytes.
use gno_ibc.Prelude.{
  ◌%◌, ◌≡◌, refl, inl, inr, List, [], ◌∷◌, ◌++◌, Bytes, some, none, length, get_elem?,
}
use gno_ibc.Prelude.Result.{ok, err}
use gno_ibc.Encoding.Hex.{codes, hex_decode}
use gno_ibc.Tools.Fixtures.Wire.{encode_existence_proof, encode_non_existence_proof}
use gno_ibc.Tools.Fixtures.Wire.Read.{chunk, read_message}
use gno_ibc.Tools.Fixtures.Wire.Messages.{
  optional_entry, read_message-encode_existence_proof, read_message-encode_non_existence_proof,
}
use gno_ibc.Tools.Fixtures.Iavl.{FixtureInput, LeafNode, build_iavl_root}
use gno_ibc.Tools.Fixtures.Sets.{
  Fixture, new_leaves, sort_leaves, make_fixture, make_non_membership_proof, write_fixtures,
  make_fixture_set, non_membership_neighbors, neighbors_loop, wasm_contract_store_key,
  wasm_contract_store_key_prefix, encode_iavl_existence_proof, bytes_compare, bytes_lt,
  zero_fixture,
}
use gno_ibc.Tools.Fixtures.Sets.Verified.{IsVerified, make_fixture_set-IsVerified}
use gno_ibc.Tools.Fixtures.Sets.Total.{AreMissing, make_fixture_set_total}
use gno_ibc.Tools.Fixtures.Sets.Keys.{keys, IsSorted}
use gno_ibc.Tools.Fixtures.Sets.Neighbors.{IsBracketed, non_membership_neighbors-IsBracketed}
use gno_ibc.Tools.Fixtures.Main.{run}
use gno_ibc.Tools.Fixtures.Main.Safety.{run_total}

abbrev sum256 : Bytes → Bytes
sum256 bz = (length bz % 256) ∷ []

abbrev quote : Bytes → Bytes
quote bz = 34 ∷ (bz ++ 34 ∷ [])

-- Keys out of order, and a key that is missing between them.
abbrev second_input : FixtureInput
second_input = record {
  name = codes "b";
  key = codes "b";
  value = codes "y";
  non_membership_key = codes "ab";
}

abbrev first_input : FixtureInput
first_input = record {
  name = codes "a";
  key = codes "a";
  value = codes "x";
  non_membership_key = [];
}

abbrev inputs : List FixtureInput
inputs = second_input ∷ first_input ∷ []

fixtures : List Fixture
unfolding make_fixture_set wasm_contract_store_key_prefix hex_decode new_leaves sort_leaves
    build_iavl_root make_fixture write_fixtures encode_iavl_existence_proof wasm_contract_store_key
    make_non_membership_proof non_membership_neighbors neighbors_loop bytes_compare
fixtures = elim (make_fixture_set sum256 inputs) [ ok out ↦ out | err e ↦ [] ]

made : make_fixture_set sum256 inputs ≡ ok fixtures
unfolding fixtures
made = refl

first_fixture : Fixture
unfolding fixtures
first_fixture = elim (get_elem? fixtures 0) [ some fx ↦ fx | none ↦ zero_fixture ]

first_found : get_elem? fixtures 0 ≡ some first_fixture
unfolding first_fixture
first_found = refl

make_fixture_set-IsVerified_example :
    (get_elem? inputs 0 ≡ some first_fixture.input) × IsVerified sum256 first_fixture
make_fixture_set-IsVerified_example =
    make_fixture_set-IsVerified sum256 inputs 0 {out = fixtures} {fx = first_fixture} made
      first_found

inputs-AreMissing : AreMissing inputs
inputs-AreMissing = (inr ((λ e. cc), ((λ e. cc), tt)), (inl refl, tt))

make_fixture_set_total_example :
    (out : List Fixture) × (make_fixture_set sum256 inputs ≡ ok out) × (length out ≡ 2)
make_fixture_set_total_example =
    make_fixture_set_total sum256 second_input (first_input ∷ []) inputs-AreMissing

read_message-encode_existence_proof_example :
    read_message (encode_existence_proof (codes "k") (codes "value") [] (codes "op" ∷ []))
    ≡ some (chunk 1 (codes "k") ∷ chunk 2 (codes "value") ∷ chunk 3 [] ∷ chunk 4 (codes "op") ∷ [])
read_message-encode_existence_proof_example =
    read_message-encode_existence_proof (codes "k") (codes "value") [] (codes "op" ∷ [])

read_message-encode_non_existence_proof_example :
    read_message (encode_non_existence_proof (codes "k") [] (codes "right"))
    ≡ some
        (optional_entry 1 (codes "k") ++ (optional_entry 2 [] ++ optional_entry 3 (codes "right")))
read_message-encode_non_existence_proof_example =
    read_message-encode_non_existence_proof (codes "k") [] (codes "right")

abbrev leaves : List LeafNode
leaves =
    record { input = first_input; input_idx = 1; hash = []; proof = [] }
    ∷ record { input = second_input; input_idx = 0; hash = []; proof = [] }
    ∷ []

neighbors : Bytes × Bytes
unfolding non_membership_neighbors neighbors_loop wasm_contract_store_key
    wasm_contract_store_key_prefix hex_decode encode_iavl_existence_proof bytes_compare
neighbors = elim (non_membership_neighbors leaves (codes "ab") []) [
  | ok found ↦ found
  | err e ↦ ([], [])
]

neighbors_found : non_membership_neighbors leaves (codes "ab") [] ≡ ok neighbors
unfolding neighbors
neighbors_found = refl

leaves-IsSorted : IsSorted (keys leaves)
unfolding bytes_lt
leaves-IsSorted = ((refl, tt), (tt, tt))

non_membership_neighbors-IsBracketed_example : IsBracketed [] [] (codes "ab") leaves neighbors
non_membership_neighbors-IsBracketed_example =
    non_membership_neighbors-IsBracketed leaves (codes "ab") [] {found = neighbors} leaves-IsSorted
      neighbors_found

run_total_example : (out : Bytes) × (run sum256 quote ≡ ok out)
run_total_example = run_total sum256 quote
