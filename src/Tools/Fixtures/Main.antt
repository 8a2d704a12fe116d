-- ===== src/Tools/Fixtures/Main.antt =====
-- tools/cometbls-fixtures/main.go: `main`, its fixture sets, and what it prints. Verb `%q` is a parameter.
-- What is printed before a panic is not kept.
pub mod Safety
use gno_ibc.Prelude.{List, [], ◌∷◌, ◌++◌, Bytes}
use gno_ibc.Prelude.Result.{Result, ok, ◌>>=◌}
use gno_ibc.Encoding.Hex.{codes, hex_encode}
use gno_ibc.Tools.Fixtures.Iavl.{FixtureInput, Panic}
use gno_ibc.Tools.Fixtures.Sets.{
  Fixture, must_hex, wasm_store_key, wasm_contract_store_key, make_fixture_set,
}

-- Inputs of text, and of hexadecimal literals.
abbrev pub text_input : Bytes → Bytes → Bytes → Bytes → FixtureInput
text_input name key value non_membership_key = record {
  name = name;
  key = key;
  value = value;
  non_membership_key = non_membership_key;
}

unfoldable pub hex_input : Bytes → Bytes → Bytes → Result Panic FixtureInput
unfolding must_hex
hex_input name key value = do k ← must_hex key; v ← must_hex value; ok (text_input name k v [])

unfoldable pub base_fixtures : List FixtureInput
base_fixtures =
    text_input (codes "packet") (codes "packet-key") (codes "packet-value")
      (codes "packet-key-missing")
    ∷ text_input (codes "connection") (codes "connection-state-key")
        (codes "connection-state-value") []
    ∷ text_input (codes "channel") (codes "channel-state-key") (codes "channel-state-value") []
    ∷ []

unfoldable pub z35_fixtures : Result Panic (List FixtureInput)
unfolding hex_input
z35_fixtures = do
  connection_try ←
      hex_input (codes "z35_connection_try")
        (codes "05f3c8eef62e74b10b7ee910fcc73c8358000f692d9ce2341a989e008e45b35d")
        (codes "ff4fb67348c16e70c898c7cf43c460a684bc900d2b41e5a24ef6dcb294586034")
  channel_try ←
      hex_input (codes "z35_channel_try")
        (codes "88601476d11616a71c5be67555bd1dff4b1cbf21533d2669b768b61518cfe1c3")
        (codes "cd40381bd2f524e0a4475c4b40120758cb94be9b88e224846f3e808ea9493958")
  packet_commitment ←
      hex_input (codes "z35_packet_commitment")
        (codes "cd7b438a4f36b68a13ce77733e104cbf38a4bd2460f5a35d75a5aa0180b951cc")
        (codes "0100000000000000000000000000000000000000000000000000000000000000")
  ack_membership ←
      hex_input (codes "z36_ack_membership")
        (codes "3cde3b6891df12ae3a04f23e62738b1c7e209ddb5a5dd6ebc27b6c29cd539b18")
        (codes "015b3cd48177600c2efac9e26b978edfdf97f8480c0a7f3b0884f0b4817ed5a8")
  call_packet_commitment ←
      hex_input (codes "z39_call_packet_commitment")
        (codes "f9fc75d51d473e980f2141b006da2897766da9ce36737c10b7d6444dc4c94ae6")
        (codes "0100000000000000000000000000000000000000000000000000000000000000")
  missing_call_packet_commitment ←
      hex_input (codes "z39_missing_call_packet_commitment")
        (codes "370fc261c739d70a11a370a82a6f1ccbb2ddd55ae0f5a9e6abfed94462e9d303")
        (codes "0100000000000000000000000000000000000000000000000000000000000000")
  mixed_batch_packet_commitment ←
      hex_input (codes "z40_mixed_batch_packet_commitment")
        (codes "5b6d15280476ff21b8582b241254a08073cd68019a7021427aa49ed2e12ed028")
        (codes "0100000000000000000000000000000000000000000000000000000000000000")
  panic_batch_packet_commitment ←
      hex_input (codes "z40_panic_batch_packet_commitment")
        (codes "40b8521a5f940a9da33617a71e52dcf702f56c7f070333b94f23f5014b272e4a")
        (codes "0100000000000000000000000000000000000000000000000000000000000000")
  ok (
      connection_try ∷ channel_try ∷ packet_commitment ∷ ack_membership ∷ call_packet_commitment
      ∷ missing_call_packet_commitment ∷ mixed_batch_packet_commitment
      ∷ panic_batch_packet_commitment ∷ [])

unfoldable pub z37_fixtures : Result Panic (List FixtureInput)
unfolding hex_input
z37_fixtures = do
  connection_try ←
      hex_input (codes "z37_connection_try")
        (codes "05f3c8eef62e74b10b7ee910fcc73c8358000f692d9ce2341a989e008e45b35d")
        (codes "ff4fb67348c16e70c898c7cf43c460a684bc900d2b41e5a24ef6dcb294586034")
  channel_try ←
      hex_input (codes "z37_channel_try")
        (codes "88601476d11616a71c5be67555bd1dff4b1cbf21533d2669b768b61518cfe1c3")
        (codes "cd40381bd2f524e0a4475c4b40120758cb94be9b88e224846f3e808ea9493958")
  missing ← must_hex (codes "3cde3b6891df12ae3a04f23e62738b1c7e209ddb5a5dd6ebc27b6c29cd539b18")
  ok (
      connection_try
      ∷ channel_try
      ∷ text_input (codes "z37_receipt_non_membership") (codes "z37-neighbor-anchor")
          (codes "z37-neighbor-value") missing
      ∷ [])

unfoldable pub z42_wrong_version_fixtures : Result Panic (List FixtureInput)
unfolding hex_input
z42_wrong_version_fixtures = do
  connection_try ←
      hex_input (codes "z42_wrong_version_connection_try")
        (codes "05f3c8eef62e74b10b7ee910fcc73c8358000f692d9ce2341a989e008e45b35d")
        (codes "ff4fb67348c16e70c898c7cf43c460a684bc900d2b41e5a24ef6dcb294586034")
  channel_try ←
      hex_input (codes "z42_wrong_version_channel_try")
        (codes "88601476d11616a71c5be67555bd1dff4b1cbf21533d2669b768b61518cfe1c3")
        (codes "3359a3326d70b8efdb54e451d092e03d9ed0ff24e90a40734900124d4c2d4214")
  ok (connection_try ∷ channel_try ∷ [])

unfoldable pub z42_stale_fixtures : Result Panic (List FixtureInput)
unfolding hex_input
z42_stale_fixtures = do
  connection_try ←
      hex_input (codes "z42_stale_connection_try")
        (codes "05f3c8eef62e74b10b7ee910fcc73c8358000f692d9ce2341a989e008e45b35d")
        (codes "ff4fb67348c16e70c898c7cf43c460a684bc900d2b41e5a24ef6dcb294586034")
  channel_try ←
      hex_input (codes "z42_stale_channel_try")
        (codes "88601476d11616a71c5be67555bd1dff4b1cbf21533d2669b768b61518cfe1c3")
        (codes "a11e2621c343c5f411feeb755da56f296aa5d9d2ecf9864f9cf941b836cce706")
  ok (connection_try ∷ channel_try ∷ [])

module _ (sum256 : Bytes → Bytes) (quote : Bytes → Bytes) where
  abbrev line : Bytes → Bytes → Bytes
  line label text = label ++ (text ++ 10 ∷ [])

  abbrev hex : Bytes → Bytes
  hex bz = codes "0x" ++ hex_encode bz

  -- The lines that `printFixture` prints under its test.
  unfoldable pub print_non_membership : Bytes → Bytes → Bytes
  print_non_membership key [] = []
  print_non_membership key (b ∷ bs) =
      line (codes "non_membership_key: ") (quote key)
      ++ line (codes "non_membership_proof: ") (hex (b ∷ bs))

  -- `printFixture`
  unfoldable pub print_fixture : Fixture → Result Panic Bytes
  print_fixture f = do
    contract_key ← wasm_contract_store_key f.input.key
    ok (
        line (codes "[") (f.input.name ++ codes "]")
        ++ (line (codes "key: ") (quote f.input.key)
            ++ (line (codes "value: ") (quote f.input.value)
                ++ (line (codes "store_key: ") (quote wasm_store_key)
                    ++ (line (codes "contract_key: ") (hex contract_key)
                        ++ (line (codes "iavl_subroot: ") (hex f.subroot)
                            ++ (line (codes "app_root: ") (hex f.app_root)
                                ++ (line (codes "membership_proof: ") (hex f.proof_bz)
                                    ++ (print_non_membership f.input.non_membership_key
                                          f.non_membership_proof
                                        ++ 10 ∷ [])))))))))

  -- `for _, fx := range fixtures { printFixture(fx) }`
  unfoldable pub print_fixtures : List Fixture → Result Panic Bytes
  print_fixtures [] = ok []
  print_fixtures (fx ∷ fixtures) =
      print_fixture fx >>= λ first. print_fixtures fixtures >>= λ rest. ok (first ++ rest)

  unfoldable pub print_set : List FixtureInput → Result Panic Bytes
  print_set inputs = do fixtures ← make_fixture_set sum256 inputs; print_fixtures fixtures

  -- `main`, as what it prints
  unfoldable pub run : Result Panic Bytes
  run = do
    z35 ← z35_fixtures
    base_out ← print_set base_fixtures
    z35_out ← print_set z35
    z37 ← z37_fixtures
    z37_out ← print_set z37
    z42_wrong_version ← z42_wrong_version_fixtures
    z42_stale ← z42_stale_fixtures
    z42_wrong_version_out ← print_set z42_wrong_version
    z42_stale_out ← print_set z42_stale
    ok (base_out ++ (z35_out ++ (z37_out ++ (z42_wrong_version_out ++ z42_stale_out))))
