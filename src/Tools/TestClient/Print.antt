-- ===== src/Tools/TestClient/Print.antt =====
-- tools/gen-ibc-test-client/main.go: the shared `print…` functions, and those of the clients, as what they
-- write to the standard output. Verb `%q` is a parameter.
pub mod Handshakes
pub mod Main
pub mod Commit
pub mod Safety
use gno_ibc.Prelude.{ℕ, ◌+◌, ◌-◌, ◌*◌, List, [], ◌∷◌, ◌++◌, Bytes}
use gno_ibc.Prelude.Result.{Result, ok, ◌>>=◌}
use gno_ibc.Encoding.Hex.{codes, hex_encode, to_upper}
use gno_ibc.Encoding.Decimal.{decimal}
use gno_ibc.Tools.TestClient.{
  Panic, must_hex, Header, Connection, Channel, encode_client_state, encode_consensus_state,
  encode_header, encode_connection, encode_channel, client_state_path, consensus_state_path,
  connection_path, channel_path,
}
use gno_ibc.Tools.TestClient.Vars.{
  Vars, init_vars, realm_path, devnet_chain_id, devnet_height, devnet_time_seconds,
  devnet_time_nanos, proof_height, client_id, counterparty_client_id, connection_id,
  counterparty_connection_id, channel_id, counterparty_channel_id, port_id, counterparty_port_id,
  version, client_type, trusting_period, updated_trust_period, max_clock_drift, frozen_height,
}
use gno_ibc.Tools.TestClient.Args.{
  ProofArgs, no_args, z35_connection_try_proof_hex, z35_channel_try_proof_hex,
  connection_open_try_args, connection_open_ack_args, connection_open_confirm_args,
  channel_open_init_args, channel_open_try_args, channel_open_ack_args, channel_open_confirm_args,
  create_client_args, update_client_args,
}

-- `fmt.Printf`, as the parts of its text
abbrev pub printf : List Bytes → Bytes
printf [] = []
printf (part ∷ parts) = part ++ printf parts

-- `printSection`
unfoldable pub print_section : Bytes → Bytes → Bytes → Bytes
print_section n name source =
    printf (
      codes "\n[" ∷ n ∷ codes "] " ∷ name ∷ codes "\n" ∷ codes "source=" ∷ source ∷ codes "\n" ∷ [])

-- `printCommit`: the key under which the node stores a parameter, and what its proofs are about
unfoldable pub params_key : Bytes → Bytes
params_key key = codes "vm:" ++ (realm_path ++ (codes ":" ++ hex_encode key))

unfoldable pub proof_data : Bytes → Bytes
proof_data key = hex_encode (codes "/pv/" ++ params_key key)

unfoldable pub print_commit : Bytes → Bytes → Bytes → Bytes
unfolding params_key proof_data
print_commit label key value = printf (
    label
    ∷ codes ".params_key="
    ∷ params_key key
    ∷ codes "\n"
    ∷ label
    ∷ codes ".proof_data=0x"
    ∷ to_upper (proof_data key)
    ∷ codes "\n"
    ∷ label
    ∷ codes ".expected_value="
    ∷ hex_encode value
    ∷ codes "\n"
    ∷ label
    ∷ codes ".abci_query=http://localhost:26657/abci_query?path=%22.store/main/key%22&data=0x"
    ∷ to_upper (proof_data key)
    ∷ codes "&prove=true\n"
    ∷ [])

-- `printCreateClientRunScript`
unfoldable pub print_create_client_run_script : Bytes → Bytes → Bytes
print_create_client_run_script client_state_hex consensus_state_hex = printf (
    codes "RUN_SCRIPT=cat >/tmp/create_client.gno <<'EOF'\n"
    ∷ codes "package main\n\nimport (\n\t\"encoding/hex\"\n\n"
    ∷ codes "\tcore \"gno.land/r/onbloc/unionibc/v1/core\"\n"
    ∷ codes "\tcometbls \"gno.land/r/onbloc/unionibc/v1/lightclients/cometbls\"\n"
    ∷ codes ")\n\nfunc main() {\n"
    ∷ codes "\tclientState, err := hex.DecodeString(\""
    ∷ client_state_hex
    ∷ codes "\")\n\tif err != nil {\n\t\tpanic(err)\n\t}\n\n"
    ∷ codes "\tconsensusState, err := hex.DecodeString(\""
    ∷ consensus_state_hex
    ∷ codes "\")\n\tif err != nil {\n\t\tpanic(err)\n\t}\n\n"
    ∷ codes "\tclientID := core.CreateClient(cross, core.MsgCreateClient{\n"
    ∷ codes "\t\tClientType:          cometbls.ClientType,\n"
    ∷ codes "\t\tClientStateBytes:    clientState,\n"
    ∷ codes "\t\tConsensusStateBytes: consensusState,\n\t})\n"
    ∷ codes "\tprintln(\"CreateClient\", clientID.String())\n}\n"
    ∷ codes "EOF\n"
    ∷ codes
        "gnokey maketx run -gas-fee 1000000ugnot -gas-wanted 50000000 -broadcast -chainid dev -remote tcp://127.0.0.1:26657 test1 /tmp/create_client.gno\n"
    ∷ [])

module _ (quote : Bytes → Bytes) where
  -- `printHeader`
  unfoldable pub print_header : Bytes
  print_header = printf (
      codes "CORE_PATH="
      ∷ realm_path
      ∷ codes "\n"
      ∷ codes "PROOF_HEIGHT="
      ∷ decimal proof_height
      ∷ codes "\n"
      ∷ codes "PORT_ID="
      ∷ quote port_id
      ∷ codes "\n"
      ∷ codes "COUNTERPARTY_PORT_ID="
      ∷ quote counterparty_port_id
      ∷ codes "\n"
      ∷ codes "VERSION="
      ∷ quote version
      ∷ codes "\n\n"
      ∷ [])

module _ (keccak : Bytes → Bytes) where
  -- `printCreateClient`
  unfoldable pub print_create_client : Vars → Result Panic Bytes
  print_create_client vars = do
    (client_state_hex, consensus_state_hex) ← create_client_args vars
    client_state ← must_hex client_state_hex
    consensus_state ← must_hex consensus_state_hex
    ok (
        printf (
          print_section (codes "1") (codes "CreateClient")
            (codes "createClientArgs, clientStatePath, consensusStatePath")
          ∷ codes "CLIENT_TYPE="
          ∷ client_type
          ∷ codes "\nCLIENT_STATE_HEX="
          ∷ client_state_hex
          ∷ codes "\nCONSENSUS_STATE_HEX="
          ∷ consensus_state_hex
          ∷ codes "\n"
          ∷ print_create_client_run_script client_state_hex consensus_state_hex
          ∷ print_commit (codes "client state") (client_state_path keccak client_id)
              (keccak client_state)
          ∷ print_commit (codes "consensus state")
              (consensus_state_path keccak client_id proof_height) (keccak consensus_state)
          ∷ []))

  -- `printUpdateClient`
  unfoldable pub print_update_client : Vars → Result Panic Bytes
  print_update_client vars = do
    header_hex ← update_client_args vars
    updated_client_state ←
        encode_client_state vars.contract_address devnet_chain_id updated_trust_period
          max_clock_drift frozen_height devnet_height
    updated_consensus_state ←
        encode_consensus_state (devnet_time_seconds * 1000000000 + devnet_time_nanos) vars.app_hash
          vars.validators_hash
    ok (
        printf (
          print_section (codes "2") (codes "UpdateClient")
            (codes "updateClientArgs, encodeHeader, encodeClientState, encodeConsensusState")
          ∷ codes "CLIENT_ID="
          ∷ decimal client_id
          ∷ codes "\nCLIENT_MESSAGE_HEX="
          ∷ header_hex
          ∷ codes "\n"
          ∷ print_commit (codes "updated client state") (client_state_path keccak client_id)
              (keccak updated_client_state)
          ∷ print_commit (codes "updated consensus state")
              (consensus_state_path keccak client_id devnet_height) (keccak updated_consensus_state)
          ∷ []))
