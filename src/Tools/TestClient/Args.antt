-- ===== src/Tools/TestClient/Args.antt =====
-- tools/gen-ibc-test-client/main.go: the arguments of the calls that the tool prints.
use gno_ibc.Prelude.{ℕ, ◌+◌, ◌-◌, ◌*◌, [], Bytes}
use gno_ibc.Prelude.Result.{Result, ok, ◌>>=◌}
use gno_ibc.Encoding.Hex.{codes, hex_encode}
use gno_ibc.Tools.TestClient.{Panic, encode_client_state, encode_consensus_state, encode_header}
use gno_ibc.Tools.TestClient.Vars.{
  Vars, devnet_chain_id, devnet_height, devnet_time_seconds, devnet_time_nanos, proof_height,
  client_id, counterparty_client_id, connection_id, counterparty_connection_id, channel_id,
  counterparty_channel_id, port_id, counterparty_port_id, version, trusting_period, max_clock_drift,
  frozen_height,
}

-- `proofArgs`
pub record ProofArgs : Type 0 where
  pub client_id : ℕ
  pub counterparty_client_id : ℕ
  pub connection_id : ℕ
  pub counterparty_connection_id : ℕ
  pub channel_id : ℕ
  pub counterparty_channel_id : ℕ
  pub port_id : Bytes
  pub counterparty_port_id : Bytes
  pub version : Bytes
  pub counterparty_version : Bytes
  pub proof_hex : Bytes
  pub proof_height : ℕ

-- A field that a literal does not name has its zero value.
abbrev pub no_args : ProofArgs
no_args = record {
  client_id = 0;
  counterparty_client_id = 0;
  connection_id = 0;
  counterparty_connection_id = 0;
  channel_id = 0;
  counterparty_channel_id = 0;
  port_id = [];
  counterparty_port_id = [];
  version = [];
  counterparty_version = [];
  proof_hex = [];
  proof_height = 0;
}

-- `z35ConnectionTryProofHex` and `z35ChannelTryProofHex`
unfoldable pub z35_connection_try_proof_hex : Vars → Bytes
z35_connection_try_proof_hex vars = hex_encode vars.z35_connection_try_proof

unfoldable pub z35_channel_try_proof_hex : Vars → Bytes
z35_channel_try_proof_hex vars = hex_encode vars.z35_channel_try_proof

-- `connectionOpenTryArgs`
unfoldable pub connection_open_try_args : Vars → ProofArgs
connection_open_try_args vars = record no_args {
  client_id = client_id;
  counterparty_client_id = counterparty_client_id;
  counterparty_connection_id = connection_id;
  proof_hex = (z35_connection_try_proof_hex vars);
  proof_height = proof_height;
}

-- `connectionOpenAckArgs`
unfoldable pub connection_open_ack_args : Vars → ProofArgs
connection_open_ack_args vars = record no_args {
  connection_id = connection_id;
  counterparty_connection_id = counterparty_connection_id;
  proof_hex = (z35_connection_try_proof_hex vars);
  proof_height = proof_height;
}

-- `connectionOpenConfirmArgs`
unfoldable pub connection_open_confirm_args : ProofArgs
connection_open_confirm_args = record no_args {
  connection_id = (connection_id + 1);
  proof_hex = (codes "REPLACE_WITH_CONNECTION_OPEN_PROOF_HEX");
  proof_height = proof_height;
}

-- `channelOpenInitArgs`
unfoldable pub channel_open_init_args : ProofArgs
channel_open_init_args = record no_args {
  port_id = port_id;
  counterparty_port_id = counterparty_port_id;
  connection_id = connection_id;
  version = version;
}

-- `channelOpenTryArgs`
unfoldable pub channel_open_try_args : Vars → ProofArgs
channel_open_try_args vars = record no_args {
  port_id = port_id;
  connection_id = connection_id;
  counterparty_port_id = counterparty_port_id;
  counterparty_channel_id = counterparty_channel_id;
  version = version;
  counterparty_version = version;
  proof_hex = (z35_channel_try_proof_hex vars);
  proof_height = proof_height;
}

-- `channelOpenAckArgs`
unfoldable pub channel_open_ack_args : Vars → ProofArgs
channel_open_ack_args vars = record no_args {
  channel_id = channel_id;
  counterparty_version = version;
  counterparty_channel_id = counterparty_channel_id;
  proof_hex = (z35_channel_try_proof_hex vars);
  proof_height = proof_height;
}

-- `channelOpenConfirmArgs`
unfoldable pub channel_open_confirm_args : ProofArgs
channel_open_confirm_args = record no_args {
  channel_id = (channel_id + 1);
  proof_hex = (codes "REPLACE_WITH_CHANNEL_OPEN_PROOF_HEX");
  proof_height = proof_height;
}

-- `createClientArgs`: the encodings, which the source returns as hexadecimal text
unfoldable pub create_client_args : Vars → Result Panic (Bytes × Bytes)
create_client_args vars = do
  client_state ←
      encode_client_state vars.contract_address devnet_chain_id trusting_period max_clock_drift
        frozen_height proof_height
  consensus_state ←
      encode_consensus_state ((devnet_time_seconds - 1000) * 1000000000) vars.app_hash
        vars.validators_hash
  ok (hex_encode client_state, hex_encode consensus_state)

-- `updateClientArgs`
unfoldable pub update_client_args : Vars → Result Panic Bytes
update_client_args vars = do
  header ← encode_header (record {
    height = devnet_height;
    time_seconds = devnet_time_seconds;
    time_nanos = devnet_time_nanos;
    validators_hash = vars.validators_hash;
    next_validators_hash = vars.validators_hash;
    app_hash = vars.app_hash;
    trusted_height = proof_height;
    zkp = vars.zkp;
  })
  ok (hex_encode header)
