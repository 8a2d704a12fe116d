-- ===== src/Tools/TestClient/Print/Safety.antt =====
-- The tool runs to its end.
use gno_ibc.Prelude.{◌+◌, ◌*◌, ◌≡◌, refl, Bytes}
use gno_ibc.Prelude.Result.{ok, >>=_returns}
use gno_ibc.Encoding.Hex.{hex_decode, to_lower, hex_encode}
use gno_ibc.Encoding.Word.{put_uint64}
use gno_ibc.Tools.TestClient.{
  must_hex, word, bytes32, encode_client_state, encode_consensus_state, encode_header,
}
use gno_ibc.Tools.TestClient.Vars.{
  Vars, init_vars, devnet_chain_id, updated_trust_period, max_clock_drift, frozen_height,
  devnet_height, devnet_time_seconds, devnet_time_nanos,
}
use gno_ibc.Tools.TestClient.Args.{create_client_args, update_client_args}
use gno_ibc.Tools.TestClient.Print.{print_create_client, print_update_client}
use gno_ibc.Tools.TestClient.Print.Main.{run}

-- The package variables decode.
init : (vars : Vars) × (init_vars ≡ ok vars)
unfolding init_vars hex_decode to_lower
init = (_, refl)

abbrev vars : Vars
unfolding init
vars = init.0

init_vars-eq : init_vars ≡ ok vars
unfolding vars
init_vars-eq = init.1

-- Both encodings of the client's creation, and that they are read back from their text.
created :
    (client_state_hex consensus_state_hex client_state consensus_state : Bytes)
    × (create_client_args vars ≡ ok (client_state_hex, consensus_state_hex))
    × (must_hex client_state_hex ≡ ok client_state)
    × (must_hex consensus_state_hex ≡ ok consensus_state)
unfolding create_client_args encode_client_state encode_consensus_state bytes32 word put_uint64
    must_hex hex_decode to_lower hex_encode vars
created = (_, _, _, _, refl, refl, refl)

updated :
    (header_hex client_state consensus_state : Bytes) × (update_client_args vars ≡ ok header_hex)
    × (encode_client_state vars.contract_address devnet_chain_id updated_trust_period
          max_clock_drift frozen_height devnet_height
        ≡ ok client_state)
    × (encode_consensus_state
          (devnet_time_seconds * 1000000000 + devnet_time_nanos)
          vars.app_hash
          vars.validators_hash
        ≡ ok consensus_state)
unfolding update_client_args encode_header encode_client_state encode_consensus_state bytes32 vars
updated = (_, _, _, refl, refl, refl)

create_returns :
    (keccak : Bytes → Bytes) → (out : Bytes) × (print_create_client keccak vars ≡ ok out)
unfolding print_create_client
create_returns keccak =
    let (_, _, client_state, consensus_state, made, client_back, consensus_back) = created in
    >>=_returns _ _ _ made (
      >>=_returns _ _ client_state client_back
        (>>=_returns _ _ consensus_state consensus_back (_, refl)))

update_returns :
    (keccak : Bytes → Bytes) → (out : Bytes) × (print_update_client keccak vars ≡ ok out)
unfolding print_update_client
update_returns keccak =
    let (header_hex, client_state, consensus_state, made, client_made, consensus_made) = updated in
    >>=_returns _ _ header_hex made (
      >>=_returns _ _ client_state client_made
        (>>=_returns _ _ consensus_state consensus_made (_, refl)))

-- Whatever the hash and the quoting of verb `%q` are, the tool ends without a panic: its package
-- variables decode, every hash that it encodes has 32 bytes, and what it encodes is read back.
pub run_returns :
    (keccak : Bytes → Bytes) (quote : Bytes → Bytes) → (out : Bytes) × (run keccak quote ≡ ok out)
unfolding run
run_returns keccak quote =
    let (created_out, printed) = create_returns keccak in
    let (updated_out, printed') = update_returns keccak in
    >>=_returns _ _ vars init_vars-eq
      (>>=_returns _ _ created_out printed (>>=_returns _ _ updated_out printed' (_, refl)))
