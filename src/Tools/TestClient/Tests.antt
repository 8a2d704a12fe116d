-- ===== src/Tools/TestClient/Tests.antt =====
-- Runs on concrete inputs, with a toy hash.
use gno_ibc.Prelude.{◌%◌, ◌^◌, ◌<◌, ◌≡◌, refl, List, [], ◌∷◌, ◌++◌, Bytes, length, replicate, arith}
use gno_ibc.Prelude.Result.{ok, err}
use gno_ibc.Encoding.Word.{put_uint64}
use gno_ibc.Encoding.Hex.{codes}
use gno_ibc.Union.Types
use gno_ibc.Union.Types.{new_height}
use gno_ibc.Union.Commitment
use gno_ibc.Tools.TestClient.{
  Header, word, bytes32, abi_bytes, abi_encode, encode_header, encode_connection, encode_channel,
  client_state_path, consensus_state_path, connection_path, channel_path,
}
use gno_ibc.Tools.TestClient.Agreement.{
  of_connection, of_channel, paths-agree, encode_connection-agrees, encode_channel-wrapped,
}
use gno_ibc.Tools.TestClient.Read.{
  Item, fixed, tailed, read_slots, to_values, kinds, contents, read_slots-abi_encode,
}
use gno_ibc.Tools.TestClient.Tuples.{header_items, encode_header-read}
use gno_ibc.Tools.TestClient.Print.Main.{run}
use gno_ibc.Tools.TestClient.Print.Safety.{run_returns}

abbrev keccak : Bytes → Bytes
keccak bz = (length bz % 256) ∷ replicate 31 7

abbrev quote : Bytes → Bytes
quote bz = 34 ∷ (bz ++ 34 ∷ [])

paths-agree_example :
    (client_state_path keccak 1 ≡ Commitment.client_state_path keccak 1)
    × (consensus_state_path keccak 1 7 ≡ Commitment.consensus_state_path keccak 1 (new_height 7))
    × (connection_path keccak 1 ≡ Commitment.connection_path keccak 1)
    × (channel_path keccak 1 ≡ Commitment.channel_path keccak 1)
paths-agree_example = paths-agree keccak 1 (new_height 7)

abbrev opened : Types.Connection
opened = Types.new_connection Types.ConnectionState.opened 1 99 77

encode_connection-agrees_example :
    Commitment.encode_connection opened ≡ ok (encode_connection (of_connection opened))
encode_connection-agrees_example = encode_connection-agrees opened

abbrev started : Types.Channel
started = Types.new_channel Types.ChannelState.init 1 0 (codes "port") (codes "ucs03-zkgm-0")

encode_channel-wrapped_example :
    Commitment.encode_channel started
    ≡ ok (Commitment.wrap_abi_encode (encode_channel (of_channel started)))
encode_channel-wrapped_example = encode_channel-wrapped started

abbrev items : List Item
items = fixed (replicate 32 5) ∷ tailed (codes "proof") ∷ []

items_short : length (abi_encode (to_values items)) < 2 ^ 64
unfolding abi_encode abi_bytes word put_uint64
items_short = omega arith

read_slots-abi_encode_example :
    read_slots (abi_encode (to_values items)) (kinds items) (abi_encode (to_values items))
    ≡ contents items
read_slots-abi_encode_example = read_slots-abi_encode items (refl, (tt, tt)) items_short

abbrev header : Header
header = record {
  height = 9;
  time_seconds = 1;
  time_nanos = 2;
  validators_hash = replicate 32 3;
  next_validators_hash = replicate 32 4;
  app_hash = replicate 32 5;
  trusted_height = 8;
  zkp = codes "zkp";
}

header_bytes : Bytes
unfolding encode_header bytes32 abi_encode abi_bytes word put_uint64
header_bytes = elim (encode_header header) [ ok bz ↦ bz | err e ↦ [] ]

header_encoded : encode_header header ≡ ok header_bytes
unfolding header_bytes
header_encoded = refl

header_short : length header_bytes < 2 ^ 64
unfolding header_bytes
header_short = omega arith

encode_header-read_example :
    (read_slots header_bytes (kinds (header_items header)) header_bytes
      ≡ contents (header_items header))
    × (length header.validators_hash ≡ 32)
    × (length header.next_validators_hash ≡ 32)
    × (length header.app_hash ≡ 32)
encode_header-read_example =
    encode_header-read header {bz = header_bytes} header_encoded header_short

run_returns_example : (out : Bytes) × (run keccak quote ≡ ok out)
run_returns_example = run_returns keccak quote
