-- ===== src/Tools/TestClient/Agreement.antt =====
-- The tool's paths and encodings, beside those of the realm: gno.land/p/onbloc/ibc/union/types.
use gno_ibc.Prelude.{ℕ, ◌≡◌, ◌≢◌, refl, ap, ◌∙◌, sym, ◌++◌, Bytes, length, length-append, arith}
use gno_ibc.Prelude.Result.{Result, ok}
use gno_ibc.Encoding.Word.{put_uint64, u64_word, u32_word, length-u64_word}
use gno_ibc.Encoding.Abi.{AbiError}
use gno_ibc.Union.Types
use gno_ibc.Union.Types.{Height, connection_code, channel_code}
use gno_ibc.Union.Commitment
use gno_ibc.Tools.TestClient.{
  Connection, Channel, word, slot, u32_to_h256, u64_to_h256, abi_bytes, abi_string, abi_encode,
  encode_connection, encode_channel, client_state_path, consensus_state_path, connection_path,
  channel_path,
}

-- The tool's view of the realm's records: a state is its number.
abbrev pub of_connection : Types.Connection → Connection
of_connection c = record {
  state = connection_code c.state;
  client_id = c.client_id;
  counterparty_client_id = c.counterparty_client_id;
  counterparty_connection_id = c.counterparty_connection_id;
}

abbrev pub of_channel : Types.Channel → Channel
of_channel c = record {
  state = channel_code c.state;
  connection_id = c.connection_id;
  counterparty_channel_id = c.counterparty_channel_id;
  counterparty_port_id = c.counterparty_port_id;
  version = c.version;
}

ok_injective : {a b : Bytes} → ◌≡◌ {A = Result AbiError Bytes} (ok a) (ok b) → a ≡ b
ok_injective e = cc

word-u64_word : (n : ℕ) → word n ≡ u64_word n
unfolding word u64_word
word-u64_word n = refl

-- The tool computes the four paths of the realm, of every id and height.
pub paths-agree :
    (keccak : Bytes → Bytes) (id : ℕ) (height : Height)
    → (client_state_path keccak id ≡ Commitment.client_state_path keccak id)
      × (consensus_state_path keccak id height.revision_height
          ≡ Commitment.consensus_state_path keccak id height)
      × (connection_path keccak id ≡ Commitment.connection_path keccak id)
      × (channel_path keccak id ≡ Commitment.channel_path keccak id)
unfolding client_state_path Commitment.client_state_path consensus_state_path
    Commitment.consensus_state_path connection_path Commitment.connection_path channel_path
    Commitment.channel_path slot u32_to_h256 u64_to_h256 u32_word u64_word
paths-agree keccak id height = (refl, refl, refl, refl)

-- The tool encodes every connection as the realm does, where no encoding fails.
pub encode_connection-agrees :
    (c : Types.Connection)
    → Commitment.encode_connection c ≡ ok (encode_connection (of_connection c))
unfolding Commitment.encode_connection encode_connection word u64_word put_uint64
encode_connection-agrees c = refl

-- The realm encodes every channel as the tool does, behind a word that holds 32.
pub encode_channel-wrapped :
    (c : Types.Channel)
    → Commitment.encode_channel c ≡ ok (Commitment.wrap_abi_encode (encode_channel (of_channel c)))
unfolding Commitment.encode_channel encode_channel abi_encode abi_bytes abi_string word u64_word
    put_uint64
encode_channel-wrapped c = refl

-- So the tool's encoding of a channel is never the realm's.
pub encode_channel-ne :
    (c : Types.Channel) → Commitment.encode_channel c ≢ ok (encode_channel (of_channel c))
encode_channel-ne c same =
    let bz = encode_channel (of_channel c) in
    let wrapped : ◌≡◌ {A = Result AbiError Bytes} (ok (u64_word 32 ++ bz)) (ok bz) =
      unfold Commitment.wrap_abi_encode in sym (encode_channel-wrapped c) ∙ same in
    omega (
      arith,
      ap (length {0}) (ok_injective wrapped),
      length-append {0} (u64_word 32) bz,
      length-u64_word 32,
    )
