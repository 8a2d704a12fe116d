-- ===== src/Union/Commitment.antt =====
-- Commitment paths and values: path.gno, commit.gno, abi.gno and the EncodeABI methods of
-- gno.land/p/onbloc/ibc/union/types, and encoding.gno of gno.land/r/onbloc/ibc/union/core. The hash
-- `keccak` (crypto/keccak256, native to gno) is a parameter; a hash is a byte string.
pub mod Injective
use gno_ibc.Prelude.{ℕ, ◌+◌, ◌*◌, ◌≡◌, List, [], ◌∷◌, ◌++◌, Bytes, length, replicate}
use gno_ibc.Prelude.Result.{Result, ok, err, ◌>>=◌}
use gno_ibc.Encoding.Word.{u64_word, u32_word}
use gno_ibc.Encoding.Abi
use gno_ibc.Encoding.Abi.{
  AbiError, Field, Fields, Values, Value, end, field, none_left, value, encode_tuple, pad_size,
}
use gno_ibc.Union.Types.{Connection, Channel, Packet, Height, connection_code, channel_code}

abbrev pub H256 : Type 0
H256 = Bytes

-- The slot constants and the sentinel values of path.gno.
abbrev pub slot : ℕ → Bytes
slot n = replicate 31 0 ++ n ∷ []

abbrev pub commitment_magic : H256
commitment_magic = 1 ∷ replicate 31 0

abbrev pub commitment_magic_ack : H256
commitment_magic_ack = 2 ∷ replicate 31 0

abbrev pub non_membership_commitment_value : H256
non_membership_commitment_value = replicate 31 0 ++ 1 ∷ []

-- `Packet.EncodeABI`: the timeout height is encoded as zero, whatever the field holds.
unfoldable pub encode_packet : Packet → Result AbiError Bytes
unfolding encode_tuple
encode_packet p =
    encode_tuple
      (field Field.uint32
        (field Field.uint32 (field Field.bytes (field Field.uint64 (field Field.uint64 end)))))
      (value (Value.v_uint32 p.source_channel_id) (
        value (Value.v_uint32 p.destination_channel_id) (
          value (Value.v_bytes p.payload)
            (value (Value.v_uint64 0) (value (Value.v_uint64 p.timeout_timestamp) none_left)))))

-- `Connection.EncodeABI`
unfoldable pub encode_connection : Connection → Result AbiError Bytes
unfolding encode_tuple
encode_connection c =
    encode_tuple
      (field Field.uint8 (field Field.uint32 (field Field.uint32 (field Field.uint32 end))))
      (value (Value.v_uint8 (connection_code c.state)) (
        value (Value.v_uint32 c.client_id) (
          value (Value.v_uint32 c.counterparty_client_id)
            (value (Value.v_uint32 c.counterparty_connection_id) none_left))))

-- `wrapABIEncode`
unfoldable pub wrap_abi_encode : Bytes → Bytes
wrap_abi_encode encoded = u64_word 32 ++ encoded

-- `Channel.EncodeABI`
unfoldable pub encode_channel : Channel → Result AbiError Bytes
unfolding encode_tuple wrap_abi_encode
encode_channel c =
    encode_tuple
      (field Field.uint8
        (field Field.uint32 (field Field.uint32 (field Field.bytes (field Field.string end)))))
      (value (Value.v_uint8 (channel_code c.state)) (
        value (Value.v_uint32 c.connection_id) (
          value (Value.v_uint32 c.counterparty_channel_id) (
            value (Value.v_bytes c.counterparty_port_id)
              (value (Value.v_string c.version) none_left)))))
    >>= λ bz. ok (wrap_abi_encode bz)

-- `encodeABIPacketArray`: its loop, with the offsets so far in `out`.
packet_array_loop : ℕ → Bytes → Bytes → List Packet → Result AbiError Bytes
packet_array_loop head_len out tail [] = ok (out ++ tail)
packet_array_loop head_len out tail (p ∷ ps) = encode_packet p >>= λ e.
    packet_array_loop head_len (out ++ u64_word (head_len + length tail)) (tail ++ e) ps

unfoldable pub encode_packet_array : List Packet → Result AbiError Bytes
unfolding packet_array_loop
encode_packet_array ps = packet_array_loop (length ps * 32) (u64_word (length ps)) [] ps

-- `encodeABIBytes`
unfoldable pub encode_abi_bytes : Bytes → Bytes
encode_abi_bytes bz = u64_word (length bz) ++ (bz ++ replicate (pad_size (length bz)) 0)

-- `encodeABIBytesArray`
bytes_array_loop : ℕ → Bytes → Bytes → List Bytes → Bytes
bytes_array_loop head_len out tail [] = out ++ tail
bytes_array_loop head_len out tail (x ∷ xs) =
    bytes_array_loop head_len (out ++ u64_word (head_len + length tail))
      (tail ++ encode_abi_bytes x) xs

unfoldable pub encode_abi_bytes_array : List Bytes → Bytes
unfolding bytes_array_loop
encode_abi_bytes_array xs = bytes_array_loop (length xs * 32) (u64_word (length xs)) [] xs

-- `mergeAck`: the leading byte is replaced.
unfoldable pub merge_ack : H256 → H256
merge_ack [] = []
merge_ack (_ ∷ rest) = 1 ∷ rest

module _ (keccak : Bytes → H256) where
  -- `CommitPackets`
  unfoldable pub commit_packets : List Packet → Result AbiError H256
  commit_packets ps = encode_packet_array ps >>= λ e. ok (keccak (wrap_abi_encode e))

  -- `CommitPacket`
  abbrev pub commit_packet : Packet → Result AbiError H256
  commit_packet p = commit_packets (p ∷ [])

  -- `CommitAcks`
  unfoldable pub commit_acks : List Bytes → H256
  commit_acks acks = merge_ack (keccak (wrap_abi_encode (encode_abi_bytes_array acks)))

  -- The paths of path.gno.
  unfoldable pub client_state_path : ℕ → H256
  client_state_path id = keccak (slot 0 ++ u32_word id)

  unfoldable pub consensus_state_path : ℕ → Height → H256
  consensus_state_path id height =
      keccak (slot 1 ++ (u32_word id ++ u64_word height.revision_height))

  unfoldable pub connection_path : ℕ → H256
  connection_path id = keccak (slot 2 ++ u32_word id)

  unfoldable pub channel_path : ℕ → H256
  channel_path id = keccak (slot 3 ++ u32_word id)

  unfoldable pub batch_packets_path : H256 → H256
  batch_packets_path hash = keccak (slot 4 ++ hash)

  unfoldable pub batch_receipts_path : H256 → H256
  batch_receipts_path hash = keccak (slot 5 ++ hash)

  unfoldable pub membership_proof_path : ℕ → ℕ → Bytes → H256
  membership_proof_path id height path =
      keccak (slot 6 ++ (u32_word id ++ (u64_word height ++ path)))

  unfoldable pub non_membership_proof_path : ℕ → ℕ → Bytes → H256
  non_membership_proof_path id height path =
      keccak (slot 7 ++ (u32_word id ++ (u64_word height ++ path)))

  -- `PacketCommitmentPath` and `PacketAcknowledgementPath`
  unfoldable pub packet_commitment_path : Packet → Result AbiError H256
  packet_commitment_path p = commit_packet p >>= λ hash. ok (batch_packets_path hash)

  unfoldable pub packet_acknowledgement_path : Packet → Result AbiError H256
  packet_acknowledgement_path p = commit_packet p >>= λ hash. ok (batch_receipts_path hash)

  -- `connectionValue` and `channelValue`
  unfoldable pub connection_value : Connection → Result AbiError H256
  connection_value c = encode_connection c >>= λ bz. ok (keccak bz)

  unfoldable pub channel_value : Channel → Result AbiError H256
  channel_value c = encode_channel c >>= λ bz. ok (keccak bz)
