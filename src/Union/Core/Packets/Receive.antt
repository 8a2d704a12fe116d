-- ===== src/Union/Core/Packets/Receive.antt =====
-- core/v1/packet.gno: receiving packets and writing their acknowledgements.
use gno_ibc.Prelude.{
  ℕ, Bool, true, false, not, List, [], ◌∷◌, Bytes, length, eqb, leb, if◌then◌else◌,
}
use gno_ibc.Prelude.Eq.{◌==◌, nat_eq, bytes_eq}
use gno_ibc.Union.Types.{
  Connection, Channel, ChannelState, Packet, PacketStatus, RecvPacketResult, channel_state_eq,
  new_height,
}
use gno_ibc.Union.Msgs.{MsgPacketRecv, MsgIntentPacketRecv, MsgWriteAcknowledgement}
use gno_ibc.Union.Commitment
use gno_ibc.Union.Commitment.{
  H256, commitment_magic, commitment_magic_ack, non_membership_commitment_value,
}
use gno_ibc.Union.Core.World.{Env, Context, Error, Event, RecvCall}
use gno_ibc.Union.Core.Exec.{
  Exec, ◌>>=◌, ◌>>◌, pure, panic, or_panic, panic_if, must_encode, assert_is_rlm_current, emit,
}
use gno_ibc.Union.Core.Store.{
  has_packet_receipt, set_packet_receipt, acknowledgement_receipt, commit_acknowledgement,
  get_channel_owner,
}
use gno_ibc.Union.Core.Clients.{verify_membership}
use gno_ibc.Union.Core.Connections.{ensure_connection_state}
use gno_ibc.Union.Core.Channels.{must_get_channel, get_app_at_port, owner_or_nil}
use gno_ibc.Union.Core.Packets.First.{first_packet}

module _ {T F : Type 0} (E : Env T F) where
  -- `acceptRecvPacket`: whether the packet is skipped
  unfoldable pub accept_recv_packet : Context → Packet → ℕ → ℕ → Exec T F Bool
  unfolding must_get_channel has_packet_receipt set_packet_receipt
  accept_recv_packet c packet batch_channel now = do
    panic_if (not (packet.destination_channel_id == batch_channel)) Error.batch_same_channel_only
    channel ← must_get_channel E packet.destination_channel_id
    panic_if (not (channel_state_eq channel.state ChannelState.opened)) Error.invalid_channel_state
    panic_if (leb packet.timeout_timestamp now) Error.packet_timeout_expired
    received ← has_packet_receipt E packet
    if received then pure true else (do set_packet_receipt E c packet; pure false)

  -- `commitSyncAck`, whose error its callers panic with
  unfoldable pub commit_sync_ack :
      Context → Packet → Channel → Connection → RecvPacketResult → Exec T F (Unit {0})
  unfolding commit_acknowledgement emit
  commit_sync_ack c packet channel connection res =
      let write : Exec T F (Unit {0}) = (do
        panic_if (eqb (length res.acknowledgement) 0) Error.sync_ack_empty
        commit_acknowledgement E c packet res.acknowledgement
        emit E c (Event.write_ack packet channel connection res.acknowledgement)) in
      elim res.status [
        | PacketStatus.async ↦ pure tt
        | PacketStatus.success ↦ write
        | PacketStatus.failure ↦ write
        | PacketStatus.other ↦ panic Error.unknown_packet_status
      ]

  -- `OnRecvPacket` and `OnIntentRecvPacket` of an app
  unfoldable pub call_recv : Context → ℕ → RecvCall → Exec T F RecvPacketResult
  call_recv c app call w = E.app_recv app call c w

  -- The body of the loops of `PacketRecv` and `IntentPacketRecv`.
  unfoldable pub recv_one :
      Context
      → ℕ
      → (Packet → Bytes → RecvCall)
      → (Packet → Bytes → Event)
      → ℕ
      → Channel
      → Connection
      → Packet
      → Bytes
      → Exec T F (Unit {0})
  unfolding accept_recv_packet call_recv commit_sync_ack emit
  recv_one c app call event batch_channel channel connection packet msg = do
    skip ← accept_recv_packet c packet batch_channel c.unix_nano
    if skip then pure tt else (do
      res ← call_recv c app (call packet msg)
      commit_sync_ack c packet channel connection res
      emit E c (event packet msg))

  -- The loop stops at the shorter list.
  unfoldable pub recv_loop :
      (Packet → Bytes → Exec T F (Unit {0})) → List Packet → List Bytes → Exec T F (Unit {0})
  recv_loop one [] msgs = pure tt
  recv_loop one (p ∷ ps) [] = pure tt
  recv_loop one (p ∷ ps) (m ∷ ms) = do one p m; recv_loop one ps ms

  -- `PacketRecv`
  unfoldable pub packet_recv : Context → MsgPacketRecv → Exec T F (Unit {0})
  unfolding recv_loop recv_one must_get_channel ensure_connection_state owner_or_nil get_app_at_port
  packet_recv c msg = do
    assert_is_rlm_current c
    first ← or_panic (first_packet msg.packets) Error.not_enough_packets
    channel ← must_get_channel E first.destination_channel_id
    connection ← ensure_connection_state E channel.connection_id
    hash ← must_encode (Commitment.commit_packets E.keccak msg.packets)
    verify_membership E connection.client_id (new_height msg.proof_height) msg.proof
        (Commitment.batch_packets_path E.keccak hash) commitment_magic
    port ← owner_or_nil E first.destination_channel_id
    app ← get_app_at_port E port
    recv_loop
        (recv_one c app (λ p m. RecvCall.on_recv_packet p c.previous_address m)
          (λ p m. Event.packet_recv p channel connection m) first.destination_channel_id channel
          connection)
        msg.packets msg.relayer_msgs

  -- `IntentPacketRecv`
  unfoldable pub intent_packet_recv : Context → MsgIntentPacketRecv → Exec T F (Unit {0})
  unfolding recv_loop recv_one must_get_channel ensure_connection_state owner_or_nil get_app_at_port
  intent_packet_recv c msg = do
    assert_is_rlm_current c
    first ← or_panic (first_packet msg.packets) Error.not_enough_packets
    channel ← must_get_channel E first.destination_channel_id
    connection ← ensure_connection_state E channel.connection_id
    port ← owner_or_nil E first.destination_channel_id
    app ← get_app_at_port E port
    panic_if (not (E.supports_intent app)) Error.intent_not_supported
    recv_loop
        (recv_one c app (λ p m. RecvCall.on_intent_recv_packet p c.previous_address m)
          (λ p m. Event.intent_packet_recv p channel connection m) first.destination_channel_id
          channel connection)
        msg.packets msg.market_maker_messages

  -- `WriteAcknowledgement`
  unfoldable pub write_acknowledgement : Context → MsgWriteAcknowledgement → Exec T F (Unit {0})
  unfolding get_channel_owner acknowledgement_receipt must_get_channel ensure_connection_state
      commit_acknowledgement emit
  write_acknowledgement c msg = do
    assert_is_rlm_current c
    panic_if (eqb (length msg.acknowledgement) 0) Error.acknowledgement_empty
    owner ← get_channel_owner E msg.packet.destination_channel_id
    port ← or_panic owner Error.channel_not_found
    panic_if (not (port == c.previous_pkg_path)) Error.unauthorized_ack_writer
    found ← acknowledgement_receipt E msg.packet
    commitment ← or_panic found Error.packet_receipt_not_found
    panic_if (not (commitment == commitment_magic)) Error.acknowledgement_already_written
    channel ← must_get_channel E msg.packet.destination_channel_id
    connection ← ensure_connection_state E channel.connection_id
    commit_acknowledgement E c msg.packet msg.acknowledgement
    emit E c (Event.write_ack msg.packet channel connection msg.acknowledgement)
