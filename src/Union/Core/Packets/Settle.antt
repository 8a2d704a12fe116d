-- ===== src/Union/Core/Packets/Settle.antt =====
-- core/v1/packet.gno: settling sent packets by acknowledgement or timeout.
use gno_ibc.Prelude.{ℕ, not, Option, List, [], ◌∷◌, Bytes, eqb, ltb}
use gno_ibc.Prelude.Eq.{◌==◌, nat_eq, bytes_eq}
use gno_ibc.Prelude.Result.{ok, err}
use gno_ibc.Union.Types.{Connection, Channel, ChannelState, Packet, channel_state_eq, new_height}
use gno_ibc.Union.Msgs.{MsgPacketAcknowledgement, MsgPacketTimeout}
use gno_ibc.Union.Commitment
use gno_ibc.Union.Commitment.{
  H256, commitment_magic, commitment_magic_ack, non_membership_commitment_value,
}
use gno_ibc.Union.Core.World.{Env, Context, Error, Event, AppCall}
use gno_ibc.Union.Core.Exec.{
  Exec, ◌>>=◌, ◌>>◌, pure, gets, or_panic, panic_if, must_encode, assert_is_rlm_current, emit,
}
use gno_ibc.Union.Core.Store.{packet_commitment, set_packet_acknowledged, get_app_by_port_id}
use gno_ibc.Union.Core.Clients.{get_client, verify_membership, verify_non_membership}
use gno_ibc.Union.Core.Connections.{ensure_connection_state}
use gno_ibc.Union.Core.Channels.{must_get_channel, owner_or_nil, call_app}
use gno_ibc.Union.Core.Packets.First.{first_packet}

module _ {T F : Type 0} (E : Env T F) where
  -- `lc.GetTimestampAtHeight`
  unfoldable pub read_timestamp : ℕ → ℕ → Exec T F ℕ
  read_timestamp lc height w = elim (E.get_timestamp_at_height lc height w.foreign_state) [
    | ok t ↦ ok (t, w)
    | err e ↦ err e
  ]

  -- `markPacketAcknowledged`
  unfoldable pub mark_packet_acknowledged : Context → Packet → Exec T F (Unit {0})
  unfolding packet_commitment set_packet_acknowledged
  mark_packet_acknowledged c packet = do
    found ← packet_commitment E packet
    commitment ← or_panic found Error.packet_commitment_not_found
    panic_if (commitment == commitment_magic_ack) Error.packet_already_acknowledged
    panic_if (not (commitment == commitment_magic)) Error.packet_commitment_not_found
    set_packet_acknowledged E c packet

  -- The loop of `PacketAcknowledgement`, over the acknowledgements that have a packet.
  unfoldable pub ack_loop :
      Context → Option ℕ → ℕ → Channel → Connection → List Packet → List Bytes → Exec T F (Unit {0})
  unfolding mark_packet_acknowledged call_app emit
  ack_loop c app source channel connection packets [] = pure tt
  ack_loop c app source channel connection [] (ack ∷ acks) = pure tt
  ack_loop c app source channel connection (p ∷ ps) (ack ∷ acks) = do
    panic_if (not (p.source_channel_id == source)) Error.batch_same_channel_only
    mark_packet_acknowledged c p
    handle ← or_panic app Error.nil_dereference
    call_app E c handle (AppCall.on_acknowledgement_packet p ack c.previous_address)
    emit E c (Event.packet_ack p channel connection ack)
    ack_loop c app source channel connection ps acks

  -- `PacketAcknowledgement`
  unfoldable pub packet_acknowledgement : Context → MsgPacketAcknowledgement → Exec T F (Unit {0})
  unfolding ack_loop must_get_channel ensure_connection_state owner_or_nil
  packet_acknowledgement c msg = do
    assert_is_rlm_current c
    first ← or_panic (first_packet msg.packets) Error.not_enough_packets
    channel ← must_get_channel E first.source_channel_id
    connection ← ensure_connection_state E channel.connection_id
    hash ← must_encode (Commitment.commit_packets E.keccak msg.packets)
    verify_membership E connection.client_id (new_height msg.proof_height) msg.proof
        (Commitment.batch_receipts_path E.keccak hash)
        (Commitment.commit_acks E.keccak msg.acknowledgements)
    port ← owner_or_nil E first.source_channel_id
    app ← gets (get_app_by_port_id E port)
    ack_loop c app first.source_channel_id channel connection msg.packets msg.acknowledgements

  -- `PacketTimeout`
  unfoldable pub packet_timeout : Context → MsgPacketTimeout → Exec T F (Unit {0})
  unfolding must_get_channel ensure_connection_state get_client mark_packet_acknowledged
      owner_or_nil call_app emit
  packet_timeout c msg = do
    assert_is_rlm_current c
    let packet = msg.packet
    channel ← must_get_channel E packet.source_channel_id
    panic_if (not (channel_state_eq channel.state ChannelState.opened)) Error.invalid_channel_state
    connection ← ensure_connection_state E channel.connection_id
    lc ← get_client E connection.client_id
    proof_time ← read_timestamp lc msg.proof_height
    panic_if (eqb proof_time 0) Error.timeout_proof_timestamp_not_found
    hash ← must_encode (Commitment.commit_packet E.keccak packet)
    verify_non_membership E connection.client_id (new_height msg.proof_height) msg.proof
        (Commitment.batch_receipts_path E.keccak hash)
    mark_packet_acknowledged c packet
    panic_if (eqb packet.timeout_timestamp 0) Error.timeout_must_be_set
    panic_if (ltb proof_time packet.timeout_timestamp) Error.packet_timeout_not_reached
    port ← owner_or_nil E packet.source_channel_id
    app ← gets (get_app_by_port_id E port)
    handle ← or_panic app Error.nil_dereference
    call_app E c handle (AppCall.on_timeout_packet packet c.previous_address)
    emit E c (Event.packet_timeout packet channel connection)
