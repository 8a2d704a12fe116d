-- ===== src/Union/Core/Calls.antt =====
-- The entry points of core/v1 as data, one constructor for each method of `coreV1` that may change the
-- host, and the histories of calls that succeed. A call that panics is reverted, so it leaves no trace.
use gno_ibc.Prelude.{ℕ, ◌≡◌, ◌<◌, ◌^◌, Bytes, Option, length}
use gno_ibc.Prelude.Result.{ok}
use gno_ibc.Union.Msgs.{
  MsgCreateClient, MsgUpdateClient, MsgForceUpdateClient, MsgMisbehaviour, MsgConnectionOpenInit,
  MsgConnectionOpenTry, MsgConnectionOpenAck, MsgConnectionOpenConfirm, MsgChannelOpenInit,
  MsgChannelOpenTry, MsgChannelOpenAck, MsgChannelOpenConfirm, MsgChannelCloseInit,
  MsgChannelCloseConfirm, MsgPacketRecv, MsgIntentPacketRecv, MsgPacketAcknowledgement,
  MsgPacketTimeout, MsgCommitMembershipProof, MsgCommitNonMembershipProof, MsgBatchSend,
  MsgBatchAcks, MsgWriteAcknowledgement,
}
use gno_ibc.Union.Core.World.{World, Env, Context}
use gno_ibc.Union.Core.Exec.{Exec, ◌>>=◌, pure}
use gno_ibc.Union.Core.Clients
use gno_ibc.Union.Core.Connections
use gno_ibc.Union.Core.Channels
use gno_ibc.Union.Core.Packets

pub data Call : Type 0 where
  register_client : Bytes → Option ℕ → Call
  create_client : MsgCreateClient → Call
  update_client : MsgUpdateClient → Call
  force_update_client : MsgForceUpdateClient → Call
  misbehaviour : MsgMisbehaviour → Call
  connection_open_init : MsgConnectionOpenInit → Call
  connection_open_try force_connection_open_try : MsgConnectionOpenTry → Call
  connection_open_ack force_connection_open_ack : MsgConnectionOpenAck → Call
  connection_open_confirm force_connection_open_confirm : MsgConnectionOpenConfirm → Call
  register_app : ℕ → Call
  channel_open_init : MsgChannelOpenInit → Call
  channel_open_try force_channel_open_try : MsgChannelOpenTry → Call
  channel_open_ack force_channel_open_ack : MsgChannelOpenAck → Call
  channel_open_confirm force_channel_open_confirm : MsgChannelOpenConfirm → Call
  channel_close_init : MsgChannelCloseInit → Call
  channel_close_confirm : MsgChannelCloseConfirm → Call
  -- source channel, timeout and payload
  send_packet : ℕ → ℕ → Bytes → Call
  packet_recv : MsgPacketRecv → Call
  intent_packet_recv : MsgIntentPacketRecv → Call
  packet_acknowledgement : MsgPacketAcknowledgement → Call
  packet_timeout : MsgPacketTimeout → Call
  write_acknowledgement : MsgWriteAcknowledgement → Call
  -- a slice is shorter than 2 ^ 64
  batch_send : (msg : MsgBatchSend) → length msg.packets < 2 ^ 64 → Call
  batch_acks : (msg : MsgBatchAcks) → length msg.packets < 2 ^ 64 → Call
  commit_membership_proof : MsgCommitMembershipProof → Call
  commit_non_membership_proof : MsgCommitNonMembershipProof → Call

module _ {T F : Type 0} (E : Env T F) where
  unfoldable pub run : Context → Call → Exec T F (Unit {0})
  run c (Call.register_client typ impl) = Clients.register_client E c typ impl
  run c (Call.create_client msg) = Clients.create_client E c msg
  run c (Call.update_client msg) = Clients.update_client E c msg
  run c (Call.force_update_client msg) = Clients.force_update_client E c msg
  run c (Call.misbehaviour msg) = Clients.misbehaviour E c msg
  run c (Call.connection_open_init msg) = Connections.connection_open_init E c msg
  run c (Call.connection_open_try msg) = Connections.connection_open_try E c msg
  run c (Call.force_connection_open_try msg) = Connections.force_connection_open_try E c msg
  run c (Call.connection_open_ack msg) = Connections.connection_open_ack E c msg
  run c (Call.force_connection_open_ack msg) = Connections.force_connection_open_ack E c msg
  run c (Call.connection_open_confirm msg) = Connections.connection_open_confirm E c msg
  run c (Call.force_connection_open_confirm msg) = Connections.force_connection_open_confirm E c msg
  run c (Call.register_app app) = Channels.register_app E c app
  run c (Call.channel_open_init msg) = Channels.channel_open_init E c msg
  run c (Call.channel_open_try msg) = Channels.channel_open_try E c msg
  run c (Call.force_channel_open_try msg) = Channels.force_channel_open_try E c msg
  run c (Call.channel_open_ack msg) = Channels.channel_open_ack E c msg
  run c (Call.force_channel_open_ack msg) = Channels.force_channel_open_ack E c msg
  run c (Call.channel_open_confirm msg) = Channels.channel_open_confirm E c msg
  run c (Call.force_channel_open_confirm msg) = Channels.force_channel_open_confirm E c msg
  run c (Call.channel_close_init msg) = Channels.channel_close_init E c msg
  run c (Call.channel_close_confirm msg) = Channels.channel_close_confirm E c msg
  run c (Call.send_packet source timeout payload) =
      Packets.send_packet E c source timeout payload >>= λ _. pure tt
  run c (Call.packet_recv msg) = Packets.packet_recv E c msg
  run c (Call.intent_packet_recv msg) = Packets.intent_packet_recv E c msg
  run c (Call.packet_acknowledgement msg) = Packets.packet_acknowledgement E c msg
  run c (Call.packet_timeout msg) = Packets.packet_timeout E c msg
  run c (Call.write_acknowledgement msg) = Packets.write_acknowledgement E c msg
  run c (Call.batch_send msg few) = Packets.batch_send E c msg
  run c (Call.batch_acks msg few) = Packets.batch_acks E c msg
  run c (Call.commit_membership_proof msg) = Packets.commit_membership_proof E c msg
  run c (Call.commit_non_membership_proof msg) = Packets.commit_non_membership_proof E c msg

  -- Calls that succeed one after another, each by any caller and at any time.
  pub data History (w : World T F) : World T F → Type 0 where
    start : History w w
    call :
        {u v : World T F} (c : Context) (k : Call)
        → History w u
        → run c k u ≡ ok (tt, v)
        → History w v
