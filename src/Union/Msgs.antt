-- ===== src/Union/Msgs.antt =====
-- gno.land/p/onbloc/ibc/union/types: msgs.gno and msgs_handshake.gno. The relayer fields that no
-- handler reads are left out.
use gno_ibc.Prelude.{ℕ, List, Bytes}
use gno_ibc.Union.Types.{Packet, Channel}

pub record MsgCreateClient : Type 0 where
  pub client_type : Bytes
  pub client_state_bytes : Bytes
  pub consensus_state_bytes : Bytes
  pub relayer : Bytes

pub record MsgUpdateClient : Type 0 where
  pub client_id : ℕ
  pub client_message : Bytes
  pub relayer : Bytes

pub record MsgForceUpdateClient : Type 0 where
  pub client_id : ℕ
  pub client_state_bytes : Bytes
  pub consensus_state_bytes : Bytes

pub record MsgMisbehaviour : Type 0 where
  pub client_id : ℕ
  pub client_message : Bytes
  pub relayer : Bytes

pub record MsgConnectionOpenInit : Type 0 where
  pub client_id : ℕ
  pub counterparty_client_id : ℕ

pub record MsgConnectionOpenTry : Type 0 where
  pub client_id : ℕ
  pub counterparty_client_id : ℕ
  pub counterparty_connection_id : ℕ
  pub proof_init : Bytes
  pub proof_height : ℕ

pub record MsgConnectionOpenAck : Type 0 where
  pub connection_id : ℕ
  pub counterparty_connection_id : ℕ
  pub proof_try : Bytes
  pub proof_height : ℕ

pub record MsgConnectionOpenConfirm : Type 0 where
  pub connection_id : ℕ
  pub proof_ack : Bytes
  pub proof_height : ℕ

pub record MsgChannelOpenInit : Type 0 where
  pub port_id : Bytes
  pub counterparty_port_id : Bytes
  pub connection_id : ℕ
  pub version : Bytes

pub record MsgChannelOpenTry : Type 0 where
  pub port_id : Bytes
  pub channel : Channel
  pub counterparty_version : Bytes
  pub proof_init : Bytes
  pub proof_height : ℕ

pub record MsgChannelOpenAck : Type 0 where
  pub channel_id : ℕ
  pub counterparty_version : Bytes
  pub counterparty_channel_id : ℕ
  pub proof_try : Bytes
  pub proof_height : ℕ

pub record MsgChannelOpenConfirm : Type 0 where
  pub channel_id : ℕ
  pub proof_ack : Bytes
  pub proof_height : ℕ

pub record MsgChannelCloseInit : Type 0 where
  pub channel_id : ℕ

pub record MsgChannelCloseConfirm : Type 0 where
  pub channel_id : ℕ
  pub proof_init : Bytes
  pub proof_height : ℕ

pub record MsgPacketRecv : Type 0 where
  pub packets : List Packet
  pub relayer_msgs : List Bytes
  pub proof : Bytes
  pub proof_height : ℕ

pub record MsgIntentPacketRecv : Type 0 where
  pub packets : List Packet
  pub market_maker_messages : List Bytes

pub record MsgPacketAcknowledgement : Type 0 where
  pub packets : List Packet
  pub acknowledgements : List Bytes
  pub proof : Bytes
  pub proof_height : ℕ

pub record MsgPacketTimeout : Type 0 where
  pub packet : Packet
  pub proof : Bytes
  pub proof_height : ℕ

pub record MsgCommitMembershipProof : Type 0 where
  pub client_id : ℕ
  pub proof_height : ℕ
  pub proof : Bytes
  pub path : Bytes
  pub value : Bytes

pub record MsgCommitNonMembershipProof : Type 0 where
  pub client_id : ℕ
  pub proof_height : ℕ
  pub proof : Bytes
  pub path : Bytes

pub record MsgBatchSend : Type 0 where
  pub packets : List Packet

pub record MsgBatchAcks : Type 0 where
  pub packets : List Packet
  pub acks : List Bytes

pub record MsgWriteAcknowledgement : Type 0 where
  pub packet : Packet
  pub acknowledgement : Bytes
