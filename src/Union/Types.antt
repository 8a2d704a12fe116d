-- ===== src/Union/Types.antt =====
-- gno.land/p/onbloc/ibc/union/types: channel.gno, connection.gno, packet.gno and height.gno. Ids and
-- timestamps are numbers in the ranges of their unsigned types; states are enumerations.
use gno_ibc.Prelude.{ℕ, ◌≡◌, Bool, true, Bytes, eqb, arith}

pub data ConnectionState : Type 0 where
  unknown init try_open opened : ConnectionState

pub data ChannelState : Type 0 where
  unknown init try_open opened closed : ChannelState

-- The values of the constants.
abbrev pub connection_code : ConnectionState → ℕ
connection_code ConnectionState.unknown = 0
connection_code ConnectionState.init = 1
connection_code ConnectionState.try_open = 2
connection_code ConnectionState.opened = 3

abbrev pub channel_code : ChannelState → ℕ
channel_code ChannelState.unknown = 0
channel_code ChannelState.init = 1
channel_code ChannelState.try_open = 2
channel_code ChannelState.opened = 3
channel_code ChannelState.closed = 4

abbrev pub connection_state_eq : ConnectionState → ConnectionState → Bool
connection_state_eq a b = eqb (connection_code a) (connection_code b)

abbrev pub channel_state_eq : ChannelState → ChannelState → Bool
channel_state_eq a b = eqb (channel_code a) (channel_code b)

pub channel_state_sound : (a b : ChannelState) → channel_state_eq a b ≡ true → a ≡ b
channel_state_sound a b h = ground arith

pub connection_state_sound : (a b : ConnectionState) → connection_state_eq a b ≡ true → a ≡ b
connection_state_sound a b h = ground arith

pub record Connection : Type 0 where
  pub state : ConnectionState
  pub client_id : ℕ
  pub counterparty_client_id : ℕ
  pub counterparty_connection_id : ℕ

pub record Channel : Type 0 where
  pub state : ChannelState
  pub connection_id : ℕ
  pub counterparty_channel_id : ℕ
  pub counterparty_port_id : Bytes
  pub version : Bytes

pub record Packet : Type 0 where
  pub source_channel_id : ℕ
  pub destination_channel_id : ℕ
  pub payload : Bytes
  pub timeout_height : ℕ
  pub timeout_timestamp : ℕ

-- A uint8 that an app may set to a value of no constant, `PacketStatusUnknown` among them, is `other`.
pub data PacketStatus : Type 0 where
  success failure async other : PacketStatus

pub record RecvPacketResult : Type 0 where
  pub status : PacketStatus
  pub acknowledgement : Bytes

pub record Height : Type 0 where
  pub revision_number : ℕ
  pub revision_height : ℕ

-- `NewHeight`
abbrev pub new_height : ℕ → Height
new_height h = record { revision_number = 0; revision_height = h }

-- `NewConnection` and `NewChannel`
abbrev pub new_connection : ConnectionState → ℕ → ℕ → ℕ → Connection
new_connection s c cc ccid = record {
  state = s;
  client_id = c;
  counterparty_client_id = cc;
  counterparty_connection_id = ccid;
}

abbrev pub new_channel : ChannelState → ℕ → ℕ → Bytes → Bytes → Channel
new_channel s conn ch port v = record {
  state = s;
  connection_id = conn;
  counterparty_channel_id = ch;
  counterparty_port_id = port;
  version = v;
}
