-- ===== src/Union/Core/Channels.antt =====
-- core/v1/channel.gno and core/v1/app.gno: the channel handshake, closing, and the app registry. The
-- Force variants skip the proof.
use gno_ibc.Prelude.{ℕ, Bool, true, false, not, Option, none, some, [], Bytes, eqb}
use gno_ibc.Prelude.Result.{ok, err}
use gno_ibc.Union.Types.{
  Connection, Channel, ChannelState, channel_state_eq, new_channel, new_height,
}
use gno_ibc.Union.Msgs.{
  MsgChannelOpenInit, MsgChannelOpenTry, MsgChannelOpenAck, MsgChannelOpenConfirm,
  MsgChannelCloseInit, MsgChannelCloseConfirm,
}
use gno_ibc.Union.Commitment
use gno_ibc.Union.Core.World.{Env, Context, Error, Event, AppCall}
use gno_ibc.Union.Core.Exec.{
  Exec, ◌>>=◌, ◌>>◌, pure, gets, or_panic, panic_if, must_encode, assert_is_rlm_current, emit,
}
use gno_ibc.Union.Core.Store.{
  next_channel_id, get_channel, get_channel_owner, create_channel, save_channel, get_app_by_port_id,
  register_app_at_port,
}
use gno_ibc.Union.Core.Clients.{verify_membership}
use gno_ibc.Union.Core.Connections.{ensure_connection_state}

-- The zero value that `portId, _ :=` leaves where the channel is missing.
abbrev pub port_or_nil : Option Bytes → Bytes
port_or_nil none = []
port_or_nil (some port) = port

module _ {T F : Type 0} (E : Env T F) where
  -- `getChannel` of v1, whose callers panic on a miss
  unfoldable pub must_get_channel : ℕ → Exec T F Channel
  unfolding get_channel
  must_get_channel id = do found ← get_channel E id; or_panic found Error.channel_not_found

  -- `getAppAtPort`
  unfoldable pub get_app_at_port : Bytes → Exec T F ℕ
  get_app_at_port port = do
    found ← gets (get_app_by_port_id E port)
    or_panic found Error.port_not_found

  -- `portId, _ := c.store.GetChannelOwner(…)`
  unfoldable pub owner_or_nil : ℕ → Exec T F Bytes
  unfolding get_channel_owner
  owner_or_nil id = do found ← get_channel_owner E id; pure (port_or_nil found)

  -- A callback of an app, which may call back into the host.
  unfoldable pub call_app : Context → ℕ → AppCall → Exec T F (Unit {0})
  call_app c app call w = elim (E.app_call app call c w) [ ok w' ↦ ok (tt, w') | err e ↦ err e ]

  -- `if verify { … }`: the counterparty's channel must be committed as expected.
  unfoldable pub verify_channel : Bool → ℕ → ℕ → Bytes → ℕ → Channel → Exec T F (Unit {0})
  verify_channel false client height proof id expected = pure tt
  verify_channel true client height proof id expected = do
    value ← must_encode (Commitment.channel_value E.keccak expected)
    verify_membership E client (new_height height) proof (Commitment.channel_path E.keccak id) value

  -- The end of each handler: `getAppAtPort`, the callback, and the event.
  unfoldable pub notify : Context → Bytes → AppCall → Event → Exec T F (Unit {0})
  unfolding get_app_at_port call_app emit
  notify c port call event = do app ← get_app_at_port port; call_app c app call; emit E c event

  -- `ChannelOpenInit`, up to its `CreateChannel`
  unfoldable pub create_init : Context → MsgChannelOpenInit → Exec T F (ℕ × Channel × Connection)
  unfolding ensure_connection_state next_channel_id create_channel
  create_init c msg = do
    assert_is_rlm_current c
    connection ← ensure_connection_state E msg.connection_id
    id ← next_channel_id E c
    let channel =
        new_channel ChannelState.init msg.connection_id 0 msg.counterparty_port_id msg.version
    create_channel E c id channel msg.port_id
    pure (id, channel, connection)

  -- `ChannelOpenInit`
  unfoldable pub channel_open_init : Context → MsgChannelOpenInit → Exec T F (Unit {0})
  unfolding create_init notify
  channel_open_init c msg = do
    (id, channel, connection) ← create_init c msg
    notify c msg.port_id
        (AppCall.on_channel_open_init msg.connection_id id msg.version c.previous_address)
        (Event.channel_open_init msg.port_id id channel connection)

  -- `channelOpenTry`, up to its `CreateChannel`
  unfoldable pub create_try : Context → MsgChannelOpenTry → Bool → Exec T F (ℕ × Connection)
  unfolding ensure_connection_state next_channel_id create_channel verify_channel
  create_try c msg verify = do
    panic_if (not (channel_state_eq msg.channel.state ChannelState.try_open))
        Error.invalid_channel_state
    panic_if (eqb msg.channel.counterparty_channel_id 0) Error.invalid_counterparty_channel_id
    connection ← ensure_connection_state E msg.channel.connection_id
    id ← next_channel_id E c
    verify_channel verify connection.client_id msg.proof_height msg.proof_init
        msg.channel.counterparty_channel_id
        (new_channel ChannelState.init connection.counterparty_connection_id 0 msg.port_id
          msg.counterparty_version)
    create_channel E c id msg.channel msg.port_id
    pure (id, connection)

  -- `channelOpenTry`
  unfoldable pub open_try : Context → MsgChannelOpenTry → Bool → Exec T F (Unit {0})
  unfolding create_try notify
  open_try c msg verify = do
    (id, connection) ← create_try c msg verify
    notify c msg.port_id
        (AppCall.on_channel_open_try msg.channel.connection_id id msg.channel.version
          msg.counterparty_version c.previous_address)
        (Event.channel_open_try msg.port_id id msg.channel msg.counterparty_version connection)

  -- `ChannelOpenTry` and `ForceChannelOpenTry`
  unfoldable pub channel_open_try : Context → MsgChannelOpenTry → Exec T F (Unit {0})
  unfolding open_try
  channel_open_try c msg = do assert_is_rlm_current c; open_try c msg true

  unfoldable pub force_channel_open_try : Context → MsgChannelOpenTry → Exec T F (Unit {0})
  unfolding open_try
  force_channel_open_try c msg = do assert_is_rlm_current c; open_try c msg false

  -- `channelOpenAck`, up to its `SaveChannel`
  unfoldable pub move_ack :
      Context → MsgChannelOpenAck → Bool → Exec T F (Bytes × Channel × Connection)
  unfolding must_get_channel ensure_connection_state owner_or_nil verify_channel save_channel
  move_ack c msg verify = do
    channel ← must_get_channel msg.channel_id
    panic_if (not (channel_state_eq channel.state ChannelState.init)) Error.invalid_channel_state
    connection ← ensure_connection_state E channel.connection_id
    port ← owner_or_nil msg.channel_id
    verify_channel verify connection.client_id msg.proof_height msg.proof_try
        msg.counterparty_channel_id
        (new_channel ChannelState.try_open connection.counterparty_connection_id msg.channel_id port
          msg.counterparty_version)
    let updated =
        new_channel ChannelState.opened channel.connection_id msg.counterparty_channel_id
          channel.counterparty_port_id msg.counterparty_version
    save_channel E c msg.channel_id updated
    pure (port, updated, connection)

  -- `channelOpenAck`
  unfoldable pub open_ack : Context → MsgChannelOpenAck → Bool → Exec T F (Unit {0})
  unfolding move_ack notify
  open_ack c msg verify = do
    (port, updated, connection) ← move_ack c msg verify
    notify c port
        (AppCall.on_channel_open_ack msg.channel_id msg.counterparty_channel_id
          msg.counterparty_version c.previous_address)
        (Event.channel_open_ack port msg.channel_id updated connection)

  -- `ChannelOpenAck` and `ForceChannelOpenAck`
  unfoldable pub channel_open_ack : Context → MsgChannelOpenAck → Exec T F (Unit {0})
  unfolding open_ack
  channel_open_ack c msg = do assert_is_rlm_current c; open_ack c msg true

  unfoldable pub force_channel_open_ack : Context → MsgChannelOpenAck → Exec T F (Unit {0})
  unfolding open_ack
  force_channel_open_ack c msg = do assert_is_rlm_current c; open_ack c msg false

  -- `channelOpenConfirm`, up to its `SaveChannel`
  unfoldable pub move_confirm :
      Context → MsgChannelOpenConfirm → Bool → Exec T F (Bytes × Channel × Connection)
  unfolding must_get_channel ensure_connection_state owner_or_nil verify_channel save_channel
  move_confirm c msg verify = do
    channel ← must_get_channel msg.channel_id
    panic_if (not (channel_state_eq channel.state ChannelState.try_open))
        Error.invalid_channel_state
    panic_if (eqb channel.counterparty_channel_id 0) Error.invalid_counterparty_channel_id
    connection ← ensure_connection_state E channel.connection_id
    port ← owner_or_nil msg.channel_id
    verify_channel verify connection.client_id msg.proof_height msg.proof_ack
        channel.counterparty_channel_id
        (new_channel ChannelState.opened connection.counterparty_connection_id msg.channel_id port
          channel.version)
    let updated =
        new_channel ChannelState.opened channel.connection_id channel.counterparty_channel_id
          channel.counterparty_port_id channel.version
    save_channel E c msg.channel_id updated
    pure (port, updated, connection)

  -- `channelOpenConfirm`
  unfoldable pub open_confirm : Context → MsgChannelOpenConfirm → Bool → Exec T F (Unit {0})
  unfolding move_confirm notify
  open_confirm c msg verify = do
    (port, updated, connection) ← move_confirm c msg verify
    notify c port (AppCall.on_channel_open_confirm msg.channel_id c.previous_address)
        (Event.channel_open_confirm port msg.channel_id updated connection)

  -- `ChannelOpenConfirm` and `ForceChannelOpenConfirm`
  unfoldable pub channel_open_confirm : Context → MsgChannelOpenConfirm → Exec T F (Unit {0})
  unfolding open_confirm
  channel_open_confirm c msg = do assert_is_rlm_current c; open_confirm c msg true

  unfoldable pub force_channel_open_confirm : Context → MsgChannelOpenConfirm → Exec T F (Unit {0})
  unfolding open_confirm
  force_channel_open_confirm c msg = do assert_is_rlm_current c; open_confirm c msg false

  -- `closedChannel`
  abbrev pub closed_channel : Channel → Channel
  closed_channel channel =
      new_channel ChannelState.closed channel.connection_id channel.counterparty_channel_id
        channel.counterparty_port_id channel.version

  -- `ChannelCloseInit`, up to its `SaveChannel`
  unfoldable pub move_close_init :
      Context → MsgChannelCloseInit → Exec T F (Bytes × Channel × Connection)
  unfolding must_get_channel ensure_connection_state owner_or_nil save_channel
  move_close_init c msg = do
    assert_is_rlm_current c
    channel ← must_get_channel msg.channel_id
    panic_if (not (channel_state_eq channel.state ChannelState.opened)) Error.invalid_channel_state
    panic_if (eqb channel.counterparty_channel_id 0) Error.invalid_counterparty_channel_id
    connection ← ensure_connection_state E channel.connection_id
    port ← owner_or_nil msg.channel_id
    save_channel E c msg.channel_id (closed_channel channel)
    pure (port, closed_channel channel, connection)

  -- `ChannelCloseInit`
  unfoldable pub channel_close_init : Context → MsgChannelCloseInit → Exec T F (Unit {0})
  unfolding move_close_init notify
  channel_close_init c msg = do
    (port, updated, connection) ← move_close_init c msg
    notify c port (AppCall.on_channel_close_init msg.channel_id c.previous_address)
        (Event.channel_close_init port msg.channel_id updated connection)

  -- `ChannelCloseConfirm`, up to its `SaveChannel`
  unfoldable pub move_close_confirm :
      Context → MsgChannelCloseConfirm → Exec T F (Bytes × Channel × Connection)
  unfolding must_get_channel ensure_connection_state owner_or_nil verify_channel save_channel
  move_close_confirm c msg = do
    assert_is_rlm_current c
    channel ← must_get_channel msg.channel_id
    panic_if (not (channel_state_eq channel.state ChannelState.opened)) Error.invalid_channel_state
    panic_if (eqb channel.counterparty_channel_id 0) Error.invalid_counterparty_channel_id
    connection ← ensure_connection_state E channel.connection_id
    port ← owner_or_nil msg.channel_id
    verify_channel true connection.client_id msg.proof_height msg.proof_init
        channel.counterparty_channel_id
        (new_channel ChannelState.closed connection.counterparty_connection_id msg.channel_id port
          channel.version)
    save_channel E c msg.channel_id (closed_channel channel)
    pure (port, closed_channel channel, connection)

  -- `ChannelCloseConfirm`
  unfoldable pub channel_close_confirm : Context → MsgChannelCloseConfirm → Exec T F (Unit {0})
  unfolding move_close_confirm notify
  channel_close_confirm c msg = do
    (port, updated, connection) ← move_close_confirm c msg
    notify c port (AppCall.on_channel_close_confirm msg.channel_id c.previous_address)
        (Event.channel_close_confirm port msg.channel_id updated connection)

  -- `RegisterApp` of app.gno
  unfoldable pub register_app : Context → ℕ → Exec T F (Unit {0})
  unfolding register_app_at_port emit
  register_app c app = do
    assert_is_rlm_current c
    register_app_at_port E c c.previous_pkg_path app
    emit E c (Event.app_registered c.previous_pkg_path c.previous_pkg_path)
