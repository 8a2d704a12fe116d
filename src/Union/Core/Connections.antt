-- ===== src/Union/Core/Connections.antt =====
-- core/v1/connection.gno: the connection handshake. The Force variants skip the proof.
use gno_ibc.Prelude.{ℕ, Bool, true, false, not, Bytes}
use gno_ibc.Union.Types.{
  Connection, ConnectionState, connection_state_eq, new_connection, new_height,
}
use gno_ibc.Union.Msgs.{
  MsgConnectionOpenInit, MsgConnectionOpenTry, MsgConnectionOpenAck, MsgConnectionOpenConfirm,
}
use gno_ibc.Union.Commitment
use gno_ibc.Union.Core.World.{Env, Context, Error, Event}
use gno_ibc.Union.Core.Exec.{
  Exec, ◌>>=◌, ◌>>◌, pure, or_panic, panic_if, must_encode, assert_is_rlm_current, emit,
}
use gno_ibc.Union.Core.Store.{next_connection_id, get_connection, save_connection}
use gno_ibc.Union.Core.Clients.{verify_membership}

module _ {T F : Type 0} (E : Env T F) where
  -- `if verify { … }`: the counterparty's connection must be committed as expected.
  unfoldable pub verify_connection : Bool → ℕ → ℕ → Bytes → ℕ → Connection → Exec T F (Unit {0})
  verify_connection false client height proof id expected = pure tt
  verify_connection true client height proof id expected = do
    value ← must_encode (Commitment.connection_value E.keccak expected)
    verify_membership E client (new_height height) proof (Commitment.connection_path E.keccak id)
        value

  -- `ConnectionOpenInit`
  unfoldable pub connection_open_init : Context → MsgConnectionOpenInit → Exec T F (Unit {0})
  unfolding next_connection_id save_connection emit
  connection_open_init c msg = do
    assert_is_rlm_current c
    id ← next_connection_id E c
    save_connection E c id
        (new_connection ConnectionState.init msg.client_id msg.counterparty_client_id 0)
    emit E c (Event.connection_open_init id msg.client_id msg.counterparty_client_id)

  -- `connectionOpenTry`
  unfoldable pub open_try : Context → MsgConnectionOpenTry → Bool → Exec T F (Unit {0})
  unfolding next_connection_id save_connection verify_connection emit
  open_try c msg verify = do
    id ← next_connection_id E c
    verify_connection verify msg.client_id msg.proof_height msg.proof_init
        msg.counterparty_connection_id
        (new_connection ConnectionState.init msg.counterparty_client_id msg.client_id 0)
    save_connection E c id (
        new_connection ConnectionState.try_open msg.client_id msg.counterparty_client_id
          msg.counterparty_connection_id)
    emit E c (
        Event.connection_open_try id msg.client_id msg.counterparty_client_id
          msg.counterparty_connection_id)

  -- `ConnectionOpenTry` and `ForceConnectionOpenTry`
  unfoldable pub connection_open_try : Context → MsgConnectionOpenTry → Exec T F (Unit {0})
  unfolding open_try
  connection_open_try c msg = do assert_is_rlm_current c; open_try c msg true

  unfoldable pub force_connection_open_try : Context → MsgConnectionOpenTry → Exec T F (Unit {0})
  unfolding open_try
  force_connection_open_try c msg = do assert_is_rlm_current c; open_try c msg false

  -- `connectionOpenAck`
  unfoldable pub open_ack : Context → MsgConnectionOpenAck → Bool → Exec T F (Unit {0})
  unfolding get_connection save_connection verify_connection emit
  open_ack c msg verify = do
    found ← get_connection E msg.connection_id
    conn ← or_panic found Error.connection_not_found
    panic_if (not (connection_state_eq conn.state ConnectionState.init))
        Error.invalid_connection_state
    verify_connection verify conn.client_id msg.proof_height msg.proof_try
        msg.counterparty_connection_id
        (new_connection ConnectionState.try_open conn.counterparty_client_id conn.client_id
          msg.connection_id)
    save_connection E c msg.connection_id (
        new_connection ConnectionState.opened conn.client_id conn.counterparty_client_id
          msg.counterparty_connection_id)
    emit E c (
        Event.connection_open_ack msg.connection_id conn.client_id conn.counterparty_client_id
          msg.counterparty_connection_id)

  -- `ConnectionOpenAck` and `ForceConnectionOpenAck`
  unfoldable pub connection_open_ack : Context → MsgConnectionOpenAck → Exec T F (Unit {0})
  unfolding open_ack
  connection_open_ack c msg = do assert_is_rlm_current c; open_ack c msg true

  unfoldable pub force_connection_open_ack : Context → MsgConnectionOpenAck → Exec T F (Unit {0})
  unfolding open_ack
  force_connection_open_ack c msg = do assert_is_rlm_current c; open_ack c msg false

  -- `connectionOpenConfirm`
  unfoldable pub open_confirm : Context → MsgConnectionOpenConfirm → Bool → Exec T F (Unit {0})
  unfolding get_connection save_connection verify_connection emit
  open_confirm c msg verify = do
    found ← get_connection E msg.connection_id
    conn ← or_panic found Error.connection_not_found
    panic_if (not (connection_state_eq conn.state ConnectionState.try_open))
        Error.invalid_connection_state
    let counterparty = conn.counterparty_connection_id
    verify_connection verify conn.client_id msg.proof_height msg.proof_ack counterparty (
        new_connection ConnectionState.opened conn.counterparty_client_id conn.client_id
          msg.connection_id)
    save_connection E c msg.connection_id (
        new_connection ConnectionState.opened conn.client_id conn.counterparty_client_id
          counterparty)
    emit E c (
        Event.connection_open_confirm msg.connection_id conn.client_id conn.counterparty_client_id
          counterparty)

  -- `ConnectionOpenConfirm` and `ForceConnectionOpenConfirm`
  unfoldable pub connection_open_confirm : Context → MsgConnectionOpenConfirm → Exec T F (Unit {0})
  unfolding open_confirm
  connection_open_confirm c msg = do assert_is_rlm_current c; open_confirm c msg true

  unfoldable pub force_connection_open_confirm :
      Context → MsgConnectionOpenConfirm → Exec T F (Unit {0})
  unfolding open_confirm
  force_connection_open_confirm c msg = do assert_is_rlm_current c; open_confirm c msg false

  -- `ensureConnectionState`
  unfoldable pub ensure_connection_state : ℕ → Exec T F Connection
  unfolding get_connection
  ensure_connection_state id = do
    found ← get_connection E id
    conn ← or_panic found Error.connection_not_found
    panic_if (not (connection_state_eq conn.state ConnectionState.opened))
        Error.invalid_connection_state
    pure conn
