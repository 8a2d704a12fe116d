-- ===== src/Union/Core/Handlers/Connections.antt =====
-- The handlers of the connection handshake, by what they do to the store where they return.
use gno_ibc.Prelude.{ℕ, ◌≡◌, Bool, Option, none, some, arith}
use gno_ibc.Prelude.Result.{ok}
use gno_ibc.Union.Types.{Connection, ConnectionState, new_connection}
use gno_ibc.Union.Msgs.{
  MsgConnectionOpenInit, MsgConnectionOpenTry, MsgConnectionOpenAck, MsgConnectionOpenConfirm,
}
use gno_ibc.Union.Core.World.{World, Env, Context, TreeValue}
use gno_ibc.Union.Core.Connections.{open_try, open_ack, open_confirm, connection_open_init}
use gno_ibc.Union.Core.Clients.{verify_membership}
use gno_ibc.Union.Core.Exec.{◌>>=◌}
use gno_ibc.Union.Core.Store.{to_uint32}
use gno_ibc.Union.Core.Protocol.{
  put_connection, find_connection, create_connection, move_connection, ConnectionMove,
  ConnectionStart,
}
use gno_ibc.Union.Core.Protocol.Run.{Follows, Follows-step}

-- The connection that a tree's entry holds, or a connection in no state.
abbrev pub connection_or : Option TreeValue → Connection
connection_or (some (TreeValue.connection_value c)) = c
connection_or _ = new_connection ConnectionState.unknown 0 0 0

-- The number that a sequence gives, or zero.
abbrev pub number_or : Option ℕ → ℕ
number_or none = 0
number_or (some n) = n

module _ {T F : Type 0} (E : Env T F) (c : Context) (w w' : World T F) where
  abbrev next_id : ℕ
  next_id = number_or (E.seqid_next w.store.connection_seq)

  -- `ConnectionOpenInit` and `connectionOpenTry` create a connection under the next id.
  pub connection_open_init_lem :
      (msg : MsgConnectionOpenInit)
      → connection_open_init E c msg w ≡ ok (tt, w')
      → (E.seqid_next w.store.connection_seq ≡ some next_id)
        × (w'.store
            ≡ put_connection E
                (to_uint32 next_id)
                (new_connection ConnectionState.init msg.client_id msg.counterparty_client_id 0)
                (record w.store { connection_seq = next_id }))
  unfolding connection_open_init ◌>>=◌
  connection_open_init_lem msg done = ground arith

  pub open_try_lem :
      (msg : MsgConnectionOpenTry) (verify : Bool)
      → open_try E c msg verify w ≡ ok (tt, w')
      → (E.seqid_next w.store.connection_seq ≡ some next_id)
        × (w'.store
            ≡ put_connection E
                (to_uint32 next_id)
                (new_connection ConnectionState.try_open msg.client_id msg.counterparty_client_id
                  msg.counterparty_connection_id)
                (record w.store { connection_seq = next_id }))
  unfolding open_try verify_membership ◌>>=◌
  open_try_lem msg verify done = ground arith

  -- `connectionOpenAck` finds a connection in Init and opens it, with the counterparty's id.
  pub open_ack_lem :
      (msg : MsgConnectionOpenAck) (verify : Bool)
      → open_ack E c msg verify w ≡ ok (tt, w')
      → let conn = connection_or (find_connection E w.store msg.connection_id) in
        (find_connection E w.store msg.connection_id ≡ some (TreeValue.connection_value conn))
        × (conn.state ≡ ConnectionState.init)
        × (w'.store
            ≡ put_connection E msg.connection_id
                (new_connection ConnectionState.opened conn.client_id conn.counterparty_client_id
                  msg.counterparty_connection_id)
                w.store)
  unfolding open_ack verify_membership ◌>>=◌
  open_ack_lem msg verify done = ground arith

  -- `connectionOpenConfirm` finds a connection in TryOpen and opens it.
  pub open_confirm_lem :
      (msg : MsgConnectionOpenConfirm) (verify : Bool)
      → open_confirm E c msg verify w ≡ ok (tt, w')
      → let conn = connection_or (find_connection E w.store msg.connection_id) in
        (find_connection E w.store msg.connection_id ≡ some (TreeValue.connection_value conn))
        × (conn.state ≡ ConnectionState.try_open)
        × (w'.store
            ≡ put_connection E msg.connection_id
                (record conn { state = ConnectionState.opened })
                w.store)
  unfolding open_confirm verify_membership ◌>>=◌
  open_confirm_lem msg verify done = ground arith

module _ {T F : Type 0} (E : Env T F) (c : Context) (w : World T F) where
  pub Follows-connection_open_init :
      (msg : MsgConnectionOpenInit) → Follows E (connection_open_init E c msg) w
  Follows-connection_open_init msg = Follows-step E _ w λ a w' e.
      let (next, same) = connection_open_init_lem E c w w' msg e in
      rw same (create_connection _ _ next ConnectionStart.from_init)

  pub Follows-open_try :
      (msg : MsgConnectionOpenTry) (verify : Bool) → Follows E (open_try E c msg verify) w
  Follows-open_try msg verify = Follows-step E _ w λ a w' e.
      let (next, same) = open_try_lem E c w w' msg verify e in
      rw same (create_connection _ _ next ConnectionStart.from_try)

  pub Follows-open_ack :
      (msg : MsgConnectionOpenAck) (verify : Bool) → Follows E (open_ack E c msg verify) w
  Follows-open_ack msg verify = Follows-step E _ w λ a w' e.
      let (found, state, same) = open_ack_lem E c w w' msg verify e in
      rw same (move_connection _ _ _ found (ConnectionMove.ack _ _ state))

  pub Follows-open_confirm :
      (msg : MsgConnectionOpenConfirm) (verify : Bool) → Follows E (open_confirm E c msg verify) w
  Follows-open_confirm msg verify = Follows-step E _ w λ a w' e.
      let (found, state, same) = open_confirm_lem E c w w' msg verify e in
      rw same (move_connection _ _ _ found (ConnectionMove.confirm _ state))
