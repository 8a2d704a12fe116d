-- ===== src/Union/Core/Handlers/Channels.antt =====
-- The handlers of the channel handshake, by what they do to the store where they return.
use gno_ibc.Prelude.{ℕ, ◌≡◌, Bool, Option, some, Bytes, [], arith}
use gno_ibc.Prelude.Result.{ok}
use gno_ibc.Union.Types.{Channel, Connection, ChannelState, new_channel}
use gno_ibc.Union.Msgs.{
  MsgChannelOpenInit, MsgChannelOpenTry, MsgChannelOpenAck, MsgChannelOpenConfirm,
  MsgChannelCloseInit, MsgChannelCloseConfirm,
}
use gno_ibc.Union.Core.World.{World, Env, Context, TreeValue, ChannelEntry, AppCall, Event}
use gno_ibc.Union.Core.Channels.{
  create_init, create_try, move_ack, move_confirm, move_close_init, move_close_confirm, notify,
  channel_open_init, open_try, open_ack, open_confirm, channel_close_init, channel_close_confirm,
  call_app,
}
use gno_ibc.Union.Core.Clients.{verify_membership}
use gno_ibc.Union.Core.Exec.{◌>>=◌}
use gno_ibc.Union.Core.Store.{to_uint32}
use gno_ibc.Union.Core.Handlers.Connections.{number_or}
use gno_ibc.Union.Core.Handlers.Leaves.{follows_rules}
use gno_ibc.Union.Core.Protocol.{
  put_channel, find_channel, create_channel, move_channel, ChannelMove, ChannelStart, AppsReach,
}
use gno_ibc.Union.Core.Protocol.Run.{Follows, Follows-step, Follows-bind}

-- The channel entry that a tree's value holds, or a channel in no state.
abbrev pub entry_or : Option TreeValue → ChannelEntry
entry_or (some (TreeValue.channel_value e)) = e
entry_or _ = record { channel = new_channel ChannelState.unknown 0 0 [] []; port_id = [] }

module _ {T F : Type 0} (E : Env T F) (c : Context) (w w' : World T F) where
  abbrev next_id : ℕ
  next_id = number_or (E.seqid_next w.store.channel_seq)

  -- A channel is created under the next id, in Init or in TryOpen.
  pub create_init_lem :
      (msg : MsgChannelOpenInit) (id : ℕ) (channel : Channel) (conn : Connection)
      → create_init E c msg w ≡ ok ((id, channel, conn), w')
      → (E.seqid_next w.store.channel_seq ≡ some next_id)
        × (w'.store
            ≡ put_channel E
                (to_uint32 next_id)
                (record {
                  channel =
                      new_channel ChannelState.init msg.connection_id 0 msg.counterparty_port_id
                        msg.version;
                  port_id = msg.port_id;
                })
                (record w.store { channel_seq = next_id }))
  unfolding create_init ◌>>=◌
  create_init_lem msg id channel conn done = ground arith

  pub create_try_lem :
      (msg : MsgChannelOpenTry) (verify : Bool) (id : ℕ) (conn : Connection)
      → create_try E c msg verify w ≡ ok ((id, conn), w')
      → (E.seqid_next w.store.channel_seq ≡ some next_id)
        × (msg.channel.state ≡ ChannelState.try_open)
        × (w'.store
            ≡ put_channel E
                (to_uint32 next_id)
                (record { channel = msg.channel; port_id = msg.port_id })
                (record w.store { channel_seq = next_id }))
  unfolding create_try verify_membership ◌>>=◌
  create_try_lem msg verify id conn done = ground arith

  module _ (port : Bytes) (updated : Channel) (conn : Connection) where
    -- The other handlers find a channel in the state that they need, and save it in the next.
    pub move_ack_lem :
        (msg : MsgChannelOpenAck) (verify : Bool)
        → move_ack E c msg verify w ≡ ok ((port, updated, conn), w')
        → let e = entry_or (find_channel E w.store msg.channel_id) in
          (find_channel E w.store msg.channel_id ≡ some (TreeValue.channel_value e))
          × (e.channel.state ≡ ChannelState.init)
          × (w'.store
              ≡ put_channel E msg.channel_id
                  (record e {
                    channel =
                        new_channel ChannelState.opened e.channel.connection_id
                          msg.counterparty_channel_id e.channel.counterparty_port_id
                          msg.counterparty_version;
                  })
                  w.store)
    unfolding move_ack verify_membership ◌>>=◌
    move_ack_lem msg verify done = ground arith

    pub move_confirm_lem :
        (msg : MsgChannelOpenConfirm) (verify : Bool)
        → move_confirm E c msg verify w ≡ ok ((port, updated, conn), w')
        → let e = entry_or (find_channel E w.store msg.channel_id) in
          (find_channel E w.store msg.channel_id ≡ some (TreeValue.channel_value e))
          × (e.channel.state ≡ ChannelState.try_open)
          × (w'.store
              ≡ put_channel E msg.channel_id
                  (record e { channel = record e.channel { state = ChannelState.opened } })
                  w.store)
    unfolding move_confirm verify_membership ◌>>=◌
    move_confirm_lem msg verify done = ground arith

    pub move_close_init_lem :
        (msg : MsgChannelCloseInit)
        → move_close_init E c msg w ≡ ok ((port, updated, conn), w')
        → let e = entry_or (find_channel E w.store msg.channel_id) in
          (find_channel E w.store msg.channel_id ≡ some (TreeValue.channel_value e))
          × (e.channel.state ≡ ChannelState.opened)
          × (w'.store
              ≡ put_channel E msg.channel_id
                  (record e { channel = record e.channel { state = ChannelState.closed } })
                  w.store)
    unfolding move_close_init ◌>>=◌
    move_close_init_lem msg done = ground arith

    pub move_close_confirm_lem :
        (msg : MsgChannelCloseConfirm)
        → move_close_confirm E c msg w ≡ ok ((port, updated, conn), w')
        → let e = entry_or (find_channel E w.store msg.channel_id) in
          (find_channel E w.store msg.channel_id ≡ some (TreeValue.channel_value e))
          × (e.channel.state ≡ ChannelState.opened)
          × (w'.store
              ≡ put_channel E msg.channel_id
                  (record e { channel = record e.channel { state = ChannelState.closed } })
                  w.store)
    unfolding move_close_confirm verify_membership ◌>>=◌
    move_close_confirm_lem msg done = ground arith

module _ {T F : Type 0} (E : Env T F) (apps : AppsReach E) (c : Context) where
  pub Follows-call_app :
      (app : ℕ) (call : AppCall) (w : World T F) → Follows E (call_app E c app call) w
  unfolding call_app
  Follows-call_app app call w = record {
    at = λ a w' done. apps.call app call c w w' (ground (arith, done));
  }

  Follows-notify :
      (port : Bytes) (call : AppCall) (event : Event) (w : World T F)
      → Follows E (notify E c port call event) w
  unfolding notify
  Follows-notify port call event w = search (follows_rules, Follows-call_app) depth 20

  pub Follows-channel_open_init :
      (msg : MsgChannelOpenInit) (w : World T F) → Follows E (channel_open_init E c msg) w
  unfolding channel_open_init
  Follows-channel_open_init msg w =
      Follows-bind E _ _ w
        (Follows-step E _ w λ (id, channel, conn) w' done.
          let (next, same) = create_init_lem E c w w' msg id channel conn done in
          rw same (create_channel _ _ _ next ChannelStart.from_init))
        (λ a w' done. Follows-notify _ _ _ w')

  pub Follows-open_try :
      (msg : MsgChannelOpenTry) (verify : Bool) (w : World T F)
      → Follows E (open_try E c msg verify) w
  unfolding open_try
  Follows-open_try msg verify w =
      Follows-bind E _ _ w
        (Follows-step E _ w λ (id, conn) w' done.
          let (next, state, same) = create_try_lem E c w w' msg verify id conn done in
          rw same (create_channel _ _ _ next (rw state ChannelStart.from_try)))
        (λ a w' done. Follows-notify _ _ _ w')

  pub Follows-open_ack :
      (msg : MsgChannelOpenAck) (verify : Bool) (w : World T F)
      → Follows E (open_ack E c msg verify) w
  unfolding open_ack
  Follows-open_ack msg verify w =
      Follows-bind E _ _ w
        (Follows-step E _ w λ (port, ch, conn) w' done.
          let (found, state, same) = move_ack_lem E c w w' port ch conn msg verify done in
          rw same (move_channel _ _ _ found (ChannelMove.ack _ _ _ state)))
        (λ a w' done. Follows-notify _ _ _ w')

  pub Follows-open_confirm :
      (msg : MsgChannelOpenConfirm) (verify : Bool) (w : World T F)
      → Follows E (open_confirm E c msg verify) w
  unfolding open_confirm
  Follows-open_confirm msg verify w =
      Follows-bind E _ _ w
        (Follows-step E _ w λ (port, ch, conn) w' done.
          let (found, state, same) = move_confirm_lem E c w w' port ch conn msg verify done in
          rw same (move_channel _ _ _ found (ChannelMove.confirm _ state)))
        (λ a w' done. Follows-notify _ _ _ w')

  pub Follows-channel_close_init :
      (msg : MsgChannelCloseInit) (w : World T F) → Follows E (channel_close_init E c msg) w
  unfolding channel_close_init
  Follows-channel_close_init msg w =
      Follows-bind E _ _ w
        (Follows-step E _ w λ (port, ch, conn) w' done.
          let (found, state, same) = move_close_init_lem E c w w' port ch conn msg done in
          rw same (move_channel _ _ _ found (ChannelMove.close _ state)))
        (λ a w' done. Follows-notify _ _ _ w')

  pub Follows-channel_close_confirm :
      (msg : MsgChannelCloseConfirm) (w : World T F) → Follows E (channel_close_confirm E c msg) w
  unfolding channel_close_confirm
  Follows-channel_close_confirm msg w =
      Follows-bind E _ _ w
        (Follows-step E _ w λ (port, ch, conn) w' done.
          let (found, state, same) = move_close_confirm_lem E c w w' port ch conn msg done in
          rw same (move_channel _ _ _ found (ChannelMove.close _ state)))
        (λ a w' done. Follows-notify _ _ _ w')
