-- ===== src/Union/Core/Handlers/Refinement.antt =====
-- The handlers refine the protocol.
use gno_ibc.Union.Core.World.{World, Env, Context}
use gno_ibc.Union.Core.Connections.{
  connection_open_try, force_connection_open_try, connection_open_ack, force_connection_open_ack,
  connection_open_confirm, force_connection_open_confirm,
}
use gno_ibc.Union.Core.Channels.{
  channel_open_try, force_channel_open_try, channel_open_ack, force_channel_open_ack,
  channel_open_confirm, force_channel_open_confirm,
}
use gno_ibc.Union.Core.Calls.{Call, run, History, start, call}
use gno_ibc.Union.Core.Protocol.{Reach, Reach-trans, here, AppsReach}
use gno_ibc.Union.Core.Protocol.Run.{Follows}
use gno_ibc.Union.Core.Handlers.Leaves.{follows_rules}
use gno_ibc.Union.Core.Handlers.Connections
use gno_ibc.Union.Core.Handlers.Channels
use gno_ibc.Union.Core.Handlers.Receive.{
  Follows-packet_recv, Follows-intent_packet_recv, Follows-write_acknowledgement,
}
use gno_ibc.Union.Core.Handlers.Settle.{
  Follows-send_packet, Follows-packet_acknowledgement, Follows-packet_timeout,
}
use gno_ibc.Union.Core.Handlers.Batches.{Follows-batch_send, Follows-batch_acks}
use gno_ibc.Union.Core.Handlers.Clients

module _ {T F : Type 0} (E : Env T F) (apps : AppsReach E) where
  -- Every entry point that returns has changed the store by protocol steps alone, where the apps'
  -- callbacks do.
  pub run-Follows : (c : Context) (k : Call) (w : World T F) → Follows E (run E c k) w
  unfolding run connection_open_try force_connection_open_try connection_open_ack
      force_connection_open_ack connection_open_confirm force_connection_open_confirm
      channel_open_try force_channel_open_try channel_open_ack force_channel_open_ack
      channel_open_confirm force_channel_open_confirm
  run-Follows c (Call.register_client typ impl) w = Clients.Follows-register_client E c typ impl w
  run-Follows c (Call.create_client msg) w = Clients.Follows-create_client E c msg w
  run-Follows c (Call.update_client msg) w = Clients.Follows-update_client E c msg w
  run-Follows c (Call.force_update_client msg) w = Clients.Follows-force_update_client E c msg w
  run-Follows c (Call.misbehaviour msg) w = Clients.Follows-misbehaviour E c msg w
  run-Follows c (Call.connection_open_init msg) w =
      Connections.Follows-connection_open_init E c w msg
  run-Follows c (Call.connection_open_try msg) w =
      search (follows_rules, Connections.Follows-open_try)
  run-Follows c (Call.force_connection_open_try msg) w =
      search (follows_rules, Connections.Follows-open_try)
  run-Follows c (Call.connection_open_ack msg) w =
      search (follows_rules, Connections.Follows-open_ack)
  run-Follows c (Call.force_connection_open_ack msg) w =
      search (follows_rules, Connections.Follows-open_ack)
  run-Follows c (Call.connection_open_confirm msg) w =
      search (follows_rules, Connections.Follows-open_confirm)
  run-Follows c (Call.force_connection_open_confirm msg) w =
      search (follows_rules, Connections.Follows-open_confirm)
  run-Follows c (Call.register_app app) w = Clients.Follows-register_app E c app w
  run-Follows c (Call.channel_open_init msg) w = Channels.Follows-channel_open_init E apps c msg w
  run-Follows c (Call.channel_open_try msg) w =
      search (follows_rules, Channels.Follows-open_try E apps)
  run-Follows c (Call.force_channel_open_try msg) w =
      search (follows_rules, Channels.Follows-open_try E apps)
  run-Follows c (Call.channel_open_ack msg) w =
      search (follows_rules, Channels.Follows-open_ack E apps)
  run-Follows c (Call.force_channel_open_ack msg) w =
      search (follows_rules, Channels.Follows-open_ack E apps)
  run-Follows c (Call.channel_open_confirm msg) w =
      search (follows_rules, Channels.Follows-open_confirm E apps)
  run-Follows c (Call.force_channel_open_confirm msg) w =
      search (follows_rules, Channels.Follows-open_confirm E apps)
  run-Follows c (Call.channel_close_init msg) w = Channels.Follows-channel_close_init E apps c msg w
  run-Follows c (Call.channel_close_confirm msg) w =
      Channels.Follows-channel_close_confirm E apps c msg w
  run-Follows c (Call.send_packet source timeout payload) w =
      search (follows_rules, Follows-send_packet)
  run-Follows c (Call.packet_recv msg) w = Follows-packet_recv E c apps msg w
  run-Follows c (Call.intent_packet_recv msg) w = Follows-intent_packet_recv E c apps msg w
  run-Follows c (Call.packet_acknowledgement msg) w = Follows-packet_acknowledgement E c apps msg w
  run-Follows c (Call.packet_timeout msg) w = Follows-packet_timeout E c apps msg w
  run-Follows c (Call.write_acknowledgement msg) w = Follows-write_acknowledgement E c msg w
  run-Follows c (Call.batch_send msg few) w = Follows-batch_send E c msg w few
  run-Follows c (Call.batch_acks msg few) w = Follows-batch_acks E c msg w few
  run-Follows c (Call.commit_membership_proof msg) w =
      Clients.Follows-commit_membership_proof E c msg w
  run-Follows c (Call.commit_non_membership_proof msg) w =
      Clients.Follows-commit_non_membership_proof E c msg w

  -- Where every callback of an app changes the host's store by protocol steps alone, every history
  -- of successful calls of core/v1 changes the store by protocol steps alone.
  pub History-Reach : {w v : World T F} → History E w v → Reach E w.store v.store
  History-Reach start = here
  History-Reach (call c k h done) =
      Reach-trans E (History-Reach h) ((run-Follows c k _).at tt _ done)
