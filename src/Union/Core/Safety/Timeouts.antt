-- ===== src/Union/Core/Safety/Timeouts.antt =====
-- A packet times out only where it can no longer be received.
use gno_ibc.Prelude.{ℕ, ◌≡◌, ◌≢◌, ◌≤◌, ◌<◌, false, Option, none, some, arith}
use gno_ibc.Prelude.Map
use gno_ibc.Prelude.Eq.{nat_eq}
use gno_ibc.Prelude.Result.{Result, ok, err}
use gno_ibc.Union.Types.{ChannelState, Connection, ConnectionState, Packet}
use gno_ibc.Union.Msgs.{MsgPacketTimeout}
use gno_ibc.Union.Commitment.Injective.{commit_packet-ok}
use gno_ibc.Union.Core.World.{World, Env, Context, Client, Error}
use gno_ibc.Union.Core.Exec.{◌>>=◌}
use gno_ibc.Union.Core.Clients.{verify_non_membership}
use gno_ibc.Union.Core.Packets.{packet_timeout, read_timestamp, accept_recv_packet}
use gno_ibc.Union.Core.Protocol.{find_channel, find_connection}
use gno_ibc.Union.Core.Protocol.Commitments.{receipt_path}
use gno_ibc.Union.Core.Handlers.Connections.{connection_or}
use gno_ibc.Union.Core.Handlers.Channels.{entry_or}

-- The handle of a client, or zero; the time that a light client reads, or zero.
abbrev pub handle_or : {T : Type 0} → Option (Client T) → ℕ
handle_or none = 0
handle_or (some client) = client.light_client

abbrev pub time_or : Result Error ℕ → ℕ
time_or (ok t) = t
time_or (err e) = 0

abbrev pub state_or : {F : Type 0} → F → Result Error F → F
state_or s (ok s') = s'
state_or s (err e) = s

module _ {T F : Type 0} (E : Env T F) (w : World T F) (p : Packet) where
  -- The connection that carries the packet, its light client, and the time at a proof's height.
  abbrev pub carrier : Connection
  carrier = connection_or (
      find_connection E w.store
        (entry_or (find_channel E w.store p.source_channel_id)).channel.connection_id)

  abbrev pub light_client : ℕ
  light_client = handle_or (Map.lookup carrier.client_id w.store.client_by_id)

  abbrev pub proof_time : ℕ → ℕ
  proof_time height = time_or (E.get_timestamp_at_height light_client height w.foreign_state)

module _ {T F : Type 0} (E : Env T F) (c : Context) (w w' : World T F) where
  -- `PacketTimeout` returns only where the packet's channel and the channel's connection are open, the
  -- packet has a timeout, the counterparty's time at the height of the proof has reached it, and the
  -- connection's light client accepts the proof that the counterparty has no receipt of the packet.
  pub packet_timeout_guards :
      (msg : MsgPacketTimeout)
      → packet_timeout E c msg w ≡ ok (tt, w')
      → let p = msg.packet in
        ((entry_or (find_channel E w.store p.source_channel_id)).channel.state
          ≡ ChannelState.opened)
        × ((carrier E w p).state ≡ ConnectionState.opened)
        × (1 ≤ p.timeout_timestamp)
        × (p.timeout_timestamp ≤ proof_time E w p msg.proof_height)
        × (E.verify_non_membership
              (light_client E w p)
              msg.proof_height
              (receipt_path E p)
              msg.proof
              w.foreign_state
            ≡ ok (
                state_or w.foreign_state (
                  E.verify_non_membership
                    (light_client E w p)
                    msg.proof_height
                    (receipt_path E p)
                    msg.proof
                    w.foreign_state)))
  unfolding packet_timeout verify_non_membership read_timestamp ◌>>=◌
  packet_timeout_guards msg done = ground (arith, done, commit_packet-ok E.keccak msg.packet)

  -- A packet that `acceptRecvPacket` lets through is received before its timeout.
  pub accepted_in_time :
      (p : Packet) (batch now : ℕ)
      → accept_recv_packet E c p batch now w ≡ ok (false, w')
      → now < p.timeout_timestamp
  unfolding accept_recv_packet ◌>>=◌
  accepted_in_time p batch now done = ground (arith, done)

-- Of two chains, the one that timed a packet out and the one that would receive it: once PacketTimeout
-- has returned on the first, the second lets the packet through to no app at any time that is not
-- before the time that the first's light client read for the height of the proof.
pub timeout_excludes_receive :
    {T F T' F' : Type 0} (E : Env T F) (E' : Env T' F') (c : Context) (c' : Context)
    (w w' : World T F) (v v' : World T' F') (msg : MsgPacketTimeout) (batch now : ℕ)
    → packet_timeout E c msg w ≡ ok (tt, w')
    → proof_time E w msg.packet msg.proof_height ≤ now
    → accept_recv_packet E' c' msg.packet batch now v ≢ ok (false, v')
timeout_excludes_receive E E' c c' w w' v v' msg batch now done late accepted =
    let (_, _, _, reached, _) = packet_timeout_guards E c w w' msg done in
    let before = accepted_in_time E' c' v v' msg.packet batch now accepted in
    omega (arith, reached, before, late)
