-- ===== src/Union/Core/Tests/Replays.antt =====
-- The theorems on timeouts and on batches that are received again, at concrete inputs.
use gno_ibc.Prelude.{◌≡◌, ◌≢◌, ◌≤◌, refl, false, [], ◌∷◌, arith}
use gno_ibc.Prelude.Map
use gno_ibc.Prelude.Result.{ok}
use gno_ibc.Encoding.Word.{u64_word}
use gno_ibc.Union.Types.{Packet, ChannelState, ConnectionState}
use gno_ibc.Union.Msgs.{MsgPacketRecv}
use gno_ibc.Union.Commitment.{
  commit_packets, encode_packet_array, encode_packet, wrap_abi_encode, packet_commitment_path,
  packet_acknowledgement_path, batch_packets_path, batch_receipts_path, commit_acks,
}
use gno_ibc.Union.Commitment.Injective.{packet_hash}
use gno_ibc.Union.Core.World.{World}
use gno_ibc.Union.Core.Exec.{◌>>=◌}
use gno_ibc.Union.Core.Store.{get_commitment, set_commitment, set_commitment_mem}
use gno_ibc.Union.Core.Clients.{verify_membership, verify_non_membership}
use gno_ibc.Union.Core.Calls.{Call, run, start}
use gno_ibc.Union.Core.Packets.{packet_timeout, packet_recv, read_timestamp, accept_recv_packet}
use gno_ibc.Union.Core.Protocol.Commitments.{receipt_path}
use gno_ibc.Union.Core.Safety.Pairs.{Paired, first, later}
use gno_ibc.Union.Core.Safety.Receiving.{Delivers, by_relayer}
use gno_ibc.Union.Core.Safety.Replay.{replay_changes_nothing}
use gno_ibc.Union.Core.Safety.Timeouts.{packet_timeout_guards, timeout_excludes_receive, proof_time}
use gno_ibc.Union.Core.Tests.{
  env, env-AppsReach, context, connection, channel, packet, world, sent_world, timeout, receive,
  after, Tree,
}
use gno_ibc.Union.Core.Tests.Witnesses.{timed_out, received, receive_runs}

-- Another relayer brings the same packet with another message.
abbrev again : MsgPacketRecv
again = record receive { relayer_msgs = (5 ∷ []) ∷ [] }

abbrev received_again : World Tree (Unit {0})
received_again = after received (packet_recv env context again received)

again_runs : packet_recv env context again received ≡ ok (tt, received_again)
unfolding run packet_recv ◌>>=◌ get_commitment set_commitment set_commitment_mem Map.lookup
    Map.insert commit_packets encode_packet_array encode_packet verify_membership
    packet_acknowledgement_path batch_packets_path batch_receipts_path packet_hash u64_word
    wrap_abi_encode commit_acks
again_runs = refl

same_packets :
    (p : Packet) → Paired p again.packets again.relayer_msgs → Delivers p (Call.packet_recv receive)
same_packets p first = by_relayer receive first
same_packets p (later rest) = elim rest [ ]

replay_changes_nothing_example :
    received_again ≡ record received { foreign_state = received_again.foreign_state }
replay_changes_nothing_example =
    replay_changes_nothing env env-AppsReach (Call.packet_recv receive) again context context
      (world []) received received received_again same_packets receive_runs start again_runs

packet_timeout_runs : packet_timeout env context timeout sent_world ≡ ok (tt, timed_out)
unfolding run packet_timeout ◌>>=◌ get_commitment set_commitment set_commitment_mem Map.lookup
    Map.insert read_timestamp commit_packets encode_packet_array encode_packet verify_non_membership
    packet_commitment_path batch_packets_path packet_hash u64_word wrap_abi_encode
packet_timeout_runs = refl

time_of_proof : proof_time env sent_world packet 5 ≤ 100
unfolding Map.lookup
time_of_proof = omega arith

timeout_excludes_receive_example :
    accept_recv_packet env context packet 4 100 (world []) ≢ ok (false, world [])
timeout_excludes_receive_example =
    timeout_excludes_receive env env context context sent_world timed_out (world []) (world [])
      timeout 4 100 packet_timeout_runs time_of_proof

packet_timeout_guards_example :
    (channel.state ≡ ChannelState.opened)
    × (connection.state ≡ ConnectionState.opened)
    × (1 ≤ packet.timeout_timestamp)
    × (packet.timeout_timestamp ≤ 100)
    × (env.verify_non_membership 1 5 (receipt_path env packet) [] tt ≡ ok tt)
unfolding Map.lookup
packet_timeout_guards_example =
    packet_timeout_guards env context sent_world timed_out timeout packet_timeout_runs
