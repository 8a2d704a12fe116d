-- ===== src/Union/Core/Tests/Witnesses.antt =====
-- The theorems at concrete inputs.
use gno_ibc.Prelude.{◌≡◌, ◌≢◌, refl, some, [], ◌∷◌, Bytes}
use gno_ibc.Prelude.Map
use gno_ibc.Prelude.Eq.{bytes_eq}
use gno_ibc.Prelude.Result.{ok}
use gno_ibc.Union.Types.{Packet}
use gno_ibc.Union.Msgs.{MsgWriteAcknowledgement}
use gno_ibc.Encoding.Word.{u64_word}
use gno_ibc.Union.Commitment.{
  commit_packets, encode_packet_array, encode_packet, wrap_abi_encode, packet_commitment_path,
  packet_acknowledgement_path, batch_packets_path, batch_receipts_path, commit_acks,
  commitment_magic, commitment_magic_ack,
}
use gno_ibc.Union.Commitment.Injective.{packet_hash, SamePacket}
use gno_ibc.Union.Core.World.{World, Event, RecvCall, is_valid_packet_data_size}
use gno_ibc.Union.Core.Exec.{◌>>=◌, pure}
use gno_ibc.Union.Core.Store.{get_commitment, set_commitment, set_commitment_mem}
use gno_ibc.Union.Core.Clients.{verify_membership, verify_non_membership}
use gno_ibc.Union.Core.Calls.{Call, run, start, call}
use gno_ibc.Union.Core.Packets.{
  packet_timeout, packet_recv, send_packet, read_timestamp, accept_recv_packet,
  mark_packet_acknowledged, write_acknowledgement, recv_one,
}
use gno_ibc.Union.Core.Protocol.{Reach, put_commitment}
use gno_ibc.Union.Core.Protocol.Commitments.{commitment_path, receipt_path, commitment_at}
use gno_ibc.Union.Core.Handlers.Packets.{mark_packet_acknowledged_lem, write_acknowledgement_lem}
use gno_ibc.Union.Core.Handlers.Refinement.{History-Reach}
use gno_ibc.Union.Core.Safety.Pairs.{first}
use gno_ibc.Union.Core.Safety.Settling.{no_second_settlement, by_timeout, by_acknowledgement}
use gno_ibc.Union.Core.Safety.Receiving.{Skips, no_second_delivery, by_relayer}
use gno_ibc.Union.Core.Safety.Sending.{no_second_send}
use gno_ibc.Union.Core.Tests.{
  env, no_hash, env-AppsReach, no_hash-CollisionFree, context, packet, inbound, channel, connection,
  world, sent_world, timeout, acknowledgement, receive, after, Tree,
}

abbrev pub timed_out : World Tree (Unit {0})
timed_out = after sent_world (run env context (Call.packet_timeout timeout) sent_world)

pub timeout_runs : run env context (Call.packet_timeout timeout) sent_world ≡ ok (tt, timed_out)
unfolding run packet_timeout ◌>>=◌ get_commitment set_commitment set_commitment_mem Map.lookup
    Map.insert read_timestamp commit_packets encode_packet_array encode_packet verify_non_membership
    packet_commitment_path batch_packets_path packet_hash u64_word wrap_abi_encode
timeout_runs = refl

-- A packet that timed out is not acknowledged.
no_second_settlement_example :
    run env context (Call.packet_acknowledgement acknowledgement) timed_out ≢ ok (tt, timed_out)
no_second_settlement_example =
    no_second_settlement env env-AppsReach no_hash-CollisionFree packet
      (Call.packet_timeout timeout) (Call.packet_acknowledgement acknowledgement) context context
      sent_world timed_out timed_out timed_out (by_timeout timeout refl)
      (by_acknowledgement acknowledgement first) timeout_runs start

abbrev pub received : World Tree (Unit {0})
received = after (world []) (run env context (Call.packet_recv receive) (world []))

pub receive_runs : run env context (Call.packet_recv receive) (world []) ≡ ok (tt, received)
unfolding run packet_recv ◌>>=◌ get_commitment set_commitment set_commitment_mem Map.lookup
    Map.insert commit_packets encode_packet_array encode_packet verify_membership
    packet_acknowledgement_path batch_packets_path batch_receipts_path packet_hash u64_word
    wrap_abi_encode commit_acks
receive_runs = refl

abbrev plain_call : Packet → Bytes → RecvCall
plain_call p m = RecvCall.on_recv_packet p [] m

abbrev plain_event : Packet → Bytes → Event
plain_event p m = Event.packet_recv p channel connection m

no_second_delivery_example :
    (recv_one env context 0 plain_call plain_event 1 channel connection inbound [] received
      ≡ (accept_recv_packet env context inbound 1 context.unix_nano >>= λ _. pure tt) received)
    × Skips env context inbound 1 received
no_second_delivery_example =
    no_second_delivery env env-AppsReach inbound (Call.packet_recv receive) context context
      (world []) received received (by_relayer receive first) receive_runs start 0 plain_call
      plain_event 1 channel connection []

History-Reach_example : Reach env (world []).store received.store
History-Reach_example =
    History-Reach env env-AppsReach (call context (Call.packet_recv receive) start receive_runs)

abbrev sent : World Tree (Unit {0})
sent = after (world []) (send_packet env context 1 60 (10 ∷ 11 ∷ []) (world []))

abbrev sent_twice : World Tree (Unit {0})
sent_twice = after sent (send_packet env context 1 70 (10 ∷ 11 ∷ []) sent)

send_runs : send_packet env context 1 60 (10 ∷ 11 ∷ []) (world []) ≡ ok (packet, sent)
unfolding send_packet ◌>>=◌ get_commitment set_commitment set_commitment_mem Map.lookup Map.insert
    is_valid_packet_data_size packet_commitment_path commit_packets encode_packet_array
    encode_packet batch_packets_path wrap_abi_encode u64_word
send_runs = refl

send_again_runs :
    send_packet env context 1 70 (10 ∷ 11 ∷ []) sent
    ≡ ok (record packet { timeout_timestamp = 70 }, sent_twice)
unfolding send_packet ◌>>=◌ get_commitment set_commitment set_commitment_mem Map.lookup Map.insert
    is_valid_packet_data_size packet_commitment_path commit_packets encode_packet_array
    encode_packet batch_packets_path wrap_abi_encode u64_word
send_again_runs = refl

no_second_send_example : ¬ SamePacket packet (record packet { timeout_timestamp = 70 })
no_second_send_example =
    no_second_send env env-AppsReach context context 1 60 1 70 (10 ∷ 11 ∷ []) (10 ∷ 11 ∷ []) packet
      (record packet { timeout_timestamp = 70 }) (world []) sent sent sent_twice send_runs start
      send_again_runs

abbrev marked : World Tree (Unit {0})
marked = after sent_world (mark_packet_acknowledged env context packet sent_world)

mark_runs : mark_packet_acknowledged env context packet sent_world ≡ ok (tt, marked)
unfolding mark_packet_acknowledged ◌>>=◌ get_commitment set_commitment set_commitment_mem Map.lookup
    Map.insert packet_commitment_path commit_packets encode_packet_array encode_packet
    batch_packets_path wrap_abi_encode u64_word packet_hash
mark_runs = refl

mark_packet_acknowledged_lem_example :
    (commitment_at env (commitment_path env packet) sent_world.store ≡ some commitment_magic)
    × (marked ≡ record sent_world {
      store = put_commitment env (commitment_path env packet) commitment_magic_ack sent_world.store;
    })
mark_packet_acknowledged_lem_example =
    mark_packet_acknowledged_lem env context sent_world marked packet mark_runs

abbrev written : MsgWriteAcknowledgement
written = record { packet = inbound; acknowledgement = 1 ∷ [] }

abbrev awaiting : World Tree (Unit {0})
awaiting = world ((receipt_path env inbound, commitment_magic) ∷ [])

abbrev acknowledged : World Tree (Unit {0})
acknowledged = after awaiting (write_acknowledgement env context written awaiting)

write_runs : write_acknowledgement env context written awaiting ≡ ok (tt, acknowledged)
unfolding write_acknowledgement ◌>>=◌ get_commitment set_commitment set_commitment_mem Map.lookup
    Map.insert packet_acknowledgement_path commit_packets encode_packet_array encode_packet
    batch_receipts_path wrap_abi_encode u64_word packet_hash commit_acks
write_runs = refl

write_acknowledgement_lem_example :
    (commitment_at env (receipt_path env inbound) awaiting.store ≡ some commitment_magic)
    × (acknowledged.store
        ≡ put_commitment env
            (receipt_path env inbound)
            (commit_acks no_hash ((1 ∷ []) ∷ []))
            awaiting.store)
write_acknowledgement_lem_example =
    write_acknowledgement_lem env context awaiting acknowledged written write_runs
