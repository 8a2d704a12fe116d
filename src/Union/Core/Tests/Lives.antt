-- ===== src/Union/Core/Tests/Lives.antt =====
-- The theorems on the life of channels at concrete inputs.
use gno_ibc.Prelude.{◌<◌, ◌^◌, ◌≡◌, refl, some, arith, [], ◌∷◌}
use gno_ibc.Prelude.Map
use gno_ibc.Prelude.Eq.{bytes_eq}
use gno_ibc.Prelude.Result.{ok}
use gno_ibc.Union.Msgs.{MsgChannelOpenInit}
use gno_ibc.Encoding.Word.{u64_word}
use gno_ibc.Union.Commitment.{
  channel_value, encode_channel, commit_packets, encode_packet_array, encode_packet,
  wrap_abi_encode, packet_acknowledgement_path, batch_packets_path, batch_receipts_path,
  commit_acks,
}
use gno_ibc.Union.Commitment.Injective.{packet_hash}
use gno_ibc.Union.Core.Protocol.Channels.{TreeLaws, SeqLaws, Allocated}
use gno_ibc.Union.Core.Channels.{channel_open_init, closed_channel}
use gno_ibc.Union.Core.Safety.Channels.{channel_identity, closed_is_final}
use gno_ibc.Union.Core.World.{ChannelEntry, TreeValue, World}
use gno_ibc.Union.Core.Exec.{◌>>=◌}
use gno_ibc.Union.Core.Store.{get_commitment, set_commitment, set_commitment_mem}
use gno_ibc.Union.Core.Clients.{verify_membership}
use gno_ibc.Union.Core.Calls.{Call, run, start, call}
use gno_ibc.Union.Core.Packets.{packet_recv}
use gno_ibc.Union.Core.Protocol.{find_channel}
use gno_ibc.Union.Core.Tests.{
  store, channel, app_path, env, env-AppsReach, context, world, receive, after, Tree,
}
use gno_ibc.Union.Core.Tests.Witnesses.{received, receive_runs}

env-TreeLaws : TreeLaws env
env-TreeLaws = record {
  get_set = λ t k v. ground (arith, Map.lookup-insert k k v t, bytes_eq.beq_iff k k);
  get_set_other =
      λ t k j v apart. ground (arith, Map.lookup-insert k j v t, bytes_eq.beq_iff k j, apart);
}

env-SeqLaws : SeqLaws env
env-SeqLaws = record {
  in_order = λ n m e. ground (arith, e);
  distinct = λ n m e. ground (arith, e);
}

world-Allocated : Allocated env (world []).store
unfolding Map.lookup
world-Allocated id there = ground (arith, there)

abbrev entry : ChannelEntry
entry = record { channel = channel; port_id = app_path }

channel_found : find_channel env (world []).store 1 ≡ some (TreeValue.channel_value entry)
unfolding Map.lookup
channel_found = refl

received_seq : received.store.channel_seq < 2 ^ 32
unfolding run packet_recv ◌>>=◌ get_commitment set_commitment set_commitment_mem Map.lookup
    Map.insert commit_packets encode_packet_array encode_packet verify_membership
    packet_acknowledgement_path batch_packets_path batch_receipts_path packet_hash u64_word
    wrap_abi_encode commit_acks
received_seq = omega arith

channel_identity_example :
    (e' : ChannelEntry) × (find_channel env received.store 1 ≡ some (TreeValue.channel_value e'))
    × (e'.port_id ≡ app_path)
    × (e'.channel.connection_id ≡ 1)
    × (e'.channel.counterparty_port_id ≡ 8 ∷ [])
channel_identity_example =
    channel_identity env env-TreeLaws env-SeqLaws env-AppsReach (world []) received 1 entry
      world-Allocated received_seq (call context (Call.packet_recv receive) start receive_runs)
      channel_found

-- A host whose channel 1 is closed, where another channel is opened.
abbrev closed_entry : ChannelEntry
closed_entry = record { channel = closed_channel env channel; port_id = app_path }

abbrev closed_world : World Tree (Unit {0})
closed_world = record (world []) {
  store = record (store []) { channels = (1 ∷ [], TreeValue.channel_value closed_entry) ∷ [] };
}

abbrev open_init : MsgChannelOpenInit
open_init = record {
  port_id = app_path;
  counterparty_port_id = 8 ∷ [];
  connection_id = 1;
  version = [];
}

abbrev opened_world : World Tree (Unit {0})
opened_world = after closed_world (run env context (Call.channel_open_init open_init) closed_world)

open_runs : run env context (Call.channel_open_init open_init) closed_world ≡ ok (tt, opened_world)
unfolding run channel_open_init ◌>>=◌ Map.lookup Map.insert channel_value encode_channel
open_runs = refl

opened_seq : opened_world.store.channel_seq < 2 ^ 32
unfolding run channel_open_init ◌>>=◌ Map.lookup Map.insert channel_value encode_channel
opened_seq = omega arith

closed-Allocated : Allocated env closed_world.store
unfolding Map.lookup
closed-Allocated id there = ground (arith, there)

closed_found : find_channel env closed_world.store 1 ≡ some (TreeValue.channel_value closed_entry)
unfolding Map.lookup
closed_found = refl

closed_is_final_example :
    find_channel env opened_world.store 1 ≡ some (TreeValue.channel_value closed_entry)
closed_is_final_example =
    closed_is_final env env-TreeLaws env-SeqLaws env-AppsReach closed_world opened_world 1
      closed_entry closed-Allocated opened_seq
      (call context (Call.channel_open_init open_init) start open_runs) closed_found refl
