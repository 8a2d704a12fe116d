-- ===== src/Union/Core/Tests.antt =====
-- Concrete runs: a host with one client, one open connection and one open channel, a hash that hashes
-- nothing away, trees that are association lists, and an app that answers and does not call back.
pub mod Witnesses
pub mod Replays
pub mod Commitments
pub mod Lives
use gno_ibc.Prelude.{
  ℕ, ◌+◌, ◌≡◌, ◌≢◌, refl, Bool, true, false, Option, none, some, List, [], ◌∷◌, Bytes, replicate,
  arith,
}
use gno_ibc.Prelude.Map
use gno_ibc.Prelude.Map.{Map}
use gno_ibc.Prelude.Eq.{bytes_eq}
use gno_ibc.Prelude.Result.{Result, ok, err}
use gno_ibc.Union.Types.{
  Connection, Channel, ConnectionState, ChannelState, Packet, PacketStatus, new_connection,
  new_channel,
}
use gno_ibc.Union.Msgs.{
  MsgPacketAcknowledgement, MsgPacketTimeout, MsgPacketRecv, MsgIntentPacketRecv,
}
use gno_ibc.Union.Commitment.{commitment_magic, commitment_magic_ack, commit_packets}
use gno_ibc.Union.Commitment.Injective.{CollisionFree}
use gno_ibc.Union.Core.World.{
  World, Store, Env, Context, Client, EventConfig, TreeValue, Status, Error, Event,
}
use gno_ibc.Union.Core.Exec.{◌>>=◌, emit}
use gno_ibc.Union.Core.Calls.{Call, run, History}
use gno_ibc.Union.Core.Protocol.{Reach, here, AppsReach}
use gno_ibc.Union.Core.Protocol.Commitments.{commitment_path, receipt_path}

abbrev pub Tree : Type 0
Tree = Map Bytes TreeValue

abbrev pub no_hash : Bytes → Bytes
no_hash bytes = bytes

pub no_hash-CollisionFree : CollisionFree no_hash
no_hash-CollisionFree xs ys same = same

abbrev pub proxy : Bytes
proxy = 9 ∷ []

abbrev pub app_path : Bytes
app_path = 7 ∷ []

abbrev answer : {A : Type 0} → A → Result Error A
answer a = ok a

ok_same : (w w' : World Tree (Unit {0})) → answer w ≡ ok w' → w' ≡ w
ok_same w w' done = ground (arith, done)

ok_same_second :
    {A : Type 0} (a b : A) (w w' : World Tree (Unit {0}))
    → answer {A = A × World Tree (Unit {0})} (a, w) ≡ ok (b, w')
    → w' ≡ w
ok_same_second a b w w' done = ground (arith, done)

abbrev pub env : Env Tree (Unit {0})
env = record {
  keccak = no_hash;
  proxy_pkg_path = proxy;
  seqid_next = λ n. some (n + 1);
  seqid_binary = λ n. n ∷ [];
  tree_new = [];
  tree_get = λ t k. Map.lookup k t;
  tree_set = λ t k v. Map.insert k v t;
  new_client = λ _ _ _ s. ok (1, s);
  status = λ _ _. Status.active;
  get_latest_height = λ _ _. 5;
  get_counterparty_chain_id = λ _ _. [];
  get_timestamp_at_height = λ _ _ _. ok 100;
  verify_membership = λ _ _ _ _ _ s. ok s;
  verify_non_membership = λ _ _ _ _ s. ok s;
  verify_creation = λ _ _ _ s. ok (record { client_state_bytes = []; storage_writes = [] }, s);
  verify_header = λ _ _ _ _ s. ok (
    record { height = 5; consensus_state_bytes = []; client_state_bytes = []; storage_writes = [] },
    s,
  );
  verify_misbehaviour = λ _ _ _ _ s. ok ([], s);
  app_call = λ _ _ _ w. ok w;
  app_recv = λ _ _ _ w. ok (record { status = PacketStatus.success; acknowledgement = 1 ∷ [] }, w);
  supports_intent = λ _. true;
}

pub env-AppsReach : AppsReach env
env-AppsReach = record {
  call = λ app a c w w' done. rw (ok_same w w' done) here;
  recv = λ app a c w w' r done. rw (ok_same_second _ _ w w' done) here;
}

abbrev pub connection : Connection
connection = new_connection ConnectionState.opened 1 2 3

abbrev pub channel : Channel
channel = new_channel ChannelState.opened 1 4 (8 ∷ []) []

-- The call comes from the app's realm, through the proxy, at time 50.
abbrev pub context : Context
context = record {
  is_current = true;
  pkg_path = proxy;
  previous_address = 6 ∷ [];
  previous_pkg_path = app_path;
  unix_nano = 50;
}

abbrev pub packet : Packet
packet = record {
  source_channel_id = 1;
  destination_channel_id = 4;
  payload = 10 ∷ 11 ∷ [];
  timeout_height = 0;
  timeout_timestamp = 60;
}

abbrev pub inbound : Packet
inbound = record packet { source_channel_id = 4; destination_channel_id = 1 }

abbrev pub store : Map Bytes Bytes → Store Tree
store commitments = record {
  client_seq = 1;
  client_registry = [];
  client_type_by_id = (1, []) ∷ [];
  client_impl_by_id = [];
  client_by_id =
      (
        1,
        record {
          id = 1;
          creator = [];
          light_client = 1;
          client_state = [];
          consensus_by_height = [];
          client_store = [];
        },
      )
      ∷ [];
  connection_seq = 1;
  connections = (1 ∷ [], TreeValue.connection_value connection) ∷ [];
  channel_seq = 1;
  channels =
      (1 ∷ [], TreeValue.channel_value (record { channel = channel; port_id = app_path })) ∷ [];
  commitments = commitments;
  membership_proofs = [];
  non_membership_proofs = [];
  ports = (app_path, 3) ∷ [];
}

abbrev pub world : Map Bytes Bytes → World Tree (Unit {0})
world commitments = record {
  store = store commitments;
  params = [];
  events = [];
  event_config = record {
    split_event_attrs = true;
    max_event_attr_value_len = 4096;
    max_event_attr_pairs = 50;
  };
  foreign_state = tt;
}

-- The world after a call, or the world before it where the call panics.
abbrev pub after :
    {A : Type 0}
    → World Tree (Unit {0})
    → Result Error (A × World Tree (Unit {0}))
    → World Tree (Unit {0})
after w (ok (a, u)) = u
after w (err e) = w

abbrev pub sent_world : World Tree (Unit {0})
sent_world = world ((commitment_path env packet, commitment_magic) ∷ [])

abbrev pub timeout : MsgPacketTimeout
timeout = record { packet = packet; proof = []; proof_height = 5 }

abbrev pub acknowledgement : MsgPacketAcknowledgement
acknowledgement = record {
  packets = packet ∷ [];
  acknowledgements = (1 ∷ []) ∷ [];
  proof = [];
  proof_height = 5;
}

abbrev pub receive : MsgPacketRecv
receive = record { packets = inbound ∷ []; relayer_msgs = [] ∷ []; proof = []; proof_height = 5 }

-- A host whose events have room for no more than `pairs` attributes of 4 characters.
abbrev narrow : ℕ → World Tree (Unit {0})
narrow pairs = record (world []) {
  event_config = record {
    split_event_attrs = true;
    max_event_attr_value_len = 4;
    max_event_attr_pairs = pairs;
  };
}

-- Two bytes are six characters, which take two columns and the size.
fits :
    emit env context (Event.write_ack inbound channel connection (1 ∷ 2 ∷ [])) (narrow 3)
    ≡ ok (
      tt,
      record (narrow 3) { events = Event.write_ack inbound channel connection (1 ∷ 2 ∷ []) ∷ [] },
    )
unfolding emit ◌>>=◌
fits = refl

too_large :
    emit env context (Event.write_ack inbound channel connection (1 ∷ 2 ∷ [])) (narrow 2)
    ≡ err Error.packet_combined_data_too_large
unfolding emit ◌>>=◌
too_large = refl
