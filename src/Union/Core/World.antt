-- ===== src/Union/Core/World.antt =====
-- The state of the host and of what it calls: the Store of core/store.gno, the chain parameters that
-- mirror it, the emitted events, and the state of light clients and apps. Interface values and factory
-- functions are handles, numbers that stand for the object.
use gno_ibc.Prelude.{
  ℕ, ◌-◌, ◌*◌, ◌+◌, ◌/◌, Bool, Option, List, [], ◌∷◌, Bytes, length, leb, ltb, if◌then◌else◌, true,
}
use gno_ibc.Prelude.Map.{Map}
use gno_ibc.Prelude.Result.{Result}
use gno_ibc.Encoding.Abi.{AbiError}
use gno_ibc.Union.Types.{Connection, Channel, Packet, RecvPacketResult, Height}
use gno_ibc.Union.Commitment.{H256}

-- core/errors.gno, the messages that core/v1 panics with, and the panics of the runtime. A panic of a
-- light client or an app, and an error that a light client returns, is `foreign`.
pub data Error : Type 0 where
  client_not_active invalid_connection_state invalid_channel_state : Error
  invalid_counterparty_channel_id sync_ack_empty unknown_packet_status : Error
  unauthorized_ack_writer acknowledgement_already_written acknowledgement_empty : Error
  acknowledgement_mismatch unauthorized_packet_sender timeout_must_be_set : Error
  packet_commitment_already_exists packet_commitment_not_found : Error
  packet_combined_data_too_large packet_already_acknowledged packet_receipt_not_found : Error
  not_enough_packets batch_same_channel_only acknowledgement_count_mismatch : Error
  timeout_proof_timestamp_not_found packet_timeout_expired packet_timeout_not_reached : Error
  intent_not_supported port_not_found port_already_registered client_not_found : Error
  connection_not_found channel_not_found spoofed_realm not_proxy_realm : Error
  client_type_not_found client_type_already_exists unauthorized_client_registration : Error
  nil_dereference type_assertion sequence_overflow : Error
  abi : AbiError → Error
  foreign : Bytes → Error

-- core/emit.gno: one constructor for each Emit function, with what it is given. How an event's
-- attributes are spelled and split is not modelled.
pub data Event : Type 0 where
  app_registered : Bytes → Bytes → Event
  register_client : Bytes → Event
  create_client : ℕ → Bytes → Bytes → Event
  update_client force_update_client : ℕ → Height → Event
  misbehaviour : ℕ → Event
  connection_open_init : ℕ → ℕ → ℕ → Event
  connection_open_try connection_open_ack connection_open_confirm : ℕ → ℕ → ℕ → ℕ → Event
  channel_open_init channel_open_ack channel_open_confirm channel_close_init channel_close_confirm :
      Bytes → ℕ → Channel → Connection → Event
  channel_open_try : Bytes → ℕ → Channel → Bytes → Connection → Event
  packet_send : Packet → Channel → Connection → Event
  packet_recv intent_packet_recv write_ack packet_ack :
      Packet → Channel → Connection → Bytes → Event
  packet_timeout : Packet → Channel → Connection → Event
  batch_send batch_acks : ℕ → H256 → H256 → Event
  commit_membership_proof : ℕ → ℕ → Bytes → Bytes → Event
  commit_non_membership_proof : ℕ → ℕ → Bytes → Event

-- `channelEntry`
pub record ChannelEntry : Type 0 where
  pub channel : Channel
  pub port_id : Bytes

-- The dynamic types of the values that the store keeps in its trees.
pub data TreeValue : Type 0 where
  connection_value : Connection → TreeValue
  channel_value : ChannelEntry → TreeValue
  bytes_value : Bytes → TreeValue

-- `client`. `T` is the type of the trees of gno.land/p/nt/bptree.
pub record Client (T : Type 0) : Type 0 where
  pub id : ℕ
  pub creator : Bytes
  pub light_client : ℕ
  pub client_state : Bytes
  pub consensus_by_height : T
  pub client_store : Map Bytes Bytes

-- `Store`. The sequences are the counters of gno.land/p/nt/seqid; a factory may be nil.
pub record Store (T : Type 0) : Type 0 where
  pub client_seq : ℕ
  pub client_registry : Map Bytes ℕ
  pub client_type_by_id : Map ℕ Bytes
  pub client_impl_by_id : Map ℕ (Option ℕ)
  pub client_by_id : Map ℕ (Client T)
  pub connection_seq : ℕ
  pub connections : T
  pub channel_seq : ℕ
  pub channels : T
  pub commitments : Map H256 H256
  pub membership_proofs : Map H256 H256
  pub non_membership_proofs : Map H256 H256
  pub ports : Map Bytes ℕ

-- `EventConfig` of event_config.gno
pub record EventConfig : Type 0 where
  pub split_event_attrs : Bool
  pub max_event_attr_value_len : ℕ
  pub max_event_attr_pairs : ℕ

-- `IsValidPacketDataSize`, with `hexAttrLen` and `MaxPacketDataEventSize`, of packet_event.gno
unfoldable pub is_valid_packet_data_size : EventConfig → Bytes → Bool
is_valid_packet_data_size config payload =
    if config.split_event_attrs
    then leb (length payload * 2 + 2)
        ((config.max_event_attr_pairs - 1) * config.max_event_attr_value_len)
    else true

-- `eventColumnPairs` of packet_event.gno. It divides by the value length, which is not 0:
-- `assertValidEventConfig` of event_config.gno rejects such a configuration.
unfoldable pub event_column_pairs : EventConfig → Bytes → ℕ
event_column_pairs config payload =
    let width = config.max_event_attr_value_len in
    let columns : ℕ = (length payload * 2 + 2 + width - 1) / width in
    1 + (if ltb columns 1 then 1 else columns)

-- The loop of `IsValidEventSize` over the fields, and the test after it.
event_pairs_loop : EventConfig → ℕ → List Bytes → ℕ
event_pairs_loop config total [] = total
event_pairs_loop config total (payload ∷ fields) =
    event_pairs_loop config (total + event_column_pairs config payload) fields

unfoldable pub is_valid_event_size : EventConfig → List Bytes → Bool
unfolding event_pairs_loop event_column_pairs
is_valid_event_size config fields =
    if config.split_event_attrs
    then leb (event_pairs_loop config 0 fields) config.max_event_attr_pairs
    else true

-- The check of an event's size: `EmitPacketRecv`, `EmitIntentPacketRecv`, `EmitPacketAck` and
-- `EmitWriteAck` make it of their variable field, the other Emit functions make none.
unfoldable pub is_valid_event : EventConfig → Event → Bool
unfolding is_valid_event_size
is_valid_event config (Event.packet_recv p channel connection msg) =
    is_valid_event_size config (msg ∷ [])
is_valid_event config (Event.intent_packet_recv p channel connection msg) =
    is_valid_event_size config (msg ∷ [])
is_valid_event config (Event.write_ack p channel connection ack) =
    is_valid_event_size config (ack ∷ [])
is_valid_event config (Event.packet_ack p channel connection ack) =
    is_valid_event_size config (ack ∷ [])
is_valid_event config _ = true

-- Everything that a transaction may change. `F` is the state of the light clients and the apps.
pub record World (T F : Type 0) : Type 0 where
  pub store : Store T
  pub params : Map H256 Bytes
  pub events : List Event
  pub event_config : EventConfig
  pub foreign_state : F

-- The realm token of a call and the block's time: `rlm.IsCurrent()`, `rlm.PkgPath()`,
-- `rlm.Previous()`, `time.Now().UnixNano()`.
pub record Context : Type 0 where
  pub is_current : Bool
  pub pkg_path : Bytes
  pub previous_address : Bytes
  pub previous_pkg_path : Bytes
  pub unix_nano : ℕ

-- lightclient/types.gno and types/lightclient.gno
pub data Status : Type 0 where
  active frozen expired unknown unauthorized : Status

pub record StateUpdate : Type 0 where
  pub height : ℕ
  pub consensus_state_bytes : Bytes
  pub client_state_bytes : Bytes
  pub storage_writes : List (Bytes × Bytes)

pub record ClientCreationResult : Type 0 where
  pub client_state_bytes : Bytes
  pub storage_writes : List (Bytes × Bytes)

-- app/app.gno: the callbacks, with their arguments.
pub data AppCall : Type 0 where
  on_channel_open_init : ℕ → ℕ → Bytes → Bytes → AppCall
  on_channel_open_try : ℕ → ℕ → Bytes → Bytes → Bytes → AppCall
  on_channel_open_ack : ℕ → ℕ → Bytes → Bytes → AppCall
  on_channel_open_confirm on_channel_close_init on_channel_close_confirm : ℕ → Bytes → AppCall
  on_acknowledgement_packet : Packet → Bytes → Bytes → AppCall
  on_timeout_packet : Packet → Bytes → AppCall

pub data RecvCall : Type 0 where
  on_recv_packet on_intent_recv_packet : Packet → Bytes → Bytes → RecvCall

-- What the host calls and does not implement: the hash, the packages seqid and bptree, the light
-- clients (they change only their own state), and the apps. An app is another realm: it may call
-- back into the host, so it acts on the whole world.
pub record Env (T F : Type 0) : Type 0 where
  pub keccak : Bytes → H256
  -- the package path of the proxy realm
  pub proxy_pkg_path : Bytes
  -- `seqid.ID.Next`, which panics on overflow, and `seqid.ID.Binary`
  pub seqid_next : ℕ → Option ℕ
  pub seqid_binary : ℕ → Bytes
  pub tree_new : T
  pub tree_get : T → Bytes → Option TreeValue
  pub tree_set : T → Bytes → TreeValue → T
  pub new_client : ℕ → Bytes → Bytes → F → Result Error (ℕ × F)
  pub status : ℕ → F → Status
  pub get_latest_height : ℕ → F → ℕ
  pub get_counterparty_chain_id : ℕ → F → Bytes
  pub get_timestamp_at_height : ℕ → ℕ → F → Result Error ℕ
  pub verify_membership : ℕ → ℕ → Bytes → Bytes → Bytes → F → Result Error F
  pub verify_non_membership : ℕ → ℕ → Bytes → Bytes → F → Result Error F
  pub verify_creation : ℕ → Bytes → Bytes → F → Result Error (ClientCreationResult × F)
  pub verify_header : ℕ → Bytes → Bytes → Bytes → F → Result Error (StateUpdate × F)
  pub verify_misbehaviour : ℕ → Bytes → Bytes → Bytes → F → Result Error (Bytes × F)
  pub app_call : ℕ → AppCall → Context → World T F → Result Error (World T F)
  pub app_recv : ℕ → RecvCall → Context → World T F → Result Error (RecvPacketResult × World T F)
  -- whether an app's type asserts to IIntentApp
  pub supports_intent : ℕ → Bool
