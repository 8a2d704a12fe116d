-- ===== src/Union/Core/Protocol.antt =====
-- The abstract protocol: the steps by which the host's store may change, whatever message, light client
-- or app causes them. It says what core/v1 promises of connections, channels and commitments, and
-- leaves out how a handler comes to a step.
pub mod Run
pub mod Commitments
pub mod Channels
use gno_ibc.Prelude.{ℕ, ◌≤◌, ◌<◌, ◌^◌, ◌≡◌, ◌≢◌, Option, none, some, List, [], ◌∷◌, Bytes, length}
use gno_ibc.Prelude.Map
use gno_ibc.Prelude.Eq.{bytes_eq}
use gno_ibc.Prelude.Result.{ok}
use gno_ibc.Union.Types.{
  Connection, Channel, ConnectionState, ChannelState, Packet, RecvPacketResult, new_connection,
  new_channel,
}
use gno_ibc.Union.Commitment
use gno_ibc.Union.Commitment.{H256, commitment_magic, commitment_magic_ack}
use gno_ibc.Union.Core.World.{
  World, Store, Env, ChannelEntry, TreeValue, AppCall, RecvCall, Context,
}
use gno_ibc.Union.Core.Store.{to_uint32}

-- How a channel moves, its owner and its identity being kept.
pub data ChannelMove : Channel → Channel → Type 0 where
  -- the acknowledgement sets the counterparty's channel and version
  ack :
      (c : Channel) (counterparty : ℕ) (version : Bytes)
      → c.state ≡ ChannelState.init
      → ChannelMove c (
          new_channel ChannelState.opened c.connection_id counterparty c.counterparty_port_id
            version)
  confirm :
      (c : Channel)
      → c.state ≡ ChannelState.try_open
      → ChannelMove c (record c { state = ChannelState.opened })
  close :
      (c : Channel)
      → c.state ≡ ChannelState.opened
      → ChannelMove c (record c { state = ChannelState.closed })

-- How a connection moves, its two clients being kept.
pub data ConnectionMove : Connection → Connection → Type 0 where
  ack :
      (c : Connection) (counterparty : ℕ)
      → c.state ≡ ConnectionState.init
      → ConnectionMove c
          (new_connection ConnectionState.opened c.client_id c.counterparty_client_id counterparty)
  confirm :
      (c : Connection)
      → c.state ≡ ConnectionState.try_open
      → ConnectionMove c (record c { state = ConnectionState.opened })

-- The states in which a connection and a channel are created.
pub data ConnectionStart : ConnectionState → Type 0 where
  from_init : ConnectionStart ConnectionState.init
  from_try : ConnectionStart ConnectionState.try_open

pub data ChannelStart : ChannelState → Type 0 where
  from_init : ChannelStart ChannelState.init
  from_try : ChannelStart ChannelState.try_open

-- Stores that differ at most in clients, proofs and ports.
pub record SameProtocol {T : Type 0} (s s' : Store T) : Type 0 where
  pub connection_seq : s'.connection_seq ≡ s.connection_seq
  pub connections : s'.connections ≡ s.connections
  pub channel_seq : s'.channel_seq ≡ s.channel_seq
  pub channels : s'.channels ≡ s.channels
  pub commitments : s'.commitments ≡ s.commitments

module _ {T F : Type 0} (E : Env T F) where
  abbrev pub put_commitment : H256 → H256 → Store T → Store T
  put_commitment path value s = record s { commitments = Map.insert path value s.commitments }

  abbrev pub put_connection : ℕ → Connection → Store T → Store T
  put_connection id c s = record s {
    connections = E.tree_set s.connections (E.seqid_binary id) (TreeValue.connection_value c);
  }

  abbrev pub put_channel : ℕ → ChannelEntry → Store T → Store T
  put_channel id e s = record s {
    channels = E.tree_set s.channels (E.seqid_binary id) (TreeValue.channel_value e);
  }

  abbrev pub find_connection : Store T → ℕ → Option TreeValue
  find_connection s id = E.tree_get s.connections (E.seqid_binary id)

  abbrev pub find_channel : Store T → ℕ → Option TreeValue
  find_channel s id = E.tree_get s.channels (E.seqid_binary id)

  pub data Step (s : Store T) : Store T → Type 0 where
    other : {s' : Store T} → SameProtocol s s' → Step s s'
    -- ids are allocated in order, and a new connection or channel takes the id of its allocation
    create_connection :
        (n : ℕ) (c : Connection)
        → E.seqid_next s.connection_seq ≡ some n
        → ConnectionStart c.state
        → Step s (put_connection (to_uint32 n) c (record s { connection_seq = n }))
    move_connection :
        (id : ℕ) (c c' : Connection)
        → find_connection s id ≡ some (TreeValue.connection_value c)
        → ConnectionMove c c'
        → Step s (put_connection id c' s)
    create_channel :
        (n : ℕ) (c : Channel) (port : Bytes)
        → E.seqid_next s.channel_seq ≡ some n
        → ChannelStart c.state
        → Step s (
            put_channel
              (to_uint32 n)
              (record { channel = c; port_id = port })
              (record s { channel_seq = n }))
    move_channel :
        (id : ℕ) (e : ChannelEntry) (c' : Channel)
        → find_channel s id ≡ some (TreeValue.channel_value e)
        → ChannelMove e.channel c'
        → Step s (put_channel id (record e { channel = c' }) s)
    -- a packet is committed once, and retired once
    send :
        (p : Packet) (path : H256)
        → Commitment.packet_commitment_path E.keccak p ≡ ok path
        → Map.lookup path s.commitments ≡ none
        → Step s (put_commitment path commitment_magic s)
    retire :
        (p : Packet) (path : H256)
        → Commitment.packet_commitment_path E.keccak p ≡ ok path
        → Map.lookup path s.commitments ≡ some commitment_magic
        → Step s (put_commitment path commitment_magic_ack s)
    -- a packet is received once; an acknowledgement needs a receipt
    receive :
        (p : Packet) (path : H256)
        → Commitment.packet_acknowledgement_path E.keccak p ≡ ok path
        → Map.lookup path s.commitments ≡ none
        → Step s (put_commitment path commitment_magic s)
    acknowledge :
        (p : Packet) (path : H256) (written : Bytes)
        → Commitment.packet_acknowledgement_path E.keccak p ≡ ok path
        → Map.lookup path s.commitments ≢ none
        → Step s (put_commitment path (Commitment.commit_acks E.keccak (written ∷ [])) s)
    -- batches have two packets or more, and no more than a 64-bit length counts
    batch_send :
        (ps : List Packet) (hash : H256)
        → 2 ≤ length ps
        → length ps < 2 ^ 64
        → Commitment.commit_packets E.keccak ps ≡ ok hash
        → Step s (put_commitment (Commitment.batch_packets_path E.keccak hash) commitment_magic s)
    batch_acks :
        (ps : List Packet) (acks : List Bytes) (hash : H256)
        → 2 ≤ length ps
        → length ps < 2 ^ 64
        → length acks ≡ length ps
        → Commitment.commit_packets E.keccak ps ≡ ok hash
        → Step s (
            put_commitment
              (Commitment.batch_receipts_path E.keccak hash)
              (Commitment.commit_acks E.keccak acks)
              s)

  pub data Reach (s : Store T) : Store T → Type 0 where
    here : Reach s s
    next : {t u : Store T} → Reach s t → Step t u → Reach s u

  pub Reach-trans : {s t u : Store T} → Reach s t → Reach t u → Reach s u
  Reach-trans p here = p
  Reach-trans p (next q st) = next (Reach-trans p q) st

  -- What the host relies on of apps: a callback changes the host's store by protocol steps alone,
  -- since an app reaches the store only through the host's entry points.
  pub record AppsReach : Type 0 where
    pub call :
        (app : ℕ) (a : AppCall) (c : Context) (w w' : World T F)
        → E.app_call app a c w ≡ ok w'
        → Reach w.store w'.store
    pub recv :
        (app : ℕ) (a : RecvCall) (c : Context) (w w' : World T F) (r : RecvPacketResult)
        → E.app_recv app a c w ≡ ok (r, w')
        → Reach w.store w'.store
