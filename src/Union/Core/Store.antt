-- ===== src/Union/Core/Store.antt =====
-- core/store.gno: the data layer. Each setter first asserts that its realm token is current. The
-- copies that `CloneBytes`, `Clone` and `cloneChannel` make are equal values.
use gno_ibc.Prelude.{ℕ, ◌%◌, ◌^◌, Bool, true, false, Option, none, some, [], ◌∷◌, Bytes}
use gno_ibc.Prelude.Map
use gno_ibc.Prelude.Map.{Map}
use gno_ibc.Prelude.Eq.{◌==◌, nat_eq, bytes_eq}
use gno_ibc.Prelude.Result.{ok, err}
use gno_ibc.Union.Types.{Connection, Channel, Packet, Height}
use gno_ibc.Union.Commitment
use gno_ibc.Union.Commitment.{
  H256, commitment_magic, commitment_magic_ack, non_membership_commitment_value,
}
use gno_ibc.Encoding.Hex.{hex_encode}
use gno_ibc.Encoding.Word.{put_uint64}
use gno_ibc.Union.Core.World.{World, ChannelEntry, TreeValue, Env, Context, Error}
use gno_ibc.Union.Core.Exec.{
  Exec, ◌>>=◌, ◌>>◌, pure, gets, or_panic, panic_if, must_encode, modify, modify_store,
  assert_is_rlm_current,
}
use mathlib.Core.List.{◌++◌}

-- `Height.Bytes`
unfoldable pub height_bytes : Height → Bytes
unfolding put_uint64
height_bytes h = put_uint64 h.revision_number ++ put_uint64 h.revision_height

-- The conversion `uint32(…)` of a sequence number.
abbrev pub to_uint32 : ℕ → ℕ
to_uint32 n = n % 2 ^ 32

module _ {T F : Type 0} (E : Env T F) where
  -- `setChainParam(h256ChainParamKey(key), value)`
  abbrev pub set_chain_param : H256 → Bytes → Exec T F (Unit {0})
  set_chain_param key value =
      modify (λ w. record w { params = Map.insert (hex_encode key) value w.params })

  -- `setCommitment`, `setCommitmentMem` and `getCommitment`
  unfoldable pub set_commitment_mem : H256 → H256 → Exec T F (Unit {0})
  set_commitment_mem path value =
      modify_store (λ s. record s { commitments = Map.insert path value s.commitments })

  unfoldable pub set_commitment : H256 → H256 → Exec T F (Unit {0})
  unfolding set_commitment_mem
  set_commitment path value = do set_commitment_mem path value; set_chain_param path value

  unfoldable pub get_commitment : H256 → World T F → Option H256
  get_commitment path w = Map.lookup path w.store.commitments

  abbrev is_some_hash : Option H256 → Bool
  is_some_hash (some v) = true
  is_some_hash none = false

  -- `HasPacketCommitment`, `PacketCommitment` and `CommitPacket`
  unfoldable pub has_packet_commitment : Packet → Exec T F Bool
  has_packet_commitment p = do
    path ← must_encode (Commitment.packet_commitment_path E.keccak p)
    gets (λ w. is_some_hash (get_commitment path w))

  unfoldable pub packet_commitment : Packet → Exec T F (Option H256)
  packet_commitment p = do
    path ← must_encode (Commitment.packet_commitment_path E.keccak p)
    gets (get_commitment path)

  unfoldable pub commit_packet : Context → Packet → Exec T F (Unit {0})
  commit_packet c p = do
    assert_is_rlm_current c
    path ← must_encode (Commitment.packet_commitment_path E.keccak p)
    set_commitment path commitment_magic

  -- `SetPacketAcknowledged`
  unfoldable pub set_packet_acknowledged : Context → Packet → Exec T F (Unit {0})
  set_packet_acknowledged c p = do
    assert_is_rlm_current c
    path ← must_encode (Commitment.packet_commitment_path E.keccak p)
    set_commitment_mem path commitment_magic_ack

  -- `HasPacketReceipt`, `SetPacketReceipt`, `AcknowledgementReceipt` and `CommitAcknowledgement`
  unfoldable pub has_packet_receipt : Packet → Exec T F Bool
  has_packet_receipt p = do
    path ← must_encode (Commitment.packet_acknowledgement_path E.keccak p)
    gets (λ w. is_some_hash (get_commitment path w))

  unfoldable pub set_packet_receipt : Context → Packet → Exec T F (Unit {0})
  set_packet_receipt c p = do
    assert_is_rlm_current c
    path ← must_encode (Commitment.packet_acknowledgement_path E.keccak p)
    set_commitment path commitment_magic

  unfoldable pub acknowledgement_receipt : Packet → Exec T F (Option H256)
  acknowledgement_receipt p = do
    path ← must_encode (Commitment.packet_acknowledgement_path E.keccak p)
    gets (get_commitment path)

  unfoldable pub commit_acknowledgement : Context → Packet → Bytes → Exec T F (Unit {0})
  commit_acknowledgement c p ack = do
    assert_is_rlm_current c
    path ← must_encode (Commitment.packet_acknowledgement_path E.keccak p)
    set_commitment path (Commitment.commit_acks E.keccak (ack ∷ []))

  -- `SaveBatchPackets` and `SaveBatchReceipts`
  unfoldable pub save_batch_packets : Context → H256 → H256 → Exec T F (Unit {0})
  save_batch_packets c hash value = do
    assert_is_rlm_current c
    set_commitment (Commitment.batch_packets_path E.keccak hash) value

  unfoldable pub save_batch_receipts : Context → H256 → H256 → Exec T F (Unit {0})
  save_batch_receipts c hash value = do
    assert_is_rlm_current c
    set_commitment (Commitment.batch_receipts_path E.keccak hash) value

  -- `SaveMembershipProof` and `SaveNonMembershipProof`
  unfoldable pub save_membership_proof : Context → ℕ → ℕ → Bytes → H256 → Exec T F (Unit {0})
  save_membership_proof c client height path value = do
    assert_is_rlm_current c
    let key = Commitment.membership_proof_path E.keccak client height path
    modify_store (λ s. record s { membership_proofs = Map.insert key value s.membership_proofs })
    set_chain_param key value

  unfoldable pub save_non_membership_proof : Context → ℕ → ℕ → Bytes → H256 → Exec T F (Unit {0})
  save_non_membership_proof c client height path value = do
    assert_is_rlm_current c
    let key = Commitment.non_membership_proof_path E.keccak client height path
    modify_store
        (λ s. record s { non_membership_proofs = Map.insert key value s.non_membership_proofs })
    set_chain_param key value

  -- `MembershipProofAt` and `HasNonMembershipProof`
  unfoldable pub membership_proof_at : ℕ → ℕ → Bytes → World T F → Option H256
  membership_proof_at client height path w =
      Map.lookup (Commitment.membership_proof_path E.keccak client height path)
        w.store.membership_proofs

  unfoldable pub has_non_membership_proof : ℕ → ℕ → Bytes → World T F → Bool
  has_non_membership_proof client height path w =
      elim (Map.lookup (Commitment.non_membership_proof_path E.keccak client height path)
        w.store.non_membership_proofs) [
          | some v ↦ v == non_membership_commitment_value
          | none ↦ false
        ]

  -- `NextConnectionId` and `NextChannelId`: the sequence is 64 bits wide, the ids 32.
  unfoldable pub next_connection_id : Context → Exec T F ℕ
  next_connection_id c = do
    assert_is_rlm_current c
    seq ← gets (λ w. w.store.connection_seq)
    n ← or_panic (E.seqid_next seq) Error.sequence_overflow
    modify_store (λ s. record s { connection_seq = n })
    pure (to_uint32 n)

  unfoldable pub next_channel_id : Context → Exec T F ℕ
  next_channel_id c = do
    assert_is_rlm_current c
    seq ← gets (λ w. w.store.channel_seq)
    n ← or_panic (E.seqid_next seq) Error.sequence_overflow
    modify_store (λ s. record s { channel_seq = n })
    pure (to_uint32 n)

  -- `GetConnection`: a value of another type fails its assertion.
  unfoldable pub get_connection : ℕ → Exec T F (Option Connection)
  get_connection id w = elim (E.tree_get w.store.connections (E.seqid_binary id)) [
    | none ↦ ok (none, w)
    | some (TreeValue.connection_value v) ↦ ok (some v, w)
    | some _ ↦ err Error.type_assertion
  ]

  -- `SaveConnection`
  unfoldable pub save_connection : Context → ℕ → Connection → Exec T F (Unit {0})
  save_connection c id conn = do
    assert_is_rlm_current c
    modify_store (λ s. record s {
      connections = E.tree_set s.connections (E.seqid_binary id) (TreeValue.connection_value conn);
    })
    value ← must_encode (Commitment.connection_value E.keccak conn)
    set_chain_param (Commitment.connection_path E.keccak id) value

  -- `getChannelEntry`
  unfoldable pub get_channel_entry : ℕ → Exec T F (Option ChannelEntry)
  get_channel_entry id w = elim (E.tree_get w.store.channels (E.seqid_binary id)) [
    | none ↦ ok (none, w)
    | some (TreeValue.channel_value v) ↦ ok (some v, w)
    | some _ ↦ err Error.type_assertion
  ]

  -- `GetChannel` and `GetChannelOwner`
  unfoldable pub get_channel : ℕ → Exec T F (Option Channel)
  unfolding get_channel_entry
  get_channel id = do
    entry ← get_channel_entry id
    pure (elim entry [ none ↦ none | some v ↦ some v.channel ])

  unfoldable pub get_channel_owner : ℕ → Exec T F (Option Bytes)
  unfolding get_channel_entry
  get_channel_owner id = do
    entry ← get_channel_entry id
    pure (elim entry [ none ↦ none | some v ↦ some v.port_id ])

  abbrev put_channel_entry : ℕ → ChannelEntry → Exec T F (Unit {0})
  put_channel_entry id entry = modify_store (λ s. record s {
    channels = E.tree_set s.channels (E.seqid_binary id) (TreeValue.channel_value entry);
  })

  -- `CreateChannel`
  unfoldable pub create_channel : Context → ℕ → Channel → Bytes → Exec T F (Unit {0})
  create_channel c id channel port = do
    assert_is_rlm_current c
    put_channel_entry id (record { channel = channel; port_id = port })
    value ← must_encode (Commitment.channel_value E.keccak channel)
    set_chain_param (Commitment.channel_path E.keccak id) value

  -- `SaveChannel`: the entry is changed through its pointer.
  unfoldable pub save_channel : Context → ℕ → Channel → Exec T F (Unit {0})
  unfolding get_channel_entry
  save_channel c id channel = do
    assert_is_rlm_current c
    found ← get_channel_entry id
    entry ← or_panic found Error.channel_not_found
    put_channel_entry id (record entry { channel = channel })
    value ← must_encode (Commitment.channel_value E.keccak channel)
    set_chain_param (Commitment.channel_path E.keccak id) value

  -- `GetAppByPortId` and `RegisterAppAtPort`
  abbrev pub get_app_by_port_id : Bytes → World T F → Option ℕ
  get_app_by_port_id port w = Map.lookup port w.store.ports

  unfoldable pub register_app_at_port : Context → Bytes → ℕ → Exec T F (Unit {0})
  register_app_at_port c port app = do
    assert_is_rlm_current c
    found ← gets (get_app_by_port_id port)
    panic_if (elim found [ none ↦ false | some _ ↦ true ]) Error.port_already_registered
    modify_store (λ s. record s { ports = Map.insert port app s.ports })
