-- ===== src/Union/Core/Clients.antt =====
-- The clients: their part of core/store.gno, and core/v1/client.gno.
use gno_ibc.Prelude.{
  ℕ, Bool, true, false, not, Option, none, some, List, [], ◌∷◌, Bytes, if◌then◌else◌,
}
use gno_ibc.Prelude.Map
use gno_ibc.Prelude.Eq.{◌==◌, nat_eq, bytes_eq}
use gno_ibc.Prelude.Result.{ok, err}
use gno_ibc.Union.Types.{Height, new_height}
use gno_ibc.Union.Msgs.{MsgCreateClient, MsgUpdateClient, MsgForceUpdateClient, MsgMisbehaviour}
use gno_ibc.Union.Commitment
use gno_ibc.Union.Commitment.{H256}
use gno_ibc.Union.Core.World.{World, Client, TreeValue, Env, Context, Error, Event, Status}
use gno_ibc.Union.Core.Exec.{
  Exec, ◌>>=◌, ◌>>◌, pure, gets, or_panic, panic_if, modify_store, on_foreign,
  assert_is_rlm_current, emit,
}
use gno_ibc.Union.Core.Store.{set_chain_param, height_bytes, to_uint32}

-- `resolveRelayer` of core/v1/impl.gno
unfoldable pub resolve_relayer : Bytes → Bytes → Bytes
resolve_relayer caller relayer = if relayer == [] then caller else relayer

module _ {T F : Type 0} (E : Env T F) where
  -- `getClient`: nil is `none`.
  abbrev pub find_client : ℕ → World T F → Option (Client T)
  find_client id w = Map.lookup id w.store.client_by_id

  -- Writing through the pointer to a client.
  abbrev put_client : ℕ → Client T → Exec T F (Unit {0})
  put_client id cl = modify_store (λ s. record s { client_by_id = Map.insert id cl s.client_by_id })

  -- A setter of one client, which reports whether the client is known.
  abbrev with_client : Context → ℕ → (Client T → Exec T F (Unit {0})) → Exec T F Bool
  with_client c id write = do
    assert_is_rlm_current c
    found ← gets (find_client id)
    elim found [ none ↦ pure false | some cl ↦ (do write cl; pure true) ]

  -- `SaveClientState`
  unfoldable pub save_client_state : Context → ℕ → Bytes → Exec T F Bool
  save_client_state c id state = with_client c id (λ cl. do
    put_client id (record cl { client_state = state })
    set_chain_param E (Commitment.client_state_path E.keccak cl.id) (E.keccak state))

  -- `SaveConsensusState`
  unfoldable pub save_consensus_state : Context → ℕ → Height → Bytes → Exec T F Bool
  unfolding height_bytes
  save_consensus_state c id height state = with_client c id (λ cl. do
    put_client id (record cl {
      consensus_by_height =
          E.tree_set cl.consensus_by_height (height_bytes height) (TreeValue.bytes_value state);
    })
    set_chain_param E (Commitment.consensus_state_path E.keccak cl.id height) (E.keccak state))

  -- `SaveClientStore`, and the loop over the storage writes of a result
  unfoldable pub save_client_store : Context → ℕ → Bytes → Bytes → Exec T F Bool
  save_client_store c id key value =
      with_client c id
        (λ cl. put_client id (record cl { client_store = Map.insert key value cl.client_store }))

  unfoldable pub save_writes : Context → ℕ → List (Bytes × Bytes) → Exec T F (Unit {0})
  unfolding save_client_store
  save_writes c id [] = pure tt
  save_writes c id ((k, v) ∷ writes) = do save_client_store c id k v; save_writes c id writes

  -- `SetLightClient`
  unfoldable pub set_light_client : Context → ℕ → ℕ → Exec T F Bool
  set_light_client c id lc =
      with_client c id (λ cl. put_client id (record cl { light_client = lc }))

  -- `AddClient`
  unfoldable pub add_client : Context → Bytes → Bytes → ℕ → Exec T F ℕ
  add_client c typ creator lc = do
    assert_is_rlm_current c
    seq ← gets (λ w. w.store.client_seq)
    n ← or_panic (E.seqid_next seq) Error.sequence_overflow
    modify_store (λ s. record s { client_seq = n })
    modify_store (λ s. record s {
      client_type_by_id = Map.insert (to_uint32 n) typ s.client_type_by_id;
      client_impl_by_id =
          Map.insert (to_uint32 n) (Map.lookup typ s.client_registry) s.client_impl_by_id;
      client_by_id =
          Map.insert (to_uint32 n)
            (record {
              id = to_uint32 n;
              creator = creator;
              light_client = lc;
              client_state = [];
              consensus_by_height = E.tree_new;
              client_store = [];
            })
            s.client_by_id;
    })
    pure (to_uint32 n)

  -- The store's `RegisterClient`, and the handler of v1; a nil factory is `none`.
  unfoldable pub register_client : Context → Bytes → Option ℕ → Exec T F (Unit {0})
  unfolding emit
  register_client c typ impl = do
    assert_is_rlm_current c
    factory ← or_panic impl Error.unauthorized_client_registration
    assert_is_rlm_current c
    found ← gets (λ w. Map.lookup typ w.store.client_registry)
    panic_if (elim found [ none ↦ false | some _ ↦ true ]) Error.client_type_already_exists
    modify_store (λ s. record s { client_registry = Map.insert typ factory s.client_registry })
    emit E c (Event.register_client typ)

  -- `getClient` and `getActiveClient` of v1
  unfoldable pub get_client : ℕ → Exec T F ℕ
  get_client id = do
    found ← gets (find_client id)
    cl ← or_panic found Error.client_not_found
    pure cl.light_client

  abbrev is_active : Status → Bool
  is_active Status.active = true
  is_active _ = false

  unfoldable pub get_active_client : ℕ → Exec T F ℕ
  unfolding get_client
  get_active_client id = do
    lc ← get_client id
    status ← gets (λ w. E.status lc w.foreign_state)
    panic_if (not (is_active status)) Error.client_not_active
    pure lc

  -- `verifyMembership` and `verifyNonMembership`
  unfoldable pub verify_membership : ℕ → Height → Bytes → Bytes → Bytes → Exec T F (Unit {0})
  unfolding get_active_client
  verify_membership id height proof key value = do
    lc ← get_active_client id
    on_foreign (λ s. elim (E.verify_membership lc height.revision_height key proof value s) [
      | ok s' ↦ ok (tt, s')
      | err e ↦ err e
    ])

  unfoldable pub verify_non_membership : ℕ → Height → Bytes → Bytes → Exec T F (Unit {0})
  unfolding get_active_client
  verify_non_membership id height proof key = do
    lc ← get_active_client id
    on_foreign (λ s. elim (E.verify_non_membership lc height.revision_height key proof s) [
      | ok s' ↦ ok (tt, s')
      | err e ↦ err e
    ])

  -- Empty client state bytes mean that the state did not change.
  abbrev pub save_changed_state : Context → ℕ → Bytes → Exec T F (Unit {0})
  save_changed_state c id [] = pure tt
  save_changed_state c id (b ∷ bs) = do save_client_state c id (b ∷ bs); pure tt

  -- `initClient`
  unfoldable pub init_client : Context → ℕ → Bytes → Bytes → Bytes → Exec T F Height
  unfolding get_client save_client_state save_consensus_state save_writes
  init_client c id client_state consensus_state relayer = do
    lc ← get_client id
    save_client_state c id client_state
    latest ← gets (λ w. E.get_latest_height lc w.foreign_state)
    save_consensus_state c id (new_height latest) consensus_state
    result ← on_foreign (E.verify_creation lc c.previous_address relayer)
    save_changed_state c id result.client_state_bytes
    save_writes c id result.storage_writes
    pure (new_height latest)

  -- `CreateClient`
  unfoldable pub create_client : Context → MsgCreateClient → Exec T F (Unit {0})
  unfolding init_client add_client resolve_relayer emit
  create_client c msg = do
    assert_is_rlm_current c
    let relayer = resolve_relayer c.previous_address msg.relayer
    found ← gets (λ w. Map.lookup msg.client_type w.store.client_registry)
    impl ← or_panic found Error.client_type_not_found
    lc ← on_foreign (E.new_client impl msg.client_state_bytes msg.consensus_state_bytes)
    id ← add_client c msg.client_type c.previous_address lc
    init_client c id msg.client_state_bytes msg.consensus_state_bytes relayer
    chain ← gets (λ w. E.get_counterparty_chain_id lc w.foreign_state)
    emit E c (Event.create_client id msg.client_type chain)

  -- `UpdateClient`
  unfoldable pub update_client : Context → MsgUpdateClient → Exec T F (Unit {0})
  unfolding get_active_client save_consensus_state save_writes resolve_relayer emit
  update_client c msg = do
    assert_is_rlm_current c
    lc ← get_active_client msg.client_id
    let relayer = resolve_relayer c.previous_address msg.relayer
    update ← on_foreign (E.verify_header lc c.previous_address msg.client_message relayer)
    save_changed_state c msg.client_id update.client_state_bytes
    save_consensus_state c msg.client_id (new_height update.height) update.consensus_state_bytes
    save_writes c msg.client_id update.storage_writes
    emit E c (Event.update_client msg.client_id (new_height update.height))

  -- `ForceUpdateClient`
  unfoldable pub force_update_client : Context → MsgForceUpdateClient → Exec T F (Unit {0})
  unfolding init_client set_light_client emit
  force_update_client c msg = do
    assert_is_rlm_current c
    found ← gets (λ w. Map.lookup msg.client_id w.store.client_impl_by_id)
    factory ← or_panic found Error.client_not_found
    impl ← or_panic factory Error.nil_dereference
    lc ← on_foreign (E.new_client impl msg.client_state_bytes msg.consensus_state_bytes)
    set_light_client c msg.client_id lc
    height ←
        init_client c msg.client_id msg.client_state_bytes msg.consensus_state_bytes
          c.previous_address
    emit E c (Event.force_update_client msg.client_id height)

  -- `Misbehaviour`
  unfoldable pub misbehaviour : Context → MsgMisbehaviour → Exec T F (Unit {0})
  unfolding get_active_client save_client_state resolve_relayer emit
  misbehaviour c msg = do
    assert_is_rlm_current c
    lc ← get_active_client msg.client_id
    let relayer = resolve_relayer c.previous_address msg.relayer
    state ← on_foreign (E.verify_misbehaviour lc c.previous_address msg.client_message relayer)
    save_changed_state c msg.client_id state
    emit E c (Event.misbehaviour msg.client_id)
