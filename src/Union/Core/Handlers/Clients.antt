-- ===== src/Union/Core/Handlers/Clients.antt =====
-- The handlers of clients, proofs and ports leave connections, channels and commitments alone.
use gno_ibc.Prelude.{ℕ, ◌≡◌, Option, List, [], ◌∷◌, Bytes, arith}
use gno_ibc.Prelude.Result.{ok}
use gno_ibc.Union.Commitment.{H256}
use gno_ibc.Union.Types.{Height}
use gno_ibc.Union.Msgs.{
  MsgCreateClient, MsgUpdateClient, MsgForceUpdateClient, MsgMisbehaviour, MsgCommitMembershipProof,
  MsgCommitNonMembershipProof,
}
use gno_ibc.Union.Core.World.{World, Env, Context}
use gno_ibc.Union.Core.Exec.{Exec, ◌>>=◌}
use gno_ibc.Union.Core.Clients.{
  save_client_state, save_consensus_state, save_client_store, save_writes, set_light_client,
  add_client, register_client, init_client, create_client, update_client, force_update_client,
  misbehaviour, get_active_client, save_changed_state,
}
use gno_ibc.Union.Core.Store.{save_membership_proof, save_non_membership_proof}
use gno_ibc.Union.Core.Channels.{register_app}
use gno_ibc.Union.Core.Packets.{commit_membership_proof, commit_non_membership_proof}
use gno_ibc.Union.Core.Protocol.{SameProtocol, other}
use gno_ibc.Union.Core.Protocol.Run.{Follows, Follows-step}
use gno_ibc.Union.Core.Handlers.Leaves.{follows_rules}

module _ {T F : Type 0} (E : Env T F) where
  Follows-other :
      {A : Type 0} (m : Exec T F A) (w : World T F)
      → ((a : A) (w' : World T F) → m w ≡ ok (a, w') → SameProtocol w.store w'.store)
      → Follows E m w
  Follows-other m w same = Follows-step E m w (λ a w' done. other (same a w' done))

  Follows-save_client_state :
      (c : Context) (id : ℕ) (b : Bytes) (w : World T F) → Follows E (save_client_state E c id b) w
  unfolding save_client_state ◌>>=◌
  Follows-save_client_state c id b w = Follows-other _ w λ a w' done. record {
    connection_seq = ground (arith, done);
    connections = ground (arith, done);
    channel_seq = ground (arith, done);
    channels = ground (arith, done);
    commitments = ground (arith, done);
  }

  Follows-save_consensus_state :
      (c : Context) (id : ℕ) (h : Height) (b : Bytes) (w : World T F)
      → Follows E (save_consensus_state E c id h b) w
  unfolding save_consensus_state ◌>>=◌
  Follows-save_consensus_state c id h b w = Follows-other _ w λ a w' done. record {
    connection_seq = ground (arith, done);
    connections = ground (arith, done);
    channel_seq = ground (arith, done);
    channels = ground (arith, done);
    commitments = ground (arith, done);
  }

  Follows-save_client_store :
      (c : Context) (id : ℕ) (k v : Bytes) (w : World T F)
      → Follows E (save_client_store E c id k v) w
  unfolding save_client_store ◌>>=◌
  Follows-save_client_store c id k v w = Follows-other _ w λ a w' done. record {
    connection_seq = ground (arith, done);
    connections = ground (arith, done);
    channel_seq = ground (arith, done);
    channels = ground (arith, done);
    commitments = ground (arith, done);
  }

  Follows-set_light_client :
      (c : Context) (id lc : ℕ) (w : World T F) → Follows E (set_light_client E c id lc) w
  unfolding set_light_client ◌>>=◌
  Follows-set_light_client c id lc w = Follows-other _ w λ a w' done. record {
    connection_seq = ground (arith, done);
    connections = ground (arith, done);
    channel_seq = ground (arith, done);
    channels = ground (arith, done);
    commitments = ground (arith, done);
  }

  Follows-add_client :
      (c : Context) (typ creator : Bytes) (lc : ℕ) (w : World T F)
      → Follows E (add_client E c typ creator lc) w
  unfolding add_client ◌>>=◌
  Follows-add_client c typ creator lc w = Follows-other _ w λ a w' done. record {
    connection_seq = ground (arith, done);
    connections = ground (arith, done);
    channel_seq = ground (arith, done);
    channels = ground (arith, done);
    commitments = ground (arith, done);
  }

  Follows-save_membership_proof :
      (c : Context) (client height : ℕ) (path : Bytes) (v : H256) (w : World T F)
      → Follows E (save_membership_proof E c client height path v) w
  unfolding save_membership_proof ◌>>=◌
  Follows-save_membership_proof c client height path v w = Follows-other _ w λ a w' done. record {
    connection_seq = ground (arith, done);
    connections = ground (arith, done);
    channel_seq = ground (arith, done);
    channels = ground (arith, done);
    commitments = ground (arith, done);
  }

  Follows-save_non_membership_proof :
      (c : Context) (client height : ℕ) (path : Bytes) (v : H256) (w : World T F)
      → Follows E (save_non_membership_proof E c client height path v) w
  unfolding save_non_membership_proof ◌>>=◌
  Follows-save_non_membership_proof c client height path v w = Follows-other _ w λ a w' done.
      record {
        connection_seq = ground (arith, done);
        connections = ground (arith, done);
        channel_seq = ground (arith, done);
        channels = ground (arith, done);
        commitments = ground (arith, done);
      }

  pub Follows-register_client :
      (c : Context) (typ : Bytes) (impl : Option ℕ) (w : World T F)
      → Follows E (register_client E c typ impl) w
  unfolding register_client ◌>>=◌
  Follows-register_client c typ impl w = Follows-other _ w λ a w' done. record {
    connection_seq = ground (arith, done);
    connections = ground (arith, done);
    channel_seq = ground (arith, done);
    channels = ground (arith, done);
    commitments = ground (arith, done);
  }

  pub Follows-register_app :
      (c : Context) (app : ℕ) (w : World T F) → Follows E (register_app E c app) w
  unfolding register_app ◌>>=◌
  Follows-register_app c app w = Follows-other _ w λ a w' done. record {
    connection_seq = ground (arith, done);
    connections = ground (arith, done);
    channel_seq = ground (arith, done);
    channels = ground (arith, done);
    commitments = ground (arith, done);
  }

  Follows-save_writes :
      (c : Context) (id : ℕ) (writes : List (Bytes × Bytes)) (w : World T F)
      → Follows E (save_writes E c id writes) w
  unfolding save_writes
  Follows-save_writes c id [] w = search follows_rules
  Follows-save_writes c id ((k, v) ∷ writes) w =
      search (follows_rules, Follows-save_client_store, Follows-save_writes c id writes) depth 10

  Follows-get_active_client : (id : ℕ) (w : World T F) → Follows E (get_active_client E id) w
  unfolding get_active_client
  Follows-get_active_client id w = search follows_rules depth 10

ruleset client_rules = (
  follows_rules, Follows-save_client_state, Follows-save_consensus_state, Follows-save_writes,
  Follows-set_light_client, Follows-add_client, Follows-get_active_client,
)

module _ {T F : Type 0} (E : Env T F) where
  save_changed :
      (c : Context) (id : ℕ) (b : Bytes) (w : World T F) → Follows E (save_changed_state E c id b) w
  save_changed c id [] w = search client_rules
  save_changed c id (x ∷ b) w = search client_rules depth 10

  Follows-init_client :
      (c : Context) (id : ℕ) (client_state consensus_state relayer : Bytes) (w : World T F)
      → Follows E (init_client E c id client_state consensus_state relayer) w
  unfolding init_client
  Follows-init_client c id client_state consensus_state relayer w =
      search (client_rules, save_changed) depth 20

  pub Follows-create_client :
      (c : Context) (msg : MsgCreateClient) (w : World T F) → Follows E (create_client E c msg) w
  unfolding create_client
  Follows-create_client c msg w = search (client_rules, Follows-init_client) depth 20

  pub Follows-update_client :
      (c : Context) (msg : MsgUpdateClient) (w : World T F) → Follows E (update_client E c msg) w
  unfolding update_client
  Follows-update_client c msg w = search (client_rules, save_changed) depth 20

  pub Follows-force_update_client :
      (c : Context) (msg : MsgForceUpdateClient) (w : World T F)
      → Follows E (force_update_client E c msg) w
  unfolding force_update_client
  Follows-force_update_client c msg w = search (client_rules, Follows-init_client) depth 20

  pub Follows-misbehaviour :
      (c : Context) (msg : MsgMisbehaviour) (w : World T F) → Follows E (misbehaviour E c msg) w
  unfolding misbehaviour
  Follows-misbehaviour c msg w = search (client_rules, save_changed) depth 20

  pub Follows-commit_membership_proof :
      (c : Context) (msg : MsgCommitMembershipProof) (w : World T F)
      → Follows E (commit_membership_proof E c msg) w
  unfolding commit_membership_proof
  Follows-commit_membership_proof c msg w =
      search (follows_rules, Follows-save_membership_proof) depth 20

  pub Follows-commit_non_membership_proof :
      (c : Context) (msg : MsgCommitNonMembershipProof) (w : World T F)
      → Follows E (commit_non_membership_proof E c msg) w
  unfolding commit_non_membership_proof
  Follows-commit_non_membership_proof c msg w =
      search (follows_rules, Follows-save_non_membership_proof) depth 20
