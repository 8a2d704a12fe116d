-- ===== src/Union/Core/Handlers/Receive.antt =====
-- Receiving packets follows the protocol: PacketRecv, IntentPacketRecv and WriteAcknowledgement.
use gno_ibc.Prelude.{
  ℕ, ◌≡◌, ◌≢◌, Bool, true, false, Option, none, some, List, [], ◌∷◌, Bytes, arith, inl, inr, ◌⊎◌,
  if◌then◌else◌,
}
use gno_ibc.Prelude.Result.{ok}
use gno_ibc.Union.Types.{Channel, Connection, Packet, RecvPacketResult}
use gno_ibc.Union.Msgs.{MsgPacketRecv, MsgIntentPacketRecv, MsgWriteAcknowledgement}
use gno_ibc.Union.Commitment
use gno_ibc.Union.Commitment.Injective.{packet_acknowledgement_path-ok}
use gno_ibc.Union.Core.World.{World, Env, Context, Event, RecvCall}
use gno_ibc.Union.Core.Exec.{◌>>=◌, ◌>>◌, pure, emit}
use gno_ibc.Union.Core.Store.{set_commitment, set_commitment_mem}
use gno_ibc.Union.Core.Packets.{
  accept_recv_packet, commit_sync_ack, call_recv, recv_one, recv_loop, packet_recv,
  intent_packet_recv, write_acknowledgement,
}
use gno_ibc.Union.Core.Protocol.{Reach, here, next, receive, acknowledge, put_commitment, AppsReach}
use gno_ibc.Union.Core.Protocol.Commitments.{
  receipt_path, commitment_at, Reach-present, lookup-insert-same,
}
use gno_ibc.Union.Core.Protocol.Run.{Follows, Follows-step, Follows-bind}
use gno_ibc.Union.Core.Handlers.Leaves.{follows_rules, Follows-pure, Follows-emit}
use gno_ibc.Union.Core.Handlers.Packets.{
  accept_recv_packet-false, accept_recv_packet-true, write_acknowledgement_lem,
}

some_present : (o : Option Commitment.H256) (h : Commitment.H256) → o ≡ some h → o ≢ none
some_present o h found gone = ground (arith, found, gone)

module _ {T F : Type 0} (E : Env T F) (c : Context) where
  -- The host writes the acknowledgement of a result or, for an asynchronous one, nothing.
  pub commit_sync_ack_lem :
      (w w' : World T F) (p : Packet) (ch : Channel) (conn : Connection) (r : RecvPacketResult)
      → commit_sync_ack E c p ch conn r w ≡ ok (tt, w')
      → (w'.store ≡ w.store)
        ⊎ (w'.store
            ≡ put_commitment E
                (receipt_path E p)
                (Commitment.commit_acks E.keccak (r.acknowledgement ∷ []))
                w.store)
  unfolding commit_sync_ack ◌>>=◌ set_commitment set_commitment_mem
  commit_sync_ack_lem w w' p ch conn r done =
      ground (arith, done, packet_acknowledgement_path-ok E.keccak p)

  Follows-commit_sync_ack :
      (p : Packet) (ch : Channel) (conn : Connection) (r : RecvPacketResult) (w : World T F)
      → commitment_at E (receipt_path E p) w.store ≢ none
      → Follows E (commit_sync_ack E c p ch conn r) w
  Follows-commit_sync_ack p ch conn r w received = record {
    at = λ a w' done. elim (commit_sync_ack_lem w w' p ch conn r done) [
      | inl same ↦ rw same here
      | inr wrote ↦ rw wrote (
          next here (
            acknowledge p _ r.acknowledgement (packet_acknowledgement_path-ok E.keccak p) received))
    ];
  }

  Follows-accept_recv_packet :
      (p : Packet) (batch now : ℕ) (w : World T F)
      → Follows E (accept_recv_packet E c p batch now) w
  Follows-accept_recv_packet p batch now w = record { at = go }
    where
      go :
          (skip : Bool) (w' : World T F)
          → accept_recv_packet E c p batch now w ≡ ok (skip, w')
          → Reach E w.store w'.store
      go true w' done = rw (accept_recv_packet-true E c w w' p batch now done).1 here
      go false w' done =
          let (fresh, same) = accept_recv_packet-false E c w w' p batch now done in
          rw same (next here (receive p _ (packet_acknowledgement_path-ok E.keccak p) fresh))

  pub Follows-write_acknowledgement :
      (msg : MsgWriteAcknowledgement) (w : World T F) → Follows E (write_acknowledgement E c msg) w
  Follows-write_acknowledgement msg w = Follows-step E _ w λ a w' done.
      let (received, same) = write_acknowledgement_lem E c w w' msg done in
      rw same (
        acknowledge msg.packet _ msg.acknowledgement
          (packet_acknowledgement_path-ok E.keccak msg.packet)
          (some_present (commitment_at E (receipt_path E msg.packet) w.store) _ received))

  module _ (apps : AppsReach E) where
    Follows-call_recv :
        (app : ℕ) (call : RecvCall) (w : World T F) → Follows E (call_recv E c app call) w
    unfolding call_recv
    Follows-call_recv app call w = record { at = λ r w' done. apps.recv app call c w w' r done }

    module _ (app : ℕ) (call : Packet → Bytes → RecvCall) (event : Packet → Bytes → Event)
        (batch : ℕ) (ch : Channel) (conn : Connection) where
      -- After the receipt, whatever the app does, it is there when the acknowledgement is written.
      pub deliver-Follows :
          (p : Packet) (m : Bytes) (w : World T F)
          → commitment_at E (receipt_path E p) w.store ≢ none
          → Follows E
              (call_recv E c app (call p m) >>= λ res.
                commit_sync_ack E c p ch conn res >> emit E c (event p m))
              w
      deliver-Follows p m w received =
          Follows-bind E _ _ w (Follows-call_recv app (call p m) w) λ res w1 done.
            Follows-bind E _ _ w1
              (Follows-commit_sync_ack p ch conn res w1 (
                Reach-present E (receipt_path E p)
                  ((Follows-call_recv app (call p m) w).at res w1 done) received))
              (λ _ w2 _. Follows-emit E c (event p m) w2)

      pub Follows-recv_one :
          (p : Packet) (m : Bytes) (w : World T F)
          → Follows E (recv_one E c app call event batch ch conn p m) w
      unfolding recv_one
      Follows-recv_one p m w =
          Follows-bind E _ _ w (Follows-accept_recv_packet p batch c.unix_nano w) go
        where
          go :
              (skip : Bool) (w' : World T F)
              → accept_recv_packet E c p batch c.unix_nano w ≡ ok (skip, w')
              → Follows E
                  (if skip
                    then pure tt
                    else (call_recv E c app (call p m) >>= λ res.
                        commit_sync_ack E c p ch conn res >> emit E c (event p m)))
                  w'
          go true w' done = Follows-pure E tt w'
          go false w' done =
              let (fresh, same) = accept_recv_packet-false E c w w' p batch c.unix_nano done in
              deliver-Follows p m w' (λ gone. ground (
                arith,
                gone,
                same,
                lookup-insert-same (receipt_path E p) Commitment.commitment_magic
                    w.store.commitments,
              ))

      pub Follows-recv_loop :
          (ps : List Packet) (ms : List Bytes) (w : World T F)
          → Follows E (recv_loop E (recv_one E c app call event batch ch conn) ps ms) w
      unfolding recv_loop
      Follows-recv_loop [] ms w = Follows-pure E tt w
      Follows-recv_loop (p ∷ ps) [] w = Follows-pure E tt w
      Follows-recv_loop (p ∷ ps) (m ∷ ms) w =
          Follows-bind E _ _ w (Follows-recv_one p m w) (λ _ w' _. Follows-recv_loop ps ms w')

    pub Follows-packet_recv :
        (msg : MsgPacketRecv) (w : World T F) → Follows E (packet_recv E c msg) w
    unfolding packet_recv
    Follows-packet_recv msg w = search (follows_rules, Follows-recv_loop) depth 20

    pub Follows-intent_packet_recv :
        (msg : MsgIntentPacketRecv) (w : World T F) → Follows E (intent_packet_recv E c msg) w
    unfolding intent_packet_recv
    Follows-intent_packet_recv msg w = search (follows_rules, Follows-recv_loop) depth 20
