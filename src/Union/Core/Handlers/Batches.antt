-- ===== src/Union/Core/Handlers/Batches.antt =====
-- Batches follow the protocol: BatchSend and BatchAcks.
use gno_ibc.Prelude.{ℕ, ◌≡◌, ◌≤◌, ◌<◌, ◌^◌, List, [], ◌∷◌, Bytes, arith, length, ltb, not}
use gno_ibc.Prelude.Eq.{◌==◌, nat_eq}
use gno_ibc.Prelude.Result.{ok}
use gno_ibc.Union.Types.{Packet}
use gno_ibc.Union.Msgs.{MsgBatchSend, MsgBatchAcks}
use gno_ibc.Union.Commitment
use gno_ibc.Union.Commitment.{H256, commitment_magic}
use gno_ibc.Union.Core.World.{World, Env, Context, Error}
use gno_ibc.Union.Core.Exec.{◌>>=◌, panic_if, must_encode}
use gno_ibc.Union.Core.Store.{
  packet_commitment, acknowledgement_receipt, save_batch_packets, save_batch_receipts,
  set_commitment, set_commitment_mem,
}
use gno_ibc.Union.Core.Packets.{batch_send_loop, batch_acks_loop, batch_send, batch_acks}
use gno_ibc.Union.Core.Protocol.{put_commitment, Step}
use gno_ibc.Union.Core.Protocol.Run.{Follows, Follows-step, Follows-bind}
use gno_ibc.Union.Core.Handlers.Leaves.{follows_rules}

module _ {T F : Type 0} (E : Env T F) (c : Context) where
  Follows-packet_commitment : (p : Packet) (w : World T F) → Follows E (packet_commitment E p) w
  unfolding packet_commitment ◌>>=◌
  Follows-packet_commitment p w = search follows_rules

  Follows-acknowledgement_receipt :
      (p : Packet) (w : World T F) → Follows E (acknowledgement_receipt E p) w
  unfolding acknowledgement_receipt
  Follows-acknowledgement_receipt p w = search follows_rules

  Follows-batch_send_loop :
      (channel : ℕ) (h : H256) (ps : List Packet) (w : World T F)
      → Follows E (batch_send_loop E c channel h ps) w
  unfolding batch_send_loop
  Follows-batch_send_loop channel h [] w = search follows_rules
  Follows-batch_send_loop channel h (p ∷ ps) w =
      search (follows_rules, Follows-packet_commitment, Follows-batch_send_loop channel h ps) depth
        20

  Follows-batch_acks_loop :
      (channel : ℕ) (h : H256) (ps : List Packet) (acks : List Bytes) (w : World T F)
      → Follows E (batch_acks_loop E c channel h ps acks) w
  unfolding batch_acks_loop
  Follows-batch_acks_loop channel h [] acks w = search follows_rules
  Follows-batch_acks_loop channel h (p ∷ ps) [] w = search follows_rules
  Follows-batch_acks_loop channel h (p ∷ ps) (ack ∷ acks) w =
      search
        (follows_rules, Follows-acknowledgement_receipt, Follows-batch_acks_loop channel h ps acks)
        depth 20

  -- What the guards of the two handlers establish before the batch is saved.
  at_least_two :
      (ps : List Packet) (w w' : World T F)
      → panic_if (ltb (length ps) 2) Error.not_enough_packets w ≡ ok (tt, w')
      → 2 ≤ length ps
  unfolding ◌>>=◌
  at_least_two ps w w' done = ground (arith, done)

  same_count :
      (ps : List Packet) (acks : List Bytes) (w w' : World T F)
      → panic_if (not (length acks == length ps)) Error.acknowledgement_count_mismatch w
        ≡ ok (tt, w')
      → length acks ≡ length ps
  unfolding ◌>>=◌
  same_count ps acks w w' done = ground (arith, done)

  encoded :
      (ps : List Packet) (hash : H256) (w w' : World T F)
      → must_encode (Commitment.commit_packets E.keccak ps) w ≡ ok (hash, w')
      → Commitment.commit_packets E.keccak ps ≡ ok hash
  unfolding ◌>>=◌
  encoded ps hash w w' done = ground (arith, done)

  save_batch_packets_lem :
      (hash value : H256) (w w' : World T F)
      → save_batch_packets E c hash value w ≡ ok (tt, w')
      → w'.store ≡ put_commitment E (Commitment.batch_packets_path E.keccak hash) value w.store
  unfolding save_batch_packets ◌>>=◌ set_commitment set_commitment_mem
  save_batch_packets_lem hash value w w' done = ground (arith, done)

  save_batch_receipts_lem :
      (hash value : H256) (w w' : World T F)
      → save_batch_receipts E c hash value w ≡ ok (tt, w')
      → w'.store ≡ put_commitment E (Commitment.batch_receipts_path E.keccak hash) value w.store
  unfolding save_batch_receipts ◌>>=◌ set_commitment set_commitment_mem
  save_batch_receipts_lem hash value w w' done = ground (arith, done)

  pub Follows-batch_send :
      (msg : MsgBatchSend) (w : World T F)
      → length msg.packets < 2 ^ 64
      → Follows E (batch_send E c msg) w
  unfolding batch_send
  Follows-batch_send msg w few = Follows-bind E _ _ w (search follows_rules) λ _ w1 _.
      Follows-bind E _ _ w1 (search follows_rules) λ _ w2 long.
        Follows-bind E _ _ w2 (search follows_rules) λ first w3 _.
          Follows-bind E _ _ w3 (search follows_rules) λ hash w4 coded.
            Follows-bind E _ _ w4 (Follows-batch_send_loop _ hash msg.packets w4) λ _ w5 _.
              Follows-step E _ w5 λ _ w6 done.
                let same = save_batch_packets_lem hash commitment_magic w5 w6 done in
                rw same (
                  Step.batch_send msg.packets hash (at_least_two msg.packets w1 w2 long) few
                    (encoded msg.packets hash w3 w4 coded))

  pub Follows-batch_acks :
      (msg : MsgBatchAcks) (w : World T F)
      → length msg.packets < 2 ^ 64
      → Follows E (batch_acks E c msg) w
  unfolding batch_acks
  Follows-batch_acks msg w few = Follows-bind E _ _ w (search follows_rules) λ _ w1 _.
      Follows-bind E _ _ w1 (search follows_rules) λ _ w2 long.
        Follows-bind E _ _ w2 (search follows_rules) λ _ w3 count.
          Follows-bind E _ _ w3 (search follows_rules) λ first w4 _.
            Follows-bind E _ _ w4 (search follows_rules) λ hash w5 coded.
              Follows-bind E _ _ w5 (Follows-batch_acks_loop _ hash msg.packets msg.acks w5)
                λ _ w6 _. Follows-step E _ w6 λ _ w7 done.
                  let same = save_batch_receipts_lem hash _ w6 w7 done in
                  rw same (
                    Step.batch_acks msg.packets msg.acks hash (at_least_two msg.packets w1 w2 long)
                      few (same_count msg.packets msg.acks w2 w3 count)
                      (encoded msg.packets hash w4 w5 coded))
