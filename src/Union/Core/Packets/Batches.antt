-- ===== src/Union/Core/Packets/Batches.antt =====
-- core/v1/packet.gno: batches of packets and of acknowledgements, and the proofs that are committed.
use gno_ibc.Prelude.{ℕ, true, false, not, none, some, List, [], ◌∷◌, Bytes, length, ltb}
use gno_ibc.Prelude.Map
use gno_ibc.Prelude.Eq.{◌==◌, nat_eq, bytes_eq}
use gno_ibc.Union.Types.{Packet, new_height}
use gno_ibc.Union.Msgs.{
  MsgCommitMembershipProof, MsgCommitNonMembershipProof, MsgBatchSend, MsgBatchAcks,
}
use gno_ibc.Union.Commitment
use gno_ibc.Union.Commitment.{
  H256, commitment_magic, commitment_magic_ack, non_membership_commitment_value,
}
use gno_ibc.Union.Core.World.{Env, Context, Error, Event}
use gno_ibc.Union.Core.Exec.{
  Exec, ◌>>=◌, ◌>>◌, pure, panic, gets, or_panic, panic_if, must_encode, assert_is_rlm_current,
  emit,
}
use gno_ibc.Union.Core.Store.{
  packet_commitment, acknowledgement_receipt, save_batch_packets, save_batch_receipts,
  save_membership_proof, save_non_membership_proof,
}
use gno_ibc.Union.Core.Clients.{verify_membership, verify_non_membership}
use gno_ibc.Union.Core.Packets.First.{first_packet}

module _ {T F : Type 0} (E : Env T F) where
  -- `CommitMembershipProof` and `CommitNonMembershipProof`
  unfoldable pub commit_membership_proof : Context → MsgCommitMembershipProof → Exec T F (Unit {0})
  unfolding save_membership_proof emit
  commit_membership_proof c msg = do
    assert_is_rlm_current c
    verify_membership E msg.client_id (new_height msg.proof_height) msg.proof msg.path msg.value
    save_membership_proof E c msg.client_id msg.proof_height msg.path (E.keccak msg.value)
    emit E c (Event.commit_membership_proof msg.client_id msg.proof_height msg.path msg.value)

  unfoldable pub commit_non_membership_proof :
      Context → MsgCommitNonMembershipProof → Exec T F (Unit {0})
  unfolding save_non_membership_proof emit
  commit_non_membership_proof c msg = do
    assert_is_rlm_current c
    known ← gets (λ w. Map.lookup msg.client_id w.store.client_type_by_id)
    panic_if (elim known [ none ↦ true | some _ ↦ false ]) Error.client_not_found
    verify_non_membership E msg.client_id (new_height msg.proof_height) msg.proof msg.path
    save_non_membership_proof E c msg.client_id msg.proof_height msg.path
        non_membership_commitment_value
    emit E c (Event.commit_non_membership_proof msg.client_id msg.proof_height msg.path)

  -- The loop of `BatchSend`.
  unfoldable pub batch_send_loop : Context → ℕ → H256 → List Packet → Exec T F (Unit {0})
  unfolding packet_commitment emit
  batch_send_loop c channel batch_hash [] = pure tt
  batch_send_loop c channel batch_hash (p ∷ ps) = do
    panic_if (not (p.source_channel_id == channel)) Error.batch_same_channel_only
    found ← packet_commitment E p
    commitment ← or_panic found Error.packet_commitment_not_found
    panic_if (not (commitment == commitment_magic)) Error.packet_commitment_not_found
    hash ← must_encode (Commitment.commit_packets E.keccak (p ∷ []))
    emit E c (Event.batch_send channel hash batch_hash)
    batch_send_loop c channel batch_hash ps

  -- `BatchSend`
  unfoldable pub batch_send : Context → MsgBatchSend → Exec T F (Unit {0})
  unfolding batch_send_loop save_batch_packets
  batch_send c msg = do
    assert_is_rlm_current c
    panic_if (ltb (length msg.packets) 2) Error.not_enough_packets
    first ← or_panic (first_packet msg.packets) Error.not_enough_packets
    hash ← must_encode (Commitment.commit_packets E.keccak msg.packets)
    batch_send_loop c first.source_channel_id hash msg.packets
    save_batch_packets E c hash commitment_magic

  -- The loop of `BatchAcks`, over packets and acknowledgements of equal number.
  unfoldable pub batch_acks_loop :
      Context → ℕ → H256 → List Packet → List Bytes → Exec T F (Unit {0})
  unfolding acknowledgement_receipt emit
  batch_acks_loop c channel batch_hash [] acks = pure tt
  batch_acks_loop c channel batch_hash (p ∷ ps) [] = panic Error.nil_dereference
  batch_acks_loop c channel batch_hash (p ∷ ps) (ack ∷ acks) = do
    panic_if (not (p.destination_channel_id == channel)) Error.batch_same_channel_only
    hash ← must_encode (Commitment.commit_packets E.keccak (p ∷ []))
    emit E c (Event.batch_acks channel hash batch_hash)
    found ← acknowledgement_receipt E p
    commitment ← or_panic found Error.packet_commitment_not_found
    panic_if (commitment == commitment_magic) Error.acknowledgement_empty
    panic_if (not (commitment == Commitment.commit_acks E.keccak (ack ∷ [])))
        Error.acknowledgement_mismatch
    batch_acks_loop c channel batch_hash ps acks

  -- `BatchAcks`
  unfoldable pub batch_acks : Context → MsgBatchAcks → Exec T F (Unit {0})
  unfolding batch_acks_loop save_batch_receipts
  batch_acks c msg = do
    assert_is_rlm_current c
    panic_if (ltb (length msg.packets) 2) Error.not_enough_packets
    panic_if (not (length msg.acks == length msg.packets)) Error.acknowledgement_count_mismatch
    first ← or_panic (first_packet msg.packets) Error.not_enough_packets
    hash ← must_encode (Commitment.commit_packets E.keccak msg.packets)
    batch_acks_loop c first.destination_channel_id hash msg.packets msg.acks
    save_batch_receipts E c hash (Commitment.commit_acks E.keccak msg.acks)
