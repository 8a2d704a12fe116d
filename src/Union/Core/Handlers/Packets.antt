-- ===== src/Union/Core/Handlers/Packets.antt =====
-- The operations on one packet, by what they do to the commitments where they return.
use gno_ibc.Prelude.{ℕ, ◌≡◌, ◌≢◌, true, false, Option, none, some, [], ◌∷◌, Bytes, arith}
use gno_ibc.Prelude.Result.{ok}
use gno_ibc.Prelude.Eq.{bytes_eq, bytes_beq_iff}
use gno_ibc.Union.Types.{Packet}
use gno_ibc.Union.Commitment
use gno_ibc.Union.Commitment.{H256, commitment_magic, commitment_magic_ack}
use gno_ibc.Union.Commitment.Injective.{packet_commitment_path-ok, packet_acknowledgement_path-ok}
use gno_ibc.Union.Core.World.{World, Env, Context}
use gno_ibc.Union.Core.Exec.{◌>>=◌}
use gno_ibc.Union.Core.Store.{get_commitment, set_commitment, set_commitment_mem}
use gno_ibc.Union.Core.Packets.{
  send_packet, accept_recv_packet, mark_packet_acknowledged, write_acknowledgement,
}
use gno_ibc.Union.Core.Protocol.{put_commitment}
use gno_ibc.Union.Core.Protocol.Commitments.{commitment_path, receipt_path, commitment_at}

-- The hash that is found, or none at all.
abbrev hash_or : Option H256 → H256
hash_or none = []
hash_or (some h) = h

module _ {T F : Type 0} (E : Env T F) (c : Context) (w w' : World T F) where
  -- A packet is sent where it was not committed, and then it is.
  pub send_packet_lem :
      (source timeout : ℕ) (payload : Bytes) (p : Packet)
      → send_packet E c source timeout payload w ≡ ok (p, w')
      → (commitment_at E (commitment_path E p) w.store ≡ none)
        × (w'.store ≡ put_commitment E (commitment_path E p) commitment_magic w.store)
  unfolding send_packet ◌>>=◌ get_commitment set_commitment set_commitment_mem
  send_packet_lem source timeout payload p done =
      ground (arith, done, packet_commitment_path-ok E.keccak p)

  -- A packet is accepted where it has no receipt, and then it has; else it is skipped.
  pub accept_recv_packet-false :
      (p : Packet) (batch now : ℕ)
      → accept_recv_packet E c p batch now w ≡ ok (false, w')
      → (commitment_at E (receipt_path E p) w.store ≡ none)
        × (w'.store ≡ put_commitment E (receipt_path E p) commitment_magic w.store)
  unfolding accept_recv_packet ◌>>=◌ get_commitment set_commitment set_commitment_mem
  accept_recv_packet-false p batch now done =
      ground (arith, done, packet_acknowledgement_path-ok E.keccak p)

  pub accept_recv_packet-true :
      (p : Packet) (batch now : ℕ)
      → accept_recv_packet E c p batch now w ≡ ok (true, w')
      → (commitment_at E (receipt_path E p) w.store ≢ none) × (w' ≡ w)
  unfolding accept_recv_packet ◌>>=◌ get_commitment set_commitment set_commitment_mem
  accept_recv_packet-true p batch now done =
      ground (arith, done, packet_acknowledgement_path-ok E.keccak p)

  -- `markPacketAcknowledged` returns only where the packet is committed and not yet retired, and then
  -- the one change of the whole world, its events, chain parameters and foreign state included, is
  -- that the packet's commitment in the store holds the mark of a retired packet.
  pub mark_packet_acknowledged_lem :
      (p : Packet)
      → mark_packet_acknowledged E c p w ≡ ok (tt, w')
      → (commitment_at E (commitment_path E p) w.store ≡ some commitment_magic)
        × (w' ≡ record w {
          store = put_commitment E (commitment_path E p) commitment_magic_ack w.store;
        })
  unfolding mark_packet_acknowledged ◌>>=◌ get_commitment set_commitment set_commitment_mem
  mark_packet_acknowledged_lem p done = ground (
    arith,
    done,
    packet_commitment_path-ok E.keccak p,
    bytes_beq_iff (hash_or (commitment_at E (commitment_path E p) w.store)) commitment_magic,
  )

  -- `WriteAcknowledgement` returns only where the packet's receipt awaits an acknowledgement, and then
  -- the one change of the store is that the commitment of the acknowledgement replaces the receipt.
  pub write_acknowledgement_lem :
      (msg : _)
      → write_acknowledgement E c msg w ≡ ok (tt, w')
      → (commitment_at E (receipt_path E msg.packet) w.store ≡ some commitment_magic)
        × (w'.store
            ≡ put_commitment E
                (receipt_path E msg.packet)
                (Commitment.commit_acks E.keccak (msg.acknowledgement ∷ []))
                w.store)
  unfolding write_acknowledgement ◌>>=◌ get_commitment set_commitment set_commitment_mem
  write_acknowledgement_lem msg done = ground (
    arith,
    done,
    packet_acknowledgement_path-ok E.keccak msg.packet,
    bytes_beq_iff (hash_or (commitment_at E (receipt_path E msg.packet) w.store)) commitment_magic,
  )
