-- ===== src/Union/Core/Protocol/Commitments.antt =====
-- What every run of the protocol keeps of commitments: none disappears, and a retired packet stays
-- retired.
use gno_ibc.Prelude.{◌≡◌, ◌≢◌, Option, none, some, arith, sym, ◌∙◌}
use gno_ibc.Prelude.Map
use gno_ibc.Prelude.Map.{Map}
use gno_ibc.Prelude.Eq.{bytes_eq}
use gno_ibc.Prelude.Result.{ok}
use gno_ibc.Union.Types.{Packet}
use gno_ibc.Union.Commitment
use gno_ibc.Union.Commitment.{H256, commitment_magic, commitment_magic_ack}
use gno_ibc.Union.Commitment.Injective.{
  packet_hash, CollisionFree, packet_acknowledgement_path-ok, packets-ne-receipts,
  packet_hash-ne-batch, batch_packets_path_injective,
}
use gno_ibc.Union.Core.World.{Store, Env}
use gno_ibc.Union.Core.Protocol.{
  Step, Reach, here, next, other, create_connection, move_connection, create_channel, move_channel,
  send, retire, receive, acknowledge, batch_send, batch_acks,
}

-- Writing a key that is there keeps every key that is there.
pub insert-present :
    (k j : H256) (v : H256) (m : Map H256 H256)
    → Map.lookup j m ≢ none
    → Map.lookup j (Map.insert k v m) ≢ none
insert-present k j v m there gone = there (ground (arith, Map.lookup-insert k j v m, gone))

pub lookup-insert-other :
    (k j : H256) (v : H256) (m : Map H256 H256)
    → k ≢ j
    → Map.lookup j (Map.insert k v m) ≡ Map.lookup j m
lookup-insert-other k j v m apart =
    ground (arith, Map.lookup-insert k j v m, bytes_eq.beq_iff k j, apart)

pub lookup-insert-same :
    (k : H256) (v : H256) (m : Map H256 H256) → Map.lookup k (Map.insert k v m) ≡ some v
lookup-insert-same k v m = ground (arith, Map.lookup-insert k k v m, bytes_eq.beq_iff k k)

module _ {T F : Type 0} (E : Env T F) where
  -- Where a packet is committed, and where its receipt is.
  abbrev pub commitment_path : Packet → H256
  commitment_path p = Commitment.batch_packets_path E.keccak (packet_hash E.keccak p)

  abbrev pub receipt_path : Packet → H256
  receipt_path p = Commitment.batch_receipts_path E.keccak (packet_hash E.keccak p)

  abbrev pub commitment_at : H256 → Store T → Option H256
  commitment_at path s = Map.lookup path s.commitments

  Step-present :
      {s t : Store T} (path : H256)
      → Step E s t
      → commitment_at path s ≢ none
      → commitment_at path t ≢ none
  Step-present path (other same) there = rw same.commitments there
  Step-present path (create_connection n c e st) there = there
  Step-present path (move_connection id c c' e m) there = there
  Step-present path (create_channel n c port e st) there = there
  Step-present path (move_channel id e c' f m) there = there
  Step-present path (send p at e f) there = insert-present at path _ _ there
  Step-present path (retire p at e f) there = insert-present at path _ _ there
  Step-present path (receive p at e f) there = insert-present at path _ _ there
  Step-present path (acknowledge p at ack e f) there = insert-present at path _ _ there
  Step-present path (batch_send ps hash many few e) there = insert-present _ path _ _ there
  Step-present path (batch_acks ps acks hash many few len e) there = insert-present _ path _ _ there

  -- No commitment disappears.
  pub Reach-present :
      {s t : Store T} (path : H256)
      → Reach E s t
      → commitment_at path s ≢ none
      → commitment_at path t ≢ none
  Reach-present path here there = there
  Reach-present path (next r st) there = Step-present path st (Reach-present path r there)

  module _ (free : CollisionFree E.keccak) where
    -- A write of another path keeps what is at a packet's path.
    apart_from_receipt :
        (p q : Packet) (path : H256)
        → Commitment.packet_acknowledgement_path E.keccak q ≡ ok path
        → path ≢ commitment_path p
    apart_from_receipt p q path e same =
        packets-ne-receipts E.keccak free (packet_hash E.keccak p) (packet_hash E.keccak q)
          (ground (arith, e, same, packet_acknowledgement_path-ok E.keccak q))

    Step-retired :
        {s t : Store T} (p : Packet)
        → Step E s t
        → commitment_at (commitment_path p) s ≡ some commitment_magic_ack
        → commitment_at (commitment_path p) t ≡ some commitment_magic_ack
    Step-retired p (other same) done = rw same.commitments done
    Step-retired p (create_connection n c e st) done = done
    Step-retired p (move_connection id c c' e m) done = done
    Step-retired p (create_channel n c port e st) done = done
    Step-retired p (move_channel id e c' f m) done = done
    Step-retired {s} p (send q at e f) done = ground (
      arith,
      Map.lookup-insert at (commitment_path p) commitment_magic s.commitments,
      bytes_eq.beq_iff at (commitment_path p),
      done,
      f,
    )
    Step-retired {s} p (retire q at e f) done =
        ground
          (arith, Map.lookup-insert at (commitment_path p) commitment_magic_ack s.commitments, done)
    Step-retired p (receive q at e f) done =
        lookup-insert-other at _ _ _ (apart_from_receipt p q at e) ∙ done
    Step-retired p (acknowledge q at ack e f) done =
        lookup-insert-other at _ _ _ (apart_from_receipt p q at e) ∙ done
    Step-retired p (batch_send ps hash many few e) done =
        lookup-insert-other _ _ _ _ (λ same.
          packet_hash-ne-batch E.keccak free p ps hash (λ one. ground (arith, many, one)) few e
            (sym (batch_packets_path_injective E.keccak free _ _ same)))
        ∙ done
    Step-retired p (batch_acks ps acks hash many few len e) done =
        lookup-insert-other _ _ _ _ (λ same. packets-ne-receipts E.keccak free _ _ (sym same))
        ∙ done

    -- A retired packet stays retired.
    pub Reach-retired :
        {s t : Store T} (p : Packet)
        → Reach E s t
        → commitment_at (commitment_path p) s ≡ some commitment_magic_ack
        → commitment_at (commitment_path p) t ≡ some commitment_magic_ack
    Reach-retired p here done = done
    Reach-retired p (next r st) done = Step-retired p st (Reach-retired p r done)
