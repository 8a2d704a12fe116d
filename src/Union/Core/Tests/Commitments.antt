-- ===== src/Union/Core/Tests/Commitments.antt =====
-- The theorems on commitment hashes and paths at concrete inputs.
use gno_ibc.Prelude.{ℕ, ◌≡◌, ◌≢◌, refl, Bytes, length, arith, [], ◌∷◌}
use gno_ibc.Prelude.Eq.{bytes_eq}
use gno_ibc.Prelude.Result.{Result, ok, err}
use gno_ibc.Encoding.Abi.{AbiError}
use gno_ibc.Union.Commitment.{
  commit_packet, commit_packets, encode_packet_array, encode_packet, wrap_abi_encode,
  batch_packets_path, batch_receipts_path,
}
use gno_ibc.Union.Commitment.Injective.{
  packet_hash, SamePacket, IsWellSized, commit_packet_injective, packet_hash-ne-batch,
  packets-ne-receipts,
}
use gno_ibc.Union.Core.Tests.{no_hash, no_hash-CollisionFree, packet, inbound}

packet-IsWellSized : (height : ℕ) → IsWellSized (record packet { timeout_height = height })
packet-IsWellSized height = record {
  source = omega arith;
  destination = omega arith;
  timeout = omega arith;
  size = omega arith;
}

same_commitment :
    commit_packet no_hash packet ≡ commit_packet no_hash (record packet { timeout_height = 5 })
unfolding commit_packets encode_packet_array encode_packet
same_commitment = refl

commit_packet_injective_example : SamePacket packet (record packet { timeout_height = 5 })
commit_packet_injective_example =
    commit_packet_injective no_hash no_hash-CollisionFree packet
      (record packet { timeout_height = 5 }) (packet-IsWellSized 0) (packet-IsWellSized 5)
      same_commitment

abbrev hash_of : Result AbiError Bytes → Bytes
hash_of (ok h) = h
hash_of (err e) = []

two_encoded :
    commit_packets no_hash (packet ∷ inbound ∷ [])
    ≡ ok (hash_of (commit_packets no_hash (packet ∷ inbound ∷ [])))
unfolding commit_packets encode_packet_array encode_packet wrap_abi_encode
two_encoded = refl

packet_hash-ne-batch_example :
    packet_hash no_hash packet ≢ hash_of (commit_packets no_hash (packet ∷ inbound ∷ []))
packet_hash-ne-batch_example =
    packet_hash-ne-batch no_hash no_hash-CollisionFree packet (packet ∷ inbound ∷ [])
      (hash_of (commit_packets no_hash (packet ∷ inbound ∷ []))) two_is_many (omega arith)
      two_encoded
  where
    two_is_many : length (packet ∷ inbound ∷ []) ≢ 1
    two_is_many same = omega arith

packets-ne-receipts_example :
    batch_packets_path no_hash (packet_hash no_hash packet)
    ≢ batch_receipts_path no_hash (packet_hash no_hash packet)
packets-ne-receipts_example =
    packets-ne-receipts no_hash no_hash-CollisionFree (packet_hash no_hash packet)
      (packet_hash no_hash packet)
