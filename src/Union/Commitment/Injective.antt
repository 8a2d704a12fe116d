-- ===== src/Union/Commitment/Injective.antt =====
-- Commitment paths are told apart, as far as the hash tells its inputs apart.
use gno_ibc.Prelude.{
  ℕ, ◌+◌, ◌*◌, ◌^◌, ◌<◌, ◌≡◌, ◌≢◌, refl, List, [], ◌∷◌, ◌++◌, Bytes, length, replicate, arith,
  append_split, ◌∙◌, sym,
}
use gno_ibc.Prelude.Result.{ok, >>=-eq-ok}
use gno_ibc.Encoding.Word.{u64_word, u64_word_split}
use gno_ibc.Encoding.Abi.{pad_size}
use gno_ibc.Union.Types.{Packet}
use mathlib.Core.List.{append_assoc}
use gno_ibc.Union.Commitment.{
  H256, encode_packet, encode_packet_array, commit_packets, wrap_abi_encode, commit_packet,
  batch_packets_path, batch_receipts_path, packet_commitment_path, packet_acknowledgement_path,
  slot, packet_array_loop,
}

-- The bytes that `EncodeABI` gives a packet.
abbrev pub packet_bytes : Packet → Bytes
packet_bytes p =
    u64_word p.source_channel_id
    ++ (u64_word p.destination_channel_id
        ++ (u64_word 160
            ++ (u64_word 0
                ++ (u64_word p.timeout_timestamp
                    ++ (u64_word (length p.payload)
                        ++ (p.payload ++ replicate (pad_size (length p.payload)) 0))))))

encode_packet-ok : (p : Packet) → encode_packet p ≡ ok (packet_bytes p)
unfolding encode_packet u64_word
encode_packet-ok p = refl

-- Lengths and numbers that the source's types bound.
pub record IsWellSized (p : Packet) : Type 0 where
  pub source : p.source_channel_id < 2 ^ 32
  pub destination : p.destination_channel_id < 2 ^ 32
  pub timeout : p.timeout_timestamp < 2 ^ 64
  pub size : length p.payload < 2 ^ 63

-- Equal in every field but the timeout height, which no commitment holds.
pub record SamePacket (p q : Packet) : Type 0 where
  pub source : p.source_channel_id ≡ q.source_channel_id
  pub destination : p.destination_channel_id ≡ q.destination_channel_id
  pub payload : p.payload ≡ q.payload
  pub timeout : p.timeout_timestamp ≡ q.timeout_timestamp

padded_injective :
    (xs ys : Bytes)
    → length xs ≡ length ys
    → xs ++ replicate (pad_size (length xs)) 0 ≡ ys ++ replicate (pad_size (length ys)) 0
    → xs ≡ ys
padded_injective xs ys l e = (append_split xs ys _ _ l e).0

packet_bytes_injective :
    (p q : Packet)
    → IsWellSized p
    → IsWellSized q
    → packet_bytes p ≡ packet_bytes q
    → SamePacket p q
packet_bytes_injective p q vp vq e0 =
    let (src, e1) = u64_word_split _ _ _ _ (omega arith) (omega arith) e0 in
    let (dst, e2) = u64_word_split _ _ _ _ (omega arith) (omega arith) e1 in
    let (_, e3) = u64_word_split 160 160 _ _ (omega arith) (omega arith) e2 in
    let (_, e4) = u64_word_split 0 0 _ _ (omega arith) (omega arith) e3 in
    let (ts, e5) = u64_word_split _ _ _ _ (omega arith) (omega arith) e4 in
    let (len, e6) = u64_word_split _ _ _ _ (omega arith) (omega arith) e5 in
    record {
      source = src;
      destination = dst;
      payload = padded_injective p.payload q.payload len e6;
      timeout = ts;
    }

module _ (keccak : Bytes → H256) where
  -- The commitment hash of one packet.
  unfoldable pub packet_hash : Packet → H256
  packet_hash p = keccak (u64_word 32 ++ (u64_word 1 ++ (u64_word 32 ++ packet_bytes p)))

  pub commit_packet-ok : (p : Packet) → commit_packet keccak p ≡ ok (packet_hash p)
  unfolding commit_packets encode_packet_array packet_hash wrap_abi_encode encode_packet u64_word
  commit_packet-ok p = refl

  pub packet_commitment_path-ok :
      (p : Packet)
      → packet_commitment_path keccak p ≡ ok (batch_packets_path keccak (packet_hash p))
  unfolding packet_commitment_path
  packet_commitment_path-ok p = rw (commit_packet-ok p)

  pub packet_acknowledgement_path-ok :
      (p : Packet)
      → packet_acknowledgement_path keccak p ≡ ok (batch_receipts_path keccak (packet_hash p))
  unfolding packet_acknowledgement_path
  packet_acknowledgement_path-ok p = rw (commit_packet-ok p)

-- What the paths need of the hash: no two inputs that the program hashes collide.
abbrev pub CollisionFree : (Bytes → H256) → Type 0
CollisionFree keccak = (xs ys : Bytes) → keccak xs ≡ keccak ys → xs ≡ ys

module _ (keccak : Bytes → H256) (free : CollisionFree keccak) where
  packet_hash_injective :
      (p q : Packet)
      → IsWellSized p
      → IsWellSized q
      → packet_hash keccak p ≡ packet_hash keccak q
      → SamePacket p q
  unfolding packet_hash
  packet_hash_injective p q vp vq e =
      packet_bytes_injective p q vp vq
        (u64_word_split 32 32 _ _ (omega arith) (omega arith)
          (u64_word_split 1 1 _ _ (omega arith) (omega arith)
            (u64_word_split 32 32 _ _ (omega arith) (omega arith) (free _ _ e)).1).1).1

  -- Where the hash has no collision: packets whose fields are in the ranges of their types, and whose
  -- payloads are shorter than 2 ^ 63, have one `CommitPacket` only if they agree in both channels, in
  -- the payload and in the timeout timestamp.
  pub commit_packet_injective :
      (p q : Packet)
      → IsWellSized p
      → IsWellSized q
      → commit_packet keccak p ≡ commit_packet keccak q
      → SamePacket p q
  commit_packet_injective p q vp vq same =
      packet_hash_injective p q vp vq
        (cc (commit_packet-ok keccak p, commit_packet-ok keccak q, same))

  pub batch_packets_path_injective :
      (a b : H256) → batch_packets_path keccak a ≡ batch_packets_path keccak b → a ≡ b
  unfolding batch_packets_path
  batch_packets_path_injective a b e = (append_split (slot 4) (slot 4) a b refl (free _ _ e)).1

  pub batch_receipts_path_injective :
      (a b : H256) → batch_receipts_path keccak a ≡ batch_receipts_path keccak b → a ≡ b
  unfolding batch_receipts_path
  batch_receipts_path_injective a b e = (append_split (slot 5) (slot 5) a b refl (free _ _ e)).1

  -- Where the hash has no collision: no path of sent packets is a path of receipts.
  pub packets-ne-receipts :
      (a b : H256) → batch_packets_path keccak a ≢ batch_receipts_path keccak b
  unfolding batch_packets_path batch_receipts_path
  packets-ne-receipts a b e = ground (arith, free _ _ e)

-- The packet count leads the encoding of a batch.
loop_prefix :
    (n : ℕ) (out tail : Bytes) (ps : List Packet) (r : Bytes)
    → packet_array_loop n out tail ps ≡ ok r
    → (rest : Bytes) × (r ≡ out ++ rest)
unfolding packet_array_loop
loop_prefix n out tail [] r e = (tail, ground (arith, e))
loop_prefix n out tail (p ∷ ps) r e =
    let (rest, q) =
      loop_prefix n (out ++ u64_word (n + length tail)) (tail ++ packet_bytes p) ps r
        (ground (arith, e, encode_packet-ok p)) in
    (u64_word (n + length tail) ++ rest, q ∙ append_assoc out (u64_word (n + length tail)) rest)

batch_prefix :
    (keccak : Bytes → H256) (ps : List Packet) (h : H256)
    → commit_packets keccak ps ≡ ok h
    → (rest : Bytes) × (h ≡ keccak (u64_word 32 ++ (u64_word (length ps) ++ rest)))
unfolding commit_packets encode_packet_array wrap_abi_encode
batch_prefix keccak ps h done =
    let (r, encoded, hashed) = >>=-eq-ok (encode_packet_array ps) _ done in
    let (rest, e) = loop_prefix (length ps * 32) (u64_word (length ps)) [] ps r encoded in
    (rest, rw (← e) (ground (arith, hashed)))

-- Where the hash has no collision: the commitment hash of one packet is the hash of no list of
-- packets whose length is not one and is below 2 ^ 64.
pub packet_hash-ne-batch :
    (keccak : Bytes → H256)
    → CollisionFree keccak
    → (p : Packet) (ps : List Packet) (h : H256) → length ps ≢ 1
    → length ps < 2 ^ 64
    → commit_packets keccak ps ≡ ok h
    → packet_hash keccak p ≢ h
unfolding packet_hash
packet_hash-ne-batch keccak free p ps h many small done same =
    let (rest, e) = batch_prefix keccak ps h done in
    let inner = (u64_word_split 32 32 _ _ (omega arith) (omega arith) (free _ _ (same ∙ e))).1 in
    many (sym (u64_word_split 1 (length ps) _ _ (omega arith) small inner).0)
