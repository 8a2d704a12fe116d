-- ===== src/Tools/TestClient/Tuples.antt =====
-- The header and the channel that the tool encodes, read back.
use gno_ibc.Prelude.{
  ◌^◌, ◌<◌, ◌≡◌, refl, sym, ◌⊎◌, Bool-cases, inl, inr, List, [], ◌∷◌, Bytes, length, eqb, All,
  arith,
}
use gno_ibc.Prelude.Result.{Result, ok, err, ◌>>=◌}
use gno_ibc.Tools.TestClient.{
  Panic, expected_32_bytes, Header, Channel, word, bytes32, encode_header, encode_channel,
  abi_encode, abi_string,
}
use gno_ibc.Tools.TestClient.Read.{
  Item, fixed, tailed, IsItem, read_slots, to_values, kinds, contents, length-word,
  read_slots-abi_encode,
}

-- `bytes32` hands on what has 32 bytes.
bytes32-cases :
    (bz : Bytes) → ((bytes32 bz ≡ ok bz) × (length bz ≡ 32)) ⊎ ((e : Panic) × (bytes32 bz ≡ err e))
unfolding bytes32
bytes32-cases bz = elim (Bool-cases (eqb (length bz) 32)) [
  | inl wide ↦ inl (rw wide refl, ground (arith, wide))
  | inr other ↦ inr (expected_32_bytes (length bz), rw other refl)
]

err_ne_ok : {e : Panic} {bz : Bytes} → ◌≡◌ {A = Result Panic Bytes} (err e) (ok bz) → ⊥
err_ne_ok same = cc

bytes32-eq-ok :
    (bz : Bytes) (next : Bytes → Result Panic Bytes) {last : Bytes}
    → (bytes32 bz >>= next) ≡ ok last
    → (length bz ≡ 32) × (next bz ≡ ok last)
bytes32-eq-ok bz next done = elim (bytes32-cases bz) [
  | inl (handed, wide) ↦ (wide, rw (handed, ◌>>=◌) at done)
  | inr (e, refused) ↦ absurd (err_ne_ok (rw (refused, ◌>>=◌) at done))
]

ok_injective : {a b : Bytes} → ◌≡◌ {A = Result Panic Bytes} (ok a) (ok b) → a ≡ b
ok_injective e = cc

-- The slots of a header, and of a channel.
abbrev pub header_items : Header → List Item
header_items h =
    fixed (word h.height)
    ∷ fixed (word h.time_seconds)
    ∷ fixed (word h.time_nanos)
    ∷ fixed h.validators_hash
    ∷ fixed h.next_validators_hash
    ∷ fixed h.app_hash
    ∷ fixed (word h.trusted_height)
    ∷ tailed h.zkp
    ∷ []

abbrev pub channel_items : Channel → List Item
channel_items c =
    fixed (word c.state)
    ∷ fixed (word c.connection_id)
    ∷ fixed (word c.counterparty_channel_id)
    ∷ tailed c.counterparty_port_id
    ∷ tailed c.version
    ∷ []

encode_header-eq-ok :
    (h : Header) {bz : Bytes}
    → encode_header h ≡ ok bz
    → (bz ≡ abi_encode (to_values (header_items h)))
      × (length h.validators_hash ≡ 32)
      × (length h.next_validators_hash ≡ 32)
      × (length h.app_hash ≡ 32)
unfolding encode_header
encode_header-eq-ok h done =
    let (wide, rest) = bytes32-eq-ok h.validators_hash _ done in
    let (wide', rest') = bytes32-eq-ok h.next_validators_hash _ rest in
    let (wide'', last) = bytes32-eq-ok h.app_hash _ rest' in
    (sym (ok_injective last), wide, wide', wide'')

-- A header that is encoded in fewer than 2 ^ 64 bytes has hashes of 32 bytes, and its eight fields
-- are read back from the encoding.
pub encode_header-read :
    (h : Header) {bz : Bytes}
    → encode_header h ≡ ok bz
    → length bz < 2 ^ 64
    → (read_slots bz (kinds (header_items h)) bz ≡ contents (header_items h))
      × (length h.validators_hash ≡ 32)
      × (length h.next_validators_hash ≡ 32)
      × (length h.app_hash ≡ 32)
encode_header-read h {bz} done small =
    let (same, wide, wide', wide'') = encode_header-eq-ok h done in
    let words : All IsItem (header_items h) = (
      length-word h.height,
      (
        length-word h.time_seconds,
        (
          length-word h.time_nanos,
          (wide, (wide', (wide'', (length-word h.trusted_height, (tt, tt))))),
        ),
      ),
    ) in
    (rw same (read_slots-abi_encode (header_items h) words (rw same at small)), wide, wide', wide'')

-- The five fields of a channel are read back from its encoding, of fewer than 2 ^ 64 bytes.
pub encode_channel-read :
    (c : Channel)
    → length (encode_channel c) < 2 ^ 64
    → read_slots (encode_channel c) (kinds (channel_items c)) (encode_channel c)
      ≡ contents (channel_items c)
unfolding encode_channel abi_string
encode_channel-read c small =
    read_slots-abi_encode (channel_items c)
      (
        length-word c.state,
        (length-word c.connection_id, (length-word c.counterparty_channel_id, (tt, (tt, tt)))),
      )
      small
