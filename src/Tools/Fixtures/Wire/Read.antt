-- ===== src/Tools/Fixtures/Wire/Read.antt =====
-- A reader of the protobuf wire format, independent of the encoder, and that it reads every message
-- of tools/cometbls-fixtures/main.go back.
use gno_ibc.Prelude.{
  ℕ, zero, suc, ◌+◌, ◌-◌, ◌*◌, ◌/◌, ◌%◌, ◌<◌, ◌≤◌, ◌≡◌, refl, ap, Option, none, some, List, [], ◌∷◌,
  ◌++◌, Bytes, length, length-append, take, drop, ltb, leb, eqb, arith, if◌then◌else◌, ◌&&◌,
  Bool-cases, inl, inr,
}
use mathlib.Core.List.{append_assoc}
use gno_ibc.Tools.Fixtures.Wire.{pb_varint, pb_tag, pb_bytes_field, pb_varint_field, uvarint_rounds}

-- A field and what it holds.
pub data Entry : Type 0 where
  number : ℕ → ℕ → Entry
  chunk : ℕ → Bytes → Entry

-- A number and the bytes that follow it.
unfoldable pub read_varint : Bytes → Option (ℕ × Bytes)
read_varint [] = none
read_varint (b ∷ rest) =
    let more = read_varint rest in
    if ltb b 128
    then some (b, rest)
    else elim more [ none ↦ none | some (v, rest') ↦ some (v * 128 + (b - 128), rest') ]

-- The value after a tag, by its wire type.
unfoldable pub read_value : ℕ → ℕ → Bytes → Option (Entry × Bytes)
unfolding read_varint
read_value field_num wire_type bz = elim (read_varint bz) [
  | none ↦ none
  | some (v, rest) ↦
      if eqb wire_type 0
      then some (number field_num v, rest)
      else if eqb wire_type 2 && leb v (length rest)
      then some (chunk field_num (take v rest), drop v rest)
      else none
]

-- Fields until the bytes end; a field has at least one byte.
unfoldable pub read_fields : ℕ → Bytes → Option (List Entry)
unfolding read_value
read_fields fuel [] = some []
read_fields zero (b ∷ bs) = none
read_fields (suc fuel) (b ∷ bs) = elim (read_varint (b ∷ bs)) [
  | none ↦ none
  | some (tag, rest) ↦ elim (read_value (tag / 8) (tag % 8) rest) [
    | none ↦ none
    | some (entry, rest') ↦ elim (read_fields fuel rest') [
      | none ↦ none
      | some entries ↦ some (entry ∷ entries)
    ]
  ]
]

unfoldable pub read_message : Bytes → Option (List Entry)
unfolding read_fields
read_message bz = read_fields (length bz) bz

-- What the encoder writes for a field, and for several.
abbrev pub write_entry : Entry → Bytes
write_entry (number field_num v) = pb_varint_field field_num v
write_entry (chunk field_num bz) = pb_bytes_field field_num bz

abbrev pub write_entries : List Entry → Bytes
write_entries [] = []
write_entries (entry ∷ entries) = write_entry entry ++ write_entries entries

rounds_read :
    (rounds v : ℕ) (rest : Bytes)
    → v ≤ rounds
    → read_varint (uvarint_rounds rounds v ++ rest) ≡ some (v, rest)
unfolding read_varint uvarint_rounds
rounds_read zero v rest h = ground arith
rounds_read (suc rounds) v rest h = elim (Bool-cases (ltb v 128)) [
  | inl last ↦ rw last (rw last refl)
  | inr more ↦ ground (arith, more, rounds_read rounds (v / 128) rest (ground (arith, more)))
]

-- A varint is read back, whatever follows.
pub read_varint-pb_varint :
    (v : ℕ) (rest : Bytes) → read_varint (pb_varint v ++ rest) ≡ some (v, rest)
unfolding pb_varint
read_varint-pb_varint v rest = rounds_read v v rest (omega arith)

take-length : (xs ys : Bytes) → take (length xs) (xs ++ ys) ≡ xs
take-length [] ys = refl
take-length (x ∷ xs) ys = ap (λ rest. x ∷ rest) (take-length xs ys)

drop-length : (xs ys : Bytes) → drop (length xs) (xs ++ ys) ≡ ys
drop-length [] ys = refl
drop-length (x ∷ xs) ys = drop-length xs ys

-- Tags below a wire type of 8 split again.
read_value-number :
    (field_num v : ℕ) (rest : Bytes)
    → read_value field_num 0 (pb_varint v ++ rest) ≡ some (number field_num v, rest)
unfolding read_value
read_value-number field_num v rest = ground (arith, read_varint-pb_varint v rest)

read_value-chunk :
    (field_num : ℕ) (bz rest : Bytes)
    → read_value field_num 2 (pb_varint (length bz) ++ (bz ++ rest))
      ≡ some (chunk field_num bz, rest)
unfolding read_value
read_value-chunk field_num bz rest = ground (
  arith,
  read_varint-pb_varint (length bz) (bz ++ rest),
  length-append bz rest,
  take-length bz rest,
  drop-length bz rest,
)

uvarint_rounds_nonempty : (rounds v : ℕ) → 0 < length (uvarint_rounds rounds v)
unfolding uvarint_rounds
uvarint_rounds_nonempty zero v = omega arith
uvarint_rounds_nonempty (suc rounds) v = ground arith

write_entry_nonempty : (entry : Entry) → 0 < length (write_entry entry)
unfolding pb_bytes_field pb_varint_field pb_tag pb_varint
write_entry_nonempty (number field_num v) = ground (
  arith,
  length-append (uvarint_rounds (field_num * 8 + 0) (field_num * 8 + 0)) (uvarint_rounds v v),
  uvarint_rounds_nonempty (field_num * 8 + 0) (field_num * 8 + 0),
)
write_entry_nonempty (chunk field_num bz) = ground (
  arith,
  length-append (uvarint_rounds (field_num * 8 + 2) (field_num * 8 + 2))
      (uvarint_rounds (length bz) (length bz) ++ bz),
  uvarint_rounds_nonempty (field_num * 8 + 2) (field_num * 8 + 2),
)

read_varint-nil : {r : ℕ × Bytes} → read_varint [] ≡ some r → ⊥
unfolding read_varint
read_varint-nil e = cc

-- One field is read, and the rest is left to the following rounds.
read_fields-field :
    (fuel : ℕ) (bz : Bytes) {tag : ℕ} {value : Bytes} {entry : Entry} {rest : Bytes}
    {entries : List Entry}
    → read_varint bz ≡ some (tag, value)
    → read_value (tag / 8) (tag % 8) value ≡ some (entry, rest)
    → read_fields fuel rest ≡ some entries
    → read_fields (suc fuel) bz ≡ some (entry ∷ entries)
unfolding read_fields
read_fields-field fuel [] tagged valued others = absurd (read_varint-nil tagged)
read_fields-field fuel (b ∷ bs) tagged valued others = ground (arith)

read_fields-tagged :
    (fuel field_num wire_type : ℕ) (value : Bytes) {entry : Entry} {rest : Bytes}
    {entries : List Entry}
    → wire_type < 8
    → read_value field_num wire_type value ≡ some (entry, rest)
    → read_fields fuel rest ≡ some entries
    → read_fields (suc fuel) (pb_tag field_num wire_type ++ value) ≡ some (entry ∷ entries)
unfolding pb_tag
read_fields-tagged fuel field_num wire_type value {entry} {rest} small valued others =
    let tag = field_num * 8 + wire_type in
    let number_back : tag / 8 ≡ field_num = omega arith in
    let type_back : tag % 8 ≡ wire_type = omega arith in
    let valued' : read_value (tag / 8) (tag % 8) value ≡ some (entry, rest) =
      rw (number_back, type_back) valued in
    read_fields-field fuel (pb_varint tag ++ value) (read_varint-pb_varint tag value) valued' others

read_fields-write_entries :
    (fuel : ℕ) (entries : List Entry)
    → length entries ≤ fuel
    → read_fields fuel (write_entries entries) ≡ some entries
unfolding read_fields pb_varint_field pb_bytes_field
read_fields-write_entries fuel [] h = ground arith
read_fields-write_entries zero (entry ∷ entries) h = absurd (omega arith)
read_fields-write_entries (suc fuel) (number field_num v ∷ entries) h =
    rw (append_assoc (pb_tag field_num 0) (pb_varint v) (write_entries entries)) (
      read_fields-tagged fuel field_num 0 (pb_varint v ++ write_entries entries) (omega arith)
        (read_value-number field_num v (write_entries entries))
        (read_fields-write_entries fuel entries (omega arith)))
read_fields-write_entries (suc fuel) (chunk field_num bz ∷ entries) h =
    rw
      (
        append_assoc (pb_tag field_num 2) (pb_varint (length bz) ++ bz) (write_entries entries),
        append_assoc (pb_varint (length bz)) bz (write_entries entries),
      )
      (read_fields-tagged fuel field_num 2 (pb_varint (length bz) ++ (bz ++ write_entries entries))
        (omega arith) (read_value-chunk field_num bz (write_entries entries))
        (read_fields-write_entries fuel entries (omega arith)))

length-write_entries : (entries : List Entry) → length entries ≤ length (write_entries entries)
length-write_entries [] = omega arith
length-write_entries (entry ∷ entries) = omega (
  arith,
  length-append {0} (write_entry entry) (write_entries entries),
  write_entry_nonempty entry,
  length-write_entries entries,
)

-- Every message is read back as the fields that were written.
pub read_message-write_entries :
    (entries : List Entry) → read_message (write_entries entries) ≡ some entries
unfolding read_message
read_message-write_entries entries =
    read_fields-write_entries _ entries (length-write_entries entries)
