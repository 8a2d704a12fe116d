-- ===== src/Tools/TestClient/Read.antt =====
-- A reader of ABI tuples, independent of the tool's encoder, and what it reads.
use gno_ibc.Prelude.{
  ℕ, ◌+◌, ◌-◌, ◌*◌, ◌%◌, ◌^◌, ◌<◌, ◌≤◌, ◌≡◌, refl, ap, ◌∙◌, sym, Bool, true, false, List, [], ◌∷◌,
  ◌++◌, Bytes, length, length-append, take, drop, replicate, All, arith, if◌then◌else◌,
}
use mathlib.Core.List.{append_assoc, append-nil}
use gno_ibc.Encoding.Word.{put_uint64}
use gno_ibc.Tools.TestClient.{AbiValue, word, abi_bytes, abi_encode_loop, abi_encode}

-- The big-endian number of a word's bytes.
abbrev number : ℕ → Bytes → ℕ
number acc [] = acc
number acc (b ∷ bs) = number (acc * 256 + b) bs

pub read_word : Bytes → ℕ
read_word bz = number 0 (take 32 bz)

-- A slot of a tuple: its 32 bytes, or the bytes at the offset that it holds, after their length.
pub read_slot : Bytes → Bool → Bytes → Bytes
unfolding read_word
read_slot bz dynamic slot =
    if dynamic
    then take (read_word (drop (read_word slot) bz)) (drop 32 (drop (read_word slot) bz))
    else take 32 slot

pub read_slots : Bytes → List Bool → Bytes → List Bytes
read_slots bz [] slots = []
read_slots bz (dynamic ∷ others) slots =
    read_slot bz dynamic slots ∷ read_slots bz others (drop 32 slots)

-- A value that is encoded: a word, or bytes behind an offset.
pub data Item : Type 0 where
  fixed : Bytes → Item
  tailed : Bytes → Item

abbrev pub to_value : Item → AbiValue
to_value (fixed bz) = record { dynamic = false; payload = bz }
to_value (tailed bz) = record { dynamic = true; payload = abi_bytes bz }

abbrev pub to_values : List Item → List AbiValue
to_values [] = []
to_values (item ∷ items) = to_value item ∷ to_values items

abbrev pub contents : List Item → List Bytes
contents [] = []
contents (fixed bz ∷ items) = bz ∷ contents items
contents (tailed bz ∷ items) = bz ∷ contents items

abbrev pub kinds : List Item → List Bool
kinds [] = []
kinds (fixed bz ∷ items) = false ∷ kinds items
kinds (tailed bz ∷ items) = true ∷ kinds items

-- A word is 32 bytes.
abbrev pub IsItem : Item → Type 0
IsItem (fixed bz) = length bz ≡ 32
IsItem (tailed bz) = Unit

take-length : (xs ys : Bytes) → take (length xs) (xs ++ ys) ≡ xs
take-length [] ys = refl
take-length (x ∷ xs) ys = ap (λ rest. x ∷ rest) (take-length xs ys)

drop-length : (xs ys : Bytes) → drop (length xs) (xs ++ ys) ≡ ys
drop-length [] ys = refl
drop-length (x ∷ xs) ys = drop-length xs ys

pub read_word-word : (n : ℕ) (rest : Bytes) → n < 2 ^ 64 → read_word (word n ++ rest) ≡ n
unfolding read_word word put_uint64
read_word-word n rest small = omega arith

-- What the loop has still to write: the slots, and the tails behind an offset.
heads : ℕ → List Item → Bytes
heads offset [] = []
heads offset (fixed bz ∷ items) = bz ++ heads offset items
heads offset (tailed bz ∷ items) = word offset ++ heads (offset + length (abi_bytes bz)) items

tails : List Item → Bytes
tails [] = []
tails (fixed bz ∷ items) = tails items
tails (tailed bz ∷ items) = abi_bytes bz ++ tails items

abi_encode_loop_lem :
    (head_len : ℕ) (head tail : Bytes) (items : List Item)
    → abi_encode_loop head_len head tail (to_values items)
      ≡ (head ++ heads (head_len + length tail) items) ++ (tail ++ tails items)
unfolding abi_encode_loop heads tails
abi_encode_loop_lem head_len head tail [] = rw (append-nil head, append-nil tail) refl
abi_encode_loop_lem head_len head tail (fixed bz ∷ items) =
    abi_encode_loop_lem head_len (head ++ bz) tail items
    ∙ ap (λ h. h ++ (tail ++ tails items))
        (append_assoc head bz (heads (head_len + length tail) items))
abi_encode_loop_lem head_len head tail (tailed bz ∷ items) =
    let offset = head_len + length tail in
    let moved : head_len + length (tail ++ abi_bytes bz) ≡ offset + length (abi_bytes bz) =
      omega (arith, length-append {0} tail (abi_bytes bz)) in
    abi_encode_loop_lem head_len (head ++ word offset) (tail ++ abi_bytes bz) items
    ∙ rw
        (
          moved,
          append_assoc head (word offset) (heads (offset + length (abi_bytes bz)) items),
          append_assoc tail (abi_bytes bz) (tails items),
        )
        refl

pub length-word : (n : ℕ) → length (word n) ≡ 32
unfolding word put_uint64
length-word n = refl

length-abi_bytes : (bz : Bytes) → length bz ≤ length (abi_bytes bz)
unfolding abi_bytes
length-abi_bytes bz =
    let padding : Bytes = replicate ((32 - length bz % 32) % 32) 0 in
    omega
      (arith, length-append {0} (word (length bz)) (bz ++ padding), length-append {0} bz padding)

take-exactly : (n : ℕ) (xs ys : Bytes) → length xs ≡ n → take n (xs ++ ys) ≡ xs
take-exactly n xs ys same = rw (← same) (take-length xs ys)

drop-exactly : (n : ℕ) (xs ys : Bytes) → length xs ≡ n → drop n (xs ++ ys) ≡ ys
drop-exactly n xs ys same = rw (← same) (drop-length xs ys)

-- The bytes behind an offset are read by their length.
read_slot-tailed :
    (front bz after slots : Bytes)
    → length front < 2 ^ 64
    → length bz < 2 ^ 64
    → read_slot (front ++ (abi_bytes bz ++ after)) true (word (length front) ++ slots) ≡ bz
unfolding read_slot abi_bytes
read_slot-tailed front bz after slots small small' =
    let padding : Bytes = replicate ((32 - length bz % 32) % 32) 0 in
    rw
      (
        read_word-word (length front) slots small,
        drop-length front ((word (length bz) ++ (bz ++ padding)) ++ after),
        append_assoc (word (length bz)) (bz ++ padding) after,
        read_word-word (length bz) ((bz ++ padding) ++ after) small',
        drop-exactly 32 (word (length bz)) ((bz ++ padding) ++ after) (length-word (length bz)),
        append_assoc bz padding after,
      )
      (take-length bz (padding ++ after))

read_slot-fixed :
    (bz word slots : Bytes) → length word ≡ 32 → read_slot bz false (word ++ slots) ≡ word
unfolding read_slot
read_slot-fixed bz word slots wide = take-exactly 32 word slots wide

read_slots-heads :
    (items : List Item) (bz front rest : Bytes)
    → All IsItem items
    → bz ≡ front ++ tails items
    → length bz < 2 ^ 64
    → read_slots bz (kinds items) (heads (length front) items ++ rest) ≡ contents items
unfolding read_slots heads tails
read_slots-heads [] bz front rest all laid small = refl
read_slots-heads (fixed word ∷ items) bz front rest (wide, all) laid small =
    let slots = heads (length front) items ++ rest in
    rw
      (
        append_assoc word (heads (length front) items) rest,
        read_slot-fixed bz word slots wide,
        drop-exactly 32 word slots wide,
      )
      (ap (λ others. word ∷ others) (read_slots-heads items bz front rest all laid small))
read_slots-heads (tailed payload ∷ items) bz front rest (_, all) laid small =
    let next = front ++ abi_bytes payload in
    let moved : length front + length (abi_bytes payload) ≡ length next =
      omega (arith, length-append {0} front (abi_bytes payload)) in
    let slots = heads (length next) items ++ rest in
    let laid' : bz ≡ next ++ tails items =
      laid ∙ sym (append_assoc front (abi_bytes payload) (tails items)) in
    let total = ap (length {0}) laid in
    let parts = length-append front (abi_bytes payload ++ tails items) in
    let parts' = length-append (abi_bytes payload) (tails items) in
    let here : read_slot bz true (word (length front) ++ slots) ≡ payload = rw laid (
      read_slot-tailed front payload (tails items) slots (omega arith)
        (omega (arith, length-abi_bytes payload))) in
    rw
      (
        moved,
        append_assoc (word (length front)) (heads (length next) items) rest,
        here,
        drop-exactly 32 (word (length front)) slots (length-word (length front)),
      )
      (ap (λ others. payload ∷ others) (read_slots-heads items bz next rest all laid' small))

length-heads :
    (offset : ℕ) (items : List Item)
    → All IsItem items
    → length (heads offset items) ≡ length (to_values items) * 32
unfolding heads
length-heads offset [] all = omega arith
length-heads offset (fixed bz ∷ items) (wide, all) =
    omega (arith, length-append {0} bz (heads offset items), length-heads offset items all)
length-heads offset (tailed bz ∷ items) (_, all) =
    let next = offset + length (abi_bytes bz) in
    omega (
      arith,
      length-append {0} (word offset) (heads next items),
      length-word offset,
      length-heads next items all,
    )

-- A tuple of words and byte strings, whose encoding is shorter than 2 ^ 64, is read back from what
-- `abiEncode` makes of it.
pub read_slots-abi_encode :
    (items : List Item)
    → All IsItem items
    → length (abi_encode (to_values items)) < 2 ^ 64
    → read_slots (abi_encode (to_values items)) (kinds items) (abi_encode (to_values items))
      ≡ contents items
unfolding abi_encode
read_slots-abi_encode items all small =
    let head_len = length (to_values items) * 32 in
    let front = heads (head_len + 0) items in
    let laid : abi_encode_loop head_len [] [] (to_values items) ≡ front ++ tails items =
      abi_encode_loop_lem head_len [] [] items in
    let width : head_len + 0 ≡ length front =
      omega (arith, length-heads (head_len + 0) items all) in
    let again : heads (length front) items ≡ front = ap (λ n. heads n items) (sym width) in
    ap (read_slots _ (kinds items)) (laid ∙ ap (λ slots. slots ++ tails items) (sym again))
    ∙ read_slots-heads items _ front (tails items) all laid small
