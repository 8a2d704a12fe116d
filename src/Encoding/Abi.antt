-- ===== src/Encoding/Abi.antt =====
-- gno.land/p/onbloc/encoding/abi: types.gno and encode.gno. A schema's fields and a tuple's values are
-- lists; a nil `Sub` or `Elem` has a constructor of its own, and so has each dynamic type of a value.
use gno_ibc.Prelude.{
  ℕ, ◌+◌, ◌-◌, ◌*◌, ◌%◌, ◌≡◌, refl, Bool, true, false, ◌||◌, [], ◌∷◌, ◌++◌, Bytes, length,
  replicate, eqb, if◌then◌else◌,
}
use gno_ibc.Prelude.Result.{Result, ok, err, ◌>>=◌}
use gno_ibc.Encoding.Word.{u64_word, put_uint64}

pub data AbiError : Type 0 where
  unsupported_type invalid_schema invalid_value : AbiError

mutual
  pub data Field : Type 0 where
    uint8 uint32 uint64 uint256 bytes32 bytes string bool addr : Field
    struct : Fields → Field
    array : Field → Field
    struct_nil array_nil other : Field

  pub data Fields : Type 0 where
    end : Fields
    field : Field → Fields → Fields

mutual
  -- The dynamic types that `encodeValue` asserts; a `*u256.Uint` is its four limbs, lowest first.
  pub data Value : Type 0 where
    v_uint8 v_uint32 v_uint64 : ℕ → Value
    v_uint256 : ℕ → ℕ → ℕ → ℕ → Value
    v_bytes32 v_bytes v_string : Bytes → Value
    v_bool : Bool → Value
    v_list : Values → Value
    v_other : Value

  pub data Values : Type 0 where
    none_left : Values
    value : Value → Values → Values

abbrev word_size : ℕ
word_size = 32

-- `isDynamic`
unfoldable mutual
  pub is_dynamic : Field → Bool
  is_dynamic bytes = true
  is_dynamic string = true
  is_dynamic (array e) = true
  is_dynamic array_nil = true
  is_dynamic struct_nil = true
  is_dynamic (struct fs) = any_dynamic fs
  is_dynamic _ = false

  any_dynamic : Fields → Bool
  any_dynamic end = false
  any_dynamic (field f fs) = is_dynamic f || any_dynamic fs

-- `staticHeadSize`
unfoldable mutual
  static_head_size : Field → Result AbiError ℕ
  static_head_size (struct fs) = if any_dynamic fs then ok word_size else sum_head_sizes fs
  static_head_size _ = ok word_size

  sum_head_sizes : Fields → Result AbiError ℕ
  sum_head_sizes end = ok 0
  sum_head_sizes (field f fs) = static_head_size f >>= λ n. sum_head_sizes fs >>= λ m. ok (n + m)

-- `encodeBytes`: the length, the bytes, and zeros up to a multiple of 32.
abbrev pub pad_size : ℕ → ℕ
pad_size n = (word_size - n % word_size) % word_size

unfoldable pub encode_bytes : Bytes → Bytes
encode_bytes v = u64_word (length v) ++ (v ++ replicate (pad_size (length v)) 0)

-- `encodeUint256Word`
unfoldable pub encode_uint256_word : ℕ → ℕ → ℕ → ℕ → Bytes
unfolding put_uint64
encode_uint256_word l0 l1 l2 l3 =
    put_uint64 l3 ++ (put_uint64 l2 ++ (put_uint64 l1 ++ put_uint64 l0))

abbrev count_values : Values → ℕ
count_values none_left = 0
count_values (value v vs) = count_values vs + 1

abbrev count_fields : Fields → ℕ
count_fields end = 0
count_fields (field f fs) = count_fields fs + 1

-- The two loops of `encodeArray`, over an encoder of one element.
encode_dynamic :
    (Value → Result AbiError Bytes) → ℕ → Bytes → Bytes → Values → Result AbiError Bytes
encode_dynamic enc head_len head tail none_left = ok (head ++ tail)
encode_dynamic enc head_len head tail (value v vs) = enc v >>= λ e.
    encode_dynamic enc head_len (head ++ u64_word (head_len + length tail)) (tail ++ e) vs

encode_static : (Value → Result AbiError Bytes) → Bytes → Values → Result AbiError Bytes
encode_static enc out none_left = ok out
encode_static enc out (value v vs) = enc v >>= λ e. encode_static enc (out ++ e) vs

-- `encodeArray`
encode_array : (Value → Result AbiError Bytes) → Bool → Values → Result AbiError Bytes
unfolding encode_dynamic encode_static
encode_array enc dynamic none_left = ok (u64_word 0)
encode_array enc dynamic vs =
    let out = u64_word (count_values vs) in
    if dynamic
    then (encode_dynamic enc (count_values vs * word_size) [] [] vs >>= λ body. ok (out ++ body))
    else encode_static enc out vs

-- The first loop of `encodeTuple`.
head_length : Fields → Result AbiError ℕ
unfolding static_head_size is_dynamic
head_length end = ok 0
head_length (field f fs) = (if is_dynamic f then ok word_size else static_head_size f) >>= λ n.
    head_length fs >>= λ m. ok (n + m)

-- The length check and the first loop of `encodeTuple`, before its second loop.
with_head_length : Fields → Values → (ℕ → Result AbiError Bytes) → Result AbiError Bytes
unfolding head_length
with_head_length fs vs body =
    if eqb (count_fields fs) (count_values vs) then head_length fs >>= body else err invalid_value

-- The second loop of `encodeTuple`, and `encodeValue`
unfoldable mutual
  unfolding encode_array with_head_length is_dynamic encode_bytes encode_uint256_word

  pub encode_fields : Fields → ℕ → Bytes → Bytes → Values → Result AbiError Bytes
  encode_fields end head_len head tail vs = ok (head ++ tail)
  encode_fields (field f fs) head_len head tail none_left = ok (head ++ tail)
  encode_fields (field f fs) head_len head tail (value v vs) = encode_value f v >>= λ e.
      encode_fields fs head_len
        (head ++ (if is_dynamic f then u64_word (head_len + length tail) else e))
        (if is_dynamic f then tail ++ e else tail) vs

  pub encode_value : Field → Value → Result AbiError Bytes
  encode_value uint8 (v_uint8 n) = ok (u64_word n)
  encode_value uint32 (v_uint32 n) = ok (u64_word n)
  encode_value uint64 (v_uint64 n) = ok (u64_word n)
  encode_value uint256 (v_uint256 l0 l1 l2 l3) = ok (encode_uint256_word l0 l1 l2 l3)
  encode_value bytes32 (v_bytes32 v) = ok v
  encode_value bytes (v_bytes v) = ok (encode_bytes v)
  encode_value string (v_string v) = ok (encode_bytes v)
  encode_value bool (v_bool b) = ok (u64_word (if b then 1 else 0))
  encode_value addr (v_bytes v) =
      if eqb (length v) 20 then ok (replicate 12 0 ++ v) else err invalid_value
  encode_value (struct fs) (v_list vs) = with_head_length fs vs (λ h. encode_fields fs h [] [] vs)
  encode_value (array f) (v_list vs) = encode_array (encode_value f) (is_dynamic f) vs
  encode_value struct_nil _ = err invalid_schema
  encode_value array_nil _ = err invalid_schema
  encode_value other _ = err unsupported_type
  encode_value _ _ = err invalid_value

-- `encodeTuple`, and `Encode`, which hands it the schema's fields
unfoldable pub encode_tuple : Fields → Values → Result AbiError Bytes
unfolding encode_fields
encode_tuple fs vs = with_head_length fs vs (λ h. encode_fields fs h [] [] vs)

two_fields :
    encode_tuple
      (field uint8 (field bytes end))
      (value (v_uint8 7) (value (v_bytes (9 ∷ [])) none_left))
    ≡ ok (u64_word 7 ++ (u64_word 64 ++ (u64_word 1 ++ 9 ∷ replicate 31 0)))
unfolding encode_tuple u64_word
two_fields = refl
