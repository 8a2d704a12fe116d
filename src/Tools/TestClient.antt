-- ===== src/Tools/TestClient.antt =====
-- tools/gen-ibc-test-client/main.go: the ABI encoders and the commitment paths that the tool has of its
-- own. The hash is a parameter; a number is in the range of its type.
pub mod Agreement
pub mod Read
pub mod Tuples
pub mod Vars
pub mod Tests
pub mod Args
pub mod Print
use gno_ibc.Prelude.{
  ℕ, ◌+◌, ◌-◌, ◌*◌, ◌%◌, Bool, true, false, none, some, List, [], ◌∷◌, ◌++◌, Bytes, length, take,
  replicate, eqb, if◌then◌else◌,
}
use gno_ibc.Prelude.Result.{Result, ok, err, ◌>>=◌}
use gno_ibc.Encoding.Word.{put_uint32, put_uint64}
use gno_ibc.Encoding.Hex.{hex_decode, to_lower}

-- The panics of `bytes32` and `mustHex`.
pub data Panic : Type 0 where
  expected_32_bytes : ℕ → Panic
  invalid_hex : Panic

-- `mustHex`
unfoldable pub must_hex : Bytes → Result Panic Bytes
must_hex s = elim (hex_decode (to_lower s)) [ none ↦ err invalid_hex | some bz ↦ ok bz ]

-- `word` and `u64ToH256`
unfoldable pub word : ℕ → Bytes
word n = replicate 24 0 ++ put_uint64 n

unfoldable pub u64_to_h256 : ℕ → Bytes
u64_to_h256 n = replicate 24 0 ++ put_uint64 n

-- `slot` and `u32ToH256`
unfoldable pub slot : ℕ → Bytes
slot n = replicate 28 0 ++ put_uint32 n

unfoldable pub u32_to_h256 : ℕ → Bytes
u32_to_h256 n = replicate 28 0 ++ put_uint32 n

-- `bytes32`
unfoldable pub bytes32 : Bytes → Result Panic Bytes
bytes32 bz = if eqb (length bz) 32 then ok bz else err (expected_32_bytes (length bz))

-- `abiBytes` and `abiString`
unfoldable pub abi_bytes : Bytes → Bytes
abi_bytes bz = word (length bz) ++ (bz ++ replicate ((32 - length bz % 32) % 32) 0)

unfoldable pub abi_string : Bytes → Bytes
unfolding abi_bytes
abi_string s = abi_bytes s

-- `abiValue`, `staticValue` and `dynamicValue`
pub record AbiValue : Type 0 where
  pub dynamic : Bool
  pub payload : Bytes

abbrev pub static_value : Bytes → AbiValue
static_value payload = record { dynamic = false; payload = payload }

abbrev pub dynamic_value : Bytes → AbiValue
dynamic_value payload = record { dynamic = true; payload = payload }

-- `abiEncode`, its loop first
unfoldable pub abi_encode_loop : ℕ → Bytes → Bytes → List AbiValue → Bytes
abi_encode_loop head_len head tail [] = head ++ tail
abi_encode_loop head_len head tail (v ∷ values) =
    abi_encode_loop head_len
      (head ++ (if v.dynamic then word (head_len + length tail) else v.payload))
      (if v.dynamic then tail ++ v.payload else tail) values

unfoldable pub abi_encode : List AbiValue → Bytes
unfolding abi_encode_loop
abi_encode values = abi_encode_loop (length values * 32) [] [] values

-- `abiEncodeStatic`
unfoldable pub abi_encode_static : List Bytes → Bytes
abi_encode_static [] = []
abi_encode_static (word ∷ words) = word ++ abi_encode_static words

-- `header`, `connection` and `channel`
pub record Header : Type 0 where
  pub height : ℕ
  pub time_seconds : ℕ
  pub time_nanos : ℕ
  pub validators_hash : Bytes
  pub next_validators_hash : Bytes
  pub app_hash : Bytes
  pub trusted_height : ℕ
  pub zkp : Bytes

pub record Connection : Type 0 where
  pub state : ℕ
  pub client_id : ℕ
  pub counterparty_client_id : ℕ
  pub counterparty_connection_id : ℕ

pub record Channel : Type 0 where
  pub state : ℕ
  pub connection_id : ℕ
  pub counterparty_channel_id : ℕ
  pub counterparty_port_id : Bytes
  pub version : Bytes

-- `copy` into an array of 32 bytes
abbrev pub copy32 : Bytes → Bytes
copy32 bz = take 32 bz ++ replicate (32 - length bz) 0

-- `encodeClientState`, with the package's contract address
unfoldable pub encode_client_state : Bytes → Bytes → ℕ → ℕ → ℕ → ℕ → Result Panic Bytes
unfolding abi_encode_static
encode_client_state contract chain_id trusting_period max_clock_drift frozen_height latest_height =
    do
      address ← bytes32 contract
      ok (
          abi_encode_static (
            copy32 chain_id
            ∷ word trusting_period
            ∷ word max_clock_drift
            ∷ word frozen_height
            ∷ word latest_height
            ∷ address
            ∷ []))

-- `encodeConsensusState`
unfoldable pub encode_consensus_state : ℕ → Bytes → Bytes → Result Panic Bytes
unfolding abi_encode_static
encode_consensus_state timestamp app_hash next_validators_hash = do
  app ← bytes32 app_hash
  validators ← bytes32 next_validators_hash
  ok (abi_encode_static (word timestamp ∷ app ∷ validators ∷ []))

-- `encodeHeader`
unfoldable pub encode_header : Header → Result Panic Bytes
encode_header h = do
  validators ← bytes32 h.validators_hash
  next_validators ← bytes32 h.next_validators_hash
  app ← bytes32 h.app_hash
  ok (
      abi_encode (
        static_value (word h.height)
        ∷ static_value (word h.time_seconds)
        ∷ static_value (word h.time_nanos)
        ∷ static_value validators
        ∷ static_value next_validators
        ∷ static_value app
        ∷ static_value (word h.trusted_height)
        ∷ dynamic_value (abi_bytes h.zkp)
        ∷ []))

-- `encodeConnection`
unfoldable pub encode_connection : Connection → Bytes
unfolding abi_encode_static
encode_connection c = abi_encode_static (
    word c.state
    ∷ word c.client_id
    ∷ word c.counterparty_client_id
    ∷ word c.counterparty_connection_id
    ∷ [])

-- `encodeChannel`
unfoldable pub encode_channel : Channel → Bytes
encode_channel c = abi_encode (
    static_value (word c.state)
    ∷ static_value (word c.connection_id)
    ∷ static_value (word c.counterparty_channel_id)
    ∷ dynamic_value (abi_bytes c.counterparty_port_id)
    ∷ dynamic_value (abi_string c.version)
    ∷ [])

-- `clientStatePath`, `consensusStatePath`, `connectionPath` and `channelPath`
module _ (keccak : Bytes → Bytes) where
  unfoldable pub client_state_path : ℕ → Bytes
  client_state_path client_id = keccak (slot 0 ++ u32_to_h256 client_id)

  unfoldable pub consensus_state_path : ℕ → ℕ → Bytes
  consensus_state_path client_id height =
      keccak (slot 1 ++ (u32_to_h256 client_id ++ u64_to_h256 height))

  unfoldable pub connection_path : ℕ → Bytes
  connection_path connection_id = keccak (slot 2 ++ u32_to_h256 connection_id)

  unfoldable pub channel_path : ℕ → Bytes
  channel_path channel_id = keccak (slot 3 ++ u32_to_h256 channel_id)
