-- ===== src/Tools/StorageProof/Main.antt =====
-- tools/gen-ethereum-storage-proof-fixture/main.go: `main`, as what it prints. The trie is go-ethereum's:
-- `prove` gives the database that `Prove` fills, as its iterator gives it.
-- What is printed before a panic is not kept.
use gno_ibc.Prelude.{ℕ, suc, Option, none, some, List, [], ◌∷◌, ◌++◌, Bytes, length, replicate}
use gno_ibc.Prelude.Result.{Result, ok, err, ◌>>=◌}
use gno_ibc.Encoding.Hex.{codes, hex_encode}
use gno_ibc.Encoding.Decimal.{decimal}
use gno_ibc.Tools.StorageProof.{
  Hash, Panic, library_error, collect_nodes, order_proof, word_from_uint64, ibc_commitment_key,
}

-- `panic(err)` where a library returns an error
abbrev pub or_panic : {A : Type 0} → Option A → Result Panic A
or_panic none = err library_error
or_panic (some a) = ok a

-- What the tool calls of go-ethereum.
pub record Geth : Type 1 where
  pub Trie : Type 0
  pub empty : Option Trie
  pub update : Bytes → Bytes → Trie → Trie
  pub root_of : Trie → Hash
  pub prove : Bytes → Trie → Option (List (Bytes × Bytes))
  pub keccak : Bytes → Hash
  pub rlp_uint64 : ℕ → Option Bytes
  pub rlp_list : Bytes → Option (List Bytes)

abbrev pub line : Bytes → Bytes → Bytes
line label bz = label ++ (codes "0x" ++ (hex_encode bz ++ 10 ∷ []))

-- The loop of `printProof`
unfoldable pub print_nodes : Bytes → ℕ → List Bytes → Bytes
print_nodes name i [] = []
print_nodes name i (node ∷ nodes) =
    line (name ++ (codes "[" ++ (decimal i ++ codes "]: "))) node ++ print_nodes name (suc i) nodes

-- The loop over the slots in `main`
unfoldable pub print_slots : (Bytes → Hash) → ℕ → List (Bytes × Bytes) → Bytes
print_slots keccak i [] = []
print_slots keccak i ((slot, value) ∷ rest) =
    line (codes "slot" ++ (decimal i ++ codes ": ")) slot
    ++ (line (codes "path" ++ (decimal i ++ codes ": ")) (keccak slot)
        ++ (line (codes "leafPayload" ++ (decimal i ++ codes ": ")) value
            ++ print_slots keccak (suc i) rest))

module _ (geth : Geth) where
  -- `mustRLPEncodeUint64`
  unfoldable pub must_rlp_encode_uint64 : ℕ → Result Panic Bytes
  must_rlp_encode_uint64 v = or_panic (geth.rlp_uint64 v)

  -- `printProof`
  unfoldable pub print_proof : Bytes → Hash → List (Bytes × Bytes) → Result Panic Bytes
  print_proof name root db = do
    ordered ← order_proof geth.rlp_list root (collect_nodes db)
    ok (
        name
        ++ (codes "Nodes: " ++ (decimal (length ordered) ++ (10 ∷ print_nodes name 0 ordered))))

  unfoldable pub update_all : List (Bytes × Bytes) → geth.Trie → geth.Trie
  update_all [] tr = tr
  update_all ((slot, value) ∷ rest) tr = update_all rest (geth.update (geth.keccak slot) value tr)

  -- `main`
  unfoldable pub run : Result Panic Bytes
  run = do
    new ← or_panic geth.empty
    value1 ← must_rlp_encode_uint64 0x1234
    value2 ← must_rlp_encode_uint64 0xdeadbeef
    value3 ← must_rlp_encode_uint64 0x80
    let slot2 = word_from_uint64 2
    let slots = (word_from_uint64 1, value1) ∷ (slot2, value2) ∷ (word_from_uint64 3, value3) ∷ []
    let tr = update_all slots new
    let root = geth.root_of tr
    existence_db ← or_panic (geth.prove (geth.keccak slot2) tr)
    existence ← print_proof (codes "existenceProof") root existence_db
    let missing_slot = word_from_uint64 4
    absence_db ← or_panic (geth.prove (geth.keccak missing_slot) tr)
    absence ← print_proof (codes "absenceProof") root absence_db
    let ibc_path = replicate 32 0x11
    commitment_key ← ibc_commitment_key geth.keccak ibc_path
    zero_path_key ← ibc_commitment_key geth.keccak (replicate 32 0)
    ok (
        line (codes "root: ") root
        ++ (print_slots geth.keccak 1 slots
            ++ ((10 ∷ line (codes "existenceKey: ") slot2)
                ++ (line (codes "existenceValue: ") (word_from_uint64 0xdeadbeef)
                    ++ (existence
                        ++ ((10 ∷ line (codes "absenceKey: ") missing_slot)
                            ++ (line (codes "absencePath: ") (geth.keccak missing_slot)
                                ++ (absence
                                    ++ ((10 ∷ line (codes "ibcPath: ") ibc_path)
                                        ++ (line (codes "ibcCommitmentKey: ") commitment_key
                                            ++ line (codes "ibcZeroPathCommitmentKey: ")
                                                zero_path_key))))))))))
