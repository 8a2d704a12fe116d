-- ===== src/Tools/EmbeddedProof.antt =====
-- tools/gen-ethereum-embedded-node-proof-fixture/main.go. The trie, its database and RLP are
-- go-ethereum's, and parameters. What is printed before a panic is not kept.
pub mod Counts
pub mod Tests
use gno_ibc.Prelude.{
  ℕ, zero, suc, ◌+◌, Option, none, some, List, [], ◌∷◌, ◌++◌, Bytes, length, replicate, eqb,
  if◌then◌else◌,
}
use gno_ibc.Prelude.Result.{Result, ok, err, ◌>>=◌}
use gno_ibc.Encoding.Hex.{codes, hex_encode}
use gno_ibc.Encoding.Decimal.{decimal}

pub data Panic : Type 0 where
  library_error : Panic
  not_one_node : Bytes → ℕ → Panic

abbrev or_panic : {A : Type 0} → Option A → Result Panic A
or_panic none = err library_error
or_panic (some a) = ok a

-- A proof database, as its iterator gives it.
abbrev pub Db : Type 0
Db = List (Bytes × Bytes)

-- What the tool calls of go-ethereum; `verify_proof` gives the value and the error, as `%v` prints it.
pub record Geth : Type 1 where
  pub Trie : Type 0
  pub empty : Option Trie
  pub update : Bytes → Bytes → Trie → Trie
  pub root_of : Trie → Bytes
  pub prove : Bytes → Trie → Option Db
  pub verify_proof : Bytes → Bytes → Db → Bytes × Bytes
  pub rlp_uint64 : ℕ → Option Bytes

abbrev pub line : Bytes → Bytes → Bytes
line label bz = label ++ (hex_encode bz ++ 10 ∷ [])

-- The loop of `printProofAndVerify`, with the number of the nodes that it printed.
unfoldable pub print_entries : Bytes → ℕ → Db → Bytes × ℕ
print_entries label n [] = ([], n)
print_entries label n ((key, value) ∷ db) =
    let (rest, count) = print_entries label (suc n) db in
    (line (label ++ (codes "Proof[" ++ (decimal n ++ codes "]: "))) value ++ rest, count)

-- The loop of `main` over keys and values
unfoldable pub print_pairs : ℕ → List (Bytes × Bytes) → Bytes
print_pairs i [] = []
print_pairs i ((key, value) ∷ pairs) =
    line (codes "key" ++ (decimal i ++ codes ": ")) key
    ++ (line (codes "value" ++ (decimal i ++ codes ": ")) value ++ print_pairs (suc i) pairs)

-- The line on go-ethereum's own verifier
abbrev pub verified_line : Bytes → Bytes → Bytes → Bytes
verified_line label value error =
    label
    ++ (codes " geth-verified value: "
        ++ (hex_encode value ++ (codes " (err=" ++ (error ++ codes ")\n"))))

module _ (geth : Geth) where
  -- `mustRLP`
  unfoldable pub must_rlp : ℕ → Result Panic Bytes
  must_rlp v = or_panic (geth.rlp_uint64 v)

  -- `printProofAndVerify`
  unfoldable pub print_proof_and_verify : Bytes → Bytes → Bytes → Db → Result Panic Bytes
  print_proof_and_verify label root key db =
      let (printed, n) = print_entries label 0 db in
      let (value, error) = geth.verify_proof root key db in
      if eqb n 1
      then ok (printed ++ verified_line label value error)
      else err (not_one_node label n)

  unfoldable pub update_all : List (Bytes × Bytes) → geth.Trie → geth.Trie
  update_all [] tr = tr
  update_all ((key, value) ∷ pairs) tr = update_all pairs (geth.update key value tr)

  -- `main`
  unfoldable pub run : Result Panic Bytes
  run = do
    new ← or_panic geth.empty
    value1 ← must_rlp 1
    value2 ← must_rlp 2
    value3 ← must_rlp 3
    let prefix = replicate 31 0xAB
    let key1 = prefix ++ 0x10 ∷ []
    let pairs = (key1, value1) ∷ (prefix ++ 0x20 ∷ [], value2) ∷ (prefix ++ 0x30 ∷ [], value3) ∷ []
    let tr = update_all pairs new
    let root = geth.root_of tr
    existence_db ← or_panic (geth.prove key1 tr)
    existence ← print_proof_and_verify (codes "existence") root key1 existence_db
    let missing = prefix ++ 0x40 ∷ []
    absence_db ← or_panic (geth.prove missing tr)
    absence ← print_proof_and_verify (codes "absence") root missing absence_db
    ok (
        line (codes "root: ") root
        ++ (print_pairs 1 pairs ++ (existence ++ (line (codes "missingKey: ") missing ++ absence))))
