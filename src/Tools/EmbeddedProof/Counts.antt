-- ===== src/Tools/EmbeddedProof/Counts.antt =====
-- When `printProofAndVerify` returns.
use gno_ibc.Prelude.{
  ℕ, ◌++◌, suc, ◌+◌, ◌≡◌, ◌≢◌, refl, ◌∙◌, ◌⊎◌, inl, inr, [], ◌∷◌, Bytes, length, eqb, Bool-cases,
  arith,
}
use gno_ibc.Prelude.Result.{ok, err}
use gno_ibc.Tools.EmbeddedProof.{
  Db, Geth, not_one_node, print_entries, verified_line, print_proof_and_verify,
}

count-print_entries :
    (label : Bytes) (n : ℕ) (db : Db) → (print_entries label n db).1 ≡ n + length db
unfolding print_entries
count-print_entries label n [] = omega arith
count-print_entries label n ((key, value) ∷ db) =
    omega (arith, count-print_entries label (suc n) db)

-- The proof of a key is printed exactly where its database has one node; any other number of nodes is in
-- the panic.
pub print_proof_and_verify_cases :
    (geth : Geth) (label root key : Bytes) (db : Db)
    → ((length db ≡ 1) × ((out : Bytes) × (print_proof_and_verify geth label root key db ≡ ok out)))
      ⊎ ((length db ≢ 1)
          × (print_proof_and_verify geth label root key db ≡ err (not_one_node label (length db))))
unfolding print_proof_and_verify
print_proof_and_verify_cases geth label root key db =
    let counted : (print_entries label 0 db).1 ≡ length db =
      count-print_entries label 0 db ∙ (omega arith) in
    let (value, error) = geth.verify_proof root key db in
    let out = (print_entries label 0 db).0 ++ verified_line label value error in
    elim (Bool-cases (eqb (length db) 1)) [
      | inl one ↦ inl (ground (arith, one), (out, rw (counted, one) refl))
      | inr other ↦ inr (ground (arith, other), rw (counted, other) refl)
    ]
