-- ===== src/Tools/StorageProof/Order.antt =====
-- `orderProof`: it always ends, never finds a cycle, and what it returns is a path of all the nodes.
use gno_ibc.Prelude.{
  ℕ, zero, suc, ◌+◌, ◌<◌, ◌≡◌, refl, subst, ◌∙◌, sym, ◌⊎◌, inl, inr, Bool, true, false, Bool-cases,
  Option-cases, Option, none, some, List, [], ◌∷◌, ◌++◌, Bytes, length, arith,
}
use gno_ibc.Prelude.Eq.{bytes_eq}
use gno_ibc.Prelude.Map.{Map, lookup, insert}
use gno_ibc.Prelude.Result.{ok, err, ◌>>=◌, >>=-eq-ok, Result-cases}
use mathlib.Core.List.{append_assoc, append-nil}
use gno_ibc.Tools.StorageProof.{
  Hash, Panic, proof_cycle, out_of_rounds, was_seen, node_refs, candidates_of, only_candidate,
  refs_of, next_hashed_child, order_loop, order_proof,
}
use gno_ibc.Tools.StorageProof.Unseen.{unseen, unseen-le, unseen-insert_lt}

-- A candidate is a node that was not seen.
abbrev IsCandidate : Map Hash Bytes → Map Hash Bool → Hash → Type 0
IsCandidate nodes seen ref =
    ((node : Bytes) × (lookup ref nodes ≡ some node)) × (was_seen ref seen ≡ false)

-- One of a list of hashes.
abbrev pub IsOneOf : Hash → List Hash → Type 0
IsOneOf ref [] = ⊥
IsOneOf ref (other ∷ others) = (other ≡ ref) ⊎ IsOneOf ref others

candidates_of_lem :
    (nodes : Map Hash Bytes) (seen : Map Hash Bool) (refs : List Hash) (ref : Hash)
    → IsOneOf ref (candidates_of nodes seen refs)
    → IsCandidate nodes seen ref × IsOneOf ref refs
unfolding candidates_of
candidates_of_lem nodes seen [] ref one = elim one [ ]
candidates_of_lem nodes seen (first ∷ refs) ref one = elim (Option-cases (lookup first nodes)) [
  | inl missing ↦
      let (candidate, later) = candidates_of_lem nodes seen refs ref (ground (arith, missing)) in
      (candidate, inr later)
  | inr (node, found) ↦ elim (Bool-cases (was_seen first seen)) [
    | inl old ↦
        let (candidate, later) =
          candidates_of_lem nodes seen refs ref (ground (arith, found, old)) in
        (candidate, inr later)
    | inr new ↦
        let here : IsOneOf ref (first ∷ candidates_of nodes seen refs) =
          ground (arith, found, new) in
        elim here [
          | inl same ↦ ((rw (← same) (node, found), rw (← same) new), inl same)
          | inr others ↦
              let (candidate, later) = candidates_of_lem nodes seen refs ref others in
              (candidate, inr later)
        ]
  ]
]

only_candidate_lem :
    (refs : List Hash) (ref : Hash) → only_candidate refs ≡ ok (some ref) → IsOneOf ref refs
unfolding only_candidate
only_candidate_lem [] ref one = ground (arith)
only_candidate_lem (first ∷ []) ref one = inl (cc)
only_candidate_lem (first ∷ other ∷ refs) ref one = ground (arith)

-- The panics that would mean that the loop is stuck.
abbrev pub IsStuck : Panic → Type 0
IsStuck panic = (panic ≡ proof_cycle) ⊎ (panic ≡ out_of_rounds)

only_candidate_fails :
    (refs : List Hash) {panic : Panic} → only_candidate refs ≡ err panic → ¬ IsStuck panic
unfolding only_candidate
only_candidate_fails [] failed stuck = ground arith
only_candidate_fails (first ∷ []) failed stuck = ground arith
only_candidate_fails (first ∷ other ∷ refs) failed stuck = ground arith

refs_of_fails :
    (decode_list : Bytes → Option (List Bytes)) (encoded : Bytes) {panic : Panic}
    → refs_of decode_list encoded ≡ err panic
    → ¬ IsStuck panic
unfolding refs_of node_refs
refs_of_fails decode_list encoded failed stuck = ground arith

module _ (decode_list : Bytes → Option (List Bytes)) (nodes : Map Hash Bytes) where
  -- A reference in an encoded node.
  abbrev pub IsChild : Bytes → Hash → Type 0
  IsChild encoded ref =
      (refs : List Hash) × (refs_of decode_list encoded ≡ ok refs) × IsOneOf ref refs

  next_hashed_child_lem :
      (encoded : Bytes) (seen : Map Hash Bool) (ref : Hash)
      → next_hashed_child decode_list encoded nodes seen ≡ ok (some ref)
      → IsCandidate nodes seen ref × IsChild encoded ref
  unfolding next_hashed_child
  next_hashed_child_lem encoded seen ref found =
      let (refs, read, one) = >>=-eq-ok (refs_of decode_list encoded) _ found in
      let (candidate, among) =
        candidates_of_lem nodes seen refs ref (only_candidate_lem _ ref one) in
      (candidate, (refs, read, among))

  next_hashed_child_fails :
      (encoded : Bytes) (seen : Map Hash Bool) {panic : Panic}
      → next_hashed_child decode_list encoded nodes seen ≡ err panic
      → ¬ IsStuck panic
  unfolding next_hashed_child refs_of only_candidate
  next_hashed_child_fails encoded seen {panic} failed stuck =
      elim (Result-cases (refs_of decode_list encoded)) [
        | inl (refs, read) ↦
            only_candidate_fails (candidates_of nodes seen refs) (rw (read, ◌>>=◌) at failed) stuck
        | inr (other, refused) ↦
            refs_of_fails decode_list encoded (refused ∙ sym (ground (arith, refused))) stuck
      ]

  -- The loop is never stuck while rounds are left for every node that was not seen.
  order_loop_fails :
      (rounds : ℕ) (next : Hash) (seen : Map Hash Bool) (ordered : List Bytes) {panic : Panic}
      → unseen nodes seen < rounds
      → was_seen next seen ≡ false
      → order_loop decode_list rounds nodes next seen ordered ≡ err panic
      → ¬ IsStuck panic
  unfolding order_loop
  order_loop_fails zero next seen ordered few fresh failed stuck = absurd (omega arith)
  order_loop_fails (suc rounds) next seen ordered {panic} few fresh failed stuck =
      elim (Option-cases (lookup next nodes)) [
        | inl missing ↦ absurd (ground (arith, missing, failed))
        | inr (node, found) ↦
            let seen' = insert next true seen in
            elim (Result-cases (next_hashed_child decode_list node nodes seen')) [
              | inr (other, refused) ↦
                  let here : next_hashed_child decode_list node nodes seen' ≡ err panic =
                    ground (arith, found, fresh, refused, failed) in
                  next_hashed_child_fails node seen' here stuck
              | inl (none, made) ↦ absurd (ground (arith, found, fresh, made, failed))
              | inl (some ref, made) ↦
                  let ((_, new), _) = next_hashed_child_lem node seen' ref made in
                  order_loop_fails rounds ref seen' (ordered ++ node ∷ [])
                    (omega (arith, unseen-insert_lt next nodes seen node found fresh)) new
                    (ground (arith, found, fresh, made, failed)) stuck
            ]
      ]

  -- `orderProof` never panics with "proof cycle", and never runs out of rounds: every other node that it
  -- comes to was not seen before.
  pub order_proof_fails :
      (root : Hash) {panic : Panic}
      → order_proof decode_list root nodes ≡ err panic
      → ¬ IsStuck panic
  unfolding order_proof
  order_proof_fails root {panic} failed stuck =
      elim (Result-cases (order_loop decode_list (length nodes + 1) nodes root [] [])) [
        | inr (other, refused) ↦
            let here : order_loop decode_list (length nodes + 1) nodes root [] [] ≡ err panic =
              ground (arith, refused, failed) in
            order_loop_fails (length nodes + 1) root [] [] (omega (arith, unseen-le nodes []))
              (unfold was_seen lookup in refl) here stuck
        | inl (ordered, made) ↦ ground (arith, made, failed)
      ]

  -- A path in the proof: the nodes under their hashes, each the child of the one before.
  pub data IsPath : Hash → List Bytes → Type 0 where
    missing : (next : Hash) → lookup next nodes ≡ none → IsPath next []
    last : (next : Hash) (node : Bytes) → lookup next nodes ≡ some node → IsPath next (node ∷ [])
    step :
        (next ref : Hash) (node : Bytes) (rest : List Bytes)
        → lookup next nodes ≡ some node
        → IsChild node ref
        → IsPath ref rest
        → IsPath next (node ∷ rest)

  order_loop-IsPath :
      (rounds : ℕ) (next : Hash) (seen : Map Hash Bool) (ordered : List Bytes) {final : List Bytes}
      → order_loop decode_list rounds nodes next seen ordered ≡ ok final
      → (rest : List Bytes) × (final ≡ ordered ++ rest) × IsPath next rest
  unfolding order_loop
  order_loop-IsPath zero next seen ordered done = absurd (cc)
  order_loop-IsPath (suc rounds) next seen ordered {final} done =
      elim (Option-cases (lookup next nodes)) [
        | inl absent ↦ ([], ground (arith, absent, done, append-nil ordered), missing next absent)
        | inr (node, found) ↦ elim (Bool-cases (was_seen next seen)) [
          | inl old ↦ absurd (ground (arith, found, old, done))
          | inr fresh ↦
              let seen' = insert next true seen in
              elim (Result-cases (next_hashed_child decode_list node nodes seen')) [
                | inr (other, refused) ↦ absurd (ground (arith, found, fresh, refused, done))
                | inl (none, made) ↦
                    (node ∷ [], ground (arith, found, fresh, made, done), last next node found)
                | inl (some ref, made) ↦
                    let (_, child) = next_hashed_child_lem node seen' ref made in
                    let (rest, same, path) =
                      order_loop-IsPath rounds ref seen' (ordered ++ node ∷ [])
                        (ground (arith, found, fresh, made, done)) in
                    (
                      node ∷ rest,
                      same ∙ append_assoc ordered (node ∷ []) rest,
                      step next ref node rest found child path,
                    )
              ]
        ]
      ]

  -- What `orderProof` returns is a path from the root, each node referring to the next, of as many nodes
  -- as the proof has.
  pub order_proof-IsPath :
      (root : Hash) {ordered : List Bytes}
      → order_proof decode_list root nodes ≡ ok ordered
      → IsPath root ordered × (length ordered ≡ length nodes)
  unfolding order_proof
  order_proof-IsPath root {ordered} done =
      let (made, looped, checked) =
        >>=-eq-ok (order_loop decode_list (length nodes + 1) nodes root [] []) _ done in
      let (rest, same, path) = order_loop-IsPath (length nodes + 1) root [] [] looped in
      let handed : made ≡ ordered = ground (arith, checked) in
      let counted : length made ≡ length nodes = ground (arith, checked) in
      (subst (IsPath root) (sym same ∙ handed) path, rw (← handed) counted)
