-- ===== src/Tools/StorageProof/Unseen.antt =====
-- How many nodes `orderProof` has not seen.
use gno_ibc.Prelude.{
  ℕ, ◌+◌, ◌<◌, ◌≤◌, ◌≡◌, inl, inr, Bool, true, false, Bool-cases, some, [], ◌∷◌, Bytes, length,
  arith, if◌then◌else◌,
}
use gno_ibc.Prelude.Eq.{◌==◌, bytes_eq, ==_refl}
use gno_ibc.Prelude.Map.{Map, lookup, insert, lookup-insert}
use gno_ibc.Tools.StorageProof.{Hash, was_seen}

-- Entries whose key was not seen.
pub unseen : Map Hash Bytes → Map Hash Bool → ℕ
unseen [] seen = 0
unseen ((key, _) ∷ nodes) seen = (if was_seen key seen then 0 else 1) + unseen nodes seen

pub unseen-le : (nodes : Map Hash Bytes) (seen : Map Hash Bool) → unseen nodes seen ≤ length nodes
unfolding unseen
unseen-le [] seen = omega arith
unseen-le ((key, node) ∷ nodes) seen = ground (arith, unseen-le nodes seen)

was_seen-insert :
    (written read : Hash) (seen : Map Hash Bool)
    → was_seen read (insert written true seen)
      ≡ (if written == read then true else was_seen read seen)
unfolding was_seen
was_seen-insert written read seen = ground (arith, lookup-insert written read true seen)

unseen-insert :
    (next : Hash) (nodes : Map Hash Bytes) (seen : Map Hash Bool)
    → unseen nodes (insert next true seen) ≤ unseen nodes seen
unfolding unseen
unseen-insert next [] seen = omega arith
unseen-insert next ((key, node) ∷ nodes) seen =
    ground (arith, was_seen-insert next key seen, unseen-insert next nodes seen)

-- Seeing a node leaves fewer.
pub unseen-insert_lt :
    (next : Hash) (nodes : Map Hash Bytes) (seen : Map Hash Bool) (node : Bytes)
    → lookup next nodes ≡ some node
    → was_seen next seen ≡ false
    → unseen nodes (insert next true seen) < unseen nodes seen
unfolding unseen lookup
unseen-insert_lt next [] seen node found fresh = absurd (cc)
unseen-insert_lt next ((key, other) ∷ nodes) seen node found fresh =
    elim (Bool-cases (key == next)) [
      | inl here ↦
          let same : key ≡ next = (bytes_eq.beq_iff key next).0 here in
          let seen' = was_seen-insert next next seen in
          ground (
            arith,
            same,
            was_seen-insert next key seen,
            ==_refl next,
            unseen-insert next nodes seen,
            fresh,
          )
      | inr there ↦ ground (
        arith,
        was_seen-insert next key seen,
        there,
        unseen-insert_lt next nodes seen node (ground (arith, there)) fresh,
      )
    ]
