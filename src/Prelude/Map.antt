-- ===== src/Prelude/Map.antt =====
-- Go maps as association lists. Reading finds the first entry of a key, so every law holds of every
-- list; the source never depends on the order of a map.
use gno_ibc.Prelude.Tests.{if◌then◌else◌, Bool-cases, Option-cases}
use gno_ibc.Prelude.Eq.{Eq, ◌==◌}
use mathlib.Core.Path.{◌≡◌, refl}
use mathlib.Core.Logic.{inl, inr}
use mathlib.Core.Bool.{Bool, true, false, ◌||◌, false≢true}
use mathlib.Core.Option.{Option, none, some}
use mathlib.Core.List.{List, [], ◌∷◌}
use native.Mathlib.Omega.{arith}

abbrev pub Map {ℓ κ} : Type ℓ → Type κ → Type (ℓ ⊔ κ)
Map K V = List (K × V)

module _ {ℓ κ} {K : Type ℓ} {V : Type κ} ⦃e : Eq K⦄ where
  -- `v, ok := m[k]`
  unfoldable pub lookup : K → Map K V → Option V
  lookup key [] = none
  lookup key ((other, value) ∷ rest) = if other == key then some value else lookup key rest

  -- `m[k] = v`
  unfoldable pub insert : K → V → Map K V → Map K V
  insert key value [] = (key, value) ∷ []
  insert key value ((other, old) ∷ rest) =
      if other == key then (key, value) ∷ rest else (other, old) ∷ insert key value rest

  -- `delete(m, k)`
  unfoldable pub erase : K → Map K V → Map K V
  erase k [] = []
  erase k ((j, v) ∷ m) = let rest = erase k m in if j == k then rest else (j, v) ∷ rest

  -- A loop over the entries that returns at the first one for which the test holds.
  any_of : List (K × V) → Map K V → (K → V → Bool) → Bool
  any_of [] m p = false
  any_of ((k, _) ∷ rest) m p = elim (lookup k m) [
    | some v ↦ p k v || any_of rest m p
    | none ↦ any_of rest m p
  ]

  unfoldable pub any : Map K V → (K → V → Bool) → Bool
  unfolding any_of
  any m p = any_of m m p

  pub lookup-insert :
      (written read : K) (value : V) (m : Map K V)
      → lookup read (insert written value m)
        ≡ (if written == read then some value else lookup read m)
  unfolding lookup insert
  lookup-insert written read value [] = refl
  lookup-insert written read value ((other, old) ∷ rest) = ground (
    arith,
    e.beq_iff written read,
    e.beq_iff other written,
    e.beq_iff other read,
    lookup-insert written read value rest,
  )

  pub lookup-erase :
      (k j : K) (m : Map K V) → lookup j (erase k m) ≡ (if k == j then none else lookup j m)
  unfolding lookup erase
  lookup-erase k j [] = ground arith
  lookup-erase k j ((i, w) ∷ m) =
      ground (arith, e.beq_iff k j, e.beq_iff i k, e.beq_iff i j, lookup-erase k j m)

  any_of_sound :
      (rest m : Map K V) (p : K → V → Bool)
      → any_of rest m p ≡ true
      → (k : K) × (v : V) × (lookup k m ≡ some v) × (p k v ≡ true)
  unfolding any_of
  any_of_sound [] m p h = absurd (false≢true h)
  any_of_sound ((k, w) ∷ rest) m p h = elim (Option-cases (lookup k m)) [
    | inl missing ↦ any_of_sound rest m p (ground arith)
    | inr (v, found) ↦ elim (Bool-cases (p k v)) [
      | inl hit ↦ (k, v, found, hit)
      | inr miss ↦ any_of_sound rest m p (ground arith)
    ]
  ]

  -- Where the loop returns early, some key of the map passes the test.
  pub any_sound :
      (m : Map K V) (p : K → V → Bool)
      → any m p ≡ true
      → (k : K) × (v : V) × (lookup k m ≡ some v) × (p k v ≡ true)
  unfolding any
  any_sound m p h = any_of_sound m m p h
