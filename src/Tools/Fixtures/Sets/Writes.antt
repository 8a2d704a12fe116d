-- ===== src/Tools/Fixtures/Sets/Writes.antt =====
-- The loop of `makeFixtureSet` that writes a fixture at the index of each leaf.
use gno_ibc.Prelude.{
  ℕ, ◌<◌, ◌≡◌, ◌≢◌, ap, subst, ◌∙◌, sym, ◌⊎◌, inl, inr, Bool-cases, some, List, [], ◌∷◌, length,
  get_elem?, set, length-set, get_elem?-set_self, get_elem?-set_ne, All, ltb, eqb, arith,
}
use gno_ibc.Prelude.Result.{Result, ok, >>=-eq-ok}
use gno_ibc.Tools.Fixtures.Iavl.{LeafNode, Panic}
use gno_ibc.Tools.Fixtures.Iavl.Shape.{origins}
use gno_ibc.Tools.Fixtures.Sets.{Fixture, write_fixtures}
use gno_ibc.Tools.Fixtures.Sets.Leaves.{HasIdx}

-- The loop that writes the fixtures, for any property of what it writes at an index.
module _ (make : LeafNode → Result Panic Fixture) (G : ℕ → Fixture → Type 0) where
  abbrev pub Makes : LeafNode → Type 0
  Makes leaf = (fx : Fixture) → make leaf ≡ ok fx → G leaf.input_idx fx

  -- A cell that the loop left alone, or wrote.
  abbrev pub Cell : ℕ → List LeafNode → List Fixture → List Fixture → Type 0
  Cell i leaves out final =
      ((get_elem? final i ≡ get_elem? out i) × ¬ HasIdx i (origins leaves))
      ⊎ ((fx : Fixture) × (get_elem? final i ≡ some fx) × G i fx)

  Cell-cons :
      (i : ℕ) (leaf : LeafNode) (leaves : List LeafNode) (out final : List Fixture) (fx : Fixture)
      → leaf.input_idx < length out
      → G leaf.input_idx fx
      → Cell i leaves (set out leaf.input_idx fx) final
      → Cell i (leaf ∷ leaves) out final
  Cell-cons i leaf leaves out final fx fits good (inr written) = inr written
  Cell-cons i leaf leaves out final fx fits good (inl (left, none_later)) =
      elim (Bool-cases (eqb leaf.input_idx i)) [
        | inl same ↦
            let here : leaf.input_idx ≡ i = ground (arith, same) in
            inr (
              fx,
              left ∙ rw (← here) (get_elem?-set_self out leaf.input_idx fx fits),
              subst (λ j. G j fx) here good,
            )
        | inr apart ↦
            let other : leaf.input_idx ≢ i = λ e. absurd (ground (arith, apart, e)) in
            inl (
              left ∙ get_elem?-set_ne out leaf.input_idx i fx other,
              λ has. elim has [ inl here ↦ other here | inr later ↦ none_later later ],
            )
      ]

  pub write_fixtures-Cell :
      (leaves : List LeafNode) (out : List Fixture) {final : List Fixture}
      → All Makes leaves
      → write_fixtures make leaves out ≡ ok final
      → (i : ℕ) → Cell i leaves out final
  unfolding write_fixtures
  write_fixtures-Cell [] out {final} made wrote i =
      inl (ap (λ cells. get_elem? cells i) (cc), λ has. has)
  write_fixtures-Cell (leaf ∷ leaves) out {final} (here, rest) wrote i =
      let (fx, ran, more) = >>=-eq-ok (make leaf) _ wrote in
      elim (Bool-cases (ltb leaf.input_idx (length out))) [
        | inl fits ↦
            Cell-cons i leaf leaves out final fx (ground (arith, fits)) (here fx ran)
              (write_fixtures-Cell leaves (set out leaf.input_idx fx) rest (rw fits at more) i)
        | inr outside ↦ absurd (ground (arith, outside, more))
      ]

  pub length-write_fixtures :
      (leaves : List LeafNode) (out : List Fixture) {final : List Fixture}
      → write_fixtures make leaves out ≡ ok final
      → length final ≡ length out
  unfolding write_fixtures
  length-write_fixtures [] out {final} wrote = let same : out ≡ final = cc in ap length (sym same)
  length-write_fixtures (leaf ∷ leaves) out wrote =
      let (fx, ran, more) = >>=-eq-ok (make leaf) _ wrote in
      elim (Bool-cases (ltb leaf.input_idx (length out))) [
        | inl fits ↦
            length-write_fixtures leaves (set out leaf.input_idx fx) (rw fits at more)
            ∙ length-set out leaf.input_idx fx
        | inr outside ↦ absurd (ground (arith, outside, more))
      ]
