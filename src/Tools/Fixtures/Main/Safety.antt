-- ===== src/Tools/Fixtures/Main/Safety.antt =====
-- The program runs to its end.
use gno_ibc.Prelude.{
  ◌≡◌, ◌≢◌, refl, ap, ◌∙◌, ◌⊎◌, inl, inr, Bool, true, not, ◌&&◌, ◌||◌, Bool-cases, List, [], ◌∷◌,
  Bytes, All, arith,
}
use gno_ibc.Prelude.Eq.{bytes_beq, bytes_beq_iff}
use gno_ibc.Prelude.Result.{Result, ok, ◌>>=◌, >>=_returns}
use gno_ibc.Encoding.Hex.{hex_decode}
use gno_ibc.Tools.Fixtures.Iavl.{FixtureInput, Panic}
use gno_ibc.Tools.Fixtures.Sets.{Fixture}
use gno_ibc.Tools.Fixtures.Sets.Keys.{wasm_contract_store_key_lem}
use gno_ibc.Tools.Fixtures.Sets.Total.{make_fixture_set_total}
use gno_ibc.Tools.Fixtures.Main.{
  base_fixtures, z35_fixtures, z37_fixtures, z42_wrong_version_fixtures, z42_stale_fixtures,
  print_fixture, print_fixtures, print_set, run,
}

-- Whether no input's non-membership key is a key of a list.
none_has : Bytes → List FixtureInput → Bool
none_has key [] = true
none_has key (other ∷ others) = not (bytes_beq other.key key) && none_has key others

all_missing : List FixtureInput → List FixtureInput → Bool
unfolding none_has
all_missing all [] = true
all_missing all (input ∷ inputs) =
    (bytes_beq input.non_membership_key [] || none_has input.non_membership_key all)
    && all_missing all inputs

none_has_sound :
    (key : Bytes) (others : List FixtureInput)
    → none_has key others ≡ true
    → All (λ other. other.key ≢ key) others
unfolding none_has
none_has_sound key [] h = tt
none_has_sound key (other ∷ others) h =
    (λ e. ground (arith, bytes_beq_iff other.key key, e), none_has_sound key others (ground arith))

all_missing_sound :
    (all inputs : List FixtureInput)
    → all_missing all inputs ≡ true
    → All
        (λ input.
          (input.non_membership_key ≡ []) ⊎ All (λ other. other.key ≢ input.non_membership_key) all)
        inputs
unfolding all_missing
all_missing_sound all [] h = tt
all_missing_sound all (input ∷ inputs) h = (
  elim (Bool-cases (bytes_beq input.non_membership_key [])) [
    | inl empty ↦ inl ((bytes_beq_iff input.non_membership_key []).0 empty)
    | inr some_key ↦ inr (none_has_sound input.non_membership_key all (ground (arith, some_key)))
  ],
  all_missing_sound all inputs (ground arith),
)

module _ (sum256 : Bytes → Bytes) (quote : Bytes → Bytes) where
  print_fixture_total : (fx : Fixture) → (out : Bytes) × (print_fixture sum256 quote fx ≡ ok out)
  unfolding print_fixture
  print_fixture_total fx = >>=_returns _ _ _ (wasm_contract_store_key_lem fx.input.key) (_, refl)

  print_fixtures_total :
      (fixtures : List Fixture) → (out : Bytes) × (print_fixtures sum256 quote fixtures ≡ ok out)
  unfolding print_fixtures
  print_fixtures_total [] = ([], refl)
  print_fixtures_total (fx ∷ fixtures) =
      let (first, printed) = print_fixture_total fx in
      let (rest, printed') = print_fixtures_total fixtures in
      >>=_returns _ _ first printed (>>=_returns _ _ rest printed' (_, refl))

  print_set_total :
      (input : FixtureInput) (inputs : List FixtureInput)
      → all_missing (input ∷ inputs) (input ∷ inputs) ≡ true
      → (out : Bytes) × (print_set sum256 quote (input ∷ inputs) ≡ ok out)
  unfolding print_set
  print_set_total input inputs missing =
      let (out, made, _) =
        make_fixture_set_total sum256 input inputs
          (all_missing_sound (input ∷ inputs) (input ∷ inputs) missing) in
      >>=_returns _ _ out made (print_fixtures_total out)

-- A set of the program: its literals decode, and it meets the condition of `makeFixtureSet`.
abbrev IsUsable : Result Panic (List FixtureInput) → Type 0
IsUsable inputs =
    (first : FixtureInput) × (others : List FixtureInput) × (inputs ≡ ok (first ∷ others))
    × (all_missing (first ∷ others) (first ∷ others) ≡ true)

base_fixtures-IsUsable : IsUsable (ok base_fixtures)
unfolding base_fixtures all_missing
base_fixtures-IsUsable = (_, _, refl, refl)

z35_fixtures-IsUsable : IsUsable z35_fixtures
unfolding z35_fixtures hex_decode all_missing
z35_fixtures-IsUsable = (_, _, refl, refl)

z37_fixtures-IsUsable : IsUsable z37_fixtures
unfolding z37_fixtures hex_decode all_missing
z37_fixtures-IsUsable = (_, _, refl, refl)

z42_wrong_version_fixtures-IsUsable : IsUsable z42_wrong_version_fixtures
unfolding z42_wrong_version_fixtures hex_decode all_missing
z42_wrong_version_fixtures-IsUsable = (_, _, refl, refl)

z42_stale_fixtures-IsUsable : IsUsable z42_stale_fixtures
unfolding z42_stale_fixtures hex_decode all_missing
z42_stale_fixtures-IsUsable = (_, _, refl, refl)

IsUsable-print :
    (sum256 : Bytes → Bytes) (quote : Bytes → Bytes) {inputs : Result Panic (List FixtureInput)}
    → IsUsable inputs
    → (fixtures : List FixtureInput) × (inputs ≡ ok fixtures)
      × ((out : Bytes) × (print_set sum256 quote fixtures ≡ ok out))
IsUsable-print sum256 quote (first, others, decoded, missing) =
    (first ∷ others, decoded, print_set_total sum256 quote first others missing)

-- Whatever SHA-256 and the quoting of verb `%q` are, `main` ends without a panic: every hexadecimal
-- literal decodes, every set is made, and every fixture is printed.
pub run_total :
    (sum256 : Bytes → Bytes) (quote : Bytes → Bytes) → (out : Bytes) × (run sum256 quote ≡ ok out)
unfolding run
run_total sum256 quote =
    let (base, base_is, (base_out, base_printed)) =
      IsUsable-print sum256 quote base_fixtures-IsUsable in
    let (z35, z35_is, (z35_out, z35_printed)) = IsUsable-print sum256 quote z35_fixtures-IsUsable in
    let (z37, z37_is, (z37_out, z37_printed)) = IsUsable-print sum256 quote z37_fixtures-IsUsable in
    let (wrong, wrong_is, (wrong_out, wrong_printed)) =
      IsUsable-print sum256 quote z42_wrong_version_fixtures-IsUsable in
    let (stale, stale_is, (stale_out, stale_printed)) =
      IsUsable-print sum256 quote z42_stale_fixtures-IsUsable in
    >>=_returns _ _ z35 z35_is (
      >>=_returns _ _ base_out
        (ap (λ inputs. inputs >>= print_set sum256 quote) base_is ∙ base_printed)
        (>>=_returns _ _ z35_out z35_printed (
          >>=_returns _ _ z37 z37_is (
            >>=_returns _ _ z37_out z37_printed (
              >>=_returns _ _ wrong wrong_is (
                >>=_returns _ _ stale stale_is (
                  >>=_returns _ _ wrong_out wrong_printed
                    (>>=_returns _ _ stale_out stale_printed (_, refl)))))))))
