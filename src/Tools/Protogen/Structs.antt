-- ===== src/Tools/Protogen/Structs.antt =====
-- What `parseStruct` returns: fields with numbers of their own.
use gno_ibc.Prelude.{
  ℕ, ◌≡◌, ◌≢◌, refl, ap, subst, ◌∙◌, sym, Bool-cases, Option-cases, inl, inr, Option, none, some,
  List, [], ◌∷◌, ◌++◌, Bytes, All, arith,
}
use gno_ibc.Prelude.Eq.{◌==◌, bytes_eq, nat_eq, ==_refl}
use gno_ibc.Prelude.Map.{Map, lookup, insert, lookup-insert}
use gno_ibc.Prelude.Result.{Result, ok, err, >>=-eq-ok, Result-cases}
use gno_ibc.Tools.Protogen.Parse.{
  Field, Message, AstField, StructError, no_fields, parse_tag, parse_names, pb_tag_of, parse_fields,
  parse_struct,
}
use gno_ibc.Tools.Protogen.Fields.{IsField, parse_tag-IsField, ok_injective, some_ne_none}

-- No two fields have one number.
abbrev pub AreDistinct : List Field → Type 0
AreDistinct [] = Unit
AreDistinct (f ∷ fields) = All (λ other. other.num ≢ f.num) fields × AreDistinct fields

All-snoc :
    (P : Field → Type 0) (fields : List Field) (f : Field)
    → All P fields
    → P f
    → All P (fields ++ f ∷ [])
All-snoc P [] f all here = (here, tt)
All-snoc P (g ∷ fields) f (first, rest) here = (first, All-snoc P fields f rest here)

All-map :
    (P Q : Field → Type 0)
    → ((f : Field) → P f → Q f)
    → (fields : List Field) → All P fields
    → All Q fields
All-map P Q f [] all = tt
All-map P Q f (g ∷ fields) (here, rest) = (f g here, All-map P Q f fields rest)

AreDistinct-snoc :
    (fields : List Field) (f : Field)
    → AreDistinct fields
    → All (λ g. f.num ≢ g.num) fields
    → AreDistinct (fields ++ f ∷ [])
AreDistinct-snoc [] f distinct apart = (tt, tt)
AreDistinct-snoc (g ∷ fields) f (first, rest) (here, apart) = (
  All-snoc (λ other. other.num ≢ g.num) fields f first here,
  AreDistinct-snoc fields f rest apart,
)

-- What the loops keep: the fields so far are well-formed, and their numbers are the ones seen.
abbrev IsSeen : Map ℕ Bytes → Field → Type 0
IsSeen seen f = (other : Bytes) × (lookup f.num seen ≡ some other)

record IsParsed (seen : Map ℕ Bytes) (fields : List Field) : Type 0 where
  well_formed : All IsField fields
  distinct : AreDistinct fields
  all_seen : All (IsSeen seen) fields

IsSeen-insert :
    (seen : Map ℕ Bytes) (n : ℕ) (fname : Bytes) (f : Field)
    → IsSeen seen f
    → IsSeen (insert n fname seen) f
IsSeen-insert seen n fname f (other, found) = elim (Bool-cases (n == f.num)) [
  | inl same ↦ (fname, rw (lookup-insert n f.num fname seen, same) refl)
  | inr apart ↦ (other, rw (lookup-insert n f.num fname seen, apart) found)
]

IsSeen-new : (seen : Map ℕ Bytes) (fname : Bytes) (f : Field) → IsSeen (insert f.num fname seen) f
IsSeen-new seen fname f = (fname, rw (lookup-insert f.num f.num fname seen, ==_refl f.num) refl)

-- One more field, of a number that was not seen.
IsParsed-snoc :
    (seen : Map ℕ Bytes) (fields : List Field) (fname : Bytes) (f : Field)
    → IsField f
    → lookup f.num seen ≡ none
    → IsParsed seen fields
    → IsParsed (insert f.num fname seen) (fields ++ f ∷ [])
IsParsed-snoc seen fields fname f here fresh parsed = record {
  well_formed = All-snoc IsField fields f parsed.well_formed here;
  distinct = AreDistinct-snoc fields f parsed.distinct (
      All-map (IsSeen seen) (λ g. f.num ≢ g.num)
        (λ g (other, found) same.
          some_ne_none (sym found ∙ ap (λ n. lookup n seen) (sym same) ∙ fresh))
        fields parsed.all_seen);
  all_seen =
      All-snoc (IsSeen (insert f.num fname seen)) fields f
        (All-map (IsSeen seen) (IsSeen (insert f.num fname seen))
          (λ g was. IsSeen-insert seen f.num fname g was) fields parsed.all_seen)
        (IsSeen-new seen fname f);
}

parse_names-IsParsed :
    (tag go_type : Bytes) (names : List Bytes) (seen : Map ℕ Bytes) (fields : List Field)
    {seen' : Map ℕ Bytes} {fields' : List Field}
    → IsParsed seen fields
    → parse_names tag go_type names seen fields ≡ ok (seen', fields')
    → IsParsed seen' fields'
unfolding parse_names
parse_names-IsParsed tag go_type [] seen fields {seen'} {fields'} parsed done =
    let same : (seen, fields) ≡ (seen', fields') = cc in
    subst (λ (pair : Map ℕ Bytes × List Field). IsParsed pair.0 pair.1) same parsed
parse_names-IsParsed tag go_type (fname ∷ names) seen fields parsed done =
    elim (Result-cases (parse_tag fname tag)) [
      | inr (e, failed) ↦ absurd (ground (arith, failed, done))
      | inl (f, read) ↦ elim (Option-cases (lookup f.num seen)) [
        | inr (other, dup) ↦ absurd (ground (arith, read, dup, done))
        | inl fresh ↦
            let here = parse_tag-IsField fname tag read in
            let f' = record f { go_type = go_type } in
            let here' : IsField f' = record {
              positive = here.positive;
              in_int64 = here.in_int64;
              has_functions = here.has_functions;
            } in
            parse_names-IsParsed tag go_type names (insert f.num fname seen) (fields ++ f' ∷ [])
              (IsParsed-snoc seen fields fname f' here' fresh parsed)
              (ground (arith, read, fresh, done))
      ]
    ]

message_of :
    (name : Bytes) (parsed : List Field) {m : Message}
    → (elim parsed as (λ _. Result StructError Message) [
      | [] ↦ err no_fields
      | first ∷ others ↦ ok (record { pkg = []; name = name; fields = first ∷ others })
    ])
      ≡ ok m
    → (m.fields ≡ parsed) × (parsed ≢ [])
message_of name [] done = absurd (cc)
message_of name (first ∷ others) {m} done =
    (ap (λ (made : Message). made.fields) (sym (ok_injective done)), λ e. absurd (cc))

module _ (unquote : Bytes → Option Bytes) (tag_lookup : Bytes → Option Bytes) where
  parse_fields-IsParsed :
      (asts : List AstField) (seen : Map ℕ Bytes) (fields : List Field) {parsed : List Field}
      → IsParsed seen fields
      → parse_fields unquote tag_lookup asts seen fields ≡ ok parsed
      → (seen' : Map ℕ Bytes) × IsParsed seen' parsed
  unfolding parse_fields
  parse_fields-IsParsed [] seen fields before done =
      (seen, subst (IsParsed seen) (ok_injective done) before)
  parse_fields-IsParsed (ast ∷ asts) seen fields {parsed} before done =
      let (found, tagged, rest) = >>=-eq-ok (pb_tag_of unquote tag_lookup ast.tag) _ done in
      elim found
          as (λ (tag : Option Bytes). tag ≡ found → (seen' : Map ℕ Bytes) × IsParsed seen' parsed) [
            | none ↦ λ e. parse_fields-IsParsed asts seen fields before (rw (← e) at rest)
            | some tag ↦ λ e.
                elim ast.names
                    as (λ (names : List Bytes).
                      names ≡ ast.names → (seen' : Map ℕ Bytes) × IsParsed seen' parsed) [
                        | [] ↦ λ e'. absurd (ground (arith, e, e', rest))
                        | first ∷ names ↦ λ e'.
                            let ((seen', fields'), named, more) =
                              >>=-eq-ok (parse_names tag ast.go_type (first ∷ names) seen fields) _
                                (rw (← e, ← e') at rest) in
                            parse_fields-IsParsed asts seen' fields'
                              (parse_names-IsParsed tag ast.go_type (first ∷ names) seen fields
                                before named)
                              more
                      ]
                  refl
          ]
        refl

  -- A struct that is accepted has a field; every field number is an int64 above 0 that no other field
  -- has, and a field of kind message names both its functions.
  pub parse_struct-IsWellFormed :
      (name : Bytes) (asts : List AstField) {m : Message}
      → parse_struct unquote tag_lookup name asts ≡ ok m
      → (m.fields ≢ []) × All IsField m.fields × AreDistinct m.fields
  unfolding parse_struct
  parse_struct-IsWellFormed name asts {m} done =
      let (parsed, looped, last) = >>=-eq-ok (parse_fields unquote tag_lookup asts [] []) _ done in
      let (seen, before) =
        parse_fields-IsParsed asts [] [] (record { well_formed = tt; distinct = tt; all_seen = tt })
          looped in
      let (same, nonempty) = message_of name parsed last in
      (λ empty. nonempty (sym same ∙ empty), rw same before.well_formed, rw same before.distinct)
