-- ===== src/Tools/Protogen/Fields.antt =====
-- What `parseTag` returns: a field in range, with the functions that it needs.
use gno_ibc.Prelude.{
  ℕ, ◌^◌, ◌<◌, ◌≡◌, ◌≢◌, ◌⊎◌, refl, subst, true, false, Bool-cases, Option-cases, inl, inr, Option,
  none, some, List, [], ◌∷◌, Bytes, arith,
}
use gno_ibc.Prelude.Eq.{bytes_eq, nat_eq}
use gno_ibc.Prelude.Result.{Result, ok, >>=-eq-ok}
use gno_ibc.Tools.Protogen.Text.{trim_space, split, atoi}
use gno_ibc.Tools.Protogen.Parse.{
  Kind, message, bytes, varint, int64, int32, bytes32, Field, TagError, parse_number, parse_kind,
  parse_options, lacks_functions, parse_parts, parse_tag,
}

-- A field number of an int64 above 0, and both functions where the kind is a message.
pub record IsField (f : Field) : Type 0 where
  pub positive : 0 < f.num
  pub in_int64 : f.num < 2 ^ 63
  pub has_functions : (f.kind ≢ message) ⊎ ((f.enc_fn ≢ []) × (f.dec_fn ≢ []))

pub ok_injective : {E A : Type 0} {a b : A} → ◌≡◌ {A = Result E A} (ok a) (ok b) → a ≡ b
ok_injective e = cc

pub some_ne_none : {A : Type 0} {a : A} → ◌≡◌ {A = Option A} (some a) none → ⊥
some_ne_none e = cc

atoi-bound : (s : Bytes) {n : ℕ} → atoi s ≡ some (false, n) → n < 2 ^ 63
unfolding atoi
atoi-bound [] e = ground arith
atoi-bound (c ∷ cs) e = ground arith

parse_number-eq-ok : (part : Bytes) {n : ℕ} → parse_number part ≡ ok n → (0 < n) × (n < 2 ^ 63)
unfolding parse_number
parse_number-eq-ok part done = elim (Option-cases (atoi (trim_space part))) [
  | inl bad ↦ absurd (ground (arith, bad, done))
  | inr ((true, n'), read) ↦ absurd (ground (arith, read, done))
  | inr ((false, n'), read) ↦
      let bound = atoi-bound (trim_space part) read in ground (arith, read, done, bound)
]

-- The guard lets only such a field through.
names_functions :
    (kind : Kind) (enc_fn dec_fn : Bytes)
    → lacks_functions kind enc_fn dec_fn ≡ false
    → (kind ≢ message) ⊎ ((enc_fn ≢ []) × (dec_fn ≢ []))
names_functions message [] dec_fn has = absurd (cc)
names_functions message (b ∷ bs) [] has = absurd (cc)
names_functions message (b ∷ bs) (c ∷ cs) has = inr (λ e. absurd (cc), λ e. absurd (cc))
names_functions bytes enc_fn dec_fn has = inl (λ e. absurd (cc))
names_functions varint enc_fn dec_fn has = inl (λ e. absurd (cc))
names_functions int64 enc_fn dec_fn has = inl (λ e. absurd (cc))
names_functions int32 enc_fn dec_fn has = inl (λ e. absurd (cc))
names_functions bytes32 enc_fn dec_fn has = inl (λ e. absurd (cc))

parse_parts-IsField :
    (fname first second : Bytes) (opts : List Bytes) {f : Field}
    → parse_parts fname first second opts ≡ ok f
    → IsField f
unfolding parse_parts
parse_parts-IsField fname first second opts {f} done =
    let (num, numbered, rest) = >>=-eq-ok (parse_number first) _ done in
    let (kind, kinded, rest') = >>=-eq-ok (parse_kind second) _ rest in
    let ((enc_fn, dec_fn), opted, last) = >>=-eq-ok (parse_options [] [] opts) _ rest' in
    let (positive, in_int64) = parse_number-eq-ok first numbered in
    elim (Bool-cases (lacks_functions kind enc_fn dec_fn)) [
      | inl lacks ↦ absurd (ground (arith, lacks, last))
      | inr has ↦
          let made : ◌≡◌ {A = Result TagError Field}
              (ok (record {
                name = fname;
                go_type = [];
                num = num;
                kind = kind;
                enc_fn = enc_fn;
                dec_fn = dec_fn;
              }))
              (ok f) =
            rw has at last in
          subst IsField (ok_injective made) (record {
            positive = positive;
            in_int64 = in_int64;
            has_functions = names_functions kind enc_fn dec_fn has;
          })
    ]

pub parse_tag-IsField : (fname tag : Bytes) {f : Field} → parse_tag fname tag ≡ ok f → IsField f
unfolding parse_tag
parse_tag-IsField fname tag {f} done =
    elim (split 44 tag) as (λ parts. parts ≡ split 44 tag → IsField f) [
      | [] ↦ λ e. absurd (ground (arith, e, done))
      | first ∷ others ↦ elim others as (λ opts. first ∷ opts ≡ split 44 tag → IsField f) [
        | [] ↦ λ e. absurd (ground (arith, e, done))
        | second ∷ opts ↦
            λ e. parse_parts-IsField fname first second opts (rw (← e, parse_tag) at done)
      ]
    ]
      refl
