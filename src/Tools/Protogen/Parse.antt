-- ===== src/Tools/Protogen/Parse.antt =====
-- tools/protogen/main.go: `parseTag`, `parseStruct` and `commentGroupHas`.
use gno_ibc.Prelude.{
  ℕ, ◌||◌, Bool, true, false, Option, none, some, List, [], ◌∷◌, ◌++◌, Bytes, eqb, if◌then◌else◌,
}
use gno_ibc.Prelude.Eq.{◌==◌, bytes_eq, nat_eq}
use gno_ibc.Prelude.Map.{Map, lookup, insert}
use gno_ibc.Prelude.Result.{Result, ok, err, ◌>>=◌}
use gno_ibc.Encoding.Hex.{codes}
use gno_ibc.Tools.Protogen.Text.{trim_space, split, cut, atoi, snake_case, spaces_for_underscores}

-- `kind`, `Field` and `Message`
pub data Kind : Type 0 where
  bytes varint int64 int32 bytes32 message : Kind

pub record Field : Type 0 where
  pub name : Bytes
  pub go_type : Bytes
  pub num : ℕ
  pub kind : Kind
  pub enc_fn : Bytes
  pub dec_fn : Bytes

pub record Message : Type 0 where
  pub pkg : Bytes
  pub name : Bytes
  pub fields : List Field

-- The errors of `parseTag`, and of `parseStruct`.
pub data TagError : Type 0 where
  no_kind invalid_number unknown_kind invalid_option unknown_option : Bytes → TagError
  no_functions : TagError

pub data StructError : Type 0 where
  invalid_tag embedded no_fields : StructError
  bad_field : Bytes → TagError → StructError
  duplicate : ℕ → Bytes → Bytes → StructError

-- `ErrName`
unfoldable pub err_name : Field → Bytes
err_name f = spaces_for_underscores (snake_case f.name)

-- The cases of `parseTag`: the number, the kind and the options
unfoldable pub parse_number : Bytes → Result TagError ℕ
parse_number part = elim (atoi (trim_space part)) [
  | none ↦ err (invalid_number part)
  | some (negative, n) ↦ if negative || eqb n 0 then err (invalid_number part) else ok n
]

abbrev pub kind_of : Bytes → Option Kind
kind_of s =
    if s == codes "bytes"
    then some bytes
    else if s == codes "varint"
    then some varint
    else if s == codes "int64"
    then some int64
    else if s == codes "int32"
    then some int32
    else if s == codes "bytes32"
    then some bytes32
    else if s == codes "message"
    then some message
    else none

unfoldable pub parse_kind : Bytes → Result TagError Kind
parse_kind part = elim (kind_of (trim_space part)) [
  | none ↦ err (unknown_kind part)
  | some kind ↦ ok kind
]

unfoldable pub parse_options : Bytes → Bytes → List Bytes → Result TagError (Bytes × Bytes)
parse_options enc_fn dec_fn [] = ok (enc_fn, dec_fn)
parse_options enc_fn dec_fn (opt ∷ opts) = elim (cut 61 (trim_space opt)) [
  | none ↦ err (invalid_option (trim_space opt))
  | some (k, v) ↦ elim (k == codes "enc") [
    | true ↦ parse_options v dec_fn opts
    | false ↦ elim (k == codes "dec") [
      | true ↦ parse_options enc_fn v opts
      | false ↦ err (unknown_option k)
    ]
  ]
]

-- `f.Kind == kindMessage && (f.EncFn == "" || f.DecFn == "")`
abbrev pub lacks_functions : Kind → Bytes → Bytes → Bool
lacks_functions message [] dec_fn = true
lacks_functions message (b ∷ bs) [] = true
lacks_functions message (b ∷ bs) (c ∷ cs) = false
lacks_functions _ enc_fn dec_fn = false

unfoldable pub parse_parts : Bytes → Bytes → Bytes → List Bytes → Result TagError Field
parse_parts fname first second opts = do
  num ← parse_number first
  kind ← parse_kind second
  (enc_fn, dec_fn) ← parse_options [] [] opts
  if lacks_functions kind enc_fn dec_fn
      then err no_functions
      else ok (record {
        name = fname;
        go_type = [];
        num = num;
        kind = kind;
        enc_fn = enc_fn;
        dec_fn = dec_fn;
      })

-- `parseTag`
unfoldable pub parse_tag : Bytes → Bytes → Result TagError Field
parse_tag fname tag = elim (split 44 tag) [
  | [] ↦ err (no_kind tag)
  | first ∷ others ↦ elim others [
    | [] ↦ err (no_kind tag)
    | second ∷ opts ↦ parse_parts fname first second opts
  ]
]

-- A field of a struct, as the parser gives it; its type as `typeString` prints it.
pub record AstField : Type 0 where
  pub names : List Bytes
  pub tag : Option Bytes
  pub go_type : Bytes

-- `commentGroupHas`; a group that is nil has no comments
unfoldable pub comment_group_has : List Bytes → Bytes → Bool
comment_group_has [] marker = false
comment_group_has (text ∷ comments) marker =
    let rest = comment_group_has comments marker in if trim_space text == marker then true else rest

-- The loop of `parseStruct` over the names of one declaration, with the numbers seen and the fields.
unfoldable pub parse_names :
    Bytes
    → Bytes
    → List Bytes
    → Map ℕ Bytes
    → List Field
    → Result StructError (Map ℕ Bytes × List Field)
parse_names tag go_type [] seen fields = ok (seen, fields)
parse_names tag go_type (fname ∷ names) seen fields = elim (parse_tag fname tag) [
  | err e ↦ err (bad_field fname e)
  | ok f ↦ elim (lookup f.num seen) [
    | some other ↦ err (duplicate f.num other fname)
    | none ↦
        parse_names tag go_type names (insert f.num fname seen)
          (fields ++ record f { go_type = go_type } ∷ [])
  ]
]

module _ (unquote : Bytes → Option Bytes) (tag_lookup : Bytes → Option Bytes) where
  -- The tag of a field: none where the field is skipped.
  unfoldable pub pb_tag_of : Option Bytes → Result StructError (Option Bytes)
  pb_tag_of none = ok none
  pb_tag_of (some quoted) = elim (unquote quoted) [
    | none ↦ err invalid_tag
    | some raw ↦ ok (tag_lookup raw)
  ]

  unfoldable pub parse_fields :
      List AstField → Map ℕ Bytes → List Field → Result StructError (List Field)
  parse_fields [] seen fields = ok fields
  parse_fields (field ∷ others) seen fields = pb_tag_of field.tag >>= λ found. elim found [
    | none ↦ parse_fields others seen fields
    | some tag ↦ elim field.names [
      | [] ↦ err embedded
      | first ∷ names ↦
          parse_names tag field.go_type (first ∷ names) seen fields >>= λ (seen', fields').
          parse_fields others seen' fields'
    ]
  ]

  -- `parseStruct`
  unfoldable pub parse_struct : Bytes → List AstField → Result StructError Message
  parse_struct name fields = do
    parsed ← parse_fields fields [] []
    elim parsed [
      | [] ↦ err no_fields
      | first ∷ others ↦ ok (record { pkg = []; name = name; fields = first ∷ others })
    ]
