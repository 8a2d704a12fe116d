-- ===== src/Tools/Protogen/Tests.antt =====
-- Runs on concrete tags and structs; the toy parser hands a tag on as it is.
use gno_ibc.Prelude.{◌≡◌, ◌≢◌, refl, none, some, List, [], ◌∷◌, All, arith}
use gno_ibc.Prelude.Result.{ok, err}
use gno_ibc.Prelude.Map.{lookup, insert}
use gno_ibc.Encoding.Hex.{codes}
use gno_ibc.Tools.Protogen.Text.{trim_space, split, cut, atoi}
use gno_ibc.Tools.Protogen.Parse.{
  message, Message, AstField, parse_number, parse_kind, parse_options, parse_parts, parse_tag,
  parse_names, pb_tag_of, parse_fields, parse_struct, duplicate,
}
use gno_ibc.Tools.Protogen.Fields.{IsField}
use gno_ibc.Tools.Protogen.Structs.{AreDistinct, parse_struct-IsWellFormed}
use gno_ibc.Tools.Protogen.Tags.{print_tag, field_of, parse_tag-print_tag}

parse_tag-print_tag_example :
    parse_tag (codes "Header") (print_tag 3 message (codes "enc") (codes "dec"))
    ≡ ok (field_of (codes "Header") 3 message (codes "enc") (codes "dec"))
parse_tag-print_tag_example =
    parse_tag-print_tag (codes "Header") 3 message (codes "enc") (codes "dec") (omega arith)
      (omega arith) (ground arith) (ground arith) (λ e. cc) (λ e. cc)

-- Spaces are allowed, and numbers may come in any order.
abbrev header : List AstField
header =
    record { names = codes "Height" ∷ []; tag = some (codes "2, varint"); go_type = codes "uint64" }
    ∷ record { names = codes "note" ∷ []; tag = none; go_type = codes "string" }
    ∷ record { names = codes "Hash" ∷ []; tag = some (codes "1,bytes32"); go_type = codes "H256" }
    ∷ []

parsed : Message
unfolding parse_struct parse_fields pb_tag_of parse_names parse_tag parse_parts parse_number
    parse_kind parse_options trim_space split cut atoi lookup insert
parsed = elim (parse_struct some some (codes "Header") header) [
  | ok m ↦ m
  | err e ↦ record { pkg = []; name = []; fields = [] }
]

header_accepted : parse_struct some some (codes "Header") header ≡ ok parsed
unfolding parsed
header_accepted = refl

parse_struct-IsWellFormed_example :
    (parsed.fields ≢ []) × All IsField parsed.fields × AreDistinct parsed.fields
parse_struct-IsWellFormed_example =
    parse_struct-IsWellFormed some some (codes "Header") header {m = parsed} header_accepted

-- A number that is used twice is refused.
twice :
    parse_struct some some (codes "Twice") (
      record {
        names = codes "A" ∷ codes "B" ∷ [];
        tag = some (codes "1,bytes");
        go_type = codes "string";
      }
      ∷ [])
    ≡ err (duplicate 1 (codes "A") (codes "B"))
unfolding parse_struct parse_fields pb_tag_of parse_names parse_tag parse_parts parse_number
    parse_kind parse_options trim_space split cut atoi lookup insert
twice = refl
