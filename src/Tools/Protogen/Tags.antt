-- ===== src/Tools/Protogen/Tags.antt =====
-- Struct tags, printed and read back.
use gno_ibc.Prelude.{
  ℕ, ◌^◌, ◌<◌, ◌≡◌, ◌≢◌, refl, ap, ◌∙◌, false, some, List, [], ◌∷◌, ◌++◌, Bytes, arith,
}
use gno_ibc.Prelude.Result.{ok, ◌>>=◌}
use gno_ibc.Tools.Protogen.Parse.{
  Kind, bytes, varint, int64, int32, bytes32, message, Field, parse_kind, parse_options,
  lacks_functions, parse_parts, parse_tag,
}
use gno_ibc.Encoding.Hex.{codes}
use gno_ibc.Encoding.Decimal.{decimal}
use gno_ibc.Tools.Protogen.Text.{trim_space, split, cut}
use gno_ibc.Tools.Protogen.Words.{
  IsWord, trim_space-IsWord, split-IsWord, split-append, decimal-IsWord, parse_number-decimal,
}

-- A tag, as a struct has it; only a message names its functions.
abbrev pub kind_name : Kind → Bytes
kind_name bytes = codes "bytes"
kind_name varint = codes "varint"
kind_name int64 = codes "int64"
kind_name int32 = codes "int32"
kind_name bytes32 = codes "bytes32"
kind_name message = codes "message"

abbrev pub print_options : Kind → Bytes → Bytes → Bytes
print_options message enc_fn dec_fn =
    44 ∷ ((codes "enc=" ++ enc_fn) ++ 44 ∷ (codes "dec=" ++ dec_fn))
print_options _ enc_fn dec_fn = []

abbrev pub function_of : Kind → Bytes → Bytes
function_of message fn = fn
function_of _ fn = []

pub print_tag : ℕ → Kind → Bytes → Bytes → Bytes
print_tag num kind enc_fn dec_fn =
    decimal num ++ 44 ∷ (kind_name kind ++ print_options kind enc_fn dec_fn)

abbrev pub field_of : Bytes → ℕ → Kind → Bytes → Bytes → Field
field_of fname num kind enc_fn dec_fn = record {
  name = fname;
  go_type = [];
  num = num;
  kind = kind;
  enc_fn = function_of kind enc_fn;
  dec_fn = function_of kind dec_fn;
}

parse_kind-kind_name : (kind : Kind) → parse_kind (kind_name kind) ≡ ok kind
unfolding parse_kind trim_space
parse_kind-kind_name bytes = refl
parse_kind-kind_name varint = refl
parse_kind-kind_name int64 = refl
parse_kind-kind_name int32 = refl
parse_kind-kind_name bytes32 = refl
parse_kind-kind_name message = refl

-- The parts after the number.
abbrev options_of : Kind → Bytes → Bytes → List Bytes
options_of message enc_fn dec_fn = (codes "enc=" ++ enc_fn) ∷ (codes "dec=" ++ dec_fn) ∷ []
options_of _ enc_fn dec_fn = []

split-rest :
    (kind : Kind) (enc_fn dec_fn : Bytes)
    → IsWord enc_fn
    → IsWord dec_fn
    → split 44 (kind_name kind ++ print_options kind enc_fn dec_fn)
      ≡ kind_name kind ∷ options_of kind enc_fn dec_fn
split-rest bytes enc_fn dec_fn enc dec = unfold split in refl
split-rest varint enc_fn dec_fn enc dec = unfold split in refl
split-rest int64 enc_fn dec_fn enc dec = unfold split in refl
split-rest int32 enc_fn dec_fn enc dec = unfold split in refl
split-rest bytes32 enc_fn dec_fn enc dec = unfold split in refl
split-rest message enc_fn dec_fn enc dec =
    let enc_opt = codes "enc=" ++ enc_fn in
    let dec_opt = codes "dec=" ++ dec_fn in
    split-append (codes "message") (enc_opt ++ 44 ∷ dec_opt) (ground arith)
    ∙ ap (λ rest. codes "message" ∷ rest)
        (split-append enc_opt dec_opt (refl, refl, (refl, refl, (refl, refl, (refl, refl, enc))))
          ∙ ap (λ rest. enc_opt ∷ rest)
              (split-IsWord dec_opt (refl, refl, (refl, refl, (refl, refl, (refl, refl, dec))))))

split-print_tag :
    (num : ℕ) (kind : Kind) (enc_fn dec_fn : Bytes)
    → IsWord enc_fn
    → IsWord dec_fn
    → split 44 (print_tag num kind enc_fn dec_fn)
      ≡ decimal num ∷ kind_name kind ∷ options_of kind enc_fn dec_fn
unfolding print_tag
split-print_tag num kind enc_fn dec_fn enc dec =
    split-append (decimal num) (kind_name kind ++ print_options kind enc_fn dec_fn)
      (decimal-IsWord num)
    ∙ ap (λ rest. decimal num ∷ rest) (split-rest kind enc_fn dec_fn enc dec)

cut_option :
    (fn : Bytes)
    → IsWord fn
    → (cut 61 (trim_space (codes "enc=" ++ fn)) ≡ some (codes "enc", fn))
      × (cut 61 (trim_space (codes "dec=" ++ fn)) ≡ some (codes "dec", fn))
cut_option fn w = (
  ap (cut 61) (
        trim_space-IsWord (codes "enc=" ++ fn)
          (refl, refl, (refl, refl, (refl, refl, (refl, refl, w)))))
      ∙ (unfold cut in refl),
  ap (cut 61) (
        trim_space-IsWord (codes "dec=" ++ fn)
          (refl, refl, (refl, refl, (refl, refl, (refl, refl, w)))))
      ∙ (unfold cut in refl),
)

parse_options-options_of :
    (kind : Kind) (enc_fn dec_fn : Bytes)
    → IsWord enc_fn
    → IsWord dec_fn
    → parse_options [] [] (options_of kind enc_fn dec_fn)
      ≡ ok (function_of kind enc_fn, function_of kind dec_fn)
unfolding parse_options
parse_options-options_of message enc_fn dec_fn enc dec =
    ground (arith, (cut_option enc_fn enc).0, (cut_option dec_fn dec).1)
parse_options-options_of bytes enc_fn dec_fn enc dec = refl
parse_options-options_of varint enc_fn dec_fn enc dec = refl
parse_options-options_of int64 enc_fn dec_fn enc dec = refl
parse_options-options_of int32 enc_fn dec_fn enc dec = refl
parse_options-options_of bytes32 enc_fn dec_fn enc dec = refl

has_functions :
    (kind : Kind) (enc_fn dec_fn : Bytes)
    → enc_fn ≢ []
    → dec_fn ≢ []
    → lacks_functions kind (function_of kind enc_fn) (function_of kind dec_fn) ≡ false
has_functions message [] dec_fn e d = absurd (e refl)
has_functions message (b ∷ bs) [] e d = absurd (d refl)
has_functions message (b ∷ bs) (c ∷ cs) e d = refl
has_functions bytes enc_fn dec_fn e d = refl
has_functions varint enc_fn dec_fn e d = refl
has_functions int64 enc_fn dec_fn e d = refl
has_functions int32 enc_fn dec_fn e d = refl
has_functions bytes32 enc_fn dec_fn e d = refl

-- A tag of a number of an int64 above 0, a kind and, for a message, two functions that are named without
-- spaces and commas, is read back as its field.
pub parse_tag-print_tag :
    (fname : Bytes) (num : ℕ) (kind : Kind) (enc_fn dec_fn : Bytes)
    → 0 < num
    → num < 2 ^ 63
    → IsWord enc_fn
    → IsWord dec_fn
    → enc_fn ≢ []
    → dec_fn ≢ []
    → parse_tag fname (print_tag num kind enc_fn dec_fn)
      ≡ ok (field_of fname num kind enc_fn dec_fn)
unfolding parse_tag parse_parts
parse_tag-print_tag fname num kind enc_fn dec_fn positive small enc dec some_enc some_dec =
    rw
      (
        parse_tag,
        split-print_tag num kind enc_fn dec_fn enc dec,
        parse_number-decimal num positive small,
        ◌>>=◌,
        parse_kind-kind_name kind,
        parse_options-options_of kind enc_fn dec_fn enc dec,
        has_functions kind enc_fn dec_fn some_enc some_dec,
      )
      refl
