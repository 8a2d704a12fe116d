-- ===== src/Tools/Protogen/Dir.antt =====
-- tools/protogen/main.go: `processDir`, `render` and `main`. The file system, the parser, the template and
-- gofmt are parameters; a file that cannot be written ends the run after the files before it.
use gno_ibc.Prelude.{
  ℕ, ◌&&◌, ◌||◌, not, Bool, true, false, Option, none, some, List, [], ◌∷◌, ◌++◌, Bytes,
  if◌then◌else◌,
}
use gno_ibc.Prelude.Eq.{bytes_eq}
use gno_ibc.Prelude.Result.{Result, ok, err, ◌>>=◌}
use gno_ibc.Encoding.Hex.{codes}
use gno_ibc.Tools.Fixtures.Sets.{bytes_lt}
use gno_ibc.Tools.Protogen.Text.{has_suffix, snake_case}
use gno_ibc.Tools.Protogen.Parse.{Message, AstField, StructError, comment_group_has, parse_struct}

-- A parsed file: its package, and its declarations. Those of types have a comment group and specs; a type
-- that is no struct has no fields.
pub record TypeSpec : Type 0 where
  pub name : Bytes
  pub doc : List Bytes
  pub struct_fields : Option (List AstField)

pub data Decl : Type 0 where
  type_decl : List Bytes → List TypeSpec → Decl
  other_decl : Decl

pub record File : Type 0 where
  pub package_name : Bytes
  pub decls : List Decl

pub data DirError : Type 0 where
  file_system : DirError
  parse_failed : Bytes → DirError
  not_a_struct : Bytes → Bytes → DirError
  bad_struct : Bytes → StructError → DirError
  render_failed : Bytes → DirError

abbrev pub proto_marker : Bytes
proto_marker = codes "//gno:protobuf"

-- The names that the loop does not skip
unfoldable pub is_source : Bytes → Bool
is_source name =
    has_suffix name (codes ".gno")
    && not (
        has_suffix name (codes "_test.gno")
        || has_suffix name (codes "_filetest.gno")
        || has_suffix name (codes "_pb_gen.gno"))

-- `sort.Slice` by the names
unfoldable pub insert_message : Message → List Message → List Message
insert_message m [] = m ∷ []
insert_message m (other ∷ msgs) =
    let rest = insert_message m msgs in
    if bytes_lt m.name other.name then m ∷ other ∷ msgs else other ∷ rest

unfoldable pub insert_messages : List Message → List Message → List Message
unfolding insert_message
insert_messages sorted [] = sorted
insert_messages sorted (m ∷ msgs) = insert_messages (insert_message m sorted) msgs

-- What the tool calls of Go's libraries and of the file system.
pub record Env : Type 0 where
  pub read_dir : Bytes → Option (List Bytes)
  pub read_file : Bytes → Option Bytes
  pub parse_file : Bytes → Bytes → Option File
  pub unquote : Bytes → Option Bytes
  pub tag_lookup : Bytes → Option Bytes
  pub execute : Message → Option Bytes
  pub format_source : Bytes → Option Bytes
  pub join : Bytes → Bytes → Bytes
  pub can_write : Bytes → Bytes → Bool

module _ (env : Env) where
  -- The loop over the specs of a declaration
  unfoldable pub collect_specs :
      Bytes → Bytes → Bool → List TypeSpec → List Message → Result DirError (List Message)
  collect_specs file pkg group_has_marker [] msgs = ok msgs
  collect_specs file pkg group_has_marker (spec ∷ specs) msgs =
      elim (group_has_marker || comment_group_has spec.doc proto_marker) [
        | false ↦ collect_specs file pkg group_has_marker specs msgs
        | true ↦ elim spec.struct_fields [
          | none ↦ err (not_a_struct file spec.name)
          | some fields ↦ elim (parse_struct env.unquote env.tag_lookup spec.name fields) [
            | err e ↦ err (bad_struct spec.name e)
            | ok m ↦
                collect_specs file pkg group_has_marker specs (msgs ++ record m { pkg = pkg } ∷ [])
          ]
        ]
      ]

  unfoldable pub collect_decls :
      Bytes → Bytes → List Decl → List Message → Result DirError (List Message)
  collect_decls file pkg [] msgs = ok msgs
  collect_decls file pkg (other_decl ∷ decls) msgs = collect_decls file pkg decls msgs
  collect_decls file pkg (type_decl doc specs ∷ decls) msgs =
      collect_specs file pkg (comment_group_has doc proto_marker) specs msgs
      >>= collect_decls file pkg decls

  -- `pkgName`: the package of the first file
  abbrev pub package_of : Bytes → Bytes → Bytes
  package_of [] first = first
  package_of (b ∷ bs) first = b ∷ bs

  -- The loop over the entries of the directory
  unfoldable pub collect_files :
      Bytes → Bytes → List Bytes → List Message → Result DirError (List Message)
  collect_files dir pkg [] msgs = ok msgs
  collect_files dir pkg (name ∷ names) msgs = elim (is_source name) [
    | false ↦ collect_files dir pkg names msgs
    | true ↦ elim (env.read_file (env.join dir name)) [
      | none ↦ err file_system
      | some src ↦ elim (env.parse_file name src) [
        | none ↦ err (parse_failed name)
        | some file ↦
            collect_decls name (package_of pkg file.package_name) file.decls msgs
            >>= collect_files dir (package_of pkg file.package_name) names
      ]
    ]
  ]

  -- `render`
  unfoldable pub render : Message → Option Bytes
  render m = elim (env.execute m) [ none ↦ none | some src ↦ env.format_source src ]

  -- The loop that writes: the files that were written, and the error that ended it.
  unfoldable pub write_messages : Bytes → List Message → List (Bytes × Bytes) × Option DirError
  write_messages dir [] = ([], none)
  write_messages dir (m ∷ msgs) = elim (render m) [
    | none ↦ ([], some (render_failed m.name))
    | some out ↦
        let out_path = env.join dir (snake_case m.name ++ codes "_pb_gen.gno") in
        elim (env.can_write out_path out) [
          | false ↦ ([], some file_system)
          | true ↦ let (written, e) = write_messages dir msgs in ((out_path, out) ∷ written, e)
        ]
  ]

  -- `processDir`
  unfoldable pub process_dir : Bytes → List (Bytes × Bytes) × Option DirError
  process_dir dir = elim (env.read_dir dir) [
    | none ↦ ([], some file_system)
    | some entries ↦ elim (collect_files dir [] entries []) [
      | err e ↦ ([], some e)
      | ok msgs ↦ write_messages dir (insert_messages [] msgs)
    ]
  ]

  -- `main`, by its arguments: the files that were written, and the exit status.
  unfoldable pub process_dirs : List Bytes → List (Bytes × Bytes) × ℕ
  process_dirs [] = ([], 0)
  process_dirs (dir ∷ dirs) =
      let (written, e) = process_dir dir in
      let (others, status) = process_dirs dirs in
      elim e [ none ↦ (written ++ others, status) | some _ ↦ (written, 1) ]

  unfoldable pub run : List Bytes → List (Bytes × Bytes) × ℕ
  run [] = ([], 2)
  run (dir ∷ dirs) = process_dirs (dir ∷ dirs)
