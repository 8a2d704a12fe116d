-- ===== src/Tools/Protogen.antt =====
-- tools/protogen/main.go: struct tags, structs and names. Text is ASCII, as its code points. The parser,
-- `strconv.Unquote`, the lookup in a struct tag and the printer of types are Go's, and parameters.
pub mod Text
pub mod Parse
pub mod Fields
pub mod Structs
pub mod Dir
pub mod Words
pub mod Tags
pub mod Tests
