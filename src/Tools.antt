-- ===== src/Tools.antt =====
-- The command-line programs under tools/.
pub mod Fixtures
pub mod TestClient
pub mod StorageProof
pub mod EmbeddedProof
pub mod Protogen
