-- ===== src/Tools/Fixtures.antt =====
-- tools/cometbls-fixtures/main.go: Merkle proofs for the tests of the CometBLS light client.
pub mod Wire
pub mod Iavl
pub mod Sets
pub mod Main
pub mod Tests
