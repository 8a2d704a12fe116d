-- ===== src/Tools/TestClient/Print/Commit.antt =====
-- The proof data that `printCommit` prints.
