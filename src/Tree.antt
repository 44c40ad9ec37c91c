-- ===== src/Tree.antt =====
-- cpp/src/tree.cpp: reading trees, rebuilding them, writing commits.
pub mod Read
pub mod Walk
pub mod Rebuild
pub mod WriteCommit
