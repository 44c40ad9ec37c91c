-- ===== src/Notes.antt =====
-- cpp/src/notes.cpp: notes on objects.
pub mod Tree
pub mod Namespace
pub mod Batch
pub mod Names
pub mod Fanout
pub mod Cleared
pub mod Fanless
pub mod Updates
pub mod Refines
pub mod Build
pub mod Commits
pub mod Reads
pub mod Spaces
pub mod RoundTrip
pub mod Staging
