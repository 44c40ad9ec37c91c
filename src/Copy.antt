-- ===== src/Copy.antt =====
-- cpp/src/copy.cpp: files copied between a snapshot and the local disk or another snapshot.
pub mod Filters
pub mod Disk
pub mod In
pub mod FromRef
pub mod DryRun
pub mod Nested
pub mod Excludes
