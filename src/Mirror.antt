-- ===== src/Mirror.antt =====
-- cpp/src/mirror.cpp: maps of references, URLs and the headers of bundles.
pub mod Refs
pub mod Urls
pub mod Bundle
pub mod Diffs
pub mod Names
pub mod RoundTrip
