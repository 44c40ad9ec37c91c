-- ===== src/Fs.antt =====
-- cpp/include/vost/fs.h and cpp/src/fs.cpp: snapshots of a branch, a tag or a commit.
pub mod Commit
pub mod Read
pub mod Glob
pub mod Write
pub mod History
pub mod Log
pub mod Steps
pub mod Advance
pub mod RoundTrip
pub mod ReadOnly
pub mod Undo
pub mod LogBounds
use vost.Common.{
  ℕ, Bool, true, false, Option, none, some, Str, codes, is_empty, ◌++◌, if◌then◌else◌, not, [],
}
use vost.Error.{Result, ok, err, permission, not_found}
use vost.Types.{ChangeReport}
use vost.Tree.WriteCommit.{Signature}

-- GitStoreInner, less the repository handle and the mutex
pub record Inner : Type 0 where
  pub path : Str
  pub signature : Signature
  -- of the object, by which the program compares two pointers to such objects
  pub address : ℕ

-- The hashes are empty strings in a snapshot of a branch with no commit.
pub record Fs : Type 0 where
  pub inner : Inner
  pub commit_oid_hex : Str
  pub tree_oid_hex : Str
  pub ref_name : Option Str
  pub writable : Bool
  pub changes : Option ChangeReport

unfoldable pub empty : Inner → Str → Fs
empty inner ref_name = record {
  inner = inner;
  commit_oid_hex = [];
  tree_oid_hex = [];
  ref_name = some ref_name;
  writable = true;
  changes = none;
}

unfoldable pub commit_hash : Fs → Option Str
commit_hash fs = if is_empty fs.commit_oid_hex then none else some fs.commit_oid_hex

unfoldable pub tree_hash : Fs → Option Str
tree_hash fs = if is_empty fs.tree_oid_hex then none else some fs.tree_oid_hex

abbrev pub read_only_message : Str → Option Str → Str
read_only_message verb none = codes "cannot " ++ (verb ++ codes " read-only snapshot")
read_only_message verb (some ref) =
    codes "cannot " ++ (verb ++ (codes " read-only snapshot (ref \"" ++ (ref ++ codes "\")")))

abbrev with_branch : Str → Option Str → Result Str
with_branch verb none = err (permission (codes "cannot " ++ (verb ++ codes " without a branch")))
with_branch verb (some ref) = ok ref

unfoldable pub require_writable : Str → Fs → Result Str
require_writable verb fs =
    if fs.writable
    then with_branch verb fs.ref_name
    else err (permission (read_only_message verb fs.ref_name))

unfoldable pub require_tree : Fs → Result Str
require_tree fs =
    if is_empty fs.tree_oid_hex
    then err (not_found (codes "no tree in snapshot"))
    else ok fs.tree_oid_hex
