-- ===== src/Store.antt =====
-- cpp/src/gitstore.cpp: the store. `RefDict` is its branches and its tags, `Open` how it is opened
-- and created.
pub mod RefDict
pub mod Open
pub mod Refs
pub mod Frozen
pub mod Lookup
use vost.Common.{Bool, true, false, ℕ, Option, none, some, Str, codes, ◌++◌, ◌==◌, if◌then◌else◌}
use vost.Error.{Result, ok, err, ◌>>=◌, not_found, invalid_hash, git_error}
use vost.Types.{Bytes}
use vost.Platform.{Platform, Commit}
use vost.Tree.Read.{need}
use vost.Fs.{Inner, Fs}
use vost.Fs.Read.{cut}
use vost.Store.RefDict.{branches, tags, get, contains}

-- `try { f(); return true; } catch (...) { return false; }`
abbrev returns {ℓ} : {A : Type ℓ} → Result A → Bool
returns (err e) = false
returns (ok a) = true

module _ (p : Platform) where
  open p use {Repo, Oid, oid_fromstr, oid_tostr, commit_lookup, blob_lookup}

  -- A hash that names a commit gives a snapshot that cannot be written.
  unfoldable pub fs_of_hash : Inner → Str → Repo → Result Fs
  fs_of_hash inner ref repo = do
    oid ← need (oid_fromstr ref) (not_found (codes "ref not found: " ++ ref))
    commit ← need (commit_lookup repo oid) (not_found (codes "ref not found: " ++ ref))
    ok (record {
      inner = inner;
      commit_oid_hex = ref;
      tree_oid_hex = oid_tostr commit.tree_id;
      ref_name = none;
      writable = false;
      changes = none;
    })

  unfoldable pub fs : Inner → Str → Repo → Result Fs
  unfolding fs_of_hash contains get
  fs inner ref repo =
      if contains p (branches inner) ref repo
      then get p (branches inner) ref repo
      else if contains p (tags inner) ref repo
      then get p (tags inner) ref repo
      else fs_of_hash inner ref repo

  -- A size of 0 asks for all of the blob.
  unfoldable pub read_by_hash : Str → ℕ → ℕ → Repo → Result Bytes
  unfolding cut
  read_by_hash hash offset size repo = do
    oid ← need (oid_fromstr hash) (invalid_hash hash)
    raw ← need (blob_lookup repo oid) (git_error (codes "git_blob_lookup"))
    ok (cut raw offset (if size == 0 then none else some size))

  unfoldable pub has_hash : Str → Repo → Bool
  unfolding read_by_hash
  has_hash hash repo = returns (read_by_hash hash 0 0 repo)
