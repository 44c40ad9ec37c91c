-- ===== src/Fs/Commit.antt =====
-- cpp/src/lock.cpp, and `commit_changes` of cpp/src/fs.cpp.
use vost.Common.{
  true, false, Option, none, some, List, [], ◌∷◌, ◌++◌, Str, codes, str_eq, is_empty, if◌then◌else◌,
}
use vost.Error.{Error, Result, ok, err, vost_error, io_error, git_error, stale_snapshot}
use vost.Types.{ChangeReport}
use vost.Platform.{Platform, Attempt, acquired, would_block, failed}
use vost.Exec.{Exec, ret, reading, lift, ◌>>=◌, ◌>>◌}
use vost.Tree.Read.{need}
use vost.Tree.Rebuild.{Write, rebuild_tree, zeros}
use vost.Tree.WriteCommit.{write_commit}
use vost.Fs.{Inner, Fs, require_writable}

-- The loop over the attempts of flock. The list ends at the deadline.
unfoldable pub acquire : List Attempt → Result (Unit {0})
acquire [] = err (vost_error (codes "timeout waiting for repo lock: "))
acquire (acquired ∷ rest) = ok tt
acquire (would_block ∷ rest) = acquire rest
acquire (failed ∷ rest) = err (io_error (codes "flock failed: "))

abbrev pub branch_ref : Str → Str
branch_ref ref = codes "refs/heads/" ++ ref

module _ (p : Platform) where
  open p use {
    Repo, Oid, Reference, oid_fromstr, oid_tostr, lock_attempts, reference_lookup, reference_peel,
    reference_set_target, reference_create,
  }

  unfoldable pub take_lock : Inner → Repo → Result (Unit {0})
  unfolding acquire
  take_lock inner repo = elim (lock_attempts repo inner.path) [
    | none ↦ err (io_error (codes "cannot open lock file: "))
    | some attempts ↦ acquire attempts
  ]

  unfoldable pub with_repo_lock : {A : Type 0} → Inner → Exec Repo A → Exec Repo A
  unfolding take_lock
  with_repo_lock inner fn = do reading (take_lock inner); fn

  -- The commit that a reference names, as its hash.
  unfoldable pub ref_commit : Repo → Str → Option Str
  ref_commit repo refname = elim (reference_lookup repo refname) [
    | none ↦ none
    | some ref ↦ elim (reference_peel repo ref) [ none ↦ none | some oid ↦ some (oid_tostr oid) ]
  ]

  abbrev pub stale_error : Str → Error
  stale_error ref =
      stale_snapshot (codes "branch '" ++ (ref ++ codes "' has advanced (concurrent write)"))

  -- CAS check: the branch tip must still match the snapshot's commit.
  unfoldable pub check_tip : Str → Fs → Repo → Result (Unit {0})
  check_tip ref fs repo = elim (ref_commit repo (branch_ref ref)) [
    | none ↦ ok tt
    | some cur_hex ↦ if str_eq cur_hex fs.commit_oid_hex then ok tt else err (stale_error ref)
  ]

  -- A call that changes references: an error, or the new repository.
  unfoldable pub committing : (Repo → Option Repo) → Error → Exec Repo (Unit {0})
  committing call e repo = elim (call repo) [ none ↦ (err e, repo) | some repo' ↦ (ok tt, repo') ]

  -- A call that writes an object: an error, or its hash and the new repository.
  unfoldable pub storing : (Repo → Option (Oid × Repo)) → Str → Exec Repo Oid
  storing call context repo = elim (call repo) [
    | none ↦ (err (git_error context), repo)
    | some (oid, repo') ↦ (ok oid, repo')
  ]

  unfoldable pub move_or_create : Str → Oid → Str → Repo → Option Repo
  move_or_create refname new_oid message repo = elim (reference_lookup repo refname) [
    | none ↦ reference_create repo refname new_oid false message
    | some existing ↦ reference_set_target repo existing new_oid message
  ]

  unfoldable pub update_ref : Str → Fs → Str → Str → Exec Repo (Unit {0})
  unfolding move_or_create
  update_ref ref fs new_commit_hex message = do
    new_oid ← lift (need (oid_fromstr new_commit_hex) (git_error (codes "invalid new commit oid")))
    lift (
        if is_empty fs.commit_oid_hex then ok tt else elim (oid_fromstr fs.commit_oid_hex) [
          | none ↦ err (git_error (codes "invalid old commit oid"))
          | some _ ↦ ok tt
        ])
    committing
        (λ repo.
          if is_empty fs.commit_oid_hex
          then reference_create repo (branch_ref ref) new_oid false message
          else move_or_create (branch_ref ref) new_oid message repo)
        (git_error (codes "git_reference update"))

  abbrev pub base_tree : Fs → Str
  base_tree fs = if is_empty fs.tree_oid_hex then zeros else fs.tree_oid_hex

  abbrev pub all_parents : Fs → List Str → List Str
  all_parents fs extra = if is_empty fs.commit_oid_hex then extra else fs.commit_oid_hex ∷ extra

  -- What runs under the lock: the check, the new tree, the new commit, the branch.
  unfoldable pub commit_locked :
      Str → Fs → List Write → List Str → Str → List Str → Exec Repo (Str × Str)
  unfolding check_tip update_ref
  commit_locked ref fs writes removes message extra = do
    reading (check_tip ref fs)
    new_tree ← rebuild_tree p (base_tree fs) writes removes
    new_commit ← write_commit p new_tree (all_parents fs extra) fs.inner.signature message
    update_ref ref fs new_commit message
    ret (new_commit, new_tree)

  abbrev pub advanced : Fs → Option ChangeReport → Str × Str → Fs
  advanced fs report (commit, tree) = record fs {
    commit_oid_hex = commit;
    tree_oid_hex = tree;
    writable = true;
    changes = report;
  }

  unfoldable pub commit_changes :
      Fs → List Write → List Str → Str → Option ChangeReport → List Str → Exec Repo Fs
  unfolding with_repo_lock commit_locked
  commit_changes fs writes removes message report extra = do
    ref ← lift (require_writable (codes "write") fs)
    made ← with_repo_lock fs.inner (commit_locked ref fs writes removes message extra)
    ret (advanced fs report made)
