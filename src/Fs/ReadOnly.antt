-- ===== src/Fs/ReadOnly.antt =====
-- The operations of cpp/src/fs.cpp, cpp/src/copy.cpp and cpp/src/batch.cpp on a snapshot that may
-- not be written.
use vost.Common.{
  ℕ, ◌≡◌, ◌≢◌, refl, sym, ap, ◌∙◌, Bool, true, false, Option, none, List, Str, codes, if◌then◌else◌,
}
use vost.Error.{Error, Result, ok, err, err≢ok, >>=-eq-ok, permission, batch_closed}
use vost.Types.{Bytes, WriteEntry, ChangeReport}
use vost.Platform.{Platform}
use vost.Exec.Refused.{Refused, lift-Refused, reading-Refused}
use vost.Tree.Rebuild.{Write}
use vost.Fs.{Fs, require_writable, read_only_message}
use vost.Fs.Commit.{commit_changes}
use vost.Fs.Write.{
  WriteOptions, ApplyOptions, PathOptions, write, write_symlink, apply, plan_remove, remove,
  plan_move, move, plan_rename, rename,
}
use vost.Fs.History.{undo, redo}
use vost.Copy.Disk.{LocalDisk}
use vost.Copy.In.{CopyOptions, copy_in, sync_in}
use vost.Copy.FromRef.{CopyFromRefOptions, copy_from_ref}
use vost.Batch.{Batch, batch_message, finish_commit, commit}

-- What `require_writable` throws for the snapshot.
abbrev read_only : Str → Fs → Error
read_only verb fs = permission (read_only_message verb fs.ref_name)

require_writable-eq :
    (verb : Str) (fs : Fs)
    → fs.writable ≡ false
    → require_writable verb fs ≡ err (read_only verb fs)
unfolding require_writable
require_writable-eq verb fs w = rw w refl

module _ (p : Platform) (fs : Fs) (repo : p.Repo) (w : fs.writable ≡ false) where
  -- The test for a snapshot that may be written does not return.
  not_writable : (verb : Str) {ref : Str} → ¬ (require_writable verb fs ≡ ok ref)
  not_writable verb h = err≢ok (sym (require_writable-eq verb fs w) ∙ h)

  commit_changes-Refused :
      (writes : List Write) (removes : List Str) (message : Str) (report : Option ChangeReport)
      (extra : List Str)
      → Refused (commit_changes p fs writes removes message report extra) repo
  unfolding commit_changes
  commit_changes-Refused writes removes message report extra =
      lift-Refused _ _ repo (λ ref h. absurd (not_writable (codes "write") h))

  -- what the calls that write one path do, an error in the path included
  writes-Refused :
      (path content target : Str) (opts : WriteOptions)
      → Refused (write p fs path content opts) repo
        × Refused (write_symlink p fs path target opts) repo
  unfolding write write_symlink
  writes-Refused path content target opts = (
    lift-Refused _ _ repo (λ norm h. commit_changes-Refused _ _ _ _ _),
    lift-Refused _ _ repo (λ norm h. commit_changes-Refused _ _ _ _ _),
  )

  apply-Refused :
      (writes : List (Str × WriteEntry)) (removes : List Str) (opts : ApplyOptions)
      → Refused (apply p fs writes removes opts) repo
  unfolding apply
  apply-Refused writes removes opts =
      lift-Refused _ _ repo
        (λ internal h. lift-Refused _ _ repo (λ norms k. commit_changes-Refused _ _ _ _ _))

  -- what takes paths away from where they are
  moves-Refused :
      (paths : List Str) (src dest : Str) (path_opts : PathOptions) (opts : WriteOptions)
      → Refused (remove p fs paths path_opts) repo
        × Refused (move p fs paths dest path_opts) repo
        × Refused (rename p fs src dest opts) repo
  unfolding remove plan_remove move plan_move rename plan_rename
  moves-Refused paths src dest path_opts opts = (
    reading-Refused _ _ repo (λ plan h.
        let (ref, writable, k) = >>=-eq-ok (require_writable (codes "remove") fs) _ h in
        absurd (not_writable (codes "remove") writable)),
    reading-Refused _ _ repo (λ plan h.
        let (ref, writable, k) = >>=-eq-ok (require_writable (codes "move") fs) _ h in
        absurd (not_writable (codes "move") writable)),
    reading-Refused _ _ repo (λ plan h.
        let (ref, writable, k) = >>=-eq-ok (require_writable (codes "rename") fs) _ h in
        absurd (not_writable (codes "rename") writable)),
  )

  undo-Refused : (n : ℕ) → Refused (undo p n fs) repo × Refused (redo p n fs) repo
  unfolding undo redo
  undo-Refused n = (
    lift-Refused _ _ repo (λ ref h. absurd (not_writable (codes "undo") h)),
    lift-Refused _ _ repo (λ ref h. absurd (not_writable (codes "redo") h)),
  )

  copies-Refused :
      (l : LocalDisk) (disk : l.State) (source : Fs) (sources : List Str) (src dest : Str)
      (opts : CopyOptions) (ref_opts : CopyFromRefOptions)
      → Refused (copy_in p l fs disk src dest opts) repo
        × Refused (sync_in p l fs disk src dest opts) repo
        × Refused (copy_from_ref p fs source sources dest ref_opts) repo
  unfolding copy_in sync_in copy_from_ref
  copies-Refused l disk source sources src dest opts ref_opts = (
    lift-Refused _ _ repo (λ ref h. absurd (not_writable (codes "copy_in") h)),
    lift-Refused _ _ repo (λ ref h. absurd (not_writable (codes "sync_in") h)),
    lift-Refused _ _ repo (λ ref h. absurd (not_writable (codes "copy_from_ref") h)),
  )

-- The commit of a batch on the snapshot, open or closed.
commit-Refused :
    (p : Platform) (b : Batch) (repo : p.Repo)
    → b.fs.writable ≡ false
    → ((commit p b repo).1.1 ≡ repo) × ((fs : Fs) → (commit p b repo).0 ≢ ok fs)
unfolding commit
commit-Refused p b repo w =
    let refused =
      commit_changes-Refused p b.fs repo w b.writes b.removes (batch_message b) none b.parents in
    by_state b.closed _ refused
  where
    by_state :
        (closed : Bool) (r : Result Fs × p.Repo)
        → (r.1 ≡ repo) × ((fs : Fs) → r.0 ≢ ok fs)
        → let result : Result Fs × (Batch × p.Repo) =
            if closed then (err batch_closed, (b, repo)) else finish_commit p b r in
          (result.1.1 ≡ repo) × ((fs : Fs) → result.0 ≢ ok fs)
    by_state true r h = (refl, λ fs. err≢ok)
    by_state false r h = h

-- On a snapshot that may not be written none of write, write_symlink, apply, remove, move, rename,
-- undo, redo, copy_in, sync_in, copy_from_ref and the commit of a batch returns, dry runs included:
-- each throws, whatever its arguments are, and leaves the repository as it was.
pub read_only-Refused :
    (p : Platform) (fs : Fs) (repo : p.Repo) (l : LocalDisk) (disk : l.State) (path target : Str)
    (content : Bytes) (entries : List (Str × WriteEntry)) (paths : List Str) (src dest : Str)
    (n : ℕ) (source : Fs) (b : Batch) (write_opts : WriteOptions) (apply_opts : ApplyOptions)
    (path_opts : PathOptions) (copy_opts : CopyOptions) (ref_opts : CopyFromRefOptions)
    → fs.writable ≡ false
    → b.fs ≡ fs
    → Refused (write p fs path content write_opts) repo
      × Refused (write_symlink p fs path target write_opts) repo
      × Refused (apply p fs entries paths apply_opts) repo
      × Refused (remove p fs paths path_opts) repo
      × Refused (move p fs paths dest path_opts) repo
      × Refused (rename p fs src dest write_opts) repo
      × Refused (undo p n fs) repo
      × Refused (redo p n fs) repo
      × Refused (copy_in p l fs disk src dest copy_opts) repo
      × Refused (sync_in p l fs disk src dest copy_opts) repo
      × Refused (copy_from_ref p fs source paths dest ref_opts) repo
      × ((commit p b repo).1.1 ≡ repo)
      × ((new_fs : Fs) → (commit p b repo).0 ≢ ok new_fs)
read_only-Refused p fs repo l disk path target content entries paths src dest n source b write_opts
      apply_opts path_opts copy_opts ref_opts w same =
    let (written, linked) = writes-Refused p fs repo w path content target write_opts in
    let (removed, moved, renamed) = moves-Refused p fs repo w paths src dest path_opts write_opts in
    let (undone, redone) = undo-Refused p fs repo w n in
    let (copied, synced, from_ref) =
      copies-Refused p fs repo w l disk source paths src dest copy_opts ref_opts in
    let (kept, never) = commit-Refused p b repo (ap (λ f. f.writable) same ∙ w) in
    (
      written,
      linked,
      apply-Refused p fs repo w entries paths apply_opts,
      removed,
      moved,
      renamed,
      undone,
      redone,
      copied,
      synced,
      from_ref,
      kept,
      never,
    )
