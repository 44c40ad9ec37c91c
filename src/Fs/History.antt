-- ===== src/Fs/History.antt =====
-- cpp/src/fs.cpp: `parent`, `back`, `undo` and `redo`.
use vost.Common.{
  ℕ, zero, suc, ◌+◌, Bool, true, not, ◌&&◌, ◌||◌, Option, none, some, List, [], ◌∷◌, ◌++◌, Str,
  codes, str_eq, is_empty, take, ltb, ◌==◌, to_string, if◌then◌else◌,
}
use vost.Error.{Error, Result, ok, ◌>>=◌, ◌>>◌, throw_if, not_found, git_error}
use vost.Platform.{Platform, LogEntry}
use vost.Exec
use vost.Exec.{Exec, lift, reading}
use vost.Tree.Read.{need}
use vost.Tree.Rebuild.{zeros}
use vost.Tree.WriteCommit.{read_commit, tree_oid_for_commit, or_empty}
use vost.Fs.{Fs, require_writable}
use vost.Fs.Commit.{with_repo_lock, check_tip, branch_ref, committing}

abbrev pub at_commit : Fs → Bool → Str × Str → Fs
at_commit fs writable (commit, tree) = record fs {
  commit_oid_hex = commit;
  tree_oid_hex = tree;
  writable = writable;
  changes = none;
}

module _ (p : Platform) where
  open p use {
    Repo, Oid, oid_fromstr, oid_tostr, commit_lookup, reference_lookup, reference_set_target,
    reflog_read,
  }

  -- The tree of the parent commit. A parent that is not there counts as no parent.
  unfoldable pub parent_tree : Repo → Str → Option Str
  parent_tree repo hex = elim (oid_fromstr hex) [
    | none ↦ none
    | some oid ↦ elim (commit_lookup repo oid) [ none ↦ none | some c ↦ some (oid_tostr c.tree_id) ]
  ]

  unfoldable pub parent_at : Repo → Fs → Str → Option Fs
  unfolding parent_tree
  parent_at repo fs hex = if is_empty hex then none else elim (parent_tree repo hex) [
    | none ↦ none
    | some t ↦ some (at_commit fs fs.writable (hex, t))
  ]

  unfoldable pub parent : Repo → Fs → Result (Option Fs)
  unfolding parent_at
  parent repo fs = if is_empty fs.commit_oid_hex then ok none else (do
    meta ← read_commit p repo fs.commit_oid_hex
    ok (parent_at repo fs meta.parent_oid_hex))

  abbrev pub not_enough_history : ℕ → Error
  not_enough_history n =
      not_found (codes "not enough history (requested " ++ (to_string n ++ codes " commits back)"))

  -- The loop of `back`, with `n` rounds left of `all`.
  unfoldable pub back_loop : Repo → ℕ → ℕ → Fs → Result Fs
  back_loop repo all zero cur = ok cur
  back_loop repo all (suc n) cur = do
    found ← parent repo cur
    next ← need found (not_enough_history all)
    back_loop repo all n next

  unfoldable pub back : Repo → ℕ → Fs → Result Fs
  unfolding back_loop
  back repo n fs = back_loop repo n n fs

  abbrev pub not_enough_to_undo : ℕ → Error
  not_enough_to_undo n =
      not_found (codes "not enough history to undo " ++ (to_string n ++ codes " commit(s)"))

  -- Walk back to the n-th first parent.
  unfoldable pub ancestor : Repo → ℕ → ℕ → Str → Result Str
  ancestor repo all zero cur_hex = ok cur_hex
  ancestor repo all (suc n) cur_hex = do
    meta ← read_commit p repo cur_hex
    throw_if (is_empty meta.parent_oid_hex) (not_enough_to_undo all)
    ancestor repo all n meta.parent_oid_hex

  -- The end of `undo` and `redo` under the lock: the branch moves to the target.
  unfoldable pub move_branch : Str → Fs → Str → Str → Exec Repo (Unit {0})
  move_branch ref fs target_hex message = Exec.◌>>=◌ (reading (check_tip p ref fs)) λ _.
      Exec.◌>>=◌ (lift (need (oid_fromstr target_hex) (git_error (codes "invalid target oid"))))
        λ target.
          Exec.◌>>=◌
            (reading (λ repo.
              need (reference_lookup repo (branch_ref ref))
                (git_error (codes "git_reference_lookup"))))
            λ existing.
              committing p (λ repo. reference_set_target repo existing target message)
                (git_error (codes "git_reference_set_target"))

  -- The branch, the target commit and its tree.
  unfoldable pub plan_undo : Repo → ℕ → Fs → Result (Str × Str)
  unfolding ancestor
  plan_undo repo n fs = do
    target ← ancestor repo n n fs.commit_oid_hex
    tree ← tree_oid_for_commit p repo target
    ok (target, tree)

  abbrev pub undo_message : ℕ → Str
  undo_message n = codes "undo: " ++ (to_string n ++ codes " commit(s)")

  abbrev pub redo_message : ℕ → Str
  redo_message n = codes "redo: " ++ (to_string n ++ codes " commit(s)")

  -- The target is looked for, and the branch is moved to it under the lock.
  unfoldable pub move_to : (Repo → Result (Str × Str)) → Str → Fs → Str → Exec Repo Fs
  unfolding move_branch
  move_to plan ref fs message = Exec.◌>>=◌ (reading plan) λ target.
      Exec.◌>>=◌ (with_repo_lock p fs.inner (move_branch ref fs target.0 message))
        λ _. Exec.ret (at_commit fs true target)

  unfoldable pub undo : ℕ → Fs → Exec Repo Fs
  unfolding plan_undo move_to
  undo n fs = Exec.◌>>=◌ (lift (require_writable (codes "undo") fs)) λ ref.
      Exec.◌>>=◌
        (lift (throw_if (is_empty fs.commit_oid_hex) (not_found (codes "no commit to undo"))))
        λ _.
          if n == 0
          then Exec.ret fs
          else move_to (λ repo. plan_undo repo n fs) ref fs (undo_message n)

  abbrev pub is_undo_or_redo : Str → Bool
  is_undo_or_redo message =
      str_eq (take 5 message) (codes "undo:") || str_eq (take 5 message) (codes "redo:")

  -- One entry of the log of the branch: the commit reached so far, and how many steps were found.
  unfoldable pub redo_entry : LogEntry Oid → Str × ℕ → Str × ℕ
  redo_entry e (cur_hex, found) =
      if is_undo_or_redo (or_empty e.message)
        && (str_eq (oid_tostr e.id_new) cur_hex && not (str_eq (oid_tostr e.id_old) zeros))
      then (oid_tostr e.id_old, found + 1)
      else (cur_hex, found)

  -- The loop over the entries, newest first, until n steps are found.
  unfoldable pub redo_scan : ℕ → List (LogEntry Oid) → Str × ℕ → Str × ℕ
  unfolding redo_entry
  redo_scan n [] s = s
  redo_scan n (e ∷ es) s = redo_scan n es (if ltb s.1 n then redo_entry e s else s)

  unfoldable pub plan_redo : Repo → ℕ → Str → Fs → Result (Str × Str)
  unfolding redo_scan
  plan_redo repo n ref fs = do
    entries ← need (reflog_read repo (branch_ref ref)) (not_found (codes "no reflog for redo"))
    let start = if is_empty fs.commit_oid_hex then zeros else fs.commit_oid_hex
    let reached = redo_scan n entries (start, 0)
    throw_if (ltb reached.1 n) (not_found (codes "not enough redo history"))
    tree ← tree_oid_for_commit p repo reached.0
    ok (reached.0, tree)

  unfoldable pub redo : ℕ → Fs → Exec Repo Fs
  unfolding plan_redo move_to
  redo n fs = Exec.◌>>=◌ (lift (require_writable (codes "redo") fs)) λ ref.
      if n == 0
      then Exec.ret fs
      else move_to (λ repo. plan_redo repo n ref fs) ref fs (redo_message n)
