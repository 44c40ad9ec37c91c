-- ===== src/Fs/Advance.antt =====
-- `commit_changes`, `undo` and the other operations of cpp/src/fs.cpp that move a branch: when
-- they refuse, and what they leave behind.
use vost.Common.{◌≡◌, refl, sym, ap, ◌∙◌, false, Option, some, List, Str, codes, str_eq, inl, inr}
use vost.Error.{ok, err}
use vost.Types.{ChangeReport}
use vost.Platform.{Platform, Commit}
use vost.Platform.Laws.{ObjectLaws, RefLaws}
use vost.Exec.{◌>>=◌}
use vost.Tree.Read.{need, hex_to_oid}
use vost.Tree.Rebuild.{Write}
use vost.Tree.Rebuild.Steps.{rebuild_tree-named}
use vost.Tree.WriteCommit.{tree_oid_for_commit, find_commit}
use vost.Fs.{Fs, require_writable}
use vost.Fs.Steps.{commit_locked-inv, Moved, update_ref-inv, write_commit-inv, commit_changes-inv}
use vost.Fs.Commit.{
  branch_ref, take_lock, with_repo_lock, ref_commit, stale_error, check_tip, commit_locked,
  commit_changes, base_tree, all_parents,
}

module _ (p : Platform) where
  open p use {Repo, Oid, oid_fromstr, oid_tostr, commit_lookup}

  -- The branch names another commit than the snapshot, which may be written, and the lock is free.
  record IsStale (fs : Fs) (ref : Str) (repo : Repo) : Type 0 where
    pub tip : Str
    pub branch : require_writable (codes "write") fs ≡ ok ref
    pub locked : take_lock p fs.inner repo ≡ ok tt
    pub names : ref_commit p repo (branch_ref ref) ≡ some tip
    pub other : str_eq tip fs.commit_oid_hex ≡ false

  check_tip-stale :
      (fs : Fs) (ref : Str) (repo : Repo)
      → IsStale fs ref repo
      → check_tip p ref fs repo ≡ err (stale_error p ref)
  unfolding check_tip
  check_tip-stale fs ref repo s = rw (s.names, s.other, check_tip) refl

  -- A snapshot whose branch has moved commits nothing: it throws StaleSnapshotError and leaves the
  -- repository as it was.
  commit_changes-stale :
      (fs : Fs) (writes : List Write) (removes : List Str) (message : Str)
      (report : Option ChangeReport) (extra : List Str) (ref : Str) (repo : Repo)
      → IsStale fs ref repo
      → commit_changes p fs writes removes message report extra repo
        ≡ (err (stale_error p ref), repo)
  unfolding commit_changes with_repo_lock commit_locked ◌>>=◌
  commit_changes-stale fs writes removes message report extra ref repo s =
      rw (s.branch, s.locked, check_tip-stale fs ref repo s) refl

  pub ref_commit-eq :
      (refname : Str) (repo : Repo) (r : p.Reference) (o : Oid)
      → p.reference_lookup repo refname ≡ some r
      → p.reference_peel repo r ≡ some o
      → ref_commit p repo refname ≡ some (oid_tostr o)
  unfolding ref_commit
  ref_commit-eq refname repo r o looked peeled = rw (looked, peeled, ref_commit) refl

  pub same_oid : {a b : Oid} → some a ≡ some b → a ≡ b
  same_oid h = cc

  module _ (laws : ObjectLaws p) (refs : RefLaws p) where
    pub Moved-names :
        (refname commit message : Str) (repo repo' : Repo) (o : Oid) (c : Commit Oid)
        → commit ≡ oid_tostr o
        → commit_lookup repo o ≡ some c
        → Moved p refname commit message repo repo'
        → (ref_commit p repo' refname ≡ some commit) × (commit_lookup repo' o ≡ some c)
    Moved-names refname commit message repo repo' o c named found m =
        let same : m.oid ≡ o =
          same_oid (sym m.parsed ∙ ap oid_fromstr named ∙ laws.fromstr-tostr o) in
        let found' : commit_lookup repo m.oid ≡ some c = rw same found in
        elim m.change [
          | inl made ↦
              let (r, looked, peeled) =
                refs.peel-create repo refname m.oid false message repo' c found' made in
              (
                ref_commit-eq refname repo' r m.oid looked peeled
                    ∙ ap some (ap oid_tostr same ∙ sym named),
                (refs.create-Keeps repo refname m.oid false message repo' made).commits o c found,
              )
          | inr (r₀, there, made) ↦
              let (r, looked, peeled) =
                refs.peel-set_target repo refname r₀ m.oid message repo' c there found' made in
              (
                ref_commit-eq refname repo' r m.oid looked peeled
                    ∙ ap some (ap oid_tostr same ∙ sym named),
                (refs.set_target-Keeps repo r₀ m.oid message repo' made).commits o c found,
              )
        ]

    pub tree_oid_for_commit-eq :
        (repo : Repo) (o : Oid) (c : Commit Oid) (commit tree : Str)
        → commit ≡ oid_tostr o
        → commit_lookup repo o ≡ some c
        → tree ≡ oid_tostr c.tree_id
        → tree_oid_for_commit p repo commit ≡ ok tree
    unfolding tree_oid_for_commit find_commit hex_to_oid need
    tree_oid_for_commit-eq repo o c commit tree named found e =
        rw (named, laws.fromstr-tostr o, found) (ap ok (sym e))

    -- When `commit_changes` returns a snapshot, the branch names the snapshot's commit, and that
    -- commit, read back from the repository, has the snapshot's tree.
    pub commit_changes-advances :
        (fs : Fs) (writes : List Write) (removes : List Str) (message : Str)
        (report : Option ChangeReport) (extra : List Str) (ref : Str) (repo : Repo) {fs' : Fs}
        {repo' : Repo}
        → require_writable (codes "write") fs ≡ ok ref
        → commit_changes p fs writes removes message report extra repo ≡ (ok fs', repo')
        → (ref_commit p repo' (branch_ref ref) ≡ some fs'.commit_oid_hex)
          × (tree_oid_for_commit p repo' fs'.commit_oid_hex ≡ ok fs'.tree_oid_hex)
    commit_changes-advances fs writes removes message report extra ref repo {fs'} {repo'} w h =
        let ((commit, tree), run, same) =
          commit_changes-inv p fs writes removes message report extra ref repo w h in
        let l = commit_locked-inv p ref fs writes removes message extra repo run in
        let m =
          write_commit-inv p tree (all_parents p fs extra) fs.inner.signature message l.r₁ l.made in
        let (t, tree_named) = rebuild_tree-named p (base_tree p fs) writes removes repo l.rebuilt in
        let (c, found, tree_of, parents_of) =
          laws.lookup-commit l.r₁ m.author message m.tree_id m.parents m.oid l.r₂ m.created in
        let (names, kept) =
          Moved-names (branch_ref ref) commit message l.r₂ repo' m.oid c m.named found
            (update_ref-inv p ref fs commit message l.r₂ l.moved) in
        let id : m.tree_id ≡ t =
          same_oid (sym m.parsed ∙ ap oid_fromstr tree_named ∙ laws.fromstr-tostr t) in
        rw (← same) (
          names,
          tree_oid_for_commit-eq repo' m.oid c commit tree m.named kept
              (tree_named ∙ ap oid_tostr (sym (tree_of ∙ id))),
        )

    -- Of two commits from one snapshot the second is refused: once `commit_changes` returned another
    -- commit, a further call on the old snapshot, with the lock free, throws StaleSnapshotError and
    -- leaves the repository as it was.
    pub commit_changes-conflict :
        (fs : Fs) (writes writes' : List Write) (removes removes' : List Str)
        (message message' : Str) (report report' : Option ChangeReport) (extra extra' : List Str)
        (ref : Str) (repo : Repo) {fs' : Fs} {repo' : Repo}
        → require_writable (codes "write") fs ≡ ok ref
        → commit_changes p fs writes removes message report extra repo ≡ (ok fs', repo')
        → str_eq fs'.commit_oid_hex fs.commit_oid_hex ≡ false
        → take_lock p fs.inner repo' ≡ ok tt
        → commit_changes p fs writes' removes' message' report' extra' repo'
          ≡ (err (stale_error p ref), repo')
    commit_changes-conflict fs writes writes' removes removes' message message' report report' extra
          extra' ref repo {fs'} {repo'} w h new free =
        commit_changes-stale fs writes' removes' message' report' extra' ref repo' (record {
          tip = fs'.commit_oid_hex;
          branch = w;
          locked = free;
          names = (commit_changes-advances fs writes removes message report extra ref repo w h).0;
          other = new;
        })
