-- ===== src/Fs/Undo.antt =====
-- `undo` and `back` of cpp/src/fs.cpp, which walk back through the history in two ways.
use vost.Common.{
  ℕ, zero, suc, ◌≡◌, refl, sym, ap, subst, ◌∙◌, true, false, some, Str, codes, is_empty, ◌==◌,
  if◌then◌else◌, arith,
}
use vost.Error.{Result, ok, throw_if, >>=-eq-ok, ok-injective, throw_if-inv}
use vost.Platform.{Platform, Commit}
use vost.Exec.{Exec, ret, ret-inv, >>=-inv, lift, lift-inv, reading, reading-inv}
use vost.Tree.Read.{need, need-inv, hex_to_oid}
use vost.Tree.WriteCommit.{CommitMeta, find_commit, read_commit, tree_oid_for_commit}
use vost.Fs.{Fs, require_writable}
use vost.Fs.Commit.{with_repo_lock}
use vost.Fs.History.{
  at_commit, parent_tree, parent_at, parent, back_loop, back, ancestor, plan_undo, move_to, undo,
  undo_message,
}

module _ (p : Platform) where
  open p use {Repo, Oid, oid_fromstr, oid_tostr, commit_lookup}

  -- The commit of a hash is in the repository.
  record IsCommit (repo : Repo) (hex : Str) : Type 0 where
    pub oid : Oid
    pub commit : Commit Oid
    pub parsed : oid_fromstr hex ≡ some oid
    pub found : commit_lookup repo oid ≡ some commit

  find_commit-IsCommit :
      (repo : Repo) (hex context : Str) {c : Commit Oid}
      → find_commit p repo hex context ≡ ok c
      → IsCommit repo hex
  unfolding find_commit hex_to_oid
  find_commit-IsCommit repo hex context {c} h =
      let (o, parsed, k) = >>=-eq-ok (hex_to_oid p hex) _ h in
      record { oid = o; commit = c; parsed = need-inv _ _ parsed; found = need-inv _ _ k }

  read_commit-IsCommit :
      (repo : Repo) (hex : Str) {meta : CommitMeta}
      → read_commit p repo hex ≡ ok meta
      → IsCommit repo hex
  unfolding read_commit
  read_commit-IsCommit repo hex h =
      let (c, found, k) = >>=-eq-ok (find_commit p repo hex _) _ h in
      find_commit-IsCommit repo hex _ found

  tree_oid-IsCommit :
      (repo : Repo) (hex : Str) {tree : Str}
      → tree_oid_for_commit p repo hex ≡ ok tree
      → IsCommit repo hex
  unfolding tree_oid_for_commit
  tree_oid-IsCommit repo hex h =
      let (c, found, k) = >>=-eq-ok (find_commit p repo hex _) _ h in
      find_commit-IsCommit repo hex _ found

  -- Both ways to the tree of a commit.
  tree_of :
      (repo : Repo) (hex : Str) (c : IsCommit repo hex)
      → (parent_tree p repo hex ≡ some (oid_tostr c.commit.tree_id))
        × (tree_oid_for_commit p repo hex ≡ ok (oid_tostr c.commit.tree_id))
  unfolding parent_tree tree_oid_for_commit find_commit hex_to_oid need
  tree_of repo hex c = (rw (c.parsed, c.found, parent_tree) refl, rw (c.parsed, c.found) refl)

  -- The walk of `undo` starts at a commit of the repository, if it ends at one.
  ancestor-IsCommit :
      (repo : Repo) (all n : ℕ) (cur target : Str)
      → ancestor p repo all n cur ≡ ok target
      → IsCommit repo target
      → IsCommit repo cur
  unfolding ancestor
  ancestor-IsCommit repo all zero cur target h c = subst (IsCommit repo) (sym (ok-injective h)) c
  ancestor-IsCommit repo all (suc n) cur target h c =
      let (meta, read, k) = >>=-eq-ok (read_commit p repo cur) _ h in
      read_commit-IsCommit repo cur read

  parent-eq :
      (repo : Repo) (fs : Fs) (meta : CommitMeta) (c : IsCommit repo meta.parent_oid_hex)
      → is_empty fs.commit_oid_hex ≡ false
      → read_commit p repo fs.commit_oid_hex ≡ ok meta
      → is_empty meta.parent_oid_hex ≡ false
      → parent p repo fs
        ≡ ok (some (at_commit fs fs.writable (meta.parent_oid_hex, oid_tostr c.commit.tree_id)))
  unfolding parent parent_at
  parent-eq repo fs meta c named read more =
      rw (named, read, more, (tree_of repo meta.parent_oid_hex c).0) refl

  ancestor-back :
      (repo : Repo) (all all' n : ℕ) (fs : Fs) (target tree : Str)
      → is_empty fs.commit_oid_hex ≡ false
      → tree_oid_for_commit p repo fs.commit_oid_hex ≡ ok fs.tree_oid_hex
      → ancestor p repo all n fs.commit_oid_hex ≡ ok target
      → tree_oid_for_commit p repo target ≡ ok tree
      → (earlier : Fs) × (back_loop p repo all' n fs ≡ ok earlier)
        × (earlier.commit_oid_hex ≡ target)
        × (earlier.tree_oid_hex ≡ tree)
  unfolding ancestor back_loop need
  ancestor-back repo all all' zero fs target tree named has walked ends =
      let same = ok-injective walked in
      (fs, refl, same, ok-injective (sym has ∙ ap (tree_oid_for_commit p repo) same ∙ ends))
  ancestor-back repo all all' (suc n) fs target tree named has walked ends =
      let (meta, read, k) = >>=-eq-ok (read_commit p repo fs.commit_oid_hex) _ walked in
      let (_, tested, rest) = >>=-eq-ok (throw_if (is_empty meta.parent_oid_hex) _) _ k in
      let more = throw_if-inv _ _ tested in
      let c =
        ancestor-IsCommit repo all n meta.parent_oid_hex target rest
          (tree_oid-IsCommit repo target ends) in
      let next : Fs = at_commit fs fs.writable (meta.parent_oid_hex, oid_tostr c.commit.tree_id) in
      rw (parent-eq repo fs meta c named read more) (
        ancestor-back repo all all' n next target tree more (tree_of repo meta.parent_oid_hex c).1
          rest ends)

  -- The move of the branch returns the snapshot that it was planned for.
  move_to-inv :
      (plan : Repo → Result (Str × Str)) (ref : Str) (fs : Fs) (message : Str) (repo : Repo)
      {fs' : Fs} {repo' : Repo}
      → move_to p plan ref fs message repo ≡ (ok fs', repo')
      → (target : Str) × (tree : Str) × (plan repo ≡ ok (target, tree))
        × (at_commit fs true (target, tree) ≡ fs')
  unfolding move_to
  move_to-inv plan ref fs message repo h =
      let ((target, tree), repo₁, planned, k) = >>=-inv (reading plan) _ repo h in
      let (u, repo₂, moved, k₁) = >>=-inv (with_repo_lock p fs.inner _) _ repo₁ k in
      (target, tree, (reading-inv plan repo planned).0, (ret-inv _ repo₂ k₁).0)

  plan_undo-inv :
      (repo : Repo) (n : ℕ) (fs : Fs) {target tree : Str}
      → plan_undo p repo n fs ≡ ok (target, tree)
      → (ancestor p repo n n fs.commit_oid_hex ≡ ok target)
        × (tree_oid_for_commit p repo target ≡ ok tree)
  unfolding plan_undo
  plan_undo-inv repo n fs {target} {tree} h =
      let (t, walked, k) = >>=-eq-ok (ancestor p repo n n fs.commit_oid_hex) _ h in
      let (r, ends, k₁) = >>=-eq-ok (tree_oid_for_commit p repo t) _ k in
      let pair = ok-injective k₁ in
      let same : t ≡ target = ap (λ x. x.0) pair in
      (
        walked ∙ ap ok same,
        ap (tree_oid_for_commit p repo) (sym same) ∙ ends ∙ ap ok (ap (λ x. x.1) pair),
      )

  -- The end of `undo`, after its tests.
  abbrev rest_of_undo : ℕ → Str → Fs → Exec Repo Fs
  rest_of_undo n ref fs =
      if n == 0 then ret fs else move_to p (λ repo. plan_undo p repo n fs) ref fs (undo_message p n)

  abbrev GoesTo : Repo → ℕ → Fs → Fs → Type 0
  GoesTo repo n fs fs' =
      (earlier : Fs) × (back p repo n fs ≡ ok earlier)
      × (earlier.commit_oid_hex ≡ fs'.commit_oid_hex)
      × (earlier.tree_oid_hex ≡ fs'.tree_oid_hex)

  moved_back :
      (n : ℕ) (fs : Fs) (ref : Str) (repo : Repo) {fs' : Fs} {repo' : Repo}
      → tree_oid_for_commit p repo fs.commit_oid_hex ≡ ok fs.tree_oid_hex
      → is_empty fs.commit_oid_hex ≡ false
      → move_to p (λ repo. plan_undo p repo n fs) ref fs (undo_message p n) repo ≡ (ok fs', repo')
      → GoesTo repo n fs fs'
  unfolding back
  moved_back n fs ref repo has named h =
      let (target, tree, planned, same) =
        move_to-inv (λ repo. plan_undo p repo n fs) ref fs (undo_message p n) repo h in
      let (walked, ends) = plan_undo-inv repo n fs planned in
      let (earlier, gone, commit, its_tree) =
        ancestor-back repo n n n fs target tree named has walked ends in
      (
        earlier,
        gone,
        commit ∙ ap (λ (f : Fs). f.commit_oid_hex) same,
        its_tree ∙ ap (λ (f : Fs). f.tree_oid_hex) same,
      )

  undone-back :
      (n : ℕ) (fs : Fs) (ref : Str) (repo : Repo) {fs' : Fs} {repo' : Repo}
      → tree_oid_for_commit p repo fs.commit_oid_hex ≡ ok fs.tree_oid_hex
      → is_empty fs.commit_oid_hex ≡ false
      → rest_of_undo n ref fs repo ≡ (ok fs', repo')
      → GoesTo repo n fs fs'
  unfolding back back_loop
  undone-back zero fs ref repo has named h =
      let same = (ret-inv fs repo h).0 in
      (fs, refl, ap (λ (f : Fs). f.commit_oid_hex) same, ap (λ (f : Fs). f.tree_oid_hex) same)
  undone-back (suc n) fs ref repo {fs'} {repo'} has named h =
      let later : (suc n == 0) ≡ false = ground arith in
      moved_back (suc n) fs ref repo has named (rw later at h)

  -- `undo` goes where `back` goes: when `undo` returns, on a snapshot with the tree of its commit,
  -- `back` of as many steps returned before the call a snapshot of the same commit and tree.
  pub back-undo :
      (n : ℕ) (fs : Fs) (repo : Repo) {fs' : Fs} {repo' : Repo}
      → tree_oid_for_commit p repo fs.commit_oid_hex ≡ ok fs.tree_oid_hex
      → undo p n fs repo ≡ (ok fs', repo')
      → (earlier : Fs) × (back p repo n fs ≡ ok earlier)
        × (earlier.commit_oid_hex ≡ fs'.commit_oid_hex)
        × (earlier.tree_oid_hex ≡ fs'.tree_oid_hex)
  unfolding undo back
  back-undo n fs repo {fs'} {repo'} has h =
      let (ref, repo₁, writable, k) =
        >>=-inv (lift (require_writable (codes "undo") fs)) _ repo h in
      let (u, repo₂, tested, k₁) =
        >>=-inv (lift (throw_if (is_empty fs.commit_oid_hex) _)) _ repo₁ k in
      let same : repo ≡ repo₂ = (lift-inv _ repo writable).1 ∙ (lift-inv _ repo₁ tested).1 in
      let named = throw_if-inv _ _ (lift-inv _ repo₁ tested).0 in
      undone-back n fs ref repo has named
        (subst (λ r. rest_of_undo n ref fs r ≡ (ok fs', repo')) (sym same) k₁)
