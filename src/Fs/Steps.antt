-- ===== src/Fs/Steps.antt =====
-- Successful runs of `commit_changes` of cpp/src/fs.cpp taken apart into their steps.
use vost.Common.{
  ◌≡◌, refl, sym, ap, subst, ◌∙◌, Bool, true, false, Option, none, some, List, ◌⊎◌, Str, codes,
  is_empty, if◌then◌else◌, inl, inr,
}
use vost.Error.{Error, Result, ok, err, >>=-eq-ok, ok-injective, err≢ok, git_error}
use vost.Types.{ChangeReport}
use vost.Platform.{Platform}
use vost.Exec.{>>=-inv, reading-inv, lift-inv, ret-inv}
use vost.Tree.Read.{need, need-inv, hex_to_oid}
use vost.Tree.Rebuild.{Write, rebuild_tree}
use vost.Tree.WriteCommit.{write_commit, create_commit, commit_arguments, parent_commits, Signature}
use vost.Fs.{Fs, require_writable}
use vost.Fs.Commit.{
  branch_ref, with_repo_lock, check_tip, committing, move_or_create, update_ref, commit_locked,
  commit_changes, base_tree, all_parents, advanced,
}

module _ (p : Platform) where
  open p use {Repo, Oid, oid_fromstr, oid_tostr, commit_lookup}

  -- What `commit_locked` did when it returned.
  pub record Locked (fs : Fs) (ref : Str) (writes : List Write) (removes : List Str) (message : Str)
      (extra : List Str) (repo : Repo) (commit tree : Str) (repo' : Repo) : Type 0 where
    pub r₁ : Repo
    pub r₂ : Repo
    pub tip : check_tip p ref fs repo ≡ ok tt
    pub rebuilt : rebuild_tree p (base_tree p fs) writes removes repo ≡ (ok tree, r₁)
    pub made :
        write_commit p tree (all_parents p fs extra) fs.inner.signature message r₁ ≡ (ok commit, r₂)
    pub moved : update_ref p ref fs commit message r₂ ≡ (ok tt, repo')

  pub commit_locked-inv :
      (ref : Str) (fs : Fs) (writes : List Write) (removes : List Str) (message : Str)
      (extra : List Str) (repo : Repo) {commit tree : Str} {repo' : Repo}
      → commit_locked p ref fs writes removes message extra repo ≡ (ok (commit, tree), repo')
      → Locked fs ref writes removes message extra repo commit tree repo'
  unfolding commit_locked
  commit_locked-inv ref fs writes removes message extra repo {commit} {tree} {repo'} h =
      let (u, r₀, e₀, h₁) = >>=-inv _ _ repo h in
      let (tip, q₀) = reading-inv _ repo e₀ in
      let (new_tree, r₁, e₁, h₂) = >>=-inv _ _ r₀ h₁ in
      let (new_commit, r₂, e₂, h₃) = >>=-inv _ _ r₁ h₂ in
      let (v, r₃, e₃, h₄) = >>=-inv _ _ r₂ h₃ in
      let (named, q₄) = ret-inv _ r₃ h₄ in
      let c : new_commit ≡ commit = ap (λ x. x.0) named in
      let t : new_tree ≡ tree = ap (λ x. x.1) named in
      record {
        r₁ = r₁;
        r₂ = r₂;
        tip = tip;
        rebuilt = rw (q₀, ← t) e₁;
        made = rw (← t, ← c) e₂;
        moved = rw (← c, ← q₄) e₃;
      }

  -- What `update_ref` did when it returned: the reference was created, or moved.
  pub record Moved (refname : Str) (commit message : Str) (repo repo' : Repo) : Type 0 where
    pub oid : Oid
    pub parsed : oid_fromstr commit ≡ some oid
    pub change :
        (p.reference_create repo refname oid false message ≡ some repo')
        ⊎ ((r : p.Reference) × (p.reference_lookup repo refname ≡ some r)
            × (p.reference_set_target repo r oid message ≡ some repo'))

  pub committing-inv :
      (call : Repo → Option Repo) (e : Error) (repo : Repo) {repo' : Repo}
      → committing p call e repo ≡ (ok tt, repo')
      → call repo ≡ some repo'
  unfolding committing
  committing-inv call e repo {repo'} h = go (call repo) h
    where
      go :
          (o : Option Repo)
          → ◌≡◌ {A = Result (Unit {0}) × Repo}
              (elim o [ none ↦ (err e, repo) | some r ↦ (ok tt, r) ])
              (ok tt, repo')
          → o ≡ some repo'
      go none q = absurd (err≢ok (ap (λ x. x.0) q))
      go (some r) q = ap some (ap (λ x. x.1) q)

  move_or_create-inv :
      (refname : Str) (o : Oid) (message : Str) (repo : Repo) {repo' : Repo}
      → move_or_create p refname o message repo ≡ some repo'
      → (p.reference_create repo refname o false message ≡ some repo')
        ⊎ ((r : p.Reference) × (p.reference_lookup repo refname ≡ some r)
            × (p.reference_set_target repo r o message ≡ some repo'))
  unfolding move_or_create
  move_or_create-inv refname o message repo {repo'} h = go (p.reference_lookup repo refname) refl
    where
      go :
          (found : Option p.Reference)
          → p.reference_lookup repo refname ≡ found
          → (p.reference_create repo refname o false message ≡ some repo')
            ⊎ ((r : p.Reference) × (p.reference_lookup repo refname ≡ some r)
                × (p.reference_set_target repo r o message ≡ some repo'))
      go none e = inl (rw (e, move_or_create) at h)
      go (some r) e = inr (r, e, rw (e, move_or_create) at h)

  pub changed :
      (fresh : Bool) (refname : Str) (o : Oid) (message : Str) (repo : Repo) {repo' : Repo}
      → (if fresh
          then p.reference_create repo refname o false message
          else move_or_create p refname o message repo)
        ≡ some repo'
      → (p.reference_create repo refname o false message ≡ some repo')
        ⊎ ((r : p.Reference) × (p.reference_lookup repo refname ≡ some r)
            × (p.reference_set_target repo r o message ≡ some repo'))
  changed true refname o message repo h = inl h
  changed false refname o message repo h = move_or_create-inv refname o message repo h

  pub update_ref-inv :
      (ref : Str) (fs : Fs) (commit message : Str) (repo : Repo) {repo' : Repo}
      → update_ref p ref fs commit message repo ≡ (ok tt, repo')
      → Moved (branch_ref ref) commit message repo repo'
  unfolding update_ref
  update_ref-inv ref fs commit message repo {repo'} h =
      let (o, r₀, e₀, h₁) = >>=-inv _ _ repo h in
      let (parsed, q₀) = lift-inv _ repo e₀ in
      let (u, r₁, e₁, h₂) = >>=-inv _ _ r₀ h₁ in
      let (checked, q₁) = lift-inv _ r₀ e₁ in
      let call = committing-inv _ _ r₁ h₂ in
      subst (λ r. Moved (branch_ref ref) commit message r repo') (sym (q₀ ∙ q₁))
        (record {
          oid = o;
          parsed = need-inv _ _ parsed;
          change = changed (is_empty fs.commit_oid_hex) (branch_ref ref) o message r₁ call;
        })

  -- What `write_commit` did when it returned.
  pub record Made (tree commit message : Str) (repo repo' : Repo) : Type 0 where
    pub tree_id : Oid
    pub oid : Oid
    pub author : p.AuthorSignature
    pub parents : List Oid
    pub parsed : oid_fromstr tree ≡ some tree_id
    pub named : commit ≡ oid_tostr oid
    pub created : p.commit_create repo author message tree_id parents ≡ some (oid, repo')

  create_commit-inv :
      (message : Str) (tree : Oid) (author : p.AuthorSignature) (parents : List Oid) (repo : Repo)
      {commit : Str} {repo' : Repo}
      → create_commit p message (tree, author, parents) repo ≡ (ok commit, repo')
      → (o : Oid) × (commit ≡ oid_tostr o)
        × (p.commit_create repo author message tree parents ≡ some (o, repo'))
  unfolding create_commit
  create_commit-inv message tree author parents repo {commit} {repo'} h =
      go (p.commit_create repo author message tree parents) h
    where
      go :
          (made : Option (Oid × Repo))
          → ◌≡◌ {A = Result Str × Repo}
              (elim made [
                | none ↦ (err (git_error (codes "git_commit_create")), repo)
                | some (oid, r) ↦ (ok (oid_tostr oid), r)
              ])
              (ok commit, repo')
          → (o : Oid) × (commit ≡ oid_tostr o) × (made ≡ some (o, repo'))
      go none q = absurd (err≢ok (ap (λ x. x.0) q))
      go (some (o, r)) q =
          (o, sym (ok-injective (ap (λ x. x.0) q)), ap (λ x. some (o, x)) (ap (λ x. x.1) q))

  pub write_commit-inv :
      (tree : Str) (parents : List Str) (sig : Signature) (message : Str) (repo : Repo)
      {commit : Str} {repo' : Repo}
      → write_commit p tree parents sig message repo ≡ (ok commit, repo')
      → Made tree commit message repo repo'
  unfolding write_commit commit_arguments hex_to_oid
  write_commit-inv tree parents sig message repo {commit} {repo'} h =
      let ((tree_id, author, ps), r₀, e₀, h₁) = >>=-inv _ _ repo h in
      let (args, q₀) = reading-inv _ repo e₀ in
      let (t, parsed, a₁) = >>=-eq-ok (hex_to_oid p tree) _ args in
      let (x, found, a₂) =
        >>=-eq-ok (need (p.tree_lookup repo t) (git_error (codes "git_tree_lookup (write_commit)")))
          _ a₁ in
      let (a, signed, a₃) =
        >>=-eq-ok
          (need (p.signature_now repo sig.name sig.email) (git_error (codes "git_signature_now"))) _
          a₂ in
      let (l, looked, a₄) = >>=-eq-ok (parent_commits p repo parents) _ a₃ in
      let (o, named, created) = create_commit-inv message tree_id author ps r₀ h₁ in
      record {
        tree_id = tree_id;
        oid = o;
        author = author;
        parents = ps;
        parsed =
            need-inv (oid_fromstr tree) _ parsed
            ∙ ap (λ (z : Oid × p.AuthorSignature × List Oid). some z.0) (ok-injective a₄);
        named = named;
        created = rw q₀ created;
      }

  pub commit_changes-inv :
      (fs : Fs) (writes : List Write) (removes : List Str) (message : Str)
      (report : Option ChangeReport) (extra : List Str) (ref : Str) (repo : Repo) {fs' : Fs}
      {repo' : Repo}
      → require_writable (codes "write") fs ≡ ok ref
      → commit_changes p fs writes removes message report extra repo ≡ (ok fs', repo')
      → (made : Str × Str) × (commit_locked p ref fs writes removes message extra repo
          ≡ (ok made, repo'))
        × (advanced p fs report made ≡ fs')
  unfolding commit_changes with_repo_lock
  commit_changes-inv fs writes removes message report extra ref repo {fs'} {repo'} w h =
      let (ref', r₀, e₀, h₁) = >>=-inv _ _ repo h in
      let (named, q₀) = lift-inv _ repo e₀ in
      let (made, r₁, e₁, h₂) = >>=-inv _ _ r₀ h₁ in
      let (u, r₂, e₂, h₃) = >>=-inv _ _ r₀ e₁ in
      let (locked, q₂) = reading-inv _ r₀ e₂ in
      let (done, q₃) = ret-inv _ r₁ h₂ in
      let same : ref' ≡ ref = ok-injective (sym named ∙ w) in
      let run : Str → Repo → Repo → Type 0 =
        λ x r r'. commit_locked p x fs writes removes message extra r ≡ (ok made, r') in
      (
        made,
        subst (λ x. run x repo repo') same
            (subst (λ r. run ref' r repo') (sym (q₀ ∙ q₂)) (subst (λ r. run ref' r₂ r) q₃ h₃)),
        done,
      )
