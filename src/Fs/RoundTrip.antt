-- ===== src/Fs/RoundTrip.antt =====
-- `write` of cpp/src/fs.cpp, then `read`.
use vost.Common.{
  ◌≡◌, ◌≢◌, inl, inr, refl, sym, ap, subst, ◌∙◌, false, none, List, [], ◌∷◌, ◌++◌, Str, codes,
  is_empty, length, length-append, arith, ◌==◌,
}
use vost.Error.{ok, ok-injective}
use vost.Types.{mode_blob, mode_tree, Bytes}
use vost.Paths.{normalize, segments}
use vost.Platform.{Platform}
use vost.Platform.Laws.{Keeps, ObjectLaws, RefLaws, Keeps-trans}
use vost.Exec.{>>=-inv, lift-inv}
use vost.Tree.Read.{read_blob}
use vost.Tree.Rebuild.{Write}
use vost.Tree.Rebuild.Steps.{rebuild_tree-named}
use vost.Tree.Rebuild.Collect.{In}
use vost.Tree.Rebuild.RoundTrip.{rebuild_tree-kept}
use vost.Fs.{Fs, require_writable, require_tree}
use vost.Fs.Commit.{branch_ref, commit_changes, base_tree, all_parents, advanced}
use vost.Fs.Steps.{Moved, commit_locked-inv, update_ref-inv, write_commit-inv, commit_changes-inv}
use vost.Fs.Read.{read}
use vost.Fs.Write.{WriteOptions, value_or}
use vost.Fs.Write as FsWrite

module _ (p : Platform) (laws : ObjectLaws p) (refs : RefLaws p) where
  open p use {Repo, Oid, oid_tostr}

  pub Moved-Keeps :
      (refname commit message : Str) (repo repo' : Repo)
      → Moved p refname commit message repo repo'
      → Keeps p repo repo'
  Moved-Keeps refname commit message repo repo' m = elim m.change [
    | inl made ↦ refs.create-Keeps repo refname m.oid false message repo' made
    | inr (r, there, made) ↦ refs.set_target-Keeps repo r m.oid message repo' made
  ]

  not_empty : (tree : Str) (o : Oid) → tree ≡ oid_tostr o → is_empty tree ≡ false
  not_empty [] o e = absurd (laws.tostr_empty o (sym e))
  not_empty (c ∷ s) o e = refl

  read-eq :
      (repo : Repo) (fs : Fs) (path norm : Str) (content : Bytes)
      → is_empty fs.tree_oid_hex ≡ false
      → normalize path ≡ ok norm
      → read_blob p repo fs.tree_oid_hex norm ≡ ok content
      → read p repo fs path ≡ ok content
  unfolding read require_tree
  read-eq repo fs path norm content e n h = rw (e, n) h

  longer : (xs : List Str) (x : Str) (ms : List Str) → xs ≢ xs ++ (x ∷ ms)
  longer xs x ms h = omega (arith, ap length h, length-append xs (x ∷ ms))

  -- A path does not go on below itself.
  pub not_above :
      (norm : Str) (u : Write) (x : Str) (ms : List Str) (f : Write)
      → f.path ≡ norm
      → In u (f ∷ [])
      → segments norm ≢ segments u.path ++ (x ∷ ms)
  not_above norm u x ms f e (inl q) h =
      longer (segments norm) x ms
        (h ∙ ap (λ y. segments y ++ (x ∷ ms)) (ap (λ (v : Write). v.path) (sym q) ∙ e))
  not_above norm u x ms f e (inr i) h = absurd i

  written_file :
      (fs : Fs) (path norm : Str) (content : Bytes) (opts : WriteOptions) (repo : Repo) {fs' : Fs}
      {repo' : Repo}
      → normalize path ≡ ok norm
      → FsWrite.write p fs path content opts repo ≡ (ok fs', repo')
      → (message : Str) × (commit_changes p fs
            (record { path = norm; content = content; mode = value_or opts.mode mode_blob } ∷ [])
            []
            message
            none
            opts.parents
            repo
          ≡ (ok fs', repo'))
  unfolding FsWrite.write
  written_file fs path norm content opts repo {fs'} {repo'} n h =
      let (norm', r, e, h₁) = >>=-inv _ _ repo h in
      let (e₁, q) = lift-inv _ repo e in
      let same : norm' ≡ norm = ok-injective (sym e₁ ∙ n) in
      let run : Str → Repo → Type 0 = λ x s.
        (message : Str) × (commit_changes p fs
            (record { path = x; content = content; mode = value_or opts.mode mode_blob } ∷ []) []
            message none opts.parents s
          ≡ (ok fs', repo')) in
      subst (λ x. run x repo) same (subst (run norm') (sym q) (_, h₁))

  -- What was written is read back: when `write` returns a snapshot, `read` of the same path on that
  -- snapshot returns the content. The snapshot written to may be written, the path is not the
  -- root, and the mode given, if any, is not that of a tree.
  pub read-write :
      (fs : Fs) (ref path norm n : Str) (rest : List Str) (content : Bytes) (opts : WriteOptions)
      (repo : Repo) {fs' : Fs} {repo' : Repo}
      → require_writable (codes "write") fs ≡ ok ref
      → normalize path ≡ ok norm
      → segments norm ≡ n ∷ rest
      → (value_or opts.mode mode_blob == mode_tree) ≡ false
      → FsWrite.write p fs path content opts repo ≡ (ok fs', repo')
      → read p repo' fs' path ≡ ok content
  read-write fs ref path norm n rest content opts repo {fs'} {repo'} w normal segs file h =
      let f : Write = record {
        path = norm;
        content = content;
        mode = value_or opts.mode mode_blob;
      } in
      let (message, changed) = written_file fs path norm content opts repo normal h in
      let ((commit, tree), run, same) =
        commit_changes-inv p fs (f ∷ []) [] message none opts.parents ref repo w changed in
      let l = commit_locked-inv p ref fs (f ∷ []) [] message opts.parents repo run in
      let m =
        write_commit-inv p tree (all_parents p fs opts.parents) fs.inner.signature message l.r₁
          l.made in
      let (t, named) = rebuild_tree-named p (base_tree p fs) (f ∷ []) [] repo l.rebuilt in
      let kept : Keeps p l.r₁ repo' =
        Keeps-trans p
          (laws.commit-Keeps l.r₁ m.author message m.tree_id m.parents m.oid l.r₂ m.created)
          (Moved-Keeps (branch_ref ref) commit message l.r₂ repo'
            (update_ref-inv p ref fs commit message l.r₂ l.moved)) in
      let found =
        rebuild_tree-kept p laws (base_tree p fs) (f ∷ []) [] repo f n rest l.rebuilt kept
          (inl (refl, tt)) (λ u x ms i q. not_above norm u x ms f refl i q) segs file in
      rw (← same) (
        read-eq repo' (advanced p fs none (commit, tree)) path norm content (not_empty tree t named)
          normal found)
