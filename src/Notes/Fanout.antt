-- ===== src/Notes/Fanout.antt =====
-- `build_note_tree` of cpp/src/notes.cpp takes a note out of its subtree.
use vost.Common.{
  ◌≡◌, refl, ap, ◌∙◌, ◌⊎◌, inl, inr, Bool, true, false, Option, none, some, ◌++◌, Str, codes, ◌==◌,
  ==_iff, if◌then◌else◌,
}
use vost.Error.{Result, ok, err, git_error, err≢ok, ok-injective}
use vost.Types.{mode_tree}
use vost.Platform.{Platform, TreeEntry}
use vost.Exec.{◌>>=◌, reading, >>=-inv, reading-inv, ret-inv, ret}
use vost.Tree.Read.{need, need-inv}
use vost.Fs.Commit.{storing}
use vost.Notes.Tree.{fanout_hex, in_subtree, remove_fanout, prefix_of, suffix_of}

module _ (p : Platform) where
  open p use {
    Repo, Oid, Tree, Builder, oid_tostr, tree_lookup, tree_entry_byname, treebuilder_new,
    treebuilder_get, treebuilder_insert, treebuilder_remove, treebuilder_entrycount,
    treebuilder_write,
  }

  pub storing-inv :
      (call : Repo → Option (Oid × Repo)) (context : Str) (repo : Repo) {o : Oid} {repo' : Repo}
      → storing p call context repo ≡ (ok o, repo')
      → call repo ≡ some (o, repo')
  unfolding storing
  storing-inv call context repo {o} {repo'} h = go (call repo) h
    where
      go :
          (r : Option (Oid × Repo))
          → elim r as (λ x. Result Oid × Repo) [
            | none ↦ (err (git_error context), repo)
            | some (x, s) ↦ (ok x, s)
          ]
            ≡ (ok o, repo')
          → r ≡ some (o, repo')
      go none h = absurd (err≢ok (ap (λ x. x.0) h))
      go (some (x, s)) h = cc (ok-injective (ap (λ x. x.0) h), ap (λ x. x.1) h)

  abbrev pub id_hex : Option (TreeEntry Oid) → Option Str
  id_hex none = none
  id_hex (some e) = some (oid_tostr e.id)

  pub in_subtree-hex :
      (sub : Tree) (e : Option (TreeEntry Oid)) → fanout_hex p (in_subtree p sub e) ≡ id_hex e
  in_subtree-hex sub none = refl
  in_subtree-hex sub (some e) = refl

  -- What the calls did when `remove_fanout` returned: the subtree became empty and its entry went,
  -- or the smaller subtree was written.
  pub record IsShrunk (b : Builder) (hash : Str) (sub : Tree) (b' : Builder) (repo repo' : Repo)
      : Type 0 where
    pub builder : Builder
    pub started : treebuilder_new repo (some sub) ≡ some builder
    pub change :
        ((treebuilder_entrycount (treebuilder_remove builder (suffix_of hash)) ≡ 0)
          × (repo ≡ repo')
          × (treebuilder_remove b (prefix_of hash) ≡ b'))
        ⊎ ((o : Oid) × (treebuilder_write repo (treebuilder_remove builder (suffix_of hash))
              ≡ some (o, repo'))
            × (treebuilder_insert repo' b (prefix_of hash) o mode_tree ≡ some b'))

  pub remove_fanout-inv :
      (place : Str) (b : Builder) (hash : Str) (sub : Tree) (repo : Repo) {b' : Builder}
      {repo' : Repo}
      → remove_fanout p place b hash sub repo ≡ (ok b', repo')
      → IsShrunk b hash sub b' repo repo'
  unfolding remove_fanout
  remove_fanout-inv place b hash sub repo {b'} {repo'} h =
      let start : Repo → Result Builder = λ r.
        need (treebuilder_new r (some sub)) (git_error (codes "git_treebuilder_new " ++ place)) in
      let (sub_b, repo₁, begun, rest) = >>=-inv (reading start) _ repo h in
      let (made, same) = reading-inv start repo begun in
      let left = treebuilder_remove sub_b (suffix_of hash) in
      record {
        builder = sub_b;
        started = need-inv (treebuilder_new repo (some sub)) _ made;
        change =
            by_count left (treebuilder_entrycount left == 0) repo₁ same
              (λ e. (==_iff (treebuilder_entrycount left) 0).0 e) rest;
      }
    where
      by_count :
          (left : Builder) (zero : Bool) (repo₁ : Repo)
          → repo ≡ repo₁
          → (zero ≡ true → treebuilder_entrycount left ≡ 0)
          → (if zero
                then ret (treebuilder_remove b (prefix_of hash))
                else (storing p
                      (λ r. treebuilder_write r left)
                      (codes "git_treebuilder_write " ++ place)
                    >>= λ o. reading (λ r.
                      need
                        (treebuilder_insert r b (prefix_of hash) o mode_tree)
                        (git_error (codes "git_treebuilder_insert " ++ place)))))
              repo₁
            ≡ (ok b', repo')
          → ((treebuilder_entrycount left ≡ 0)
              × (repo ≡ repo')
              × (treebuilder_remove b (prefix_of hash) ≡ b'))
            ⊎ ((o : Oid) × (treebuilder_write repo left ≡ some (o, repo'))
                × (treebuilder_insert repo' b (prefix_of hash) o mode_tree ≡ some b'))
      by_count left true repo₁ same z h =
          let (e, q) = ret-inv (treebuilder_remove b (prefix_of hash)) repo₁ h in
          inl (z refl, same ∙ q, e)
      by_count left false repo₁ same z h =
          let (o, repo₂, written, k) =
            >>=-inv
              (storing p (λ r. treebuilder_write r left) (codes "git_treebuilder_write " ++ place))
              _ repo₁ h in
          let put : Repo → Result Builder = λ r.
            need (treebuilder_insert r b (prefix_of hash) o mode_tree)
              (git_error (codes "git_treebuilder_insert " ++ place)) in
          let (inserted, q) = reading-inv put repo₂ k in
          let w = storing-inv (λ r. treebuilder_write r left) _ repo₁ written in
          inr (
            o,
            rw (same, ← q) w,
            rw (← q)
                (need-inv (treebuilder_insert repo₂ b (prefix_of hash) o mode_tree) _ inserted),
          )
