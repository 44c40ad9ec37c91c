-- ===== src/Notes/Fanless.antt =====
-- `build_note_tree` of cpp/src/notes.cpp, before it writes or deletes a note: the tree without the
-- note of that hash in its fanout.
use vost.Common.{
  ◌≡◌, refl, sym, ap, subst, ◌∙◌, inl, inr, Bool, true, false, Option, none, some, Str, codes,
  str_eq, str_eq→eq, Bool-cases, ◌==◌, if◌then◌else◌,
}
use vost.Types.{mode_tree}
use vost.Error.{ok}
use vost.Platform.{Platform, TreeEntry}
use vost.Platform.Laws.{ObjectLaws, Keeps, Keeps-refl}
use vost.Exec.{ret-inv}
use vost.Notes.Tree.{
  fanout_entry, fanout_of, fanout_hex, in_subtree, looked_up, prefix_of, suffix_of, remove_fanout,
  clear_fanout,
}
use vost.Notes.Names.{IsHash, same_prefix, other_prefix, prefix_apart}
use vost.Notes.Fanout.{id_hex, remove_fanout-inv}
use vost.Notes.Cleared.{
  Entries, IsComplete, fan, fan-tree, fan-Keeps, IsCleared, remove_fanout-IsCleared,
}

module _ (p : Platform) where
  open p use {Repo, Oid, Tree, Builder, oid_tostr, tree_lookup, tree_entry_byname, treebuilder_get}

  -- the note of a hash in the fanout
  abbrev pub fan_note : Entries p → Repo → Str → Option Str
  fan_note entry repo hash = fan p repo (entry (prefix_of hash)) (suffix_of hash)

  pub record IsFanless (b : Builder) (hash : Str) (b' : Builder) (repo repo' : Repo) : Type 0 where
    pub keeps : Keeps p repo repo'
    pub complete : IsComplete p (treebuilder_get b') repo'
    pub flat : (n : Str) → IsHash n → treebuilder_get b' n ≡ treebuilder_get b n
    pub fans :
        (n : Str)
        → IsHash n
        → fan_note (treebuilder_get b') repo' n
          ≡ (if str_eq hash n then none else fan_note (treebuilder_get b) repo n)

  -- What `fanout_entry` found.
  record IsFound (repo : Repo) (dir : Option (TreeEntry Oid)) (suffix : Str) (sub : Tree)
      : Type 0 where
    entry : TreeEntry Oid
    there : dir ≡ some entry
    is_tree : (entry.filemode == mode_tree) ≡ true
    looked : tree_lookup repo entry.id ≡ some sub

  looked_up-inv :
      (o : Option Tree) (suffix : Str) {sub : Tree} {e : TreeEntry Oid}
      → looked_up p o suffix ≡ some (sub, e)
      → o ≡ some sub
  looked_up-inv none suffix h = cc
  looked_up-inv (some t) suffix h = ap some (within (tree_entry_byname t suffix) h)
    where
      within :
          (o : Option (TreeEntry Oid)) {sub : Tree} {e : TreeEntry Oid}
          → in_subtree p t o ≡ some (sub, e)
          → t ≡ sub
      within none h = cc
      within (some e) h = cc

  fanout_entry-inv :
      (repo : Repo) (dir : Option (TreeEntry Oid)) (suffix : Str) {sub : Tree} {e : TreeEntry Oid}
      → fanout_entry p repo dir suffix ≡ some (sub, e)
      → IsFound repo dir suffix sub
  unfolding fanout_entry
  fanout_entry-inv repo none suffix h = cc
  fanout_entry-inv repo (some d) suffix {sub} {e} h = by_mode (d.filemode == mode_tree) refl h
    where
      by_mode :
          (m : Bool)
          → (d.filemode == mode_tree) ≡ m
          → (if m then looked_up p (tree_lookup repo d.id) suffix else none) ≡ some (sub, e)
          → IsFound repo (some d) suffix sub
      by_mode true m h = record {
        entry = d;
        there = refl;
        is_tree = m;
        looked = looked_up-inv (tree_lookup repo d.id) suffix h;
      }
      by_mode false m h = cc

  pub no_fanout :
      (b : Builder) (hash : Str) (repo : Repo)
      → IsComplete p (treebuilder_get b) repo
      → fan_note (treebuilder_get b) repo hash ≡ none
      → IsFanless b hash b repo repo
  no_fanout b hash repo c h = record {
    keeps = Keeps-refl p repo;
    complete = c;
    flat = λ n k. refl;
    fans = λ n k. elim (Bool-cases (str_eq hash n)) [
      | inl e ↦
          rw e (subst (λ x. fan_note (treebuilder_get b) repo x ≡ none) (str_eq→eq hash n e) h)
      | inr e ↦ rw e refl
    ];
  }

  module _ (laws : ObjectLaws p) where
    fanout_removed :
        (b : Builder) (hash : Str) (sub : Tree) (b' : Builder) (repo repo' : Repo)
        → IsHash hash
        → IsComplete p (treebuilder_get b) repo
        → IsFound repo (treebuilder_get b (prefix_of hash)) (suffix_of hash) sub
        → IsCleared p b hash sub b' repo repo'
        → IsFanless b hash b' repo repo'
    fanout_removed b hash sub b' repo repo' is_hash c f s = record {
      keeps = s.keeps;
      complete = s.complete c;
      flat = λ n k. s.others n (prefix_apart n hash k is_hash);
      fans = λ n k. elim (Bool-cases (str_eq (prefix_of hash) (prefix_of n))) [
        | inl same ↦
            let at : prefix_of hash ≡ prefix_of n = str_eq→eq (prefix_of hash) (prefix_of n) same in
            let before : fan_note (treebuilder_get b) repo n
                ≡ id_hex p (tree_entry_byname sub (suffix_of n)) =
              ap (λ x. fan p repo (treebuilder_get b x) (suffix_of n)) (sym at)
              ∙ ap (λ x. fan p repo x (suffix_of n)) f.there
              ∙ fan-tree p repo f.entry sub (suffix_of n) f.is_tree f.looked in
            ap (λ x. fan p repo' (treebuilder_get b' x) (suffix_of n)) (sym at)
            ∙ s.left (suffix_of n)
            ∙ rw (same_prefix hash n same, before) refl
        | inr other ↦ rw (other_prefix hash n other) (
            ap (λ x. fan p repo' x (suffix_of n)) (s.others (prefix_of n) other)
            ∙ fan-Keeps p repo repo' (treebuilder_get b (prefix_of n)) (suffix_of n) s.keeps
                (c (prefix_of n)))
      ];
    }

    pub remove_fanout-IsFanless :
        (place : Str) (b : Builder) (hash : Str) (sub : Tree) (e : TreeEntry Oid) (repo : Repo)
        {b' : Builder} {repo' : Repo}
        → IsHash hash
        → IsComplete p (treebuilder_get b) repo
        → fanout_of p b hash repo ≡ some (sub, e)
        → remove_fanout p place b hash sub repo ≡ (ok b', repo')
        → IsFanless b hash b' repo repo'
    unfolding fanout_of
    remove_fanout-IsFanless place b hash sub e repo {b'} {repo'} is_hash c found h =
        fanout_removed b hash sub b' repo repo' is_hash c
          (fanout_entry-inv repo (treebuilder_get b (prefix_of hash)) (suffix_of hash) found)
          (remove_fanout-IsCleared p laws b hash sub b' repo repo'
            (remove_fanout-inv p place b hash sub repo h))

    pub clear_fanout-IsFanless :
        (b : Builder) (hash : Str) (repo : Repo) {b' : Builder} {repo' : Repo}
        → IsHash hash
        → IsComplete p (treebuilder_get b) repo
        → clear_fanout p b hash (fanout_of p b hash repo) repo ≡ (ok b', repo')
        → IsFanless b hash b' repo repo'
    unfolding fanout_of
    clear_fanout-IsFanless b hash repo {b'} {repo'} is_hash c h =
        by_found (fanout_of p b hash repo) refl h
      where
        by_found :
            (o : Option (Tree × TreeEntry Oid))
            → fanout_of p b hash repo ≡ o
            → clear_fanout p b hash o repo ≡ (ok b', repo')
            → IsFanless b hash b' repo repo'
        by_found none e h =
            let (same, q) = ret-inv b repo h in
            subst (λ r. IsFanless b hash b' repo r) q
              (subst (λ x. IsFanless b hash x repo repo) same
                (no_fanout b hash repo c (ap (fanout_hex p) e)))
        by_found (some (sub, x)) e h =
            remove_fanout-IsFanless (codes "(fanout write)") b hash sub x repo is_hash c e h
