-- ===== src/Notes/Cleared.antt =====
-- What is left of a subtree of notes that a note was taken out of.
use vost.Common.{
  ◌≡◌, refl, sym, ap, subst, ◌∙◌, inl, inr, Bool, true, false, Option, none, some, Str, str_eq,
  str_eq_refl, str_eq→eq, Bool-cases, ◌==◌, if◌then◌else◌,
}
use vost.Types.{mode_tree}
use vost.Platform.{Platform, TreeEntry}
use vost.Platform.Laws.{ObjectLaws, Keeps, Keeps-refl}
use vost.Notes.Tree.{fanout_entry, fanout_hex, prefix_of, suffix_of}
use vost.Notes.Fanout.{IsShrunk, id_hex, in_subtree-hex}

module _ (p : Platform) where
  open p use {
    Repo, Oid, Tree, Builder, oid_tostr, tree_lookup, tree_entry_byname, treebuilder_new,
    treebuilder_get, treebuilder_insert, treebuilder_remove, treebuilder_entrycount,
    treebuilder_write,
  }

  abbrev pub Entries : Type 0
  Entries = Str → Option (TreeEntry Oid)

  -- Every subtree that an entry names is there.
  abbrev pub IsComplete : Entries → Repo → Type 0
  IsComplete entry repo =
      (n : Str) (e : TreeEntry Oid)
      → entry n ≡ some e
      → (e.filemode == mode_tree) ≡ true
      → (t : Tree) × (tree_lookup repo e.id ≡ some t)

  -- The note of the fanout, of an entry and a suffix.
  abbrev pub fan : Repo → Option (TreeEntry Oid) → Str → Option Str
  fan repo dir suffix = fanout_hex p (fanout_entry p repo dir suffix)

  pub fan-tree :
      (repo : Repo) (dir : TreeEntry Oid) (t : Tree) (suffix : Str)
      → (dir.filemode == mode_tree) ≡ true
      → tree_lookup repo dir.id ≡ some t
      → fan repo (some dir) suffix ≡ id_hex p (tree_entry_byname t suffix)
  unfolding fanout_entry
  fan-tree repo dir t suffix m looked =
      rw (m, looked) (in_subtree-hex p t (tree_entry_byname t suffix))

  fan-other :
      (repo : Repo) (dir : TreeEntry Oid) (suffix : Str)
      → (dir.filemode == mode_tree) ≡ false
      → fan repo (some dir) suffix ≡ none
  unfolding fanout_entry
  fan-other repo dir suffix m = rw m refl

  -- A repository that has more objects has the same fanout.
  pub fan-Keeps :
      (repo repo' : Repo) (dir : Option (TreeEntry Oid)) (suffix : Str)
      → Keeps p repo repo'
      → ((e : TreeEntry Oid)
          → dir ≡ some e
          → (e.filemode == mode_tree) ≡ true
          → (t : Tree) × (tree_lookup repo e.id ≡ some t))
      → fan repo' dir suffix ≡ fan repo dir suffix
  unfolding fanout_entry
  fan-Keeps repo repo' none suffix k c = refl
  fan-Keeps repo repo' (some e) suffix k c = elim (Bool-cases (e.filemode == mode_tree)) [
    | inl m ↦
        let (t, looked) = c e refl m in
        fan-tree repo' e t suffix m (k.trees e.id t looked)
        ∙ sym (fan-tree repo e t suffix m looked)
    | inr m ↦ fan-other repo' e suffix m ∙ sym (fan-other repo e suffix m)
  ]

  pub record IsCleared (b : Builder) (hash : Str) (sub : Tree) (b' : Builder) (repo repo' : Repo)
      : Type 0 where
    pub keeps : Keeps p repo repo'
    pub others :
        (n : Str) → str_eq (prefix_of hash) n ≡ false → treebuilder_get b' n ≡ treebuilder_get b n
    pub left :
        (s : Str)
        → fan repo' (treebuilder_get b' (prefix_of hash)) s
          ≡ (if str_eq (suffix_of hash) s then none else id_hex p (tree_entry_byname sub s))
    pub complete : IsComplete (treebuilder_get b) repo → IsComplete (treebuilder_get b') repo'

  module _ (laws : ObjectLaws p) where
    -- the entries of the smaller subtree
    get-shrunk :
        (repo : Repo) (sub : Tree) (sub_b : Builder) (suffix s : Str)
        → treebuilder_new repo (some sub) ≡ some sub_b
        → treebuilder_get (treebuilder_remove sub_b suffix) s
          ≡ (if str_eq suffix s then none else tree_entry_byname sub s)
    get-shrunk repo sub sub_b suffix s started =
        laws.get-remove sub_b suffix s
        ∙ ap (λ x. if str_eq suffix s then none else x) (laws.get-new_some repo sub sub_b s started)

    hex_if :
        (b : Bool) (o e : Option (TreeEntry Oid))
        → o ≡ (if b then none else e)
        → id_hex p o ≡ (if b then none else id_hex p e)
    hex_if true o e h = ap (id_hex p) h
    hex_if false o e h = ap (id_hex p) h

    get-removed :
        (b b' : Builder) (name : Str)
        → treebuilder_remove b name ≡ b'
        → (treebuilder_get b' name ≡ none)
          × ((n : Str) → str_eq name n ≡ false → treebuilder_get b' n ≡ treebuilder_get b n)
    get-removed b b' name same = rw (← same) (
      laws.get-remove b name name ∙ rw (str_eq_refl name) refl,
      λ n apart. laws.get-remove b name n ∙ rw apart refl,
    )

    emptied :
        (b : Builder) (hash : Str) (sub : Tree) (b' : Builder) (repo : Repo) (sub_b : Builder)
        → treebuilder_new repo (some sub) ≡ some sub_b
        → treebuilder_entrycount (treebuilder_remove sub_b (suffix_of hash)) ≡ 0
        → treebuilder_remove b (prefix_of hash) ≡ b'
        → IsCleared b hash sub b' repo repo
    unfolding fanout_entry
    emptied b hash sub b' repo sub_b started count removed =
        let (gone, others) = get-removed b b' (prefix_of hash) removed in
        record {
          keeps = Keeps-refl p repo;
          others = others;
          left = λ s. rw gone (
              hex_if (str_eq (suffix_of hash) s) none (tree_entry_byname sub s) (
                sym (laws.entrycount_zero (treebuilder_remove sub_b (suffix_of hash)) s count)
                ∙ get-shrunk repo sub sub_b (suffix_of hash) s started));
          complete = λ c n e found m. elim (Bool-cases (str_eq (prefix_of hash) n)) [
            | inl same ↦ absurd (
                nothing (
                  sym found
                  ∙ ap (treebuilder_get b') (sym (str_eq→eq (prefix_of hash) n same))
                  ∙ gone))
            | inr apart ↦ c n e (sym (others n apart) ∙ found) m
          ];
        }
      where
        nothing : {e : TreeEntry Oid} → ¬ (some e ≡ none)
        nothing h = cc

    shrunk :
        (b : Builder) (hash : Str) (sub : Tree) (b' : Builder) (repo repo' : Repo) (sub_b : Builder)
        (o : Oid)
        → treebuilder_new repo (some sub) ≡ some sub_b
        → treebuilder_write repo (treebuilder_remove sub_b (suffix_of hash)) ≡ some (o, repo')
        → treebuilder_insert repo' b (prefix_of hash) o mode_tree ≡ some b'
        → IsCleared b hash sub b' repo repo'
    shrunk b hash sub b' repo repo' sub_b o started written inserted =
        let (t, looked, same) = laws.byname-write repo _ o repo' written in
        let keeps = laws.write-Keeps repo _ o repo' written in
        let dir : TreeEntry Oid = record { name = prefix_of hash; id = o; filemode = mode_tree } in
        let here : treebuilder_get b' (prefix_of hash) ≡ some dir =
          laws.get-insert repo' b b' (prefix_of hash) o mode_tree (prefix_of hash) inserted
          ∙ rw (str_eq_refl (prefix_of hash)) refl in
        let others : (n : Str)
            → str_eq (prefix_of hash) n ≡ false
            → treebuilder_get b' n ≡ treebuilder_get b n =
          λ n apart.
            laws.get-insert repo' b b' (prefix_of hash) o mode_tree n inserted ∙ rw apart refl in
        record {
          keeps = keeps;
          others = others;
          left = λ s.
              ap (λ d. fan repo' d s) here
              ∙ fan-tree repo' dir t s refl looked
              ∙ hex_if (str_eq (suffix_of hash) s) (tree_entry_byname t s) (tree_entry_byname sub s)
                  (same s ∙ get-shrunk repo sub sub_b (suffix_of hash) s started);
          complete = λ c n e found m. elim (Bool-cases (str_eq (prefix_of hash) n)) [
            | inl eq ↦
                let id : some dir ≡ some e =
                  sym here ∙ ap (treebuilder_get b') (str_eq→eq (prefix_of hash) n eq) ∙ found in
                (
                  t,
                  subst (λ (x : TreeEntry Oid). tree_lookup repo' x.id ≡ some t) (inside id) looked,
                )
            | inr apart ↦
                let (u, there) = c n e (sym (others n apart) ∙ found) m in
                (u, keeps.trees e.id u there)
          ];
        }
      where
        inside : {d e : TreeEntry Oid} → some d ≡ some e → d ≡ e
        inside h = cc

    pub remove_fanout-IsCleared :
        (b : Builder) (hash : Str) (sub : Tree) (b' : Builder) (repo repo' : Repo)
        → IsShrunk p b hash sub b' repo repo'
        → IsCleared b hash sub b' repo repo'
    remove_fanout-IsCleared b hash sub b' repo repo' s = elim s.change [
      | inl (count, same, removed) ↦
          subst (λ r. IsCleared b hash sub b' repo r) same
            (emptied b hash sub b' repo s.builder s.started count removed)
      | inr (o, written, inserted) ↦
          shrunk b hash sub b' repo repo' s.builder o s.started written inserted
    ]
