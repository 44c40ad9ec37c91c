-- ===== src/Notes/Updates.antt =====
-- `build_note_tree` of cpp/src/notes.cpp: one note written, and one deleted, as updates of the map
-- from hashes to notes.
use vost.Common.{
  ◌≡◌, refl, sym, ap, subst, ◌∙◌, inl, inr, Bool, true, false, Option, none, some, Str, codes, ◌++◌,
  str_eq, str_eq→eq, Bool-cases, Option-cases, ◌==◌, if◌then◌else◌,
}
use vost.Types.{mode_tree, mode_blob}
use vost.Error.{ok, err, key_not_found, >>=-eq-ok, err≢ok}
use vost.Platform.{Platform, TreeEntry}
use vost.Platform.Laws.{ObjectLaws, Keeps}
use vost.Exec.{ret-inv, >>=-inv, reading-inv, ret, throw}
use vost.Tree.Read.{need, need-inv, hex_to_oid}
use vost.Notes.Tree.{
  fanout_of, fanout_hex, find_by, flat_or, prefix_of, suffix_of, clear_fanout, insert_note,
  write_note, delete_note, delete_fanout,
}
use vost.Notes.Names.{IsHash, hash_apart}
use vost.Notes.Cleared.{Entries, IsComplete, fan}
use vost.Notes.Fanless.{
  IsFanless, fan_note, no_fanout, clear_fanout-IsFanless, remove_fanout-IsFanless,
}

-- A map from the hashes of objects to the hashes of their notes, changed at one hash.
abbrev pub updated : Str → Option Str → (Str → Option Str) → Str → Option Str
updated hash value notes n = if str_eq hash n then value else notes n

module _ (p : Platform) where
  open p use {
    Repo, Oid, Tree, Builder, oid_tostr, oid_fromstr, tree_lookup, tree_entry_byname,
    treebuilder_get, treebuilder_insert, treebuilder_remove,
  }

  -- The entries of a tree of notes: their subtrees are there, and no note is both flat and in the
  -- fanout.
  pub record IsNotes (entry : Entries p) (repo : Repo) : Type 0 where
    pub complete : IsComplete p entry repo
    pub single :
        (n : Str) (e : TreeEntry Oid)
        → IsHash n
        → entry n ≡ some e
        → ((e.filemode == mode_tree) ≡ false) × (fan_note p entry repo n ≡ none)

  -- From `b` to `b'`, the note of `hash` became `value`, and no other note changed.
  pub record IsUpdate (b : Builder) (hash : Str) (value : Option Str) (b' : Builder)
      (repo repo' : Repo) : Type 0 where
    pub keeps : Keeps p repo repo'
    pub notes : IsNotes (treebuilder_get b') repo'
    pub finds :
        (n : Str)
        → IsHash n
        → find_by p (treebuilder_get b') repo' n
          ≡ updated hash value (find_by p (treebuilder_get b) repo) n

  flat_if :
      (c : Bool) (x y : Option (TreeEntry Oid)) (fans : Option Str) (value : Option Str)
      → flat_or p x none ≡ value
      → flat_or p (if c then x else y) (if c then none else fans)
        ≡ (if c then value else flat_or p y fans)
  flat_if true x y fans value h = h
  flat_if false x y fans value h = refl

  pub find_by-eq :
      (entry : Entries p) (repo : Repo) (n : Str) {e : Option (TreeEntry Oid)} {f : Option Str}
      → entry n ≡ e
      → fan_note p entry repo n ≡ f
      → find_by p entry repo n ≡ flat_or p e f
  unfolding find_by
  find_by-eq entry repo n h k = rw (h, k) refl

  -- A flat entry put in the place of whatever the hash had.
  replaced :
      (b b' b'' : Builder) (hash : Str) (x : Option (TreeEntry Oid)) (value : Option Str)
      (repo repo' : Repo)
      → IsHash hash
      → IsNotes (treebuilder_get b) repo
      → IsFanless p b hash b' repo repo'
      → ((e : TreeEntry Oid) → x ≡ some e → (e.filemode == mode_tree) ≡ false)
      → flat_or p x none ≡ value
      → ((n : Str) → treebuilder_get b'' n ≡ (if str_eq hash n then x else treebuilder_get b' n))
      → IsUpdate b hash value b'' repo repo'
  unfolding find_by
  replaced b b' b'' hash x value repo repo' is_hash was f blob shows get = record {
    keeps = f.keeps;
    notes = record {
      complete = λ n e found m. elim (Bool-cases (str_eq hash n)) [
        | inl same ↦ absurd (clash (sym m ∙ blob e (sym (get n ∙ rw same refl) ∙ found)))
        | inr other ↦ f.complete n e (sym (get n ∙ rw other refl) ∙ found) m
      ];
      single = λ n e k found. elim (Bool-cases (str_eq hash n)) [
        | inl same ↦ (blob e (sym (get n ∙ rw same refl) ∙ found), fans n k ∙ rw same refl)
        | inr other ↦
            let (mode, alone) = was.single n e k (sym (flat n k ∙ rw other refl) ∙ found) in
            (mode, fans n k ∙ rw other alone)
      ];
    };
    finds = λ n k.
        find_by-eq (treebuilder_get b'') repo' n (flat n k) (fans n k)
        ∙ flat_if (str_eq hash n) x (treebuilder_get b n) (fan_note p (treebuilder_get b) repo n)
            value shows;
  }
    where
      clash : ¬ (true ≡ false)
      clash h = cc

      flat :
          (n : Str)
          → IsHash n
          → treebuilder_get b'' n ≡ (if str_eq hash n then x else treebuilder_get b n)
      flat n k = get n ∙ ap (λ y. if str_eq hash n then x else y) (f.flat n k)

      fans :
          (n : Str)
          → IsHash n
          → fan_note p (treebuilder_get b'') repo' n
            ≡ (if str_eq hash n then none else fan_note p (treebuilder_get b) repo n)
      fans n k =
          ap (λ y. fan p repo' y (suffix_of n)) {y = treebuilder_get b' (prefix_of n)}
            (get (prefix_of n) ∙ rw (hash_apart hash n is_hash k) refl)
          ∙ f.fans n k

  module _ (laws : ObjectLaws p) where
    -- When a note is written, the hash has that note, and no other note changes.
    pub write_note-IsUpdate :
        (b : Builder) (hash blob_hex : Str) (o : Oid) (repo : Repo) {b' : Builder} {repo' : Repo}
        → IsHash hash
        → blob_hex ≡ oid_tostr o
        → IsNotes (treebuilder_get b) repo
        → write_note p b hash blob_hex repo ≡ (ok b', repo')
        → IsUpdate b hash (some blob_hex) b' repo repo'
    unfolding write_note insert_note hex_to_oid
    write_note-IsUpdate b hash blob_hex o repo {b'} {repo'} is_hash named was h =
        let (b₁, repo₁, cleared, rest) =
          >>=-inv (λ r. clear_fanout p b hash (fanout_of p b hash r) r) _ repo h in
        let (inserted, same) = reading-inv (insert_note p b₁ hash blob_hex) repo₁ rest in
        let (oid, parsed, put) = >>=-eq-ok (need (oid_fromstr blob_hex) _) _ inserted in
        let id : some oid ≡ some o =
          sym (need-inv (oid_fromstr blob_hex) _ parsed)
          ∙ ap oid_fromstr named
          ∙ laws.fromstr-tostr o in
        let f = clear_fanout-IsFanless p laws b hash repo is_hash was.complete cleared in
        subst (λ r. IsUpdate b hash (some blob_hex) b' repo r) same
          (replaced b b₁ b' hash (some (record { name = hash; id = oid; filemode = mode_blob }))
            (some blob_hex) repo repo₁ is_hash was f (λ e q. rw (← within q) refl)
            (sym (ap some (named ∙ ap oid_tostr (sym (within id)))))
            (λ n.
              laws.get-insert repo₁ b₁ b' hash oid mode_blob n
                (need-inv (treebuilder_insert repo₁ b₁ hash oid mode_blob) _ put)))
      where
        within : {A : Type 0} {x y : A} → some x ≡ some y → x ≡ y
        within h = cc

    delete_flat :
        (b : Builder) (hash : Str) (e : TreeEntry Oid) (repo : Repo)
        → IsHash hash
        → IsNotes (treebuilder_get b) repo
        → treebuilder_get b hash ≡ some e
        → IsUpdate b hash none (treebuilder_remove b hash) repo repo
    delete_flat b hash e repo is_hash was there =
        replaced b b (treebuilder_remove b hash) hash none none repo repo is_hash was
          (no_fanout p b hash repo was.complete (was.single hash e is_hash there).1) (λ x q. cc)
          refl (laws.get-remove b hash)

    delete_fanned :
        (b : Builder) (hash : Str) (repo : Repo) {b' : Builder} {repo' : Repo}
        → IsHash hash
        → IsNotes (treebuilder_get b) repo
        → treebuilder_get b hash ≡ none
        → delete_fanout p b hash (fanout_of p b hash repo) repo ≡ (ok b', repo')
        → IsUpdate b hash none b' repo repo'
    unfolding throw
    delete_fanned b hash repo {b'} {repo'} is_hash was gone h =
        by_found (fanout_of p b hash repo) refl h
      where
        nothing :
            (c : Bool) (y : Option (TreeEntry Oid))
            → (c ≡ true → y ≡ none)
            → y ≡ (if c then none else y)
        nothing true y h = h refl
        nothing false y h = refl

        by_found :
            (o : Option (Tree × TreeEntry Oid))
            → fanout_of p b hash repo ≡ o
            → delete_fanout p b hash o repo ≡ (ok b', repo')
            → IsUpdate b hash none b' repo repo'
        by_found none e h = absurd (err≢ok (ap (λ x. x.0) h))
        by_found (some (sub, x)) e h =
            let f =
              remove_fanout-IsFanless p laws (codes "(fanout sub)") b hash sub x repo is_hash
                was.complete e h in
            replaced b b' b' hash none none repo repo' is_hash was f (λ y q. cc) refl
              (λ n. nothing (str_eq hash n) (treebuilder_get b' n) (λ same.
                ap (treebuilder_get b') (sym (str_eq→eq hash n same)) ∙ f.flat hash is_hash ∙ gone))

    -- When a note is deleted, the hash has no note, and no other note changes.
    pub delete_note-IsUpdate :
        (b : Builder) (hash : Str) (repo : Repo) {b' : Builder} {repo' : Repo}
        → IsHash hash
        → IsNotes (treebuilder_get b) repo
        → delete_note p b hash repo ≡ (ok b', repo')
        → IsUpdate b hash none b' repo repo'
    unfolding delete_note ret
    delete_note-IsUpdate b hash repo {b'} {repo'} is_hash was h =
        elim (Option-cases (treebuilder_get b hash)) [
          | inl gone ↦ delete_fanned b hash repo is_hash was gone (rw (gone, delete_note) at h)
          | inr (e, there) ↦
              let done : (ok (treebuilder_remove b hash), repo) ≡ (ok b', repo') =
                rw (there, delete_note) at h in
              let (same, q) = ret-inv (treebuilder_remove b hash) repo done in
              subst (λ r. IsUpdate b hash none b' repo r) q
                (subst (λ x. IsUpdate b hash none x repo repo) same
                  (delete_flat b hash e repo is_hash was there))
        ]

    no_hex : (o : Option (Tree × TreeEntry Oid)) → fanout_hex p o ≡ none → o ≡ none
    no_hex none h = refl
    no_hex (some x) h = cc

    -- A note that is not there cannot be deleted: that is a KeyNotFoundError, and nothing changes.
    pub delete_note-missing :
        (b : Builder) (hash : Str) (repo : Repo)
        → IsHash hash
        → IsNotes (treebuilder_get b) repo
        → find_by p (treebuilder_get b) repo hash ≡ none
        → delete_note p b hash repo ≡ (err (key_not_found (codes "note not found: " ++ hash)), repo)
    unfolding delete_note fanout_of find_by throw
    delete_note-missing b hash repo is_hash was h = elim (Option-cases (treebuilder_get b hash)) [
      | inl gone ↦
          let alone : fan_note p (treebuilder_get b) repo hash ≡ none =
            subst (λ x. flat_or p x (fan_note p (treebuilder_get b) repo hash) ≡ none) gone h in
          rw (gone, no_hex _ alone, delete_note) refl
      | inr (e, there) ↦
          let (mode, alone) = was.single hash e is_hash there in
          absurd (
            found e _ mode
              (subst (λ x. flat_or p x (fan_note p (treebuilder_get b) repo hash) ≡ none) there h))
    ]
      where
        found :
            (e : TreeEntry Oid) (f : Option Str)
            → (e.filemode == mode_tree) ≡ false
            → ¬ (flat_or p (some e) f ≡ none)
        found e f m h = some_hex (subst (λ c. (if c then f else some (oid_tostr e.id)) ≡ none) m h)
          where
            some_hex : {x : Str} → ¬ (some x ≡ none)
            some_hex h = cc
