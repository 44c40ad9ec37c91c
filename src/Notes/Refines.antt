-- ===== src/Notes/Refines.antt =====
-- `build_note_tree` of cpp/src/notes.cpp implements the changes of a map from hashes to notes.
use vost.Common.{
  ◌≡◌, refl, sym, ap, subst, ◌∙◌, Option, none, some, List, [], ◌∷◌, Str, All, if◌then◌else◌,
  str_eq,
}
use vost.Error.{Result, ok, err}
use vost.Platform.{Platform}
use vost.Platform.Laws.{ObjectLaws, Keeps, Keeps-refl, Keeps-trans}
use vost.Exec.{ret-inv, >>=-inv}
use vost.Tree.Read.{need, need-inv, hex_to_oid}
use vost.Notes.Tree.{
  find_by, find_note, fanout_entry, prefix_of, delete_note, delete_notes, write_note, write_notes,
  empty_note_builder,
}
use vost.Notes.Names.{IsHash}
use vost.Notes.Updates.{updated, IsNotes, find_by-eq, write_note-IsUpdate, delete_note-IsUpdate}

-- The map after deletes, and after writes, one by one.
unfoldable pub deleted : List Str → (Str → Option Str) → Str → Option Str
deleted [] notes = notes
deleted (hash ∷ deletes) notes = deleted deletes (updated hash none notes)

unfoldable pub written : List (Str × Str) → (Str → Option Str) → Str → Option Str
written [] notes = notes
written ((hash, blob_hex) ∷ writes) notes = written writes (updated hash (some blob_hex) notes)

-- Two maps that agree on the hashes.
abbrev pub Agree : (Str → Option Str) → (Str → Option Str) → Type 0
Agree f g = (n : Str) → IsHash n → f n ≡ g n

updated-Agree :
    (hash : Str) (x : Option Str) (f g : Str → Option Str)
    → Agree f g
    → Agree (updated hash x f) (updated hash x g)
updated-Agree hash x f g a n k = ap (λ y. if str_eq hash n then x else y) (a n k)

pub deleted-Agree :
    (deletes : List Str) (f g : Str → Option Str)
    → Agree f g
    → Agree (deleted deletes f) (deleted deletes g)
unfolding deleted
deleted-Agree [] f g a = a
deleted-Agree (hash ∷ deletes) f g a =
    deleted-Agree deletes (updated hash none f) (updated hash none g)
      (updated-Agree hash none f g a)

pub written-Agree :
    (writes : List (Str × Str)) (f g : Str → Option Str)
    → Agree f g
    → Agree (written writes f) (written writes g)
unfolding written
written-Agree [] f g a = a
written-Agree ((hash, x) ∷ writes) f g a =
    written-Agree writes (updated hash (some x) f) (updated hash (some x) g)
      (updated-Agree hash (some x) f g a)

module _ (p : Platform) where
  open p use {
    Repo, Oid, Tree, Builder, oid_tostr, oid_fromstr, tree_lookup, tree_entry_byname,
    treebuilder_get, treebuilder_new, treebuilder_write,
  }

  -- The hash of an object, and that of a note as libgit2 prints it.
  abbrev pub IsWrite : Str × Str → Type 0
  IsWrite (hash, blob_hex) = IsHash hash × ((o : Oid) × (blob_hex ≡ oid_tostr o))

  -- A tree of notes in the repository, or none yet.
  abbrev pub IsNoteTree : Repo → Option Str → Type 0
  IsNoteTree repo none = Unit
  IsNoteTree repo (some hex) =
      (o : Oid) × (t : Tree) × (oid_fromstr hex ≡ some o)
      × (tree_lookup repo o ≡ some t)
      × IsNotes p (tree_entry_byname t) repo

  abbrev pub found : Result (Option Str) → Option Str
  found (err e) = none
  found (ok x) = x

  -- The map that a tree stands for, as `find_note` reads it.
  abbrev pub notes_in : Repo → Option Str → Str → Option Str
  notes_in repo none n = none
  notes_in repo (some hex) n = found (find_note p repo hex n)

  -- From `b` to `b'`, the map changed by `change`.
  pub record IsChange (b b' : Builder) (change : (Str → Option Str) → Str → Option Str)
      (repo repo' : Repo) : Type 0 where
    pub keeps : Keeps p repo repo'
    pub notes : IsNotes p (treebuilder_get b') repo'
    pub finds :
        Agree (find_by p (treebuilder_get b') repo') (change (find_by p (treebuilder_get b) repo))

  pub find_note-eq :
      (repo : Repo) (hex n : Str) (o : Oid) (t : Tree)
      → oid_fromstr hex ≡ some o
      → tree_lookup repo o ≡ some t
      → find_note p repo hex n ≡ ok (find_by p (tree_entry_byname t) repo n)
  unfolding find_note hex_to_oid need
  find_note-eq repo hex n o t parsed looked = rw (parsed, looked) refl

  IsChange-refl :
      (b : Builder) (repo : Repo)
      → IsNotes p (treebuilder_get b) repo
      → IsChange b b (λ f. f) repo repo
  IsChange-refl b repo was = record { keeps = Keeps-refl p repo; notes = was; finds = λ n k. refl }

  module _ (laws : ObjectLaws p) where
    pub delete_notes-IsChange :
        (b : Builder) (deletes : List Str) (repo : Repo) {b' : Builder} {repo' : Repo}
        → All IsHash deletes
        → IsNotes p (treebuilder_get b) repo
        → delete_notes p b deletes repo ≡ (ok b', repo')
        → IsChange b b' (deleted deletes) repo repo'
    unfolding delete_notes deleted
    delete_notes-IsChange b [] repo {b'} {repo'} all was h =
        let (same, q) = ret-inv b repo h in
        subst (λ r. IsChange b b' (deleted []) repo r) q
          (subst (λ x. IsChange b x (deleted []) repo repo) same (IsChange-refl b repo was))
    delete_notes-IsChange b (hash ∷ deletes) repo (is_hash, all) was h =
        let (b₁, repo₁, first, rest) = >>=-inv (delete_note p b hash) _ repo h in
        let u = delete_note-IsUpdate p laws b hash repo is_hash was first in
        let c = delete_notes-IsChange b₁ deletes repo₁ all u.notes rest in
        record {
          keeps = Keeps-trans p u.keeps c.keeps;
          notes = c.notes;
          finds = λ n k. c.finds n k ∙ deleted-Agree deletes _ _ u.finds n k;
        }

    pub write_notes-IsChange :
        (b : Builder) (writes : List (Str × Str)) (repo : Repo) {b' : Builder} {repo' : Repo}
        → All IsWrite writes
        → IsNotes p (treebuilder_get b) repo
        → write_notes p b writes repo ≡ (ok b', repo')
        → IsChange b b' (written writes) repo repo'
    unfolding write_notes written
    write_notes-IsChange b [] repo {b'} {repo'} all was h =
        let (same, q) = ret-inv b repo h in
        subst (λ r. IsChange b b' (written []) repo r) q
          (subst (λ x. IsChange b x (written []) repo repo) same (IsChange-refl b repo was))
    write_notes-IsChange b ((hash, x) ∷ writes) repo ((is_hash, (o, named)), all) was h =
        let (b₁, repo₁, first, rest) = >>=-inv (write_note p b hash x) _ repo h in
        let u = write_note-IsUpdate p laws b hash x o repo is_hash named was first in
        let c = write_notes-IsChange b₁ writes repo₁ all u.notes rest in
        record {
          keeps = Keeps-trans p u.keeps c.keeps;
          notes = c.notes;
          finds = λ n k. c.finds n k ∙ written-Agree writes _ _ u.finds n k;
        }

    no_entries :
        (b : Builder) (repo : Repo)
        → ((n : Str) → treebuilder_get b n ≡ none)
        → IsNotes p (treebuilder_get b) repo
    no_entries b repo h = record {
      complete = λ n e there m. absurd (clash (sym (h n) ∙ there));
      single = λ n e k there. absurd (clash (sym (h n) ∙ there));
    }
      where
        clash : {A : Type 0} {a : A} → ¬ (none ≡ some a)
        clash h = cc

    pub empty_note_builder-IsNotes :
        (repo : Repo) {b : Builder}
        → empty_note_builder p repo ≡ ok b
        → IsNotes p (treebuilder_get b) repo
          × ((n : Str) → find_by p (treebuilder_get b) repo n ≡ none)
    unfolding empty_note_builder fanout_entry
    empty_note_builder-IsNotes repo {b} h =
        let gone : (n : Str) → treebuilder_get b n ≡ none =
          λ n. laws.get-new_none repo b n (need-inv (treebuilder_new repo none) _ h) in
        (
          no_entries b repo gone,
          λ n. find_by-eq p (treebuilder_get b) repo n (gone n) (rw (gone (prefix_of n)) refl),
        )
