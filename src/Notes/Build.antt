-- ===== src/Notes/Build.antt =====
-- `build_note_tree` of cpp/src/notes.cpp as a change of a map: the deletes, then the writes.
use mathlib.Core.Path.{fun_ext}
use vost.Common.{◌≡◌, refl, sym, ap, subst, ◌∙◌, Option, none, some, List, Str, All}
use vost.Error.{ok}
use vost.Platform.{Platform, TreeEntry}
use vost.Platform.Laws.{ObjectLaws, Keeps, Keeps-trans}
use vost.Exec.{ret-inv, reading, >>=-inv, reading-inv}
use vost.Tree.Read.{need, need-inv, hex_to_oid}
use vost.Fs.Commit.{storing}
use vost.Notes.Tree.{
  find_by, find_note, prefix_of, suffix_of, delete_notes, write_notes, note_builder, write_tree,
  build_note_tree,
}
use vost.Notes.Names.{IsHash}
use vost.Notes.Fanout.{storing-inv}
use vost.Notes.Cleared.{fan-Keeps}
use vost.Notes.Fanless.{fan_note}
use vost.Notes.Updates.{IsNotes, find_by-eq}
use vost.Notes.Refines.{
  deleted, written, Agree, deleted-Agree, written-Agree, IsWrite, IsNoteTree, found, notes_in,
  find_note-eq, delete_notes-IsChange, write_notes-IsChange, empty_note_builder-IsNotes,
}

module _ (p : Platform) (laws : ObjectLaws p) where
  open p use {
    Repo, Oid, Tree, Builder, oid_tostr, oid_fromstr, tree_lookup, tree_entry_byname,
    treebuilder_get, treebuilder_new, treebuilder_write,
  }

  -- A builder that holds the notes of a tree.
  IsBuilderOf : Option Str → Repo → Builder → Type 0
  IsBuilderOf base repo b =
      IsNotes p (treebuilder_get b) repo
      × Agree (find_by p (treebuilder_get b) repo) (notes_in p repo base)

  note_builder-notes :
      (base : Option Str) (repo : Repo) {b : Builder}
      → IsNoteTree p repo base
      → note_builder p base repo ≡ ok b
      → IsBuilderOf base repo b
  unfolding note_builder hex_to_oid IsBuilderOf need
  note_builder-notes none repo was h =
      let (notes, nothing) = empty_note_builder-IsNotes p laws repo h in (notes, λ n k. nothing n)
  note_builder-notes (some hex) repo {b} (o, t, parsed, looked, notes) h =
      let built : need (treebuilder_new repo (some t)) _ ≡ ok b = rw (parsed, looked) at h in
      let same : tree_entry_byname t ≡ treebuilder_get b = fun_ext (λ n.
        sym (laws.get-new_some repo t b n (need-inv (treebuilder_new repo (some t)) _ built))) in
      (
        subst (λ e. IsNotes p e repo) same notes,
        λ n k.
            subst (λ e. find_by p e repo n ≡ notes_in p repo (some hex) n) same
              (sym (ap (found p) (find_note-eq p repo hex n o t parsed looked))),
      )

  -- Notes in a repository that has more objects.
  pub IsNotes-Keeps :
      (entry : Str → Option (TreeEntry Oid)) (repo repo' : Repo)
      → Keeps p repo repo'
      → IsNotes p entry repo
      → IsNotes p entry repo' × ((n : Str) → find_by p entry repo' n ≡ find_by p entry repo n)
  unfolding find_by
  IsNotes-Keeps entry repo repo' keeps was =
      let fans : (n : Str) → fan_note p entry repo' n ≡ fan_note p entry repo n = λ n.
        fan-Keeps p repo repo' (entry (prefix_of n)) (suffix_of n) keeps
          (was.complete (prefix_of n)) in
      (
        record {
          complete = λ n e there m.
              let (t, looked) = was.complete n e there m in (t, keeps.trees e.id t looked);
          single = λ n e k there. let (m, alone) = was.single n e k there in (m, fans n ∙ alone);
        },
        λ n. find_by-eq p entry repo' n refl (fans n),
      )

  write_tree-notes :
      (b : Builder) (repo : Repo) {hex : Str} {repo' : Repo}
      → IsNotes p (treebuilder_get b) repo
      → write_tree p b repo ≡ (ok hex, repo')
      → IsNoteTree p repo' (some hex)
        × Keeps p repo repo'
        × ((n : Str) → find_note p repo' hex n ≡ ok (find_by p (treebuilder_get b) repo n))
  unfolding write_tree
  write_tree-notes b repo {hex} {repo'} was h =
      let (o, repo₁, stored, rest) = >>=-inv (storing p (λ r. treebuilder_write r b) _) _ repo h in
      let (named, q) = ret-inv (oid_tostr o) repo₁ rest in
      let wrote : treebuilder_write repo b ≡ some (o, repo') =
        rw (← q) (storing-inv p (λ r. treebuilder_write r b) _ repo stored) in
      let (t, looked, same) = laws.byname-write repo b o repo' wrote in
      let keeps = laws.write-Keeps repo b o repo' wrote in
      let (notes, finds) = IsNotes-Keeps (treebuilder_get b) repo repo' keeps was in
      let entries : treebuilder_get b ≡ tree_entry_byname t = fun_ext (λ n. sym (same n)) in
      let parsed : oid_fromstr hex ≡ some o = ap oid_fromstr (sym named) ∙ laws.fromstr-tostr o in
      (
        (o, t, parsed, looked, subst (λ e. IsNotes p e repo') entries notes),
        keeps,
        λ n.
            find_note-eq p repo' hex n o t parsed looked
            ∙ ap ok (ap (λ e. find_by p e repo' n) (sym entries) ∙ finds n),
      )

  -- `build_note_tree` implements the changes of a map from hashes to notes. When it returns, for a
  -- base that is a tree of notes or none, hashes of 40 digits, and blobs named as libgit2 prints
  -- them, `find_note` on the new tree gives, for every hash, what the map of the base gives after
  -- the deletes and then the writes, each in its order; the new tree is again a tree of notes, and
  -- every object of the repository is still there.
  pub build_note_tree-refines :
      (base : Option Str) (writes : List (Str × Str)) (deletes : List Str) (repo : Repo) {hex : Str}
      {repo' : Repo}
      → IsNoteTree p repo base
      → All (IsWrite p) writes
      → All IsHash deletes
      → build_note_tree p base writes deletes repo ≡ (ok hex, repo')
      → ((n : Str)
          → IsHash n
          → find_note p repo' hex n
            ≡ ok (written writes (deleted deletes (notes_in p repo base)) n))
        × IsNoteTree p repo' (some hex)
        × Keeps p repo repo'
  unfolding build_note_tree IsBuilderOf
  build_note_tree-refines base writes deletes repo {hex} {repo'} was all_writes all_deletes h =
      let (b, repo₀, started, h₁) = >>=-inv (reading (note_builder p base)) _ repo h in
      let (made, q) = reading-inv (note_builder p base) repo started in
      let (b₁, repo₁, removed, h₂) = >>=-inv (delete_notes p b deletes) _ repo₀ h₁ in
      let (b₂, repo₂, put, h₃) = >>=-inv (write_notes p b₁ writes) _ repo₁ h₂ in
      let (notes, view) = note_builder-notes base repo was made in
      let d = delete_notes-IsChange p laws b deletes repo all_deletes notes (rw q removed) in
      let w = write_notes-IsChange p laws b₁ writes repo₁ all_writes d.notes put in
      let (tree, keeps, finds) = write_tree-notes b₂ repo₂ w.notes h₃ in
      (
        λ n k.
            finds n
            ∙ ap ok (
                w.finds n k
                ∙ written-Agree writes _ _ (λ m j. d.finds m j ∙ deleted-Agree deletes _ _ view m j)
                    n k),
        tree,
        Keeps-trans p d.keeps (Keeps-trans p w.keeps keeps),
      )
