-- ===== src/Samples/Noted.antt =====
-- The theorems on notes applied to a small repository.
use vost.Common.{
  ◌≡◌, refl, true, false, ℕ, none, some, Option, List, [], ◌∷◌, ◌++◌, Str, codes, str_eq, str_eq→eq,
  str_lt, Bool-cases, inl, inr, sym, ap, ◌∙◌, ◌==◌, subst, find, map_set,
}
use vost.Error.{ok, err, key_not_found}
use vost.Types.{mode_blob, mode_tree}
use vost.Platform.{TreeEntry}
use vost.Platform.Laws.{Keeps}
use vost.Exec.{◌>>=◌}
use vost.Tree.Read.{need, hex_to_oid}
use vost.Tree.WriteCommit.{write_commit}
use vost.Fs.Commit.{committing, storing, ref_commit, move_or_create}
use vost.Notes.Tree.{is_hex40, find_note, fanout_entry, build_note_tree}
use vost.Notes.Names.{IsHash}
use vost.Notes.Namespace.{NoteNamespace, resolve_target, tree_oid, get, set, del}
use vost.Notes.Batch.{batch}
use vost.Notes.Fanless.{fan_note}
use vost.Notes.Updates.{IsNotes}
use vost.Notes.Refines.{deleted, written, IsNoteTree, notes_in}
use vost.Notes.Build.{build_note_tree-refines}
use vost.Notes.Commits.{IsSpace}
use vost.Notes.RoundTrip.{get-set_note, get-del_note}
use vost.Notes.Spaces.{OthersKept}
use vost.Notes.Staging.{Change, put, drop_note, stage_all, staged, apply_all, stage_all-apply}
use vost.Samples.Store.{Memory, memory, no_objects, hash, parse, entry_named, create}
use vost.Samples.StoreLaws.{memory-ObjectLaws, memory-RefLaws}
use vost.Samples.Commits.{inner, repo_first}

abbrev ns : NoteNamespace
ns = record { inner = inner; namespace = codes "commits"; ref_name = codes "refs/notes/commits" }

abbrev id_a : Str
id_a = codes "aa00000000000000000000000000000000000000"

abbrev id_b : Str
id_b = codes "ab00000000000000000000000000000000000000"

-- The note "hi" on `id_a`, set in the repository of one commit.
abbrev repo_noted : Memory
repo_noted = record repo_first {
  blobs = (7 ∷ []) ∷ codes "hi" ∷ [];
  trees =
      (record { name = codes "b"; id = 0; filemode = mode_blob } ∷ [])
      ∷ (record { name = codes "a"; id = 0; filemode = mode_tree } ∷ [])
      ∷ (record { name = id_a; id = 1; filemode = mode_blob } ∷ [])
      ∷ [];
  commits =
      repo_first.commits
      ++ (record {
        tree_id = 2;
        parents = [];
        message = some (codes "Notes updated");
        time = 0;
        author = some (codes "vost", codes "vost@localhost");
      }
          ∷ []);
  refs = (codes "refs/heads/main", 0) ∷ (codes "refs/notes/commits", 1) ∷ [];
}

set_a : set memory ns id_a (codes "hi") repo_first ≡ (ok tt, repo_noted)
unfolding set resolve_target is_hex40 tree_oid ref_commit find str_eq storing build_note_tree
    committing ◌>>=◌ need hex_to_oid parse hash entry_named write_commit map_set create str_lt
set_a = refl

no_notes : IsSpace memory ns repo_first none
unfolding ref_commit find str_eq
no_notes = record { tip = refl; tree = tt }

hex_a : is_hex40 id_a ≡ true
unfolding is_hex40
hex_a = refl

get-set_note_example :
    (get memory ns id_a repo_noted ≡ ok (codes "hi"))
    × OthersKept memory memory-ObjectLaws memory-RefLaws ns id_a repo_first repo_noted
    × ((hex : Str) × IsSpace memory ns repo_noted (some hex))
get-set_note_example =
    get-set_note memory memory-ObjectLaws memory-RefLaws ns id_a (codes "hi") none repo_first
      repo_noted hex_a no_notes set_a

-- the entries of the tree of notes
entry : Str → Option (TreeEntry ℕ)
entry n = entry_named n (record { name = id_a; id = 1; filemode = mode_blob } ∷ [])

entry-inv : (n : Str) (e : TreeEntry ℕ) → entry n ≡ some e → (id_a ≡ n) × (e.filemode ≡ mode_blob)
unfolding entry entry_named
entry-inv n e h = elim (Bool-cases (str_eq id_a n)) [
  | inl same ↦ (str_eq→eq id_a n same, by_entry (rw same at h))
  | inr other ↦ absurd (nothing (rw other at h))
]
  where
    by_entry : {x y : TreeEntry ℕ} → some x ≡ some y → y.filemode ≡ x.filemode
    by_entry h = cc

    nothing : {x : TreeEntry ℕ} → ¬ (none ≡ some x)
    nothing h = cc

one_note :
    IsNotes memory
      (memory.tree_entry_byname (record { name = id_a; id = 1; filemode = mode_blob } ∷ []))
      repo_noted
unfolding entry entry_named fanout_entry str_eq
one_note = record {
  complete =
      λ n e there m. absurd (clash (sym (ap (λ x. x == mode_tree) (entry-inv n e there).1) ∙ m));
  single = λ n e k there.
      let (same, mode) = entry-inv n e there in
      (
        ap (λ x. x == mode_tree) mode,
        subst
            (λ x.
              fan_note memory
                (memory.tree_entry_byname
                  (record { name = id_a; id = 1; filemode = mode_blob } ∷ []))
                repo_noted x
              ≡ none)
            same refl,
      );
}
  where
    clash : ¬ (false ≡ true)
    clash h = cc

tip_noted : IsSpace memory ns repo_noted (some (codes "3"))
unfolding ref_commit find str_eq parse hash
tip_noted = record {
  tip = (codes "2", 1, _, refl, refl, refl, refl);
  tree = (2, _, refl, refl, one_note);
}

-- The note deleted again: a third commit, of an empty tree.
abbrev repo_cleared : Memory
repo_cleared = record repo_noted {
  trees = repo_noted.trees ++ ([] ∷ []);
  commits =
      repo_noted.commits
      ++ (record {
        tree_id = 3;
        parents = 1 ∷ [];
        message = some (codes "Notes updated");
        time = 0;
        author = some (codes "vost", codes "vost@localhost");
      }
          ∷ []);
  refs = (codes "refs/heads/main", 0) ∷ (codes "refs/notes/commits", 2) ∷ [];
}

del_a : del memory ns id_a repo_noted ≡ (ok tt, repo_cleared)
unfolding del resolve_target is_hex40 tree_oid ref_commit find str_eq storing build_note_tree
    committing ◌>>=◌ need hex_to_oid parse hash entry_named write_commit map_set create str_lt
    move_or_create
del_a = refl

get-del_note_example :
    (get memory ns id_a repo_cleared ≡ err (key_not_found id_a))
    × OthersKept memory memory-ObjectLaws memory-RefLaws ns id_a repo_noted repo_cleared
    × ((hex : Str) × IsSpace memory ns repo_cleared (some hex))
get-del_note_example =
    get-del_note memory memory-ObjectLaws memory-RefLaws ns id_a (some (codes "3")) repo_noted
      repo_cleared hex_a tip_noted del_a

-- Two writes, in an empty repository.
abbrev writes : List (Str × Str)
writes = (id_a, codes "1") ∷ (id_b, codes "2") ∷ []

abbrev repo_built : Memory
repo_built = record no_objects {
  trees =
      (record { name = id_b; id = 1; filemode = mode_blob }
        ∷ record { name = id_a; id = 0; filemode = mode_blob }
        ∷ [])
      ∷ [];
}

built : build_note_tree memory none writes [] no_objects ≡ (ok (codes "1"), repo_built)
unfolding build_note_tree ◌>>=◌ need hex_to_oid parse hash entry_named str_eq storing
built = refl

build_note_tree-refines_example :
    ((n : Str)
      → IsHash n
      → find_note memory repo_built (codes "1") n
        ≡ ok (written writes (deleted [] (notes_in memory no_objects none)) n))
    × IsNoteTree memory repo_built (some (codes "1"))
    × Keeps memory no_objects repo_built
unfolding hash
build_note_tree-refines_example =
    build_note_tree-refines memory memory-ObjectLaws none writes [] no_objects tt
      ((refl, (0, refl)), ((refl, (1, refl)), tt)) tt built

abbrev changes : List Change
changes = put id_a (codes "x") ∷ drop_note id_a ∷ put id_b (codes "y") ∷ []

stage_all-apply_example :
    staged (stage_all (batch ns) changes) (λ n. none) id_a
    ≡ apply_all changes (staged (batch ns) (λ n. none)) id_a
stage_all-apply_example = stage_all-apply (batch ns) changes (λ n. none) id_a
