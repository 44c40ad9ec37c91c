-- ===== src/Notes/Tree.antt =====
-- cpp/src/notes.cpp: the tree of a namespace. A note is an entry named by the 40 digits of the
-- object's hash, or, written by another program, one named by the last 38 in a tree named by the
-- first two.
use vost.Common.{
  ℕ, Bool, true, false, not, ◌&&◌, ◌||◌, Option, none, some, List, [], ◌∷◌, ◌++◌, Str, codes, take,
  drop, length, leb, ◌==◌, if◌then◌else◌,
}
use vost.Error.{Result, ok, err, git_error, key_not_found}
use vost.Error
use vost.Types.{mode_tree, mode_blob}
use vost.Platform.{Platform, TreeEntry}
use vost.Exec.{Exec, ret, reading, throw, ◌>>=◌}
use vost.Tree.Read.{need, hex_to_oid}
use vost.Fs.Commit.{storing}

unfoldable pub is_hex_digit : ℕ → Bool
is_hex_digit c = (leb 48 c && leb c 57) || (leb 97 c && leb c 102)

unfoldable pub all_hex : Str → Bool
unfolding is_hex_digit
all_hex [] = true
all_hex (c ∷ s) = let rest = all_hex s in if not (is_hex_digit c) then false else rest

unfoldable pub is_hex40 : Str → Bool
unfolding all_hex
is_hex40 s = if not (length s == 40) then false else all_hex s

-- substr(0, 2) and substr(2), of a hash, which has at least two digits
abbrev pub prefix_of : Str → Str
prefix_of hash = take 2 hash

abbrev pub suffix_of : Str → Str
suffix_of hash = drop 2 hash

module _ (p : Platform) where
  open p use {
    Repo, Oid, Tree, Builder, oid_tostr, tree_lookup, tree_entries, tree_entry_byname,
    treebuilder_new, treebuilder_get, treebuilder_insert, treebuilder_remove,
    treebuilder_entrycount, treebuilder_write,
  }

  abbrev pub in_subtree : Tree → Option (TreeEntry Oid) → Option (Tree × TreeEntry Oid)
  in_subtree sub none = none
  in_subtree sub (some e) = some (sub, e)

  abbrev pub looked_up : Option Tree → Str → Option (Tree × TreeEntry Oid)
  looked_up none suffix = none
  looked_up (some sub) suffix = in_subtree sub (tree_entry_byname sub suffix)

  -- The subtree that an entry names, and its entry for the suffix.
  unfoldable pub fanout_entry : Repo → Option (TreeEntry Oid) → Str → Option (Tree × TreeEntry Oid)
  fanout_entry repo none suffix = none
  fanout_entry repo (some dir) suffix =
      if dir.filemode == mode_tree then looked_up (tree_lookup repo dir.id) suffix else none

  abbrev pub fanout_hex : Option (Tree × TreeEntry Oid) → Option Str
  fanout_hex none = none
  fanout_hex (some (sub, e)) = some (oid_tostr e.id)

  -- Flat first, then the fanout.
  abbrev pub flat_or : Option (TreeEntry Oid) → Option Str → Option Str
  flat_or none fanout = fanout
  flat_or (some e) fanout = if e.filemode == mode_tree then fanout else some (oid_tostr e.id)

  -- The note of a hash, where `entry` finds the entries of the tree by their names.
  unfoldable pub find_by : (Str → Option (TreeEntry Oid)) → Repo → Str → Option Str
  unfolding fanout_entry
  find_by entry repo hash =
      flat_or (entry hash)
        (fanout_hex (fanout_entry repo (entry (prefix_of hash)) (suffix_of hash)))

  unfoldable pub find_note : Repo → Str → Str → Result (Option Str)
  unfolding find_by
  find_note repo tree_hex hash = Error.◌>>=◌ (hex_to_oid p tree_hex) (λ oid.
      elim (tree_lookup repo oid) [
        | none ↦ ok none
        | some t ↦ ok (find_by (tree_entry_byname t) repo hash)
      ])

  unfoldable pub fanout_notes : Str → List (TreeEntry Oid) → List (Str × Str)
  unfolding is_hex40
  fanout_notes name [] = []
  fanout_notes name (e ∷ es) =
      let rest = fanout_notes name es in
      let full_hash = name ++ e.name in
      if is_hex40 full_hash then (full_hash, oid_tostr e.id) ∷ rest else rest

  -- What one round of the loop over the entries of the tree adds.
  unfoldable pub notes_at : Repo → TreeEntry Oid → List (Str × Str)
  unfolding is_hex40 fanout_notes
  notes_at repo e =
      if (e.filemode == mode_tree) && (length e.name == 2)
      then elim (tree_lookup repo e.id) [
        | none ↦ []
        | some sub ↦ fanout_notes e.name (tree_entries sub)
      ]
      else if is_hex40 e.name
      then (e.name, oid_tostr e.id) ∷ []
      else []

  unfoldable pub notes_of : Repo → List (TreeEntry Oid) → List (Str × Str)
  unfolding notes_at
  notes_of repo [] = []
  notes_of repo (e ∷ es) = notes_at repo e ++ notes_of repo es

  unfoldable pub iter_notes : Repo → Str → Result (List (Str × Str))
  unfolding notes_of
  iter_notes repo tree_hex = Error.◌>>=◌ (hex_to_oid p tree_hex) (λ oid.
      elim (tree_lookup repo oid) [ none ↦ ok [] | some t ↦ ok (notes_of repo (tree_entries t)) ])

  -- Both loops of `build_note_tree` take a note out of its subtree in the same way; `place` is what
  -- their messages say of it.
  unfoldable pub remove_fanout : Str → Builder → Str → Tree → Exec Repo Builder
  unfolding storing
  remove_fanout place b hash sub =
      reading (λ repo.
        need (treebuilder_new repo (some sub)) (git_error (codes "git_treebuilder_new " ++ place)))
      >>= λ sub_b.
          let sub_b' = treebuilder_remove sub_b (suffix_of hash) in
          if treebuilder_entrycount sub_b' == 0
          then ret (treebuilder_remove b (prefix_of hash))
          else (storing p (λ repo. treebuilder_write repo sub_b')
                (codes "git_treebuilder_write " ++ place)
              >>= λ new_sub_oid. reading (λ repo.
                need (treebuilder_insert repo b (prefix_of hash) new_sub_oid mode_tree)
                  (git_error (codes "git_treebuilder_insert " ++ place))))

  unfoldable pub fanout_of : Builder → Str → Repo → Option (Tree × TreeEntry Oid)
  unfolding fanout_entry
  fanout_of b hash repo = fanout_entry repo (treebuilder_get b (prefix_of hash)) (suffix_of hash)

  abbrev pub delete_fanout : Builder → Str → Option (Tree × TreeEntry Oid) → Exec Repo Builder
  delete_fanout b hash none = throw (key_not_found (codes "note not found: " ++ hash))
  delete_fanout b hash (some (sub, e)) = remove_fanout (codes "(fanout sub)") b hash sub

  unfoldable pub delete_note : Builder → Str → Exec Repo Builder
  unfolding fanout_of remove_fanout
  delete_note b hash = elim (treebuilder_get b hash) [
    | some existing ↦ ret (treebuilder_remove b hash)
    | none ↦ λ repo. delete_fanout b hash (fanout_of b hash repo) repo
  ]

  unfoldable pub delete_notes : Builder → List Str → Exec Repo Builder
  unfolding delete_note
  delete_notes b [] = ret b
  delete_notes b (hash ∷ deletes) = delete_note b hash >>= λ b'. delete_notes b' deletes

  abbrev pub clear_fanout : Builder → Str → Option (Tree × TreeEntry Oid) → Exec Repo Builder
  clear_fanout b hash none = ret b
  clear_fanout b hash (some (sub, e)) = remove_fanout (codes "(fanout write)") b hash sub

  unfoldable pub insert_note : Builder → Str → Str → Repo → Result Builder
  insert_note b hash blob_hex repo = Error.◌>>=◌ (hex_to_oid p blob_hex) (λ blob_oid.
      need (treebuilder_insert repo b hash blob_oid mode_blob)
        (git_error (codes "git_treebuilder_insert (note)")))

  unfoldable pub write_note : Builder → Str → Str → Exec Repo Builder
  unfolding fanout_of remove_fanout insert_note
  write_note b hash blob_hex = (λ repo. clear_fanout b hash (fanout_of b hash repo) repo) >>= λ b'.
      reading (insert_note b' hash blob_hex)

  unfoldable pub write_notes : Builder → List (Str × Str) → Exec Repo Builder
  unfolding write_note
  write_notes b [] = ret b
  write_notes b ((hash, blob_hex) ∷ writes) =
      write_note b hash blob_hex >>= λ b'. write_notes b' writes

  unfoldable pub empty_note_builder : Repo → Result Builder
  empty_note_builder repo =
      need (treebuilder_new repo none) (git_error (codes "git_treebuilder_new (notes empty)"))

  unfoldable pub note_builder : Option Str → Repo → Result Builder
  unfolding empty_note_builder
  note_builder none repo = empty_note_builder repo
  note_builder (some base_tree_hex) repo = Error.◌>>=◌ (hex_to_oid p base_tree_hex) (λ base_oid.
      elim (tree_lookup repo base_oid) [
        | none ↦ empty_note_builder repo
        | some t ↦
            need (treebuilder_new repo (some t)) (git_error (codes "git_treebuilder_new (notes)"))
      ])

  unfoldable pub write_tree : Builder → Exec Repo Str
  unfolding storing
  write_tree b =
      storing p (λ repo. treebuilder_write repo b) (codes "git_treebuilder_write (notes)")
      >>= λ oid. ret (oid_tostr oid)

  unfoldable pub build_note_tree : Option Str → List (Str × Str) → List Str → Exec Repo Str
  unfolding note_builder delete_notes write_notes write_tree
  build_note_tree base_tree_hex writes deletes = reading (note_builder base_tree_hex) >>= λ b.
      delete_notes b deletes >>= λ b'. write_notes b' writes >>= λ b''. write_tree b''
