-- ===== src/Notes/Namespace.antt =====
-- cpp/src/notes.cpp: `NoteNamespace` and `NoteDict`.
use vost.Common.{
  ℕ, Bool, false, Option, none, some, List, [], ◌∷◌, ◌++◌, Str, codes, is_empty, length, map,
  sort_strings, ◌==◌, if◌then◌else◌,
}
use vost.Error.{
  Error, Result, ok, err, git_error, key_not_found, invalid_hash, not_found, undefined_behaviour,
}
use vost.Error
use vost.Types.{is_some}
use vost.Platform.{Platform, Commit}
use vost.Exec.{Exec, ret, reading, ◌>>=◌}
use vost.Tree.Read.{need, hex_to_oid}
use vost.Tree.WriteCommit.{write_commit, or_empty}
use vost.Fs.{Inner, Fs, commit_hash}
use vost.Fs.Commit.{committing, storing, ref_commit, move_or_create, with_repo_lock}
use vost.Notes.Tree.{is_hex40, find_note, iter_notes, build_note_tree}

pub record NoteNamespace : Type 0 where
  pub inner : Inner
  pub namespace : Str
  pub ref_name : Str

-- The constructor, which `notes[ns]` and `notes.ns(ns)` of NoteDict call.
unfoldable pub note_namespace : Inner → Str → NoteNamespace
note_namespace inner ns_name = record {
  inner = inner;
  namespace = ns_name;
  ref_name = codes "refs/notes/" ++ ns_name;
}

module _ (p : Platform) where
  open p use {
    Repo, Oid, oid_fromstr, oid_tostr, tree_lookup, commit_lookup, blob_lookup,
    blob_create_from_buffer, reference_lookup, reference_peel, reference_create, repository_head,
  }

  -- A hash stands for itself; else a branch, then a tag, of that name.
  unfoldable pub resolve_target : Repo → Str → Result Str
  unfolding is_hex40 ref_commit
  resolve_target repo target =
      if is_hex40 target
      then ok target
      else elim (ref_commit p repo (codes "refs/heads/" ++ target)) [
        | some hex ↦ ok hex
        | none ↦ need (ref_commit p repo (codes "refs/tags/" ++ target)) (invalid_hash target)
      ]

  unfoldable pub tip_oid : NoteNamespace → Repo → Option Str
  unfolding ref_commit
  tip_oid ns repo = ref_commit p repo ns.ref_name

  abbrev pub tree_of : Option (Commit Oid) → Option Str
  tree_of none = none
  tree_of (some c) = some (oid_tostr c.tree_id)

  unfoldable pub tree_oid : NoteNamespace → Repo → Result (Option Str)
  unfolding tip_oid hex_to_oid
  tree_oid ns repo = elim (tip_oid ns repo) [
    | none ↦ ok none
    | some tip ↦
        Error.◌>>=◌ (hex_to_oid p tip) (λ commit_oid. ok (tree_of (commit_lookup repo commit_oid)))
  ]

  unfoldable pub parent_list : Str → List Str
  parent_list parent_hex = if is_empty parent_hex then [] else parent_hex ∷ []

  -- Under the lock: the tip is read again, and becomes the parent of the new commit.
  unfoldable pub commit_on_tip : NoteNamespace → Str → Str → Str → Exec Repo (Unit {0})
  unfolding move_or_create parent_list
  commit_on_tip ns new_tree_hex message parent_hex =
      write_commit p new_tree_hex (parent_list parent_hex) ns.inner.signature message
      >>= λ commit_hex. reading (λ repo. hex_to_oid p commit_hex) >>= λ new_oid.
          committing p
            (λ repo.
              if is_empty parent_hex
              then reference_create repo ns.ref_name new_oid false message
              else move_or_create p ns.ref_name new_oid message repo)
            (git_error (codes "notes ref update"))

  unfoldable pub commit_note_tree : NoteNamespace → Str → Str → Exec Repo (Unit {0})
  unfolding with_repo_lock ref_commit commit_on_tip
  commit_note_tree ns new_tree_hex message = with_repo_lock p ns.inner (
      (λ repo.
        commit_on_tip ns new_tree_hex message (or_empty (ref_commit p repo ns.ref_name)) repo))

  unfoldable pub read_note : NoteNamespace → Str → Repo → Result Str
  unfolding tree_oid find_note
  read_note ns h repo = Error.◌>>=◌ (tree_oid ns repo) (λ tree.
      Error.◌>>=◌ (need tree (key_not_found h)) (λ t. Error.◌>>=◌ (find_note p repo t h) (λ found.
        Error.◌>>=◌ (need found (key_not_found h)) (λ blob_hex.
          Error.◌>>=◌ (hex_to_oid p blob_hex) (λ blob_oid.
            need (blob_lookup repo blob_oid) (git_error (codes "git_blob_lookup (note)")))))))

  unfoldable pub get : NoteNamespace → Str → Repo → Result Str
  unfolding resolve_target read_note
  get ns hash repo = Error.◌>>=◌ (resolve_target repo hash) (λ h. read_note ns h repo)

  -- The blob of a note, as its hash.
  unfoldable pub create_blob : Str → Str → Exec Repo Str
  unfolding storing
  create_blob text place =
      storing p (λ repo. blob_create_from_buffer repo text)
        (codes "git_blob_create_from_buffer " ++ place)
      >>= λ blob_oid. ret (oid_tostr blob_oid)

  unfoldable pub set_note : NoteNamespace → Str → Str → Exec Repo (Unit {0})
  unfolding create_blob tree_oid build_note_tree commit_note_tree
  set_note ns h text = create_blob text (codes "(note)") >>= λ blob_hex.
      reading (tree_oid ns) >>= λ base_tree.
      build_note_tree p base_tree ((h, blob_hex) ∷ []) [] >>= λ new_tree.
      commit_note_tree ns new_tree (codes "Notes updated")

  unfoldable pub set : NoteNamespace → Str → Str → Exec Repo (Unit {0})
  unfolding resolve_target set_note
  set ns hash text = reading (λ repo. resolve_target repo hash) >>= λ h. set_note ns h text

  -- The tree of the notes, which `del` needs.
  unfoldable pub base_for_del : NoteNamespace → Str → Repo → Result Str
  unfolding tree_oid
  base_for_del ns h repo =
      Error.◌>>=◌ (tree_oid ns repo) (λ base_tree. need base_tree (key_not_found h))

  unfoldable pub del_note : NoteNamespace → Str → Exec Repo (Unit {0})
  unfolding base_for_del build_note_tree commit_note_tree
  del_note ns h = reading (base_for_del ns h) >>= λ base_tree.
      build_note_tree p (some base_tree) [] (h ∷ []) >>= λ new_tree.
      commit_note_tree ns new_tree (codes "Notes updated")

  unfoldable pub del : NoteNamespace → Str → Exec Repo (Unit {0})
  unfolding resolve_target del_note
  del ns hash = reading (λ repo. resolve_target repo hash) >>= λ h. del_note ns h

  unfoldable pub has : NoteNamespace → Str → Repo → Result Bool
  unfolding resolve_target tree_oid find_note
  has ns hash repo = Error.◌>>=◌ (resolve_target repo hash) (λ h.
      Error.◌>>=◌ (tree_oid ns repo) (λ tree. elim tree [
        | none ↦ ok false
        | some t ↦ Error.◌>>=◌ (find_note p repo t h) (λ found. ok (is_some found))
      ]))

  -- `*fs.commit_hash()`
  unfoldable pub commit_of : Fs → Result Str
  unfolding commit_hash
  commit_of fs = need (commit_hash fs) undefined_behaviour

  unfoldable pub get_of_fs : NoteNamespace → Fs → Repo → Result Str
  unfolding commit_of get
  get_of_fs ns fs repo = Error.◌>>=◌ (commit_of fs) (λ hash. get ns hash repo)

  unfoldable pub set_of_fs : NoteNamespace → Fs → Str → Exec Repo (Unit {0})
  unfolding commit_of set
  set_of_fs ns fs text = reading (λ repo. commit_of fs) >>= λ hash. set ns hash text

  unfoldable pub del_of_fs : NoteNamespace → Fs → Exec Repo (Unit {0})
  unfolding commit_of del
  del_of_fs ns fs = reading (λ repo. commit_of fs) >>= λ hash. del ns hash

  unfoldable pub has_of_fs : NoteNamespace → Fs → Repo → Result Bool
  unfolding commit_of has
  has_of_fs ns fs repo = Error.◌>>=◌ (commit_of fs) (λ hash. has ns hash repo)

  -- The notes of the namespace, none if it has no tree yet.
  unfoldable pub all_notes : NoteNamespace → Repo → Result (List (Str × Str))
  unfolding tree_oid iter_notes
  all_notes ns repo =
      Error.◌>>=◌ (tree_oid ns repo)
        (λ tree. elim tree [ none ↦ ok [] | some t ↦ iter_notes p repo t ])

  unfoldable pub list : NoteNamespace → Repo → Result (List Str)
  unfolding all_notes sort_strings
  list ns repo =
      Error.◌>>=◌ (all_notes ns repo)
        (λ notes. ok (sort_strings (map (λ (n : Str × Str). n.0) notes)))

  unfoldable pub size : NoteNamespace → Repo → Result ℕ
  unfolding all_notes
  size ns repo = Error.◌>>=◌ (all_notes ns repo) (λ notes. ok (length notes))

  unfoldable pub empty : NoteNamespace → Repo → Result Bool
  unfolding size
  empty ns repo = Error.◌>>=◌ (size ns repo) (λ n. ok (n == 0))

  -- The commit that HEAD leads to.
  unfoldable pub head_commit : Repo → Result Str
  head_commit repo =
      Error.◌>>=◌ (need (repository_head repo) (not_found (codes "HEAD not resolvable"))) (λ head.
        Error.◌>>=◌ (need (reference_peel repo head) (not_found (codes "HEAD commit not found")))
          (λ oid. ok (oid_tostr oid)))

  unfoldable pub get_for_current_branch : NoteNamespace → Repo → Result Str
  unfolding head_commit get
  get_for_current_branch ns repo =
      Error.◌>>=◌ (head_commit repo) (λ tip_commit. get ns tip_commit repo)

  unfoldable pub set_for_current_branch : NoteNamespace → Str → Exec Repo (Unit {0})
  unfolding head_commit set
  set_for_current_branch ns text = reading head_commit >>= λ tip_commit. set ns tip_commit text
