-- ===== src/Notes/Batch.antt =====
-- cpp/src/notes.cpp: `NotesBatch`. The namespace and the repository are passed along.
use vost.Common.{
  ◌+◌, Bool, true, false, not, ◌&&◌, List, [], ◌∷◌, ◌++◌, Str, codes, str_eq, is_empty, length,
  keep, any, to_string, if◌then◌else◌,
}
use vost.Error.{Error, Result, ok, err, throw_if, batch_closed}
use vost.Error
use vost.Platform.{Platform}
use vost.Exec.{Exec, ret, reading, ◌>>=◌}
use vost.Fs.{Fs}
use vost.Notes.Tree.{build_note_tree}
use vost.Notes.Namespace.{
  NoteNamespace, resolve_target, tree_oid, commit_note_tree, commit_of, create_blob,
}

pub record NotesBatch : Type 0 where
  pub ns : NoteNamespace
  pub writes : List (Str × Str)
  pub deletes : List Str
  pub committed : Bool

unfoldable pub batch : NoteNamespace → NotesBatch
batch ns = record { ns = ns; writes = []; deletes = []; committed = false }

unfoldable pub erase_deletes : Str → List Str → List Str
erase_deletes h deletes = keep (λ d. not (str_eq d h)) deletes

unfoldable pub erase_writes : Str → List (Str × Str) → List (Str × Str)
erase_writes h writes = keep (λ (kv : Str × Str). not (str_eq kv.0 h)) writes

-- What `set` does once the target is resolved.
unfoldable pub stage_write : NotesBatch → Str → Str → NotesBatch
unfolding erase_deletes erase_writes
stage_write b h text = record b {
  deletes = erase_deletes h b.deletes;
  writes = erase_writes h b.writes ++ ((h, text) ∷ []);
}

-- What `del` does once the target is resolved.
unfoldable pub stage_delete : NotesBatch → Str → NotesBatch
unfolding erase_writes
stage_delete b h = record b {
  writes = erase_writes h b.writes;
  deletes = if any (λ d. str_eq d h) b.deletes then b.deletes else b.deletes ++ (h ∷ []);
}

module _ (p : Platform) where
  open p use {Repo}

  unfoldable pub resolve_open : NotesBatch → Str → Repo → Result Str
  unfolding resolve_target
  resolve_open b hash repo =
      Error.◌>>=◌ (throw_if b.committed batch_closed) (λ checked. resolve_target p repo hash)

  unfoldable pub set : NotesBatch → Str → Str → Repo → Result NotesBatch
  unfolding resolve_open stage_write
  set b hash text repo = Error.◌>>=◌ (resolve_open b hash repo) (λ h. ok (stage_write b h text))

  unfoldable pub del : NotesBatch → Str → Repo → Result NotesBatch
  unfolding resolve_open stage_delete
  del b hash repo = Error.◌>>=◌ (resolve_open b hash repo) (λ h. ok (stage_delete b h))

  unfoldable pub set_of_fs : NotesBatch → Fs → Str → Repo → Result NotesBatch
  unfolding commit_of set
  set_of_fs b fs text repo = Error.◌>>=◌ (commit_of p fs) (λ hash. set b hash text repo)

  unfoldable pub del_of_fs : NotesBatch → Fs → Repo → Result NotesBatch
  unfolding commit_of del
  del_of_fs b fs repo = Error.◌>>=◌ (commit_of p fs) (λ hash. del b hash repo)

  unfoldable pub create_blobs : List (Str × Str) → Exec Repo (List (Str × Str))
  unfolding create_blob
  create_blobs [] = ret []
  create_blobs ((hash, text) ∷ writes) = create_blob p text (codes "(notes batch)") >>= λ blob_hex.
      create_blobs writes >>= λ blob_writes. ret ((hash, blob_hex) ∷ blob_writes)

  unfoldable pub batch_message : NotesBatch → Str
  batch_message b =
      codes "Notes batch update ("
      ++ (to_string (length b.writes + length b.deletes) ++ codes " changes)")

  unfoldable pub commit_staged : NotesBatch → Exec Repo (Unit {0})
  unfolding tree_oid create_blobs build_note_tree batch_message commit_note_tree
  commit_staged b = reading (tree_oid p b.ns) >>= λ base_tree.
      create_blobs b.writes >>= λ blob_writes.
      build_note_tree p base_tree blob_writes b.deletes >>= λ new_tree.
      commit_note_tree p b.ns new_tree (batch_message b)

  abbrev pub closing :
      NotesBatch → Result (Unit {0}) × Repo → Result (Unit {0}) × (NotesBatch × Repo)
  closing b (r, repo) = (r, (record b { committed = true }, repo))

  -- The batch is closed before anything is written, and stays closed if the commit throws.
  unfoldable pub commit : NotesBatch → Repo → Result (Unit {0}) × (NotesBatch × Repo)
  unfolding commit_staged
  commit b repo =
      if b.committed
      then (err batch_closed, (b, repo))
      else if is_empty b.writes && is_empty b.deletes
      then closing b (ok tt, repo)
      else closing b (commit_staged b repo)
