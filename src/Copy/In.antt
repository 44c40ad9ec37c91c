-- ===== src/Copy/In.antt =====
-- cpp/src/copy.cpp: `Fs::copy_in` and `Fs::sync_in`.
use vost.Common.{
  ℕ, ◌+◌, Bool, true, false, not, ◌&&◌, ◌||◌, Option, none, some, List, [], ◌∷◌, ◌++◌, Str, codes,
  str_eq, is_empty, length, drop, any, map, keep, ltb, ◌==◌, if◌then◌else◌, Map, find, map_set,
}
use vost.Error.{Result, ok, err, undefined_behaviour}
use vost.Error
use vost.Types.{Bytes, mode_tree, file_type_from_mode, WalkEntry, FileEntry, ChangeReport, is_some}
use vost.Paths.{slash, normalize, format_message}
use vost.Platform.{Platform}
use vost.Exec.{Exec, ret, reading, lift, ◌>>=◌}
use vost.Tree.Read.{need, EntryResult, lookup}
use vost.Tree.Walk.{walk_tree}
use vost.Tree.Rebuild.{Write}
use vost.Fs.{Fs, require_writable, require_tree}
use vost.Fs.Commit.{commit_changes}
use vost.Copy.Filters.{matches_filters}
use vost.Copy.Disk.{LocalDisk, disk_walk, mode_from_disk, local_data}

-- CopyInOptions, and SyncOptions, which has the same fields
pub record CopyOptions : Type 0 where
  pub incl : Option (List Str)
  pub excl : Option (List Str)
  pub message : Option Str
  pub dry_run : Bool
  pub checksum : Bool
  pub parents : List Str

-- A file to write, its entry in the report, and whether the destination has it.
pub record Planned : Type 0 where
  pub write : Write
  pub entry : FileEntry
  pub is_update : Bool

abbrev pub no_report : ChangeReport
no_report = record { add = []; update = []; del = []; errors = []; warnings = [] }

-- `dest.empty() ? "" : paths::normalize(dest)`
unfoldable pub normal_dest : Str → Result Str
normal_dest dest = if is_empty dest then ok [] else normalize dest

-- `dest_norm.empty() ? rel : dest_norm + "/" + rel`
unfoldable pub store_path : Str → Str → Str
store_path dest_norm rel = if is_empty dest_norm then rel else dest_norm ++ (slash ∷ rel)

-- The path below the destination.
unfoldable pub strip_dest : Str → Str → Str
strip_dest dest_norm rel_path =
    if not (is_empty dest_norm) && ltb (length dest_norm + 1) (length rel_path)
    then drop (length dest_norm + 1) rel_path
    else rel_path

unfoldable pub existing_map : Str → List (Str × WalkEntry) → Map (Str × ℕ) → Map (Str × ℕ)
unfolding strip_dest
existing_map dest_norm [] m = m
existing_map dest_norm ((rel_path, we) ∷ walked) m =
    existing_map dest_norm walked (map_set (strip_dest dest_norm rel_path) (we.oid, we.mode) m)

abbrev pub tree_or_empty : Option EntryResult → Str
tree_or_empty none = []
tree_or_empty (some e) = if e.mode == mode_tree then e.oid_hex else []

abbrev pub or_no_report : Option ChangeReport → ChangeReport
or_no_report none = no_report
or_no_report (some r) = r

unfoldable pub planned_writes : List Planned → List Write
planned_writes planned = map (λ (f : Planned). f.write) planned

unfoldable pub planned_entries : List Planned → List FileEntry
planned_entries planned = map (λ (f : Planned). f.entry) planned

-- The entries that are updates, or those that are not.
unfoldable pub entries_with : Bool → List Planned → List FileEntry
entries_with update [] = []
entries_with update (f ∷ fs) =
    let rest = entries_with update fs in
    if update
    then (if f.is_update then f.entry ∷ rest else rest)
    else (if f.is_update then rest else f.entry ∷ rest)

module _ (p : Platform) where
  open p use {Repo, Oid, oid_tostr, blob_create_from_buffer}

  -- The tree at the destination, empty if there is none.
  unfoldable pub dest_tree : Repo → Str → Str → Result Str
  unfolding lookup
  dest_tree repo tree_hex dest_norm =
      if is_empty dest_norm
      then ok tree_hex
      else (Error.◌>>=◌ (lookup p repo tree_hex dest_norm) (λ entry. ok (tree_or_empty entry)))

  -- What the destination has, by the path below it.
  unfoldable pub existing_at : Str → Str → Repo → Result (Map (Str × ℕ))
  unfolding dest_tree walk_tree existing_map
  existing_at tree_hex dest_norm repo = Error.◌>>=◌ (dest_tree repo tree_hex dest_norm) (λ sub_tree.
      if is_empty sub_tree
      then ok []
      else (Error.◌>>=◌ (walk_tree p repo sub_tree dest_norm)
          (λ walked. ok (existing_map dest_norm walked []))))

  abbrev pub same_blob : Str → ℕ → ℕ → Repo → Option (Oid × Repo) → Result Bool × Repo
  same_blob hex old_mode mode repo none = (ok false, repo)
  same_blob hex old_mode mode repo (some (oid, repo')) =
      (ok (str_eq (oid_tostr oid) hex && (mode == old_mode)), repo')

  -- A file that is there with the same hash and mode is left out. Its hash is found by writing it.
  unfoldable pub is_unchanged : Bool → Option (Str × ℕ) → Bytes → ℕ → Exec Repo Bool
  is_unchanged false there content mode repo = (ok false, repo)
  is_unchanged true none content mode repo = (ok false, repo)
  is_unchanged true (some (hex, old_mode)) content mode repo =
      same_blob hex old_mode mode repo (blob_create_from_buffer repo content)

  module _ (l : LocalDisk) where
    open l use {State, join}

    unfoldable pub file_plan : Str → Str → Str → Bytes → ℕ → Bool → Result Planned
    unfolding store_path
    file_plan full dest_norm rel content mode is_update =
        Error.◌>>=◌ (need (file_type_from_mode mode) undefined_behaviour) (λ ft. ok (record {
          write = record { path = store_path dest_norm rel; content = content; mode = mode };
          entry = record { path = store_path dest_norm rel; file_type = ft; src = some full };
          is_update = is_update;
        }))

    -- One round of the loop over the files of the disk.
    unfoldable pub plan_file :
        State → Str → Str → CopyOptions → Map (Str × ℕ) → Str → Exec Repo (List Planned)
    unfolding mode_from_disk local_data is_unchanged file_plan
    plan_file disk src dest_norm opts existing rel =
        let full = join src rel in
        lift (mode_from_disk l disk full) >>= λ mode.
        lift (local_data l disk full mode) >>= λ content.
        is_unchanged opts.checksum (find rel existing) content mode >>= λ unchanged.
        if unchanged
        then ret []
        else (lift (file_plan full dest_norm rel content mode (is_some (find rel existing)))
            >>= λ planned. ret (planned ∷ []))

    unfoldable pub plan_files :
        State → Str → Str → CopyOptions → Map (Str × ℕ) → List Str → Exec Repo (List Planned)
    unfolding plan_file
    plan_files disk src dest_norm opts existing [] = ret []
    plan_files disk src dest_norm opts existing (rel ∷ rels) =
        let rest = plan_files disk src dest_norm opts existing rels in
        if matches_filters rel opts.incl opts.excl
        then (plan_file disk src dest_norm opts existing rel >>= λ first.
            rest >>= λ more. ret (first ++ more))
        else rest

    unfoldable pub copy_report : List Planned → ChangeReport
    unfolding planned_entries
    copy_report planned = record no_report { add = planned_entries planned }

    abbrev pub with_changes : Fs → ChangeReport × Fs
    with_changes new_fs = (or_no_report new_fs.changes, new_fs)

    -- The end of `copy_in`: nothing is committed in a dry run, or if there is nothing to write.
    unfoldable pub finish_copy : Fs → CopyOptions → List Planned → Exec Repo (ChangeReport × Fs)
    unfolding copy_report planned_writes commit_changes
    finish_copy fs opts planned =
        if opts.dry_run || is_empty planned
        then ret (copy_report planned, fs)
        else (commit_changes p fs (planned_writes planned) []
              (format_message (codes "copy_in") opts.message) (some (copy_report planned))
              opts.parents
            >>= λ new_fs. ret (with_changes new_fs))

    unfoldable pub copy_in : Fs → State → Str → Str → CopyOptions → Exec Repo (ChangeReport × Fs)
    unfolding require_writable require_tree normal_dest existing_at disk_walk plan_files finish_copy
    copy_in fs disk src dest opts = lift (require_writable (codes "copy_in") fs) >>= λ branch.
        lift (require_tree fs) >>= λ tree_hex. lift (normal_dest dest) >>= λ dest_norm.
        lift (disk_walk l disk src) >>= λ disk_files.
        (if opts.checksum then reading (existing_at tree_hex dest_norm) else ret []) >>= λ existing.
        plan_files disk src dest_norm opts existing disk_files >>= λ planned.
        finish_copy fs opts planned

    -- The files that the destination has and the disk has not.
    unfoldable pub plan_removes :
        Str → CopyOptions → List Str → Map (Str × ℕ) → Result (List (Str × FileEntry))
    unfolding store_path
    plan_removes dest_norm opts disk_files [] = ok []
    plan_removes dest_norm opts disk_files ((rel, (hex, mode)) ∷ existing) =
        let rest = plan_removes dest_norm opts disk_files existing in
        if any (λ f. str_eq f rel) disk_files
        then rest
        else if not (matches_filters rel opts.incl opts.excl)
        then rest
        else (Error.◌>>=◌ (need (file_type_from_mode mode) undefined_behaviour) (λ ft.
            Error.◌>>=◌ rest (λ more. ok (
              (
                store_path dest_norm rel,
                record { path = store_path dest_norm rel; file_type = ft; src = none },
              )
              ∷ more))))

    unfoldable pub sync_report : List Planned → List (Str × FileEntry) → ChangeReport
    unfolding entries_with
    sync_report planned removed = record no_report {
      add = entries_with false planned;
      update = entries_with true planned;
      del = map (λ (r : Str × FileEntry). r.1) removed;
    }

    unfoldable pub finish_sync :
        Fs → CopyOptions → List Planned → List (Str × FileEntry) → Exec Repo (ChangeReport × Fs)
    unfolding sync_report planned_writes commit_changes
    finish_sync fs opts planned removed =
        if opts.dry_run || (is_empty planned && is_empty removed)
        then ret (sync_report planned removed, fs)
        else (commit_changes p fs (planned_writes planned)
              (map (λ (r : Str × FileEntry). r.0) removed)
              (format_message (codes "sync_in") opts.message) (some (sync_report planned removed))
              opts.parents
            >>= λ new_fs. ret (with_changes new_fs))

    -- The files of the disk that the filters let through.
    unfoldable pub disk_set : CopyOptions → List Str → List Str
    disk_set opts files = keep (λ rel. matches_filters rel opts.incl opts.excl) files

    unfoldable pub sync_in : Fs → State → Str → Str → CopyOptions → Exec Repo (ChangeReport × Fs)
    unfolding require_writable require_tree normal_dest existing_at disk_walk plan_files
        plan_removes disk_set finish_sync
    sync_in fs disk src dest opts = lift (require_writable (codes "sync_in") fs) >>= λ branch.
        lift (require_tree fs) >>= λ tree_hex. lift (normal_dest dest) >>= λ dest_norm.
        lift (disk_walk l disk src) >>= λ disk_files.
        reading (existing_at tree_hex dest_norm) >>= λ existing.
        plan_files disk src dest_norm opts existing disk_files >>= λ planned.
        lift (plan_removes dest_norm opts (disk_set opts disk_files) existing) >>= λ removed.
        finish_sync fs opts planned removed
