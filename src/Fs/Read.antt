-- ===== src/Fs/Read.antt =====
-- cpp/src/fs.cpp: the reading operations of a snapshot.
use vost.Common.{
  ℕ, ◌+◌, ◌%◌, ◌^◌, ◌-◌, ◌^◌, min, Bool, true, false, Option, none, some, List, [], ◌∷◌, ◌++◌, Str,
  codes, is_empty, map, drop, take, length, leb, ◌==◌, if◌then◌else◌,
}
use vost.Error.{Result, ok, err, ◌>>=◌, not_found, is_a_directory, invalid_path, git_error}
use vost.Types.{
  mode_tree, mode_link, FileType, file_type_from_mode, tree, Bytes, WalkEntry, WalkDirEntry,
  StatResult, is_some,
}
use vost.Paths.{normalize}
use vost.Platform.{Platform}
use vost.Tree.Read.{need, EntryResult, hex_to_oid, read_blob, list_tree, count_subdirs, blob_at}
use vost.Tree.Read as TreeRead
use vost.Tree.Walk.{under, walk_tree_dirs}
use vost.Tree.WriteCommit.{CommitMeta, read_commit}
use vost.Fs.{Fs, require_tree}

-- The first check of `message`, `time`, `author_name` and `author_email`.
abbrev pub has_commit : Fs → Result Str
has_commit fs =
    if is_empty fs.commit_oid_hex
    then err (not_found (codes "no commit in snapshot"))
    else ok fs.commit_oid_hex

abbrev pub size_max : ℕ
size_max = 2 ^ 64 - 1

-- The bytes from `offset` on, where a sum of sizes wraps around as size_t does, at most `size` of them, as `read_range` and `read_by_hash` cut them.
unfoldable pub cut : Bytes → ℕ → Option ℕ → Bytes
cut content offset none =
    let start = min offset (length content) in take (length content - start) (drop start content)
cut content offset (some size) =
    let start = min offset (length content) in
    let stop =
      min (if leb start (size_max - size) then (start + size) % 2 ^ 64 else size_max)
        (length content) in
    take (stop - start) (drop start content)

abbrev pub file_names : WalkDirEntry → List Str
file_names d = map (λ (fe : WalkEntry). under d.dirpath fe.name) d.files

unfoldable pub all_names : List WalkDirEntry → List Str
all_names [] = []
all_names (d ∷ ds) = file_names d ++ all_names ds

module _ (p : Platform) where
  open p use {Repo, blob_lookup}

  unfoldable pub commit_meta : Repo → Fs → Result CommitMeta
  commit_meta repo fs = do hex ← has_commit fs; read_commit p repo hex

  unfoldable pub message : Repo → Fs → Result Str
  unfolding commit_meta
  message repo fs = do m ← commit_meta repo fs; ok m.message

  unfoldable pub time : Repo → Fs → Result ℕ
  unfolding commit_meta
  time repo fs = do m ← commit_meta repo fs; ok m.time

  unfoldable pub author_name : Repo → Fs → Result Str
  unfolding commit_meta
  author_name repo fs = do m ← commit_meta repo fs; ok m.author_name

  unfoldable pub author_email : Repo → Fs → Result Str
  unfolding commit_meta
  author_email repo fs = do m ← commit_meta repo fs; ok m.author_email

  unfoldable pub read : Repo → Fs → Str → Result Bytes
  read repo fs path = do
    tree_hex ← require_tree fs
    norm ← normalize path
    read_blob p repo tree_hex norm

  unfoldable pub walk : ℕ → Repo → Fs → Str → Result (List WalkDirEntry)
  walk fuel repo fs path = do
    tree_hex ← require_tree fs
    norm ← normalize path
    walk_tree_dirs p fuel repo tree_hex norm

  unfoldable pub listdir : Repo → Fs → Str → Result (List WalkEntry)
  listdir repo fs path = do
    tree_hex ← require_tree fs
    norm ← normalize path
    list_tree p repo tree_hex norm

  unfoldable pub ls : ℕ → Repo → Fs → Str → Bool → Result (List Str)
  unfolding walk listdir all_names
  ls fuel repo fs path true = do entries ← walk fuel repo fs path; ok (all_names entries)
  ls fuel repo fs path false = do
    entries ← listdir repo fs path
    ok (map (λ (e : WalkEntry). e.name) entries)

  -- What `exists` and `is_dir` do behind their first tests.
  abbrev pub entry_test : Repo → Str → Str → (Option EntryResult → Bool) → Result Bool
  entry_test repo tree_hex norm test =
      if is_empty norm
      then ok true
      else (do entry ← TreeRead.lookup p repo tree_hex norm; ok (test entry))

  unfoldable pub exists : Repo → Fs → Str → Result Bool
  exists repo fs path =
      if is_empty fs.tree_oid_hex
      then ok false
      else (do norm ← normalize path; entry_test repo fs.tree_oid_hex norm is_some)

  abbrev pub is_tree_entry : Option EntryResult → Bool
  is_tree_entry none = false
  is_tree_entry (some e) = e.mode == mode_tree

  unfoldable pub is_dir : Repo → Fs → Str → Result Bool
  is_dir repo fs path =
      if is_empty fs.tree_oid_hex
      then ok false
      else (do norm ← normalize path; entry_test repo fs.tree_oid_hex norm is_tree_entry)

  -- The entry at a path, or an error that names the path as it was given.
  unfoldable pub entry_of : Repo → Fs → Str → Result EntryResult
  entry_of repo fs path = do
    tree_hex ← require_tree fs
    norm ← normalize path
    found ← TreeRead.lookup p repo tree_hex norm
    need found (not_found path)

  unfoldable pub file_type : Repo → Fs → Str → Result FileType
  unfolding entry_of
  file_type repo fs path = do
    entry ← entry_of repo fs path
    need (file_type_from_mode entry.mode) (git_error (codes "unknown mode for: " ++ path))

  unfoldable pub size : Repo → Fs → Str → Result ℕ
  unfolding entry_of
  size repo fs path = do
    entry ← entry_of repo fs path
    if entry.mode == mode_tree
        then err (is_a_directory path)
        else (do content ← blob_at p repo entry; ok (length content))

  unfoldable pub object_hash : Repo → Fs → Str → Result Str
  unfolding entry_of
  object_hash repo fs path = do entry ← entry_of repo fs path; ok entry.oid_hex

  unfoldable pub readlink : Repo → Fs → Str → Result Str
  unfolding entry_of
  readlink repo fs path = do
    entry ← entry_of repo fs path
    if entry.mode == mode_link
        then (do tree_hex ← require_tree fs; norm ← normalize path; read_blob p repo tree_hex norm)
        else err (invalid_path (path ++ codes " is not a symlink"))

  abbrev pub dir_stat : ℕ → Str → ℕ → StatResult
  dir_stat mtime hash subdirs = record {
    mode = mode_tree;
    file_type = tree;
    size = 0;
    hash = hash;
    nlink = 2 + subdirs;
    mtime = mtime;
  }

  -- The end of `stat`, for the entry at a path that is not the root.
  unfoldable pub stat_entry : Repo → Str → ℕ → EntryResult → Result StatResult
  stat_entry repo path mtime entry = do
    ft ← need (file_type_from_mode entry.mode) (git_error (codes "unknown mode for: " ++ path))
    if entry.mode == mode_tree
        then (do
          subdirs ← count_subdirs p repo entry.oid_hex
          ok (dir_stat mtime entry.oid_hex subdirs))
        else (do
          content ← blob_at p repo entry
          ok (record {
            mode = entry.mode;
            file_type = ft;
            size = length content;
            hash = entry.oid_hex;
            nlink = 1;
            mtime = mtime;
          }))

  unfoldable pub stat : Repo → Fs → Str → Result StatResult
  unfolding stat_entry time
  stat repo fs path = do
    tree_hex ← require_tree fs
    mtime ← (if is_empty fs.commit_oid_hex then ok 0 else time repo fs)
    norm ← normalize path
    if is_empty norm
        then (do subdirs ← count_subdirs p repo tree_hex; ok (dir_stat mtime tree_hex subdirs))
        else (do
          found ← TreeRead.lookup p repo tree_hex norm
          entry ← need found (not_found path)
          stat_entry repo path mtime entry)

  unfoldable pub read_range : Repo → Fs → Str → ℕ → Option ℕ → Result Bytes
  unfolding read cut
  read_range repo fs path offset size = do content ← read repo fs path; ok (cut content offset size)

  unfoldable pub read_by_hash : Repo → Str → ℕ → Option ℕ → Result Bytes
  unfolding cut
  read_by_hash repo hash offset size = do
    oid ← hex_to_oid p hash
    content ← need (blob_lookup repo oid) (git_error (codes "git_blob_lookup"))
    ok (cut content offset size)
