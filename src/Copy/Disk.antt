-- ===== src/Copy/Disk.antt =====
-- What cpp/src/copy.cpp reads of the local disk: `disk_walk`, `mode_from_disk` and the data of a file.
use vost.Common.{
  Bool, false, not, ℕ, Option, none, some, List, [], Str, map, keep, sort_strings, ◌==◌,
  if◌then◌else◌,
}
use vost.Error.{Result, ok, ◌>>=◌, filesystem_error}
use vost.Types.{Bytes, mode_link, mode_blob, mode_blob_exec}
use vost.Tree.Read.{need}

-- The calls of std::filesystem and of the operating system.
pub record LocalDisk : Type 1 where
  pub State : Type 0
  pub join : Str → Str → Str
  -- `none` where a call throws filesystem_error, as for `entries` of a file
  pub exists : State → Str → Option Bool
  -- what recursive_directory_iterator gives below a directory, links to directories followed: the
  -- path relative to it, and whether symlink_status is that of a directory
  pub entries : State → Str → Option (List (Str × Bool))
  pub is_symlink : State → Str → Option Bool
  -- st_mode & S_IXUSR, `none` if lstat fails
  pub owner_exec : State → Str → Option Bool
  pub read_symlink : State → Str → Option Str
  -- what an ifstream reads, which is nothing if the file cannot be opened
  pub content : State → Str → Bytes

abbrev is_set : Option Bool → Bool
is_set none = false
is_set (some b) = b

module _ (l : LocalDisk) where
  open l use {State, join, exists, entries, is_symlink, owner_exec, read_symlink, content}

  -- The paths of what is no directory, in order.
  unfoldable pub file_paths : List (Str × Bool) → List Str
  unfolding sort_strings
  file_paths found =
      sort_strings (map (λ (e : Str × Bool). e.0) (keep (λ (e : Str × Bool). not e.1) found))

  unfoldable pub disk_walk : State → Str → Result (List Str)
  unfolding file_paths
  disk_walk disk root = need (exists disk root) filesystem_error >>= λ there.
      if not there
      then ok []
      else (need (entries disk root) filesystem_error >>= λ found. ok (file_paths found))

  unfoldable pub mode_from_disk : State → Str → Result ℕ
  mode_from_disk disk path = need (is_symlink disk path) filesystem_error >>= λ link. ok (
      if link
      then mode_link
      else if is_set (owner_exec disk path)
      then mode_blob_exec
      else mode_blob)

  -- The target of a link, and the bytes of another file.
  unfoldable pub local_data : State → Str → ℕ → Result Bytes
  local_data disk full mode =
      if mode == mode_link
      then need (read_symlink disk full) filesystem_error
      else ok (content disk full)
