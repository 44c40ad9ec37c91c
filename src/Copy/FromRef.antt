-- ===== src/Copy/FromRef.antt =====
-- cpp/src/copy.cpp: `Fs::copy_from_ref`.
use vost.Common.{
  ◌+◌, Bool, not, ◌&&◌, ◌||◌, Option, none, some, List, [], ◌∷◌, ◌++◌, Str, codes, str_eq, is_empty,
  length, drop, any, ltb, ◌==◌, if◌then◌else◌,
}
use vost.Error.{Error, Result, ok, err, not_found, key_not_found, invalid_hash}
use vost.Error
use vost.Types.{mode_tree, WalkEntry}
use vost.Paths.{slash, format_message}
use vost.Paths.RefName.{back}
use vost.Platform.{Platform}
use vost.Exec.{Exec, ret, reading, lift, throw, ◌>>=◌}
use vost.Tree.Read.{need, EntryResult, lookup, read_blob}
use vost.Tree.Walk.{walk_tree}
use vost.Tree.Rebuild.{Write}
use vost.Fs.{Fs, require_writable}
use vost.Fs.Commit.{commit_changes}
use vost.Fs.Write.{basename, is_directory}
use vost.Store.RefDict.{branches, tags, get}
use vost.Copy.In.{normal_dest, store_path}

pub record CopyFromRefOptions : Type 0 where
  pub delete_extra : Bool
  pub dry_run : Bool
  pub message : Option Str
  pub parents : List Str

-- `!src_path.empty() && src_path.back() == '/'`
unfoldable pub contents_mode : Str → Bool
unfolding back
contents_mode src_path = not (is_empty src_path) && (back src_path == slash)

-- The path below the source, `none` for a path that is skipped.
unfoldable pub below_source : Str → Str → Option Str
below_source src_norm rel_path =
    if is_empty src_norm
    then some rel_path
    else if ltb (length src_norm + 1) (length rel_path)
    then some (drop (length src_norm + 1) rel_path)
    else none

-- Where a file goes: the contents into the destination, or the directory itself.
unfoldable pub target_of : Bool → Str → Str → Str → Str
unfolding store_path basename
target_of contents src_norm dest_norm rel =
    if contents || is_empty src_norm
    then store_path dest_norm rel
    else store_path dest_norm (basename src_norm ++ (slash ∷ rel))

module _ (p : Platform) where
  open p use {Repo}

  -- Where a single file goes.
  unfoldable pub file_target : Repo → Str → Str → Str → Result Str
  unfolding lookup
  file_target repo tree_hex dest_norm src_norm =
      if is_empty dest_norm
      then ok (basename src_norm)
      else (Error.◌>>=◌ (lookup p repo tree_hex dest_norm) (λ dest_entry. ok (
          if is_directory p dest_entry
          then dest_norm ++ (slash ∷ basename src_norm)
          else dest_norm)))

  unfoldable pub copy_file : Repo → Str → Str → Str → Str → EntryResult → Result (List Write)
  unfolding read_blob file_target
  copy_file repo source_hex tree_hex dest_norm src_norm entry =
      Error.◌>>=◌ (read_blob p repo source_hex src_norm) (λ content.
        Error.◌>>=◌ (file_target repo tree_hex dest_norm src_norm)
          (λ target. ok (record { path = target; content = content; mode = entry.mode } ∷ [])))

  unfoldable pub copy_entries :
      Repo → Str → Bool → Str → Str → List (Str × WalkEntry) → Result (List Write)
  unfolding below_source target_of read_blob
  copy_entries repo source_hex contents src_norm dest_norm [] = ok []
  copy_entries repo source_hex contents src_norm dest_norm ((rel_path, we) ∷ entries) =
      let rest = copy_entries repo source_hex contents src_norm dest_norm entries in
      elim (below_source src_norm rel_path) [
        | none ↦ rest
        | some rel ↦ Error.◌>>=◌ (read_blob p repo source_hex rel_path) (λ content.
            Error.◌>>=◌ rest (λ more. ok (
              record {
                path = target_of contents src_norm dest_norm rel;
                content = content;
                mode = we.mode;
              }
              ∷ more)))
      ]

  -- One source: everything, a directory, or a file.
  unfoldable pub copy_source : Repo → Str → Str → Str → Str → Result (List Write)
  unfolding normal_dest contents_mode walk_tree copy_entries copy_file lookup
  copy_source repo source_hex tree_hex dest_norm src_path =
      Error.◌>>=◌ (normal_dest src_path) (λ src_norm.
        if is_empty src_norm
        then Error.◌>>=◌ (walk_tree p repo source_hex [])
            (copy_entries repo source_hex (contents_mode src_path) src_norm dest_norm)
        else (Error.◌>>=◌ (lookup p repo source_hex src_norm) (λ found.
            Error.◌>>=◌ (need found (not_found src_norm)) (λ entry.
              if entry.mode == mode_tree
              then Error.◌>>=◌ (walk_tree p repo source_hex src_norm)
                  (copy_entries repo source_hex (contents_mode src_path) src_norm dest_norm)
              else copy_file repo source_hex tree_hex dest_norm src_norm entry))))

  unfoldable pub copy_sources : Repo → Str → Str → Str → List Str → Result (List Write)
  unfolding copy_source
  copy_sources repo source_hex tree_hex dest_norm [] = ok []
  copy_sources repo source_hex tree_hex dest_norm (src_path ∷ sources) =
      Error.◌>>=◌ (copy_source repo source_hex tree_hex dest_norm src_path) (λ first.
        Error.◌>>=◌ (copy_sources repo source_hex tree_hex dest_norm sources)
          (λ rest. ok (first ++ rest)))

  -- What is at the destination: nothing if it is no directory.
  unfoldable pub dest_entries : Repo → Str → Str → Result (List (Str × WalkEntry))
  unfolding walk_tree lookup
  dest_entries repo tree_hex dest_norm =
      if is_empty dest_norm
      then walk_tree p repo tree_hex []
      else (Error.◌>>=◌ (lookup p repo tree_hex dest_norm)
          (λ entry. if is_directory p entry then walk_tree p repo tree_hex dest_norm else ok []))

  unfoldable pub extra_paths : List Write → List (Str × WalkEntry) → List Str
  extra_paths writes [] = []
  extra_paths writes ((rel_path, we) ∷ entries) =
      let rest = extra_paths writes entries in
      if any (λ (w : Write). str_eq w.path rel_path) writes then rest else rel_path ∷ rest

  unfoldable pub extra_removes : Repo → Bool → Str → Str → List Write → Result (List Str)
  unfolding dest_entries extra_paths
  extra_removes repo delete_extra tree_hex dest_norm writes =
      if delete_extra && not (is_empty tree_hex)
      then Error.◌>>=◌ (dest_entries repo tree_hex dest_norm)
          (λ entries. ok (extra_paths writes entries))
      else ok []

  unfoldable pub finish_from_ref : Fs → CopyFromRefOptions → List Write → List Str → Exec Repo Fs
  unfolding commit_changes
  finish_from_ref fs opts writes removes =
      if opts.dry_run || (is_empty writes && is_empty removes)
      then ret fs
      else commit_changes p fs writes removes (format_message (codes "copy_from_ref") opts.message)
          none opts.parents

  -- `if (source.tree_oid_hex().empty()) throw NotFoundError(...)`
  unfoldable pub source_tree : Fs → Result Str
  source_tree source =
      if is_empty source.tree_oid_hex
      then err (not_found (codes "source has no tree"))
      else ok source.tree_oid_hex

  unfoldable pub copy_from_ref : Fs → Fs → List Str → Str → CopyFromRefOptions → Exec Repo Fs
  unfolding require_writable source_tree normal_dest copy_sources extra_removes finish_from_ref
  copy_from_ref fs source sources dest opts =
      lift (require_writable (codes "copy_from_ref") fs) >>= λ branch.
      lift (source_tree source) >>= λ source_hex. lift (normal_dest dest) >>= λ dest_norm.
      reading (λ repo. copy_sources repo source_hex fs.tree_oid_hex dest_norm sources) >>= λ writes.
      reading (λ repo. extra_removes repo opts.delete_extra fs.tree_oid_hex dest_norm writes)
      >>= λ removes. finish_from_ref fs opts writes removes

  -- `catch (const KeyNotFoundError&) {}`
  abbrev pub catch_key : Result Fs × Repo → Exec Repo Fs → Result Fs × Repo
  catch_key (err (key_not_found key), repo) next = next repo
  catch_key (err e, repo) next = (err e, repo)
  catch_key (ok fs, repo) next = (ok fs, repo)

  -- A branch of that name, or else a tag.
  unfoldable pub copy_from_name : Fs → Str → List Str → Str → CopyFromRefOptions → Exec Repo Fs
  unfolding get copy_from_ref branches tags
  copy_from_name fs source_name sources dest opts repo =
      let from : Exec Repo Fs → Exec Repo Fs =
        λ found. found >>= λ src_fs. copy_from_ref fs src_fs sources dest opts in
      catch_key (from (reading (get p (branches fs.inner) source_name)) repo) (λ repo'.
        catch_key (from (reading (get p (tags fs.inner) source_name)) repo')
          (throw (invalid_hash source_name)))
