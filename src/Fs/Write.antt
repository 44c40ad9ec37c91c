-- ===== src/Fs/Write.antt =====
-- cpp/src/fs.cpp: `write`, `write_symlink`, `apply`, `remove`, `move` and `rename`.
use vost.Common.{
  ℕ, Bool, true, false, not, ◌&&◌, Option, none, some, List, [], ◌∷◌, ◌++◌, Str, codes, is_empty,
  drop, length, ltb, ◌==◌, any, if◌then◌else◌,
}
use vost.Error.{
  Result, ok, ◌>>=◌, ◌>>◌, throw_if, not_found, is_a_directory, not_a_directory, invalid_path,
}
use vost.Types.{mode_blob, mode_link, mode_tree, Bytes, WalkEntry, WriteEntry, validate}
use vost.Paths.{slash, normalize, format_message}
use vost.Platform.{Platform}
use vost.Exec
use vost.Exec.{Exec, lift, reading}
use vost.Tree.Read.{need, EntryResult, read_blob}
use vost.Tree.Read as TreeRead
use vost.Tree.Walk.{under, walk_tree}
use vost.Tree.Rebuild.{Write}
use vost.Fs.{Fs, require_writable, require_tree}
use vost.Fs.Commit.{commit_changes}

pub record WriteOptions : Type 0 where
  pub message : Option Str
  pub mode : Option ℕ
  pub parents : List Str

pub record ApplyOptions : Type 0 where
  pub message : Option Str
  pub operation : Option Str
  pub parents : List Str

-- RemoveOptions and MoveOptions
pub record PathOptions : Type 0 where
  pub recursive : Bool
  pub dry_run : Bool
  pub message : Option Str
  pub parents : List Str

abbrev pub value_or {ℓ} : {A : Type ℓ} → Option A → A → A
value_or none d = d
value_or (some a) d = a

-- `path.substr(path.rfind('/') + 1)`, or the path if it has no slash
unfoldable pub basename : Str → Str
basename [] = []
basename (c ∷ s) =
    let rest = basename s in
    if any (λ d. d == slash) s then rest else if c == slash then s else c ∷ s

-- What an operation stages: the writes and the removes.
pub record Changes : Type 0 where
  pub writes : List Write
  pub removes : List Str

abbrev pub no_changes : Changes
no_changes = record { writes = []; removes = [] }

abbrev pub join_changes : Changes → Changes → Changes
join_changes a b = record { writes = a.writes ++ b.writes; removes = a.removes ++ b.removes }

abbrev pub content_of : WriteEntry → Bytes
content_of e = value_or e.bytes (value_or e.target [])

-- The two loops of `apply`.
unfoldable pub apply_writes : List (Str × WriteEntry) → Result (List Write)
apply_writes [] = ok []
apply_writes ((path, e) ∷ rest) = do
  validate e
  norm ← normalize path
  others ← apply_writes rest
  ok (record { path = norm; content = content_of e; mode = e.mode } ∷ others)

unfoldable pub normalize_all : List Str → Result (List Str)
normalize_all [] = ok []
normalize_all (path ∷ paths) = do
  norm ← normalize path
  others ← normalize_all paths
  ok (norm ∷ others)

-- The files below a directory, at their new paths.
unfoldable pub move_children :
    (Str → Result Bytes) → Str → Str → List (Str × WalkEntry) → Result (List Write)
move_children contents norm_src target [] = ok []
move_children contents norm_src target ((rel_path, we) ∷ rest) = do
  content ← contents rel_path
  others ← move_children contents norm_src target rest
  ok (
      record { path = target ++ drop (length norm_src) rel_path; content = content; mode = we.mode }
      ∷ others)

module _ (p : Platform) where
  open p use {Repo}

  unfoldable pub write : Fs → Str → Bytes → WriteOptions → Exec Repo Fs
  write fs path content opts = Exec.◌>>=◌ (lift (normalize path)) λ norm.
      commit_changes p fs
        (record { path = norm; content = content; mode = value_or opts.mode mode_blob } ∷ []) []
        (format_message (codes "write: " ++ norm) opts.message) none opts.parents

  unfoldable pub write_symlink : Fs → Str → Str → WriteOptions → Exec Repo Fs
  write_symlink fs path target opts = Exec.◌>>=◌ (lift (normalize path)) λ norm.
      commit_changes p fs (record { path = norm; content = target; mode = mode_link } ∷ []) []
        (format_message (codes "symlink: " ++ norm) opts.message) none opts.parents

  unfoldable pub apply : Fs → List (Str × WriteEntry) → List Str → ApplyOptions → Exec Repo Fs
  unfolding apply_writes normalize_all
  apply fs writes removes opts = Exec.◌>>=◌ (lift (apply_writes writes)) λ internal.
      Exec.◌>>=◌ (lift (normalize_all removes)) λ norm_removes.
        commit_changes p fs internal norm_removes
          (format_message (value_or opts.operation (codes "apply")) opts.message) none opts.parents

  -- The loop of `remove`: each path must be there, and a directory wants `recursive`.
  unfoldable pub check_removes : Repo → Str → Bool → List Str → Result (List Str)
  check_removes repo tree_hex recursive [] = ok []
  check_removes repo tree_hex recursive (path ∷ paths) = do
    norm ← normalize path
    found ← TreeRead.lookup p repo tree_hex norm
    entry ← need found (not_found norm)
    throw_if ((entry.mode == mode_tree) && not recursive) (is_a_directory norm)
    others ← check_removes repo tree_hex recursive paths
    ok (norm ∷ others)

  unfoldable pub plan_remove : Repo → Fs → List Str → PathOptions → Result (List Str)
  unfolding check_removes
  plan_remove repo fs paths opts = do
    require_writable (codes "remove") fs
    tree_hex ← require_tree fs
    check_removes repo tree_hex opts.recursive paths

  unfoldable pub remove : Fs → List Str → PathOptions → Exec Repo Fs
  unfolding plan_remove
  remove fs paths opts = Exec.◌>>=◌ (reading (λ repo. plan_remove repo fs paths opts)) λ to_remove.
      if opts.dry_run
      then Exec.ret fs
      else commit_changes p fs [] to_remove (format_message (codes "remove") opts.message) none
          opts.parents

  -- Take one source to `target`: a file, or all that is below a directory.
  unfoldable pub stage_move : Repo → Str → Str → Str → EntryResult → Option ℕ → Result Changes
  unfolding move_children
  stage_move repo tree_hex norm_src target entry mode =
      if entry.mode == mode_tree
      then (do
        children ← walk_tree p repo tree_hex norm_src
        writes ← move_children (read_blob p repo tree_hex) norm_src target children
        ok (record { writes = writes; removes = norm_src ∷ [] }))
      else (do
        content ← read_blob p repo tree_hex norm_src
        ok (record {
          writes =
              record { path = target; content = content; mode = value_or mode entry.mode } ∷ [];
          removes = norm_src ∷ [];
        }))

  unfoldable pub move_sources : Repo → Str → Str → Bool → Bool → List Str → Result Changes
  unfolding stage_move
  move_sources repo tree_hex norm_dest dest_is_dir recursive [] = ok no_changes
  move_sources repo tree_hex norm_dest dest_is_dir recursive (src ∷ sources) = do
    norm_src ← normalize src
    throw_if (is_empty norm_src) (invalid_path (codes "cannot move root"))
    found ← TreeRead.lookup p repo tree_hex norm_src
    entry ← need found (not_found norm_src)
    throw_if ((entry.mode == mode_tree) && not recursive) (is_a_directory norm_src)
    first ←
        stage_move repo tree_hex norm_src
          (if dest_is_dir then under norm_dest (basename norm_src) else norm_dest) entry none
    rest ← move_sources repo tree_hex norm_dest dest_is_dir recursive sources
    ok (join_changes first rest)

  abbrev pub is_directory : Option EntryResult → Bool
  is_directory none = false
  is_directory (some e) = e.mode == mode_tree

  unfoldable pub plan_move : Repo → Fs → List Str → Str → PathOptions → Result Changes
  unfolding move_sources
  plan_move repo fs sources dest opts = do
    require_writable (codes "move") fs
    tree_hex ← require_tree fs
    norm_dest ← normalize dest
    throw_if (is_empty sources) (invalid_path (codes "move: no sources provided"))
    dest_is_dir ←
        (if is_empty norm_dest
          then ok true
          else (do found ← TreeRead.lookup p repo tree_hex norm_dest; ok (is_directory found)))
    throw_if (ltb 1 (length sources) && not dest_is_dir)
        (not_a_directory (codes "move: destination must be a directory for multiple sources"))
    move_sources repo tree_hex norm_dest dest_is_dir opts.recursive sources

  unfoldable pub move : Fs → List Str → Str → PathOptions → Exec Repo Fs
  unfolding plan_move
  move fs sources dest opts =
      Exec.◌>>=◌ (reading (λ repo. plan_move repo fs sources dest opts)) λ changes.
        if opts.dry_run
        then Exec.ret fs
        else commit_changes p fs changes.writes changes.removes
            (format_message (codes "move") opts.message) none opts.parents

  -- The normal source and destination, and what the rename stages.
  unfoldable pub plan_rename : Repo → Fs → Str → Str → WriteOptions → Result (Str × Str × Changes)
  unfolding stage_move
  plan_rename repo fs src dest opts = do
    require_writable (codes "rename") fs
    tree_hex ← require_tree fs
    norm_src ← normalize src
    norm_dest ← normalize dest
    throw_if (is_empty norm_src) (invalid_path (codes "cannot rename root"))
    throw_if (is_empty norm_dest) (invalid_path (codes "cannot rename to root"))
    found ← TreeRead.lookup p repo tree_hex norm_src
    entry ← need found (not_found norm_src)
    changes ← stage_move repo tree_hex norm_src norm_dest entry opts.mode
    ok (norm_src, norm_dest, changes)

  unfoldable pub rename : Fs → Str → Str → WriteOptions → Exec Repo Fs
  unfolding plan_rename
  rename fs src dest opts = Exec.◌>>=◌ (reading (λ repo. plan_rename repo fs src dest opts)) λ plan.
      commit_changes p fs plan.2.writes plan.2.removes
        (format_message (codes "rename: " ++ (plan.0 ++ (codes " -> " ++ plan.1))) opts.message)
        none opts.parents
