-- ===== src/Tree/Walk.antt =====
-- cpp/src/tree.cpp: `walk_tree` and `walk_tree_dirs`.
use vost.Common.{
  ℕ, zero, suc, not, List, [], ◌∷◌, ◌++◌, Str, codes, is_empty, map, keep, ◌==◌, if◌then◌else◌,
}
use vost.Error.{Result, ok, err, ◌>>=◌, git_error, out_of_fuel}
use vost.Types.{mode_tree, WalkEntry, WalkDirEntry}
use vost.Paths.{slash}
use vost.Platform.{Platform, TreeEntry}
use vost.Tree.Read.{need, open_tree, target_tree, walk_entry}

-- `prefix.empty() ? name : prefix + "/" + name`
abbrev pub under : Str → Str → Str
under prefix name = if is_empty prefix then name else prefix ++ (slash ∷ name)

-- `if (!rel.empty() && rel.back() == '/') rel.pop_back();`
unfoldable pub strip_slash : Str → Str
strip_slash [] = []
strip_slash (c ∷ []) = if c == slash then [] else c ∷ []
strip_slash (c ∷ d ∷ s) = c ∷ strip_slash (d ∷ s)

module _ (p : Platform) where
  open p use {Repo, Oid, oid_tostr, tree_entries, tree_walk}

  -- The callback keeps what is no directory, by its path.
  unfoldable pub walked : List (Str × TreeEntry Oid) → List (Str × WalkEntry)
  walked [] = []
  walked ((root, e) ∷ calls) =
      let rest = walked calls in
      if e.filemode == mode_tree
      then rest
      else (strip_slash (root ++ e.name), walk_entry p e) ∷ rest

  unfoldable pub walk_tree : Repo → Str → Str → Result (List (Str × WalkEntry))
  unfolding walked
  walk_tree repo tree_oid_hex norm_path = do
    target ← target_tree p repo tree_oid_hex norm_path
    t ← open_tree p repo target
    calls ← need (tree_walk repo t) (git_error (codes "git_tree_walk"))
    ok (map (λ r. (under norm_path r.0, r.1)) (walked calls))

  abbrev pub subdirs : List (TreeEntry Oid) → List (TreeEntry Oid)
  subdirs entries = keep (λ e. e.filemode == mode_tree) entries

  abbrev pub dir_entry : Str → List (TreeEntry Oid) → WalkDirEntry
  dir_entry prefix entries = record {
    dirpath = prefix;
    dirnames = map (λ e. e.name) (subdirs entries);
    files = map (walk_entry p) (keep (λ e. not (e.filemode == mode_tree)) entries);
  }

  -- `for (auto& [dname, doid] : subdirs) recurse(doid, sub_prefix);`
  unfoldable pub recurse_each :
      (Str → Str → Result (List WalkDirEntry))
      → Str
      → List (TreeEntry Oid)
      → Result (List WalkDirEntry)
  recurse_each recurse prefix [] = ok []
  recurse_each recurse prefix (e ∷ es) = do
    first ← recurse (oid_tostr e.id) (under prefix e.name)
    rest ← recurse_each recurse prefix es
    ok (first ++ rest)

  -- `fuel` bounds the depth of the tree.
  unfoldable pub recurse : ℕ → Repo → Str → Str → Result (List WalkDirEntry)
  unfolding recurse_each
  recurse zero repo oid_hex prefix = err out_of_fuel
  recurse (suc fuel) repo oid_hex prefix = do
    t ← open_tree p repo oid_hex
    below ← recurse_each (recurse fuel repo) prefix (subdirs (tree_entries t))
    ok (dir_entry prefix (tree_entries t) ∷ below)

  unfoldable pub walk_tree_dirs : ℕ → Repo → Str → Str → Result (List WalkDirEntry)
  unfolding recurse
  walk_tree_dirs fuel repo tree_oid_hex norm_path = do
    target ← target_tree p repo tree_oid_hex norm_path
    recurse fuel repo target norm_path
