-- ===== src/Tree/Read.antt =====
-- cpp/src/tree.cpp: `entry_at_path`, `lookup`, `read_blob`, `list_tree` and `count_subdirs`.
use vost.Common.{
  ◌≡◌, ap, ℕ, Option, none, some, List, [], ◌∷◌, Str, codes, is_empty, map, keep, length, ◌==◌,
  if◌then◌else◌,
}
use vost.Error.{
  Error, Result, ok, err, ◌>>=◌, not_found, is_a_directory, not_a_directory, invalid_hash,
  git_error, err≢ok, ok-injective,
}
use vost.Types.{mode_tree, Bytes, WalkEntry}
use vost.Paths.{segments}
use vost.Platform.{Platform, TreeEntry}

-- `if (call(...) != 0) throw e;`
unfoldable pub need {ℓ} : {A : Type ℓ} → Option A → Error → Result A
need none e = err e
need (some a) e = ok a

pub record EntryResult : Type 0 where
  pub oid_hex : Str
  pub mode : ℕ

pub need-inv {ℓ} : {A : Type ℓ} (o : Option A) (e : Error) {a : A} → need o e ≡ ok a → o ≡ some a
unfolding need
need-inv none e h = absurd (err≢ok h)
need-inv (some b) e h = ap some (ok-injective h)

pub need-some {ℓ} : {A : Type ℓ} {o : Option A} (e : Error) {a : A} → o ≡ some a → need o e ≡ ok a
unfolding need
need-some e h = rw h

module _ (p : Platform) where
  open p use {
    Repo, Oid, Tree, oid_fromstr, oid_tostr, tree_lookup, tree_entries, tree_entry_byname,
    blob_lookup,
  }

  unfoldable pub hex_to_oid : Str → Result Oid
  hex_to_oid hex = need (oid_fromstr hex) (invalid_hash hex)

  -- What the loop does with the entry that it found: the last segment returns, another one goes on
  -- only through a tree.
  unfoldable pub at_entry :
      List Str
      → (Oid → Result (Option EntryResult))
      → Option (TreeEntry Oid)
      → Result (Option EntryResult)
  at_entry segs deeper none = ok none
  at_entry [] deeper (some e) = ok (some (record { oid_hex = oid_tostr e.id; mode = e.filemode }))
  at_entry (seg ∷ segs) deeper (some e) = if e.filemode == mode_tree then deeper e.id else ok none

  -- The loop of `entry_at_path` over the segments.
  unfoldable pub entry_from : Repo → Oid → List Str → Result (Option EntryResult)
  unfolding at_entry
  entry_from repo cur [] = ok none
  entry_from repo cur (seg ∷ segs) =
      need (tree_lookup repo cur) (git_error (codes "git_tree_lookup")) >>= λ t.
      at_entry segs (λ o. entry_from repo o segs) (tree_entry_byname t seg)

  unfoldable pub entry_at_path : Repo → Str → Str → Result (Option EntryResult)
  unfolding hex_to_oid entry_from
  entry_at_path repo tree_oid_hex norm_path =
      if is_empty norm_path
      then ok (some (record { oid_hex = tree_oid_hex; mode = mode_tree }))
      else (hex_to_oid tree_oid_hex >>= λ cur. entry_from repo cur (segments norm_path))

  unfoldable pub lookup : Repo → Str → Str → Result (Option EntryResult)
  lookup repo tree_oid_hex norm_path = entry_at_path repo tree_oid_hex norm_path

  unfoldable pub blob_at : Repo → EntryResult → Result Bytes
  unfolding hex_to_oid
  blob_at repo entry = do
    oid ← hex_to_oid entry.oid_hex
    need (blob_lookup repo oid) (git_error (codes "git_blob_lookup"))

  unfoldable pub read_blob : Repo → Str → Str → Result Bytes
  unfolding blob_at
  read_blob repo tree_oid_hex norm_path = do
    found ← entry_at_path repo tree_oid_hex norm_path
    entry ← need found (not_found norm_path)
    if entry.mode == mode_tree then err (is_a_directory norm_path) else blob_at repo entry

  -- The tree that a path names, in `list_tree`, `walk_tree` and `walk_tree_dirs`.
  unfoldable pub target_tree : Repo → Str → Str → Result Str
  target_tree repo tree_oid_hex norm_path = if is_empty norm_path then ok tree_oid_hex else (do
    found ← entry_at_path repo tree_oid_hex norm_path
    entry ← need found (not_found norm_path)
    if entry.mode == mode_tree then ok entry.oid_hex else err (not_a_directory norm_path))

  abbrev pub walk_entry : TreeEntry Oid → WalkEntry
  walk_entry e = record { name = e.name; oid = oid_tostr e.id; mode = e.filemode }

  unfoldable pub open_tree : Repo → Str → Result Tree
  unfolding hex_to_oid
  open_tree repo hex = do
    oid ← hex_to_oid hex
    need (tree_lookup repo oid) (git_error (codes "git_tree_lookup"))

  unfoldable pub list_tree_by_oid : Repo → Str → Result (List WalkEntry)
  unfolding open_tree
  list_tree_by_oid repo hex = do t ← open_tree repo hex; ok (map walk_entry (tree_entries t))

  unfoldable pub list_tree : Repo → Str → Str → Result (List WalkEntry)
  unfolding target_tree open_tree
  list_tree repo tree_oid_hex norm_path = do
    target ← target_tree repo tree_oid_hex norm_path
    t ← open_tree repo target
    ok (map walk_entry (tree_entries t))

  unfoldable pub count_subdirs : Repo → Str → Result ℕ
  unfolding open_tree
  count_subdirs repo hex = do
    t ← open_tree repo hex
    ok (length (keep (λ e. e.filemode == mode_tree) (tree_entries t)))
