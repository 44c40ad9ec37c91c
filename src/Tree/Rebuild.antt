-- ===== src/Tree/Rebuild.antt =====
-- cpp/src/tree.cpp: `rebuild_tree` and its local functions.
pub mod Steps
pub mod Collect
pub mod Inserts
pub mod Kept
pub mod ReadBack
pub mod RoundTrip
pub mod Stops
pub mod Terminates
use vost.Common.{
  ℕ, zero, suc, ◌+◌, Bool, true, false, Option, none, some, List, [], ◌∷◌, ◌++◌, Str, codes, str_eq,
  map, length, ◌==◌, if◌then◌else◌, Map, find, map_set, min,
}
use vost.Error.{Error, Result, ok, err, git_error, out_of_fuel}
use vost.Types.{mode_tree, Bytes}
use vost.Paths.{segments}
use vost.Platform.{Platform, TreeEntry}
use vost.Exec.{Exec, ret, throw, reading, lift, ◌>>=◌, ◌>>◌}
use vost.Tree.Read.{need, hex_to_oid}

-- std::string(GIT_OID_HEXSZ, '0'), the sentinel of an empty tree
abbrev pub zeros : Str
zeros = codes "0000000000000000000000000000000000000000"

-- a file to write: its normal path, its data and its mode
pub record Write : Type 0 where
  pub path : Str
  pub content : Bytes
  pub mode : ℕ

pub record PendingWrite : Type 0 where
  pub segs : List Str
  pub oid_hex : Str
  pub mode : ℕ

-- `matches_prefix`, and what is left of the segments from `depth` on: the entry's name, and the
-- segments below it.
unfoldable pub below_prefix : List Str → List Str → Option (Str × List Str)
below_prefix [] [] = none
below_prefix [] (name ∷ deeper) = some (name, deeper)
below_prefix (d ∷ prefix) [] = none
below_prefix (d ∷ prefix) (seg ∷ segs) =
    let rest = below_prefix prefix segs in if str_eq seg d then rest else none

-- `inserts` and `subtree_writes`
pub record Level : Type 0 where
  pub inserts : Map (Str × ℕ)
  pub subtrees : Map Str

abbrev pub no_level : Level
no_level = record { inserts = []; subtrees = [] }

-- more than the length of any path, which bounds the depth of the recursion
unfoldable pub rounds : List (List Str) → ℕ
rounds [] = 1
rounds (segs ∷ paths) = suc (length segs) + rounds paths

module _ (p : Platform) where
  open p use {
    Repo, Oid, Tree, Builder, oid_tostr, tree_lookup, treebuilder_new, treebuilder_get,
    treebuilder_insert, treebuilder_remove, treebuilder_write, blob_create_from_buffer,
  }

  -- A call that writes to the repository, and its error.
  unfoldable pub writing : {A : Type 0} → (Repo → Option (A × Repo)) → Error → Exec Repo A
  writing call e repo = elim (call repo) [ none ↦ (err e, repo) | some r ↦ (ok r.0, r.1) ]

  -- Write blobs first and collect (path, oid_hex, mode).
  unfoldable pub write_blobs : List Write → Exec Repo (List PendingWrite)
  write_blobs [] = ret []
  write_blobs (w ∷ ws) = do
    oid ←
        writing (λ repo. blob_create_from_buffer repo w.content)
          (git_error (codes "git_blob_create_from_buffer"))
    rest ← write_blobs ws
    ret (record { segs = segments w.path; oid_hex = oid_tostr oid; mode = w.mode } ∷ rest)

  -- Start from the current tree, or from an empty builder.
  unfoldable pub base_builder : Repo → Str → Result Builder
  base_builder repo hex = elim (hex_to_oid p hex) [
    | err e ↦ err e
    | ok oid ↦
        need (treebuilder_new repo (if str_eq hex zeros then none else tree_lookup repo oid))
          (git_error (codes "git_treebuilder_new"))
  ]

  unfoldable pub subtree_oid : Option (TreeEntry Oid) → Str
  subtree_oid none = zeros
  subtree_oid (some e) = if e.filemode == mode_tree then oid_tostr e.id else zeros

  -- Record that the subtree `name` has to be rebuilt, if that is not recorded yet.
  unfoldable pub note_subtree : Builder → Str → Map Str → Map Str
  unfolding subtree_oid
  note_subtree b name subs = elim (find name subs) [
    | none ↦ map_set name (subtree_oid (treebuilder_get b name)) subs
    | some hex ↦ subs
  ]

  unfoldable pub collect_write : Builder → PendingWrite → Option (Str × List Str) → Level → Level
  unfolding note_subtree
  collect_write b pw none l = l
  collect_write b pw (some (name, [])) l = record l {
    inserts = map_set name (pw.oid_hex, pw.mode) l.inserts;
  }
  collect_write b pw (some (name, _ ∷ _)) l = record l { subtrees = note_subtree b name l.subtrees }

  unfoldable pub collect_writes : Builder → List Str → List PendingWrite → Level → Level
  unfolding collect_write
  collect_writes b prefix [] l = l
  collect_writes b prefix (pw ∷ pws) l =
      collect_writes b prefix pws (collect_write b pw (below_prefix prefix pw.segs) l)

  unfoldable pub collect_remove : Option (Str × List Str) → Builder × Map Str → Builder × Map Str
  unfolding note_subtree
  collect_remove none (b, subs) = (b, subs)
  collect_remove (some (name, [])) (b, subs) = (treebuilder_remove b name, subs)
  collect_remove (some (name, _ ∷ _)) (b, subs) = (b, note_subtree b name subs)

  unfoldable pub collect_removes :
      List Str → List (List Str) → Builder × Map Str → Builder × Map Str
  unfolding collect_remove
  collect_removes prefix [] s = s
  collect_removes prefix (rv ∷ rvs) s =
      collect_removes prefix rvs (collect_remove (below_prefix prefix rv) s)

  -- One call of git_treebuilder_insert, with the object named by its hash.
  unfoldable pub insert_entry : Builder → Str → Str → ℕ → Str → Exec Repo Builder
  insert_entry b name hex mode context = do
    oid ← lift (hex_to_oid p hex)
    reading (λ repo. need (treebuilder_insert repo b name oid mode) (git_error context))

  unfoldable pub insert_subtrees :
      (Str → List Str → Exec Repo Str) → List Str → Map Str → Builder → Exec Repo Builder
  unfolding insert_entry
  insert_subtrees rebuild prefix [] b = ret b
  insert_subtrees rebuild prefix ((name, sub_oid) ∷ subs) b = do
    new_sub_oid ← rebuild sub_oid (prefix ++ (name ∷ []))
    b' ← insert_entry b name new_sub_oid mode_tree (codes "git_treebuilder_insert subtree")
    insert_subtrees rebuild prefix subs b'

  unfoldable pub insert_leaves : Map (Str × ℕ) → Builder → Exec Repo Builder
  unfolding insert_entry
  insert_leaves [] b = ret b
  insert_leaves ((name, (hex, mode)) ∷ rest) b = do
    b' ← insert_entry b name hex mode (codes "git_treebuilder_insert blob")
    insert_leaves rest b'

  -- `fuel` bounds the depth. The prefix is the path to the current subtree.
  unfoldable pub rebuild : ℕ → List PendingWrite → List (List Str) → Str → List Str → Exec Repo Str
  unfolding base_builder collect_writes collect_removes insert_subtrees insert_leaves
  rebuild zero pending remove_segs cur prefix = throw out_of_fuel
  rebuild (suc fuel) pending remove_segs cur prefix = do
    b₀ ← reading (λ repo. base_builder repo cur)
    let l = collect_writes b₀ prefix pending no_level
    let (b₁, subs) = collect_removes prefix remove_segs (b₀, l.subtrees)
    b₂ ← insert_subtrees (rebuild fuel pending remove_segs) prefix subs b₁
    b₃ ← insert_leaves l.inserts b₂
    oid ← writing (λ repo. treebuilder_write repo b₃) (git_error (codes "git_treebuilder_write"))
    ret (oid_tostr oid)

  unfoldable pub rebuild_tree : Str → List Write → List Str → Exec Repo Str
  unfolding write_blobs rebuild rounds
  rebuild_tree base writes removes = do
    pending ← write_blobs writes
    let remove_segs = map segments removes
    rebuild (rounds (map (λ (pw : PendingWrite). pw.segs) pending ++ remove_segs)) pending
        remove_segs base []
