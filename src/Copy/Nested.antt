-- ===== src/Copy/Nested.antt =====
-- `copy_in` and `sync_in` of cpp/src/copy.cpp into a directory that is there: the destination is
-- looked up a second time, inside itself.
use vost.Common.{◌≡◌, false, none, some, Str, is_empty}
use vost.Error.{ok}
use vost.Types.{mode_tree}
use vost.Platform.{Platform}
use vost.Exec.{Exec}
use vost.Exec.Refused.{Refused}
use vost.Tree.Read.{EntryResult, lookup}
use vost.Fs.{Fs}
use vost.Copy.In.{normal_dest}

module _ (p : Platform) where
  open p use {Repo}

  -- A directory of the snapshot that has no entry of its own path.
  pub record IsInto (fs : Fs) (dest dest_norm : Str) (repo : Repo) : Type 0 where
    pub sub : EntryResult
    pub normal : normal_dest dest ≡ ok dest_norm
    pub below : is_empty dest_norm ≡ false
    pub there : lookup p repo fs.tree_oid_hex dest_norm ≡ ok (some sub)
    pub is_dir : sub.mode ≡ mode_tree
    pub named : is_empty sub.oid_hex ≡ false
    pub nothing : lookup p repo sub.oid_hex dest_norm ≡ ok none
