-- ===== src/Samples/Snapshots.antt =====
-- The theorem on snapshots that may not be written at a concrete one.
use vost.Common.{◌≡◌, ◌≢◌, refl, true, false, none, some, [], ◌∷◌, codes}
use vost.Error.{ok}
use vost.Tree.WriteCommit.{default_signature}
use vost.Fs.{Fs}
use vost.Fs.Write.{
  WriteOptions, ApplyOptions, PathOptions, write, write_symlink, apply, remove, move, rename,
}
use vost.Copy.In.{CopyOptions, copy_in, sync_in}
use vost.Copy.FromRef.{CopyFromRefOptions, copy_from_ref}
use vost.Batch.{Batch, new_batch, commit}
use vost.Exec.Refused.{Refused}
use vost.Samples.Copies.{disk}
use vost.Fs.History.{undo, redo}
use vost.Fs.ReadOnly.{read_only-Refused}
use vost.Samples.Store.{memory, no_objects}

-- a snapshot of the tag v1
abbrev tagged : Fs
tagged = record {
  inner = record { path = codes "repo.git"; signature = default_signature; address = 0 };
  commit_oid_hex = codes "1";
  tree_oid_hex = codes "2";
  ref_name = some (codes "v1");
  writable = false;
  changes = none;
}

abbrev path_options : PathOptions
path_options = record { recursive = false; dry_run = true; message = none; parents = [] }

abbrev write_options : WriteOptions
write_options = record { message = none; mode = none; parents = [] }

abbrev apply_options : ApplyOptions
apply_options = record { message = none; operation = none; parents = [] }

abbrev copy_options : CopyOptions
copy_options = record {
  incl = none;
  excl = none;
  message = none;
  dry_run = true;
  checksum = false;
  parents = [];
}

abbrev from_ref_options : CopyFromRefOptions
from_ref_options = record { delete_extra = false; dry_run = true; message = none; parents = [] }

abbrev open_batch : Batch
open_batch = new_batch tagged none none []

read_only-Refused_example :
    Refused (write memory tagged (codes "a/../b") (codes "text") write_options) no_objects
    × Refused (write_symlink memory tagged (codes "a/../b") (codes "a") write_options) no_objects
    × Refused (apply memory tagged [] (codes "a" ∷ []) apply_options) no_objects
    × Refused (remove memory tagged (codes "a" ∷ []) path_options) no_objects
    × Refused (move memory tagged (codes "a" ∷ []) (codes "b") path_options) no_objects
    × Refused (rename memory tagged (codes "a") (codes "b") write_options) no_objects
    × Refused (undo memory 1 tagged) no_objects
    × Refused (redo memory 1 tagged) no_objects
    × Refused (copy_in memory disk tagged tt (codes "a") (codes "b") copy_options) no_objects
    × Refused (sync_in memory disk tagged tt (codes "a") (codes "b") copy_options) no_objects
    × Refused
        (copy_from_ref memory tagged tagged (codes "a" ∷ []) (codes "b") from_ref_options)
        no_objects
    × ((commit memory open_batch no_objects).1.1 ≡ no_objects)
    × ((new_fs : Fs) → (commit memory open_batch no_objects).0 ≢ ok new_fs)
unfolding new_batch
read_only-Refused_example =
    read_only-Refused memory tagged no_objects disk tt (codes "a/../b") (codes "a") (codes "text")
      [] (codes "a" ∷ []) (codes "a") (codes "b") 1 tagged open_batch write_options apply_options
      path_options copy_options from_ref_options refl refl
