-- ===== src/Samples/Batches.antt =====
-- The theorems on batches applied to a batch of two calls.
use vost.Common.{◌≡◌, refl, true, false, none, some, [], ◌∷◌, codes, str_eq, if◌then◌else◌}
use vost.Error.{ok}
use vost.Types.{mode_blob}
use vost.Paths.{normalize, split_slash, join_slash}
use vost.Tree.WriteCommit.{default_signature}
use vost.Fs.{Fs}
use vost.Batch.{Batch, new_batch, write_with_mode, remove}
use vost.Batch.Staging.{written, removed, staged, staged-write_with_mode, staged-remove}
use vost.Batch.Tidy.{IsTidy}
use vost.Batch.Runs.{start, then_write, then_remove, Stages-IsTidy}

abbrev snapshot : Fs
snapshot = record {
  inner = record { path = codes "repo.git"; signature = default_signature; address = 0 };
  commit_oid_hex = [];
  tree_oid_hex = [];
  ref_name = some (codes "main");
  writable = true;
  changes = none;
}

abbrev fresh : Batch
fresh = new_batch snapshot none none []

abbrev with_file : Batch
with_file = record {
  fs = snapshot;
  writes = record { path = codes "a"; content = 1 ∷ []; mode = mode_blob } ∷ [];
  removes = [];
  message = none;
  operation = none;
  parents = [];
  result_fs = none;
  closed = false;
}

abbrev without_file : Batch
without_file = record with_file { writes = []; removes = codes "a" ∷ [] }

a_normal : normalize (codes "/a") ≡ ok (codes "a")
unfolding normalize split_slash join_slash str_eq
a_normal = refl

wrote : write_with_mode fresh (codes "/a") (1 ∷ []) mode_blob ≡ ok with_file
unfolding write_with_mode new_batch normalize split_slash join_slash str_eq
wrote = refl

removed_again : remove with_file (codes "/a") ≡ ok without_file
unfolding remove normalize split_slash join_slash str_eq
removed_again = refl

staged-write_with_mode_example : staged with_file (codes "a") ≡ (
    if str_eq (codes "a") (codes "a") then written (1 ∷ []) mode_blob else staged fresh (codes "a"))
staged-write_with_mode_example =
    staged-write_with_mode fresh (codes "/a") (1 ∷ []) mode_blob (codes "a") a_normal wrote

staged-remove_example :
    staged without_file (codes "a")
    ≡ (if str_eq (codes "a") (codes "a") then removed else staged with_file (codes "a"))
staged-remove_example = staged-remove with_file (codes "/a") (codes "a") a_normal removed_again

Stages-IsTidy_example : IsTidy without_file
Stages-IsTidy_example = Stages-IsTidy snapshot none none [] without_file (
    then_remove with_file without_file (codes "/a")
      (then_write fresh with_file (codes "/a") (1 ∷ []) mode_blob start wrote) removed_again)
