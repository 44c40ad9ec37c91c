-- ===== src/Samples/Commits.antt =====
-- The theorems on commits and batches applied to a small repository, and runs of the code on it.
use vost.Common.{
  ◌≢◌, ◌≡◌, refl, true, false, none, some, List, [], ◌∷◌, codes, str_eq, find, map_set,
}
use vost.Error.{ok, err, out_of_fuel}
use vost.Types.{mode_blob, mode_tree}
use vost.Paths.{segments, split_slash}
use vost.Exec.{◌>>=◌}
use vost.Tree.Read.{need, hex_to_oid}
use vost.Tree.Rebuild.{Write, writing, rebuild_tree, below_prefix}
use vost.Tree.WriteCommit.{default_signature, write_commit, tree_oid_for_commit}
use vost.Fs.{Inner, Fs, require_writable}
use vost.Fs.Commit.{
  commit_changes, take_lock, ref_commit, branch_ref, stale_error, check_tip, committing,
  move_or_create,
}
use vost.Fs.Advance.{commit_changes-advances, commit_changes-conflict}
use vost.Fs.Read.{read}
use vost.Fs.Write.{WriteOptions}
use vost.Fs.Write as FsWrite
use vost.Fs.RoundTrip.{read-write, not_above}
use vost.Tree.Read.{read_blob}
use vost.Tree.Rebuild.{zeros}
use vost.Tree.Rebuild.Terminates.{rebuild_tree-terminates}
use vost.Tree.Rebuild.RoundTrip.{rebuild_tree-reads}
use vost.Paths.{normalize, join_slash, format_message}
use vost.Common.{inl}
use vost.Fs.Log.{LogOptions, CommitInfo, log}
use vost.Fs.LogBounds.{length-log}
use vost.Tree.WriteCommit.{read_commit}
use vost.Common.{length, ◌≤◌}
use vost.Samples.Store.{Memory, memory, no_objects, hash, parse, entry_named, create}
use vost.Samples.StoreLaws.{memory-ObjectLaws, memory-RefLaws}

abbrev pub inner : Inner
inner = record { path = codes "repo.git"; signature = default_signature; address = 0 }

abbrev new_branch : Fs
new_branch = record {
  inner = inner;
  commit_oid_hex = [];
  tree_oid_hex = [];
  ref_name = some (codes "main");
  writable = true;
  changes = none;
}

-- one file, two levels down
abbrev file : List Write
file = record { path = codes "a/b"; content = 7 ∷ []; mode = mode_blob } ∷ []

abbrev pub after_first : Fs
after_first = record new_branch { commit_oid_hex = codes "1"; tree_oid_hex = codes "2" }

abbrev pub repo_first : Memory
repo_first = record {
  trees =
      (record { name = codes "b"; id = 0; filemode = mode_blob } ∷ [])
      ∷ (record { name = codes "a"; id = 0; filemode = mode_tree } ∷ [])
      ∷ [];
  blobs = (7 ∷ []) ∷ [];
  commits =
      record {
        tree_id = 1;
        parents = [];
        message = some (codes "first");
        time = 0;
        author = some (codes "vost", codes "vost@localhost");
      }
      ∷ [];
  refs = (codes "refs/heads/main", 0) ∷ [];
}

first_run :
    commit_changes memory new_branch file [] (codes "first") none [] no_objects
    ≡ (ok after_first, repo_first)
unfolding commit_changes check_tip ref_commit move_or_create committing ◌>>=◌ need rebuild_tree
    writing below_prefix write_commit require_writable find segments split_slash hex_to_oid parse
    hash entry_named create map_set str_eq
first_run = refl

-- another file, for the same branch
abbrev other_file : List Write
other_file = record { path = codes "c"; content = 8 ∷ []; mode = mode_blob } ∷ []

writable_main : require_writable (codes "write") new_branch ≡ ok (codes "main")
unfolding require_writable
writable_main = refl

commit_changes-advances_example :
    (ref_commit memory repo_first (branch_ref (codes "main")) ≡ some (codes "1"))
    × (tree_oid_for_commit memory repo_first (codes "1") ≡ ok (codes "2"))
commit_changes-advances_example =
    commit_changes-advances memory memory-ObjectLaws memory-RefLaws new_branch file []
      (codes "first") none [] (codes "main") no_objects writable_main first_run

free : take_lock memory inner repo_first ≡ ok tt
unfolding take_lock
free = refl

differs : str_eq (codes "1") [] ≡ false
unfolding str_eq
differs = refl

commit_changes-conflict_example :
    commit_changes memory new_branch other_file [] (codes "second") none [] repo_first
    ≡ (err (stale_error memory (codes "main")), repo_first)
commit_changes-conflict_example =
    commit_changes-conflict memory memory-ObjectLaws memory-RefLaws new_branch file other_file [] []
      (codes "first") (codes "second") none none [] [] (codes "main") no_objects writable_main
      first_run differs free

abbrev message_first : WriteOptions
message_first = record { message = some (codes "first"); mode = none; parents = [] }

write_run :
    FsWrite.write memory new_branch (codes "/a/b") (7 ∷ []) message_first no_objects
    ≡ (ok after_first, repo_first)
unfolding FsWrite.write commit_changes check_tip ref_commit move_or_create committing ◌>>=◌ need
    rebuild_tree writing below_prefix write_commit require_writable find segments split_slash
    join_slash hex_to_oid parse hash entry_named create map_set str_eq normalize format_message
write_run = refl

path_normal : normalize (codes "/a/b") ≡ ok (codes "a/b")
unfolding normalize split_slash join_slash str_eq
path_normal = refl

path_segments : segments (codes "a/b") ≡ codes "a" ∷ codes "b" ∷ []
unfolding segments split_slash
path_segments = refl

read-write_example : read memory repo_first after_first (codes "/a/b") ≡ ok (7 ∷ [])
read-write_example =
    read-write memory memory-ObjectLaws memory-RefLaws new_branch (codes "main") (codes "/a/b")
      (codes "a/b") (codes "a") (codes "b" ∷ []) (7 ∷ []) message_first no_objects writable_main
      path_normal path_segments refl write_run

abbrev repo_trees : Memory
repo_trees = record repo_first { commits = []; refs = [] }

rebuild_run : rebuild_tree memory zeros file [] no_objects ≡ (ok (codes "2"), repo_trees)
unfolding ◌>>=◌ need rebuild_tree writing below_prefix find segments split_slash hex_to_oid parse
    hash entry_named map_set str_eq
rebuild_run = refl

rebuild_tree-reads_example : read_blob memory repo_trees (codes "2") (codes "a/b") ≡ ok (7 ∷ [])
rebuild_tree-reads_example =
    rebuild_tree-reads memory memory-ObjectLaws zeros file [] no_objects
      (record { path = codes "a/b"; content = 7 ∷ []; mode = mode_blob }) (codes "a")
      (codes "b" ∷ []) rebuild_run (inl (refl, tt))
      (λ u x ms i q.
        not_above memory memory-ObjectLaws memory-RefLaws (codes "a/b") u x ms
          (record { path = codes "a/b"; content = 7 ∷ []; mode = mode_blob }) refl i q)
      path_segments refl

-- The limit 0 lets one commit through.
abbrev limit_zero : LogOptions
limit_zero = record {
  limit = some 0;
  skip = none;
  path = none;
  match_pattern = none;
  before = none;
}

abbrev first_entry : CommitInfo
first_entry = record {
  commit_hash = codes "1";
  message = codes "first";
  time = 0;
  author_name = codes "vost";
  author_email = codes "vost@localhost";
}

log_run : log memory 2 repo_first after_first limit_zero ≡ ok (first_entry ∷ [])
unfolding log read_commit hex_to_oid need parse hash str_eq
log_run = refl

length-log_example : length (first_entry ∷ []) ≤ 1
length-log_example =
    length-log memory 2 repo_first after_first limit_zero 0 (first_entry ∷ []) refl log_run

rebuild_tree-terminates_example :
    (rebuild_tree memory zeros file (codes "c/d" ∷ []) no_objects).0 ≢ err out_of_fuel
rebuild_tree-terminates_example =
    rebuild_tree-terminates memory zeros file (codes "c/d" ∷ []) no_objects
