-- ===== src/Samples/Undone.antt =====
-- The theorem on undo at a branch of two commits.
use vost.Common.{◌≡◌, refl, some, [], ◌∷◌, codes, find, str_eq, map_set}
use vost.Error.{ok}
use vost.Exec.{◌>>=◌}
use vost.Tree.Read.{need, hex_to_oid}
use vost.Tree.WriteCommit.{tree_oid_for_commit, read_commit}
use vost.Fs.{Fs, require_writable}
use vost.Fs.Commit.{committing, check_tip, ref_commit, take_lock, with_repo_lock}
use vost.Fs.History.{undo, back}
use vost.Fs.Undo.{back-undo}
use vost.Samples.Store.{Memory, memory, hash, parse}
use vost.Samples.Commits.{after_first, repo_first}

-- a second commit, of the tree of the first one's subdirectory
abbrev repo_second : Memory
repo_second = record repo_first {
  commits =
      record {
        tree_id = 1;
        parents = [];
        message = some (codes "first");
        time = 0;
        author = some (codes "vost", codes "vost@localhost");
      }
      ∷ record {
        tree_id = 0;
        parents = 0 ∷ [];
        message = some (codes "second");
        time = 1;
        author = some (codes "vost", codes "vost@localhost");
      }
      ∷ [];
  refs = (codes "refs/heads/main", 1) ∷ [];
}

abbrev after_second : Fs
after_second = record after_first { commit_oid_hex = codes "2"; tree_oid_hex = codes "1" }

abbrev repo_undone : Memory
repo_undone = record repo_second { refs = (codes "refs/heads/main", 0) ∷ [] }

second_tree : tree_oid_for_commit memory repo_second (codes "2") ≡ ok (codes "1")
unfolding tree_oid_for_commit hex_to_oid need parse hash
second_tree = refl

undone : undo memory 1 after_second repo_second ≡ (ok after_first, repo_undone)
unfolding undo require_writable ◌>>=◌ tree_oid_for_commit read_commit hex_to_oid need parse hash
    committing check_tip ref_commit take_lock find str_eq map_set with_repo_lock
undone = refl

back-undo_example :
    (earlier : Fs) × (back memory repo_second 1 after_second ≡ ok earlier)
    × (earlier.commit_oid_hex ≡ codes "1")
    × (earlier.tree_oid_hex ≡ codes "2")
back-undo_example = back-undo memory 1 after_second repo_second second_tree undone
