-- ===== src/Samples/Copies.antt =====
-- The theorems on copying applied to a small repository and a small disk.
use vost.Common.{◌≡◌, ◌↔◌, ◌⊎◌, refl, true, false, not, none, some, List, [], ◌∷◌, ◌++◌, codes, All}
use vost.Error.{ok}
use vost.Exec.Refused.{Refused}
use vost.Types.{ChangeReport}
use vost.Fs.{Fs}
use vost.Copy.Filters.{Pattern, matches_filters, is_excluded, parse_patterns}
use vost.Copy.Disk.{LocalDisk}
use vost.Copy.In.{CopyOptions, copy_in, sync_in}
use vost.Copy.DryRun.{SameRefs, dry_run_lem}
use vost.Copy.Excludes.{Included, Excluded, matches_filters_iff, IsLast, Applies, is_excluded_lem}
use vost.Samples.Store.{memory}
use vost.Samples.StoreLaws.{memory-RefLaws}
use vost.Samples.Commits.{after_first, repo_first}

-- A disk with one directory of one file.
abbrev pub disk : LocalDisk
disk = record {
  State = Unit;
  join = λ root rel. root ++ (codes "/" ++ rel);
  exists = λ state path. some true;
  entries = λ state path. some ((codes "new.txt", false) ∷ (codes "sub", true) ∷ []);
  is_symlink = λ state path. some false;
  owner_exec = λ state path. some false;
  read_symlink = λ state path. none;
  content = λ state path. codes "text";
}

abbrev dry : CopyOptions
dry = record {
  incl = none;
  excl = none;
  message = none;
  dry_run = true;
  checksum = true;
  parents = [];
}

dry_run_example :
    SameRefs memory repo_first
      (copy_in memory disk after_first tt (codes "src") (codes "to") dry repo_first).1
    × SameRefs memory repo_first
        (sync_in memory disk after_first tt (codes "src") (codes "to") dry repo_first).1
    × ((r : ChangeReport × Fs)
        → (copy_in memory disk after_first tt (codes "src") (codes "to") dry repo_first).0 ≡ ok r
        → r.1 ≡ after_first)
    × ((r : ChangeReport × Fs)
        → (sync_in memory disk after_first tt (codes "src") (codes "to") dry repo_first).0 ≡ ok r
        → r.1 ≡ after_first)
dry_run_example =
    dry_run_lem memory memory-RefLaws disk after_first tt (codes "src") (codes "to") dry repo_first
      refl

matches_filters_example :
    (matches_filters (codes "src/a.txt") (some (codes "*.txt" ∷ [])) (some (codes "b*" ∷ []))
      ≡ true)
    ↔ (Included (some (codes "*.txt" ∷ [])) (codes "src/a.txt")
        × ¬ Excluded (some (codes "b*" ∷ [])) (codes "src/a.txt"))
matches_filters_example =
    matches_filters_iff (codes "src/a.txt") (some (codes "*.txt" ∷ [])) (some (codes "b*" ∷ []))

-- "*.log", but not "keep.log"
abbrev patterns : List Pattern
patterns = parse_patterns (codes "*.log" ∷ codes "!keep.log" ∷ codes "# all" ∷ [])

is_excluded_example :
    ((q : Pattern) × IsLast (codes "x/keep.log") false patterns q
      × (is_excluded patterns (codes "x/keep.log") false ≡ not q.negated))
    ⊎ (All (λ r. ¬ Applies (codes "x/keep.log") false r) patterns
        × (is_excluded patterns (codes "x/keep.log") false ≡ false))
is_excluded_example = is_excluded_lem patterns (codes "x/keep.log") false
