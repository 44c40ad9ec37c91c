-- ===== src/Fs/Glob.antt =====
-- cpp/src/fs.cpp: `iglob` and `glob` over the tree of a snapshot.
use vost.Common.{
  ℕ, zero, suc, Bool, List, [], ◌∷◌, ◌++◌, Str, codes, str_eq, is_empty, ◌==◌, sort_strings,
  if◌then◌else◌, ◌||◌,
}
use vost.Error.{Result, ok, err, ◌>>=◌, out_of_fuel}
use vost.Types.{mode_tree, WalkEntry}
use vost.Paths.{segments}
use vost.Glob.{glob_match, leading_dot}
use vost.Platform.{Platform}
use vost.Tree.Read.{list_tree_by_oid}
use vost.Tree.Walk.{under}
use vost.Fs.{Fs, require_tree}

-- "**": descend into every directory whose name does not begin with a dot.
unfoldable pub descend : (Str → Str → Result (List Str)) → Str → List WalkEntry → Result (List Str)
descend recurse prefix [] = ok []
descend recurse prefix (e ∷ es) = do
  here ←
      (if is_empty e.name || leading_dot e.name
        then ok []
        else if e.mode == mode_tree
        then recurse e.oid (under prefix e.name)
        else ok [])
  rest ← descend recurse prefix es
  ok (here ++ rest)

-- Another segment: files at the last one, directories before.
unfoldable pub match_entries :
    Str → Bool → (Str → Str → Result (List Str)) → Str → List WalkEntry → Result (List Str)
match_entries seg is_last recurse prefix [] = ok []
match_entries seg is_last recurse prefix (e ∷ es) = do
  here ←
      (if glob_match seg e.name
        then (if is_last
            then ok (if e.mode == mode_tree then [] else under prefix e.name ∷ [])
            else if e.mode == mode_tree
            then recurse e.oid (under prefix e.name)
            else ok [])
        else ok [])
  rest ← match_entries seg is_last recurse prefix es
  ok (here ++ rest)

module _ (p : Platform) where
  open p use {Repo}

  -- `fuel` bounds the depth of the tree and the number of segments together.
  unfoldable pub iglob_recursive : ℕ → Repo → Str → List Str → Str → Result (List Str)
  unfolding descend match_entries
  iglob_recursive zero repo tree_hex segs prefix = err out_of_fuel
  iglob_recursive (suc fuel) repo tree_hex [] prefix = ok []
  iglob_recursive (suc fuel) repo tree_hex (seg ∷ segs) prefix = do
    entries ← list_tree_by_oid p repo tree_hex
    if str_eq seg (codes "**")
        then (do
          zero_levels ← iglob_recursive fuel repo tree_hex segs prefix
          more ←
              descend (λ oid full. iglob_recursive fuel repo oid (seg ∷ segs) full) prefix entries
          ok (zero_levels ++ more))
        else match_entries seg (is_empty segs) (λ oid full. iglob_recursive fuel repo oid segs full)
            prefix entries

  unfoldable pub iglob : ℕ → Repo → Fs → Str → Result (List Str)
  unfolding iglob_recursive
  iglob fuel repo fs pattern = do
    tree_hex ← require_tree fs
    if is_empty (segments pattern)
        then ok []
        else iglob_recursive fuel repo tree_hex (segments pattern) []

  unfoldable pub glob : ℕ → Repo → Fs → Str → Result (List Str)
  unfolding iglob
  glob fuel repo fs pattern = do results ← iglob fuel repo fs pattern; ok (sort_strings results)
