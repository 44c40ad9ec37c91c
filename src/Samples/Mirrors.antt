-- ===== src/Samples/Mirrors.antt =====
-- The theorems on maps of references and on bundles at small maps.
use vost.Common.{
  ◌≡◌, ◌↔◌, refl, true, false, some, [], ◌∷◌, ◌++◌, Str, codes, starts_with, find, str_eq, any,
  length, arith,
}
use vost.Error.{ok}
use vost.Types.{is_some}
use vost.Mirror.Refs.{
  RefMap, diff_refs, in_sync, resolve_one_ref, candidate_of, resolve_ref_map, resolve_ref_names,
  dest_name, renamed_into,
}
use vost.Mirror.Bundle.{bundle_header, parse_bundle_header}
use vost.Mirror.Diffs.{IsDistinct, applied, applied-diff_refs, in_sync-diff_refs}
use vost.Mirror.Names.{find-resolve_ref_names, resolve_ref_map-nested}
use vost.Mirror.RoundTrip.{AllWritten, parse-bundle_header}

-- `dev` moved, `main` is new, and `old` is gone
abbrev source : RefMap
source = (codes "refs/heads/dev", codes "b2") ∷ (codes "refs/heads/main", codes "a1") ∷ []

abbrev mirrored : RefMap
mirrored = (codes "refs/heads/dev", codes "b1") ∷ (codes "refs/heads/old", codes "c1") ∷ []

source-IsDistinct : IsDistinct source
unfolding find str_eq
source-IsDistinct = (refl, (refl, tt))

applied-diff_refs_example :
    applied (diff_refs source mirrored) mirrored (codes "refs/heads/dev") ≡ some (codes "b2")
unfolding find str_eq
applied-diff_refs_example =
    applied-diff_refs source mirrored (codes "refs/heads/dev") source-IsDistinct

in_sync-diff_refs_example :
    (in_sync (diff_refs source mirrored) ≡ true) ↔ ((n : Str) → find n source ≡ find n mirrored)
in_sync-diff_refs_example = in_sync-diff_refs source mirrored source-IsDistinct

find-resolve_ref_names_example :
    is_some (find (codes "refs/heads/dev") (resolve_ref_names (codes "dev" ∷ []) source))
    ≡ any (λ name. str_eq (resolve_one_ref name source) (codes "refs/heads/dev")) (codes "dev" ∷ [])
find-resolve_ref_names_example =
    find-resolve_ref_names (codes "dev" ∷ []) source (codes "refs/heads/dev")

-- `main` is exported as `trunk`
abbrev rename : RefMap
rename = (codes "refs/heads/main", codes "refs/heads/trunk") ∷ []

source-AllWritten : AllWritten rename source
unfolding dest_name find str_eq
source-AllWritten = ground arith

parse-bundle_header_example :
    parse_bundle_header (bundle_header rename source ++ codes "PACK")
    ≡ ok (renamed_into [] rename source, length (bundle_header rename source))
parse-bundle_header_example =
    parse-bundle_header rename (codes "refs/heads/dev") (codes "b2")
      ((codes "refs/heads/main", codes "a1") ∷ []) (codes "PACK") source-AllWritten

-- a branch feature/x, to be stored as y
abbrev nested : RefMap
nested = (codes "refs/heads/feature/x", codes "a1") ∷ []

resolved_x : resolve_one_ref (codes "feature/x") nested ≡ codes "refs/heads/feature/x"
unfolding resolve_one_ref candidate_of starts_with find str_eq
resolved_x = refl

short_y : starts_with (codes "refs/") (codes "y") ≡ false
unfolding starts_with
short_y = refl

z_elsewhere : str_eq (resolve_one_ref (codes "z") nested) (codes "refs/heads/feature/x") ≡ false
unfolding resolve_one_ref candidate_of starts_with find str_eq
z_elsewhere = refl

resolve_ref_map-nested_example :
    find (codes "refs/heads/feature/x") (
      resolve_ref_map
        ((codes "a", codes "b") ∷ (codes "feature/x", codes "y") ∷ (codes "z", codes "z") ∷ [])
        nested)
    ≡ some (codes "refs/heads/feature/y")
resolve_ref_map-nested_example =
    resolve_ref_map-nested ((codes "a", codes "b") ∷ []) ((codes "z", codes "z") ∷ [])
      (codes "feature/x") (codes "y") (codes "refs/heads/feature") (codes "x") nested resolved_x
      (ground arith, tt) short_y (z_elsewhere, tt)
