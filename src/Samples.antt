-- ===== src/Samples.antt =====
-- The theorems applied at concrete paths, reference names, patterns and modes, and runs of the code.
mod Store
mod StoreLaws
mod Commits
mod Batches
mod Snapshots
mod Stores
mod Noted
mod Copies
mod Mirrors
mod Undone
use vost.Common.{
  ◌≡◌, ◌↔◌, ◌⊎◌, refl, Bool, true, false, not, ◌&&◌, List, [], ◌∷◌, Str, codes, str_eq, is_empty,
  All, some, if◌then◌else◌,
}
use vost.Error.{ok, err, invalid_path}
use vost.Types.{
  FileType, executable, mode_blob_exec, file_type_from_mode, file_type_to_mode, file_type_iff,
}
use vost.Paths.{normalize, split_slash, segments, join_slash, is_root, dotdot_message}
use vost.Paths.Normalize.{
  kept, has_dotdot, empty_message, IsNormalSegment, normalize_eq, normalize-IsNormal,
  segments-normalize, normalize-normalize,
}
use vost.Paths.RefName.{validate_ref_name, IsRefName, validate_ref_name_iff}
use vost.Glob.{fnmatch, glob_match, leading_dot}
use vost.Glob.Spec.{Matches}
use vost.Glob.Decides.{fnmatch_iff, glob_match_iff}

-- "/a//./b/" and its normal form
abbrev messy : Str
messy = codes "/a//./b/"

abbrev neat : Str
neat = codes "a/b"

messy-normalize : normalize messy ≡ ok neat
unfolding normalize split_slash join_slash str_eq
messy-normalize = refl

normalize_eq_example : normalize messy ≡ (
    if has_dotdot messy
    then err (invalid_path dotdot_message)
    else if is_empty (kept messy) && not (is_root messy)
    then err (invalid_path empty_message)
    else ok (join_slash (kept messy)))
normalize_eq_example = normalize_eq messy

normalize-IsNormal_example :
    All IsNormalSegment (segments neat) × (join_slash (segments neat) ≡ neat)
normalize-IsNormal_example = normalize-IsNormal messy messy-normalize

segments-normalize_example : segments neat ≡ kept messy
segments-normalize_example = segments-normalize messy messy-normalize

normalize-normalize_example : normalize neat ≡ ok neat
normalize-normalize_example = normalize-normalize messy messy-normalize

validate_ref_name_example :
    (validate_ref_name (codes "release.lock") ≡ ok tt) ↔ IsRefName (codes "release.lock")
validate_ref_name_example = validate_ref_name_iff (codes "release.lock")

fnmatch_example :
    (fnmatch (codes "*[a-c].t?t") (codes "xb.txt") ≡ true)
    ↔ Matches (codes "*[a-c].t?t") (codes "xb.txt")
fnmatch_example = fnmatch_iff (codes "*[a-c].t?t") (codes "xb.txt")

glob_match_example : (glob_match (codes "*rc") (codes ".bashrc") ≡ true) ↔ (
    Matches (codes "*rc") (codes ".bashrc")
    × ((leading_dot (codes ".bashrc") ≡ false)
        ⊎ ((leading_dot (codes "*rc") ≡ true) ⊎ (codes "*rc" ≡ codes "**"))))
glob_match_example = glob_match_iff (codes "*rc") (codes ".bashrc")

file_type_example :
    (file_type_from_mode 0o100755 ≡ some executable) ↔ (0o100755 ≡ file_type_to_mode executable)
file_type_example = file_type_iff 0o100755 executable
