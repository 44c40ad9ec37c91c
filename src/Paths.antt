-- ===== src/Paths.antt =====
-- cpp/src/paths.cpp: normal paths and names of references.
mod Split
pub mod Normalize
pub mod RefName
pub use Split.{slash, IsSegment, NoSlash}
unfoldable pub use Split.{split_slash, join_slash, segments}
pub use Split.{segments-join_slash, segments-IsSegment}
use vost.Common.{
  ℕ, Bool, true, false, ◌&&◌, Option, none, some, List, [], ◌∷◌, Str, codes, str_eq, is_empty, ◌==◌,
  if◌then◌else◌, ◌++◌,
}
use vost.Error.{Result, ok, err, ◌>>=◌, invalid_path}

abbrev pub dot : Str
dot = codes "."

abbrev pub dotdot : Str
dotdot = codes ".."

abbrev pub dotdot_message : Str
dotdot_message = codes "path segment '..' is not allowed"

-- The loop over the segments: an empty segment and "." are skipped, ".." throws.
unfoldable pub scan : List Str → Result (List Str)
scan [] = ok []
scan (seg ∷ segs) =
    let rest = scan segs in
    if is_empty seg
    then rest
    else if str_eq seg dotdot
    then err (invalid_path dotdot_message)
    else if str_eq seg dot
    then rest
    else (rest >>= λ out. ok (seg ∷ out))

unfoldable pub is_root : Str → Bool
is_root [] = true
is_root (c ∷ path) = (c == slash) && is_root path

-- The loop of `normalize` that tests for a path of slashes only.
unfoldable pub all_slashes : Str → Bool
all_slashes [] = true
all_slashes (c ∷ path) = if c == slash then all_slashes path else false

-- The end of `normalize`, on the segments that were kept.
unfoldable pub finish : Str → List Str → Result Str
finish path [] =
    if all_slashes path then ok [] else err (invalid_path (codes "path must not be empty"))
finish path (seg ∷ segs) = ok (join_slash (seg ∷ segs))

unfoldable pub normalize : Str → Result Str
unfolding scan finish all_slashes
normalize [] = ok []
normalize (c ∷ path) = scan (split_slash (c ∷ path)) >>= finish (c ∷ path)

unfoldable pub format_message : Str → Option Str → Str
format_message operation none = operation
format_message operation (some message) = message
