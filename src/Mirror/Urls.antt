-- ===== src/Mirror/Urls.antt =====
-- cpp/src/mirror.cpp: the kinds of URL, and the names of bundles.
use vost.Common.{
  ℕ, ◌+◌, ◌-◌, Bool, false, not, ◌&&◌, ◌||◌, Option, none, some, [], ◌∷◌, ◌++◌, map, Str, codes,
  str_eq, starts_with, contains_text, length, drop, ltb, leb, if◌then◌else◌,
}
use vost.Error.{Result, ok, err, invalid_path}

unfoldable pub is_local_path : Str → Bool
is_local_path url =
    not (starts_with (codes "http://") url)
    && (not (starts_with (codes "https://") url)
        && (not (starts_with (codes "git://") url) && not (starts_with (codes "ssh://") url)))

-- The text before and after the first occurrence of another.
unfoldable pub cut_at : Str → Str → Option (Str × Str)
cut_at sub [] = if starts_with sub [] then some ([], []) else none
cut_at sub (c ∷ s) =
    let rest = cut_at sub s in
    if starts_with sub (c ∷ s)
    then some ([], drop (length sub) (c ∷ s))
    else elim rest [ none ↦ none | some (before, after) ↦ some (c ∷ before, after) ]

-- user@host:path
unfoldable has_user : Str → Bool
unfolding cut_at
has_user url = elim (cut_at (codes "@") url) [
  | none ↦ false
  | some (user, after_at) ↦ contains_text (codes ":") after_at
]

-- host:path, where a prefix of one letter is a drive
unfoldable has_host : Str → Bool
unfolding cut_at
has_host url = elim (cut_at (codes ":") url) [
  | none ↦ false
  | some (prefix, after) ↦
      ltb 1 (length prefix)
      && (not (contains_text (codes "/") prefix) && not (contains_text (codes "\\") prefix))
]

-- the three bytes of a dash in UTF-8
abbrev dash : Str
dash = 226 ∷ 128 ∷ 148 ∷ []

unfoldable pub reject_scp_url : Str → Result (Unit {0})
unfolding is_local_path has_user has_host
reject_scp_url url =
    if not (is_local_path url) || starts_with (codes "file://") url
    then ok tt
    else if has_user url || has_host url
    then err (
        invalid_path (
          codes "scp-style URL not supported: \""
          ++ (url ++ (codes "\" " ++ (dash ++ codes " use ssh:// format instead")))))
    else ok tt

unfoldable pub local_path_from_url : Str → Str
local_path_from_url url = if starts_with (codes "file://") url then drop 7 url else url

unfoldable tolower : ℕ → ℕ
tolower c = if leb 65 c && leb c 90 then c + 32 else c

unfoldable pub is_bundle_path : Str → Bool
unfolding tolower
is_bundle_path path =
    if ltb (length path) 7
    then false
    else str_eq (map tolower (drop (length path - 7) path)) (codes ".bundle")
