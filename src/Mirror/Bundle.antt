-- ===== src/Mirror/Bundle.antt =====
-- cpp/src/mirror.cpp: the header of a git bundle, written and read.
use vost.Common.{
  ℕ, ◌+◌, none, some, List, [], ◌∷◌, ◌++◌, Str, codes, str_eq, starts_with, map_set, length, drop,
  ◌==◌, if◌then◌else◌,
}
use vost.Error.{Result, ok, err, git_error}
use vost.Mirror.Refs.{RefMap, dest_name}
use vost.Mirror.Urls.{cut_at}

abbrev pub signature : Str
signature = codes "# v2 git bundle\n"

unfoldable pub header_lines : RefMap → RefMap → Str
unfolding dest_name
header_lines rename [] = codes "\n"
header_lines rename ((name, sha) ∷ refs) =
    sha ++ (codes " " ++ (dest_name rename name ++ (codes "\n" ++ header_lines rename refs)))

unfoldable pub bundle_header : RefMap → RefMap → Str
unfolding header_lines
bundle_header rename effective_export = signature ++ header_lines rename effective_export

abbrev push_front : ℕ → List Str → List Str
push_front c [] = (c ∷ []) ∷ []
push_front c (line ∷ lines) = (c ∷ line) ∷ lines

-- The lines of a text, the last one without its end.
unfoldable pub lines_of : Str → List Str
lines_of [] = [] ∷ []
lines_of (c ∷ s) = let rest = lines_of s in if c == 10 then [] ∷ rest else push_front c rest

-- One round of the loop over the lines: prerequisites, lines without a space and HEAD are skipped.
unfoldable pub read_line : RefMap → Str → RefMap
unfolding cut_at
read_line refs line =
    if starts_with (codes "-") line then refs else elim (cut_at (codes " ") line) [
      | none ↦ refs
      | some (sha, name) ↦ if str_eq name (codes "HEAD") then refs else map_set name sha refs
    ]

unfoldable pub read_lines : RefMap → List Str → RefMap
unfolding read_line
read_lines refs [] = refs
read_lines refs (line ∷ lines) = read_lines (read_line refs line) lines

-- The references, and where the pack starts.
unfoldable pub parse_bundle_header : Str → Result (RefMap × ℕ)
unfolding cut_at lines_of read_lines
parse_bundle_header bytes =
    if starts_with signature bytes
    then elim (cut_at (codes "\n\n") (drop (length signature) bytes)) [
      | none ↦ err (git_error (codes "bundle header: missing blank-line separator"))
      | some (text, pack) ↦ ok (read_lines [] (lines_of text), length signature + length text + 2)
    ]
    else err (git_error (codes "not a valid v2 git bundle"))
