-- ===== src/Copy/Filters.antt =====
-- cpp/src/copy.cpp: `matches_filters` and `ExcludeFilter`.
use vost.Common.{
  ℕ, Bool, true, false, not, ◌&&◌, ◌||◌, Option, none, some, List, [], ◌∷◌, ◌++◌, Str, is_empty,
  any, ◌==◌, if◌then◌else◌,
}
use vost.Paths.{slash}
use vost.Glob.{fnmatch, glob_match}
use vost.Fs.Write.{basename}

-- A pattern is matched against the last component, and against the whole path.
unfoldable pub path_matches : Str → Str → Bool
path_matches path pattern = glob_match pattern (basename path) || glob_match pattern path

abbrev pub included : Option (List Str) → Str → Bool
included none path = true
included (some patterns) path = any (path_matches path) patterns

abbrev pub excluded_by : Option (List Str) → Str → Bool
excluded_by none path = false
excluded_by (some patterns) path = any (path_matches path) patterns

unfoldable pub matches_filters : Str → Option (List Str) → Option (List Str) → Bool
unfolding path_matches
matches_filters path incl excl =
    if not (included incl path) then false else not (excluded_by excl path)

pub record Pattern : Type 0 where
  pub raw : Str
  pub negated : Bool
  pub dir_only : Bool

unfoldable pub last_byte : Str → ℕ
last_byte [] = 0
last_byte (c ∷ []) = c
last_byte (c ∷ d ∷ s) = last_byte (d ∷ s)

unfoldable pub pop_back : Str → Str
pop_back [] = []
pop_back (c ∷ []) = []
pop_back (c ∷ d ∷ s) = c ∷ pop_back (d ∷ s)

-- What follows the '!': a slash at the end stands for directories only.
unfoldable pub pattern_of : Bool → Str → Pattern
unfolding last_byte pop_back
pattern_of negated s =
    let dir_only = not (is_empty s) && (last_byte s == slash) in
    record { raw = if dir_only then pop_back s else s; negated = negated; dir_only = dir_only }

-- Empty lines and comments add no pattern.
unfoldable pub parse_pattern : Str → Option Pattern
unfolding pattern_of
parse_pattern [] = none
parse_pattern (c ∷ s) =
    if c == 35
    then none
    else if c == 33
    then some (pattern_of true s)
    else some (pattern_of false (c ∷ s))

unfoldable pub parse_patterns : List Str → List Pattern
unfolding parse_pattern
parse_patterns [] = []
parse_patterns (raw ∷ raws) =
    let rest = parse_patterns raws in elim (parse_pattern raw) [ none ↦ rest | some p ↦ p ∷ rest ]

unfoldable pub add_patterns : List Pattern → List Str → List Pattern
unfolding parse_patterns
add_patterns patterns raws = patterns ++ parse_patterns raws

-- `while (!line.empty() && (line.back() == ' ' || line.back() == '\r')) line.pop_back();`
unfoldable pub trim_end : Str → Str
trim_end [] = []
trim_end (c ∷ s) =
    let rest = trim_end s in if is_empty rest && ((c == 32) || (c == 13)) then [] else c ∷ rest

unfoldable pub trim_lines : List Str → List Str
unfolding trim_end
trim_lines [] = []
trim_lines (line ∷ lines) =
    let rest = trim_lines lines in if is_empty (trim_end line) then rest else trim_end line ∷ rest

-- The lines of the file, `none` if it cannot be opened.
unfoldable pub load_from_file : List Pattern → Option (List Str) → List Pattern
unfolding add_patterns trim_lines
load_from_file patterns none = patterns
load_from_file patterns (some lines) = add_patterns patterns (trim_lines lines)

unfoldable pub match_pattern : Str → Str → Bool
match_pattern pattern path =
    if any (λ c. c == slash) pattern then fnmatch pattern path else fnmatch pattern (basename path)

unfoldable pub exclude_loop : List Pattern → Str → Bool → Bool → Bool
unfolding match_pattern
exclude_loop [] rel_path is_dir excluded = excluded
exclude_loop (p ∷ ps) rel_path is_dir excluded =
    let here =
      if p.dir_only && not is_dir
      then excluded
      else if match_pattern p.raw rel_path
      then not p.negated
      else excluded in
    exclude_loop ps rel_path is_dir here

unfoldable pub is_excluded : List Pattern → Str → Bool → Bool
unfolding exclude_loop
is_excluded patterns rel_path is_dir = exclude_loop patterns rel_path is_dir false
