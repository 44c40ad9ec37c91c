-- ===== src/Glob.antt =====
-- cpp/src/glob.cpp: `fnmatch` and `glob_match`.
mod Stars
mod Classes
pub mod Spec
pub mod Decides
use vost.Common.{
  ℕ, zero, suc, ◌+◌, ◌%◌, Bool, true, false, not, ◌&&◌, ◌||◌, List, [], ◌∷◌, Str, codes, str_eq,
  is_empty, length, leb, ◌==◌, if◌then◌else◌,
}

abbrev pub star : ℕ
star = b'*'

abbrev pub question : ℕ
question = b'?'

abbrev pub bracket : ℕ
bracket = b'['

-- `while (pi < plen && pattern[pi] == '*') ++pi;`
unfoldable pub skip_stars : Str → Str
skip_stars [] = []
skip_stars (c ∷ p) = if c == star then skip_stars p else c ∷ p

-- The order of `char`, which is signed on the platforms of the build: a byte from 128 on is
-- negative.
abbrev pub char_key : ℕ → ℕ
char_key c = (c + 128) % 256

abbrev pub in_range : ℕ → ℕ → ℕ → Bool
in_range lo hi ch = leb (char_key lo) (char_key ch) && leb (char_key ch) (char_key hi)

-- operator== of bool
abbrev pub xnor : Bool → Bool → Bool
xnor true b = b
xnor false b = not b

-- The loop over a character class: whether `ch` was met, and the pattern behind the ']'.
unfoldable pub scan_class : ℕ → Bool → Str → Bool × Str
scan_class ch matched [] = (matched, [])
scan_class ch matched (a ∷ []) = if a == b']' then (matched, []) else (matched || (ch == a), [])
scan_class ch matched (a ∷ d ∷ []) =
    let single = scan_class ch (matched || (ch == a)) (d ∷ []) in
    if a == b']' then (matched, d ∷ []) else single
scan_class ch matched (a ∷ d ∷ b ∷ p) =
    let range = scan_class ch (matched || in_range a b ch) p in
    let single = scan_class ch (matched || (ch == a)) (d ∷ b ∷ p) in
    if a == b']' then (matched, d ∷ b ∷ p) else if d == b'-' then range else single

-- `bool negate = (pi < plen && pattern[pi] == '!'); if (negate) ++pi;`
unfoldable pub negated : Str → Bool
negated [] = false
negated (c ∷ p) = c == b'!'

unfoldable pub class_body : Str → Str
class_body [] = []
class_body (c ∷ p) = if c == b'!' then p else c ∷ p

-- Some suffix of the name, the whole name first, passes.
unfoldable pub any_suffix : (Str → Bool) → Str → Bool
any_suffix next [] = next []
any_suffix next (c ∷ s) = elim (next (c ∷ s)) [ true ↦ true | false ↦ any_suffix next s ]

-- One round of the main loop at a pattern and a name that are not at their ends. `next` goes on.
unfoldable pub fnmatch_step : (Str → Str → Bool) → ℕ → Str → ℕ → Str → Bool
fnmatch_step next pc p c s =
    if pc == star
    then is_empty (skip_stars p) || any_suffix (next (skip_stars p)) (c ∷ s)
    else if pc == question
    then next p s
    else if pc == bracket
    then (let (matched, rest) = scan_class c false (class_body p) in
        if xnor matched (negated p) then false else next rest s)
    else if pc == c
    then next p s
    else false

-- The loop with its recursion. Each round takes a byte of the pattern, which bounds the fuel.
unfoldable pub fnmatch_loop : ℕ → Str → Str → Bool
fnmatch_loop zero p s = false
fnmatch_loop (suc f) [] s = is_empty s
fnmatch_loop (suc f) (pc ∷ p) [] = is_empty (skip_stars (pc ∷ p))
fnmatch_loop (suc f) (pc ∷ p) (c ∷ s) = fnmatch_step (fnmatch_loop f) pc p c s

unfoldable pub fnmatch : Str → Str → Bool
unfolding fnmatch_loop fnmatch_step any_suffix scan_class skip_stars negated class_body
fnmatch pattern name = fnmatch_loop (suc (length pattern)) pattern name

abbrev pub leading_dot : Str → Bool
leading_dot [] = false
leading_dot (c ∷ s) = c == b'.'

unfoldable pub glob_match : Str → Str → Bool
glob_match pattern name =
    if leading_dot name
      && (not (is_empty pattern)
          && (not (leading_dot pattern) && not (str_eq pattern (codes "**"))))
    then false
    else fnmatch pattern name
