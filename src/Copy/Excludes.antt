-- ===== src/Copy/Excludes.antt =====
-- `matches_filters` and `ExcludeFilter::is_excluded` of cpp/src/copy.cpp decide what they stand for.
use vost.Common.{
  Bool, true, false, not, ◌&&◌, ◌||◌, ◌≡◌, ◌↔◌, ◌⊎◌, refl, ap, ◌∙◌, inl, inr, Option, none, some,
  List, [], ◌∷◌, ◌++◌, Str, All, Any, any_iff, if◌then◌else◌,
}
use vost.Glob.{glob_match}
use vost.Fs.Write.{basename}
use vost.Copy.Filters.{
  path_matches, matches_filters, included, excluded_by, Pattern, match_pattern, exclude_loop,
  is_excluded,
}

-- A pattern matches the last component of a path, or the path.
abbrev pub Fits : Str → Str → Type 0
Fits path pattern = (glob_match pattern (basename path) ≡ true) ⊎ (glob_match pattern path ≡ true)

abbrev pub Included : Option (List Str) → Str → Type 0
Included none path = Unit
Included (some patterns) path = Any (Fits path) patterns

abbrev pub Excluded : Option (List Str) → Str → Type 0
Excluded none path = ⊥
Excluded (some patterns) path = Any (Fits path) patterns

path_matches_iff : (path pattern : Str) → (path_matches path pattern ≡ true) ↔ Fits path pattern
unfolding path_matches
path_matches_iff path pattern =
    either (glob_match pattern (basename path)) (glob_match pattern path)
  where
    either : (a b : Bool) → ((a || b) ≡ true) ↔ ((a ≡ true) ⊎ (b ≡ true))
    either true b = (λ h. inl refl, λ h. refl)
    either false b = (λ h. inr h, λ h. elim h [ inl x ↦ absurd (clash x) | inr y ↦ y ])
      where
        clash : ¬ (false ≡ true)
        clash h = cc

included_iff :
    (incl : Option (List Str)) (path : Str) → (included incl path ≡ true) ↔ Included incl path
included_iff none path = (λ h. tt, λ h. refl)
included_iff (some patterns) path =
    any_iff (path_matches path) (Fits path) patterns (path_matches_iff path)

excluded_by_iff :
    (excl : Option (List Str)) (path : Str) → (excluded_by excl path ≡ true) ↔ Excluded excl path
excluded_by_iff none path = (λ h. clash h, λ h. absurd h)
  where
    clash : ¬ (false ≡ true)
    clash h = cc
excluded_by_iff (some patterns) path =
    any_iff (path_matches path) (Fits path) patterns (path_matches_iff path)

-- `matches_filters` lets a path through exactly if one of the patterns to include, where they are
-- given, fits it, and none of the patterns to exclude does.
pub matches_filters_iff :
    (path : Str) (incl excl : Option (List Str))
    → (matches_filters path incl excl ≡ true) ↔ (Included incl path × ¬ Excluded excl path)
unfolding matches_filters
matches_filters_iff path incl excl =
    both (included incl path) (excluded_by excl path) (included_iff incl path)
      (excluded_by_iff excl path)
  where
    both :
        (a b : Bool) {X Y : Type 0}
        → (a ≡ true) ↔ X
        → (b ≡ true) ↔ Y
        → ((if not a then false else not b) ≡ true) ↔ (X × ¬ Y)
    both true true x y = (λ h. cc, λ h. absurd (h.1 (y.0 refl)))
    both true false x y = (λ h. (x.0 refl, λ k. clash (y.1 k)), λ h. refl)
      where
        clash : ¬ (false ≡ true)
        clash h = cc
    both false b x y = (λ h. cc, λ h. x.1 h.0)

-- A pattern has a say on a path: it is not one for directories only on something else, and matches.
abbrev pub Applies : Str → Bool → Pattern → Type 0
Applies rel_path is_dir q =
    ((q.dir_only && not is_dir) ≡ false) × (match_pattern q.raw rel_path ≡ true)

-- The last pattern of the list that has a say, and none after it.
pub record IsLast (rel_path : Str) (is_dir : Bool) (patterns : List Pattern) (q : Pattern)
    : Type 0 where
  pub before : List Pattern
  pub later : List Pattern
  pub split : patterns ≡ before ++ (q ∷ later)
  pub applies : Applies rel_path is_dir q
  pub silent : All (λ r. ¬ Applies rel_path is_dir r) later

-- The loop's answer: that of the last pattern with a say, or the one it began with.
Decided : Str → Bool → List Pattern → Bool → Bool → Type 0
Decided rel_path is_dir patterns excluded answer =
    ((q : Pattern) × IsLast rel_path is_dir patterns q × (answer ≡ not q.negated))
    ⊎ (All (λ r. ¬ Applies rel_path is_dir r) patterns × (answer ≡ excluded))

here : Str → Bool → Pattern → Bool → Bool
here rel_path is_dir q excluded =
    if q.dir_only && not is_dir
    then excluded
    else if match_pattern q.raw rel_path
    then not q.negated
    else excluded

here-cases :
    (rel_path : Str) (is_dir : Bool) (q : Pattern) (excluded : Bool)
    → (Applies rel_path is_dir q × (here rel_path is_dir q excluded ≡ not q.negated))
      ⊎ ((¬ Applies rel_path is_dir q) × (here rel_path is_dir q excluded ≡ excluded))
unfolding here
here-cases rel_path is_dir q excluded = go (q.dir_only && not is_dir) (match_pattern q.raw rel_path)
  where
    go :
        (d m : Bool)
        → (((d ≡ false) × (m ≡ true))
            × ((if d then excluded else if m then not q.negated else excluded) ≡ not q.negated))
          ⊎ ((¬ ((d ≡ false) × (m ≡ true)))
              × ((if d then excluded else if m then not q.negated else excluded) ≡ excluded))
    go true m = inr (λ h. clash h.0, refl)
      where
        clash : ¬ (true ≡ false)
        clash h = cc
    go false true = inl ((refl, refl), refl)
    go false false = inr (λ h. clash h.1, refl)
      where
        clash : ¬ (false ≡ true)
        clash h = cc

loop-Decided :
    (patterns : List Pattern) (rel_path : Str) (is_dir excluded : Bool)
    → Decided rel_path is_dir patterns excluded (exclude_loop patterns rel_path is_dir excluded)
unfolding exclude_loop Decided here
loop-Decided [] rel_path is_dir excluded = inr (tt, refl)
loop-Decided (q ∷ patterns) rel_path is_dir excluded =
    elim (loop-Decided patterns rel_path is_dir (here rel_path is_dir q excluded)) [
      | inl (r, last, answer) ↦ inl (
        r,
        record {
          before = q ∷ last.before;
          later = last.later;
          split = ap (λ xs. q ∷ xs) last.split;
          applies = last.applies;
          silent = last.silent;
        },
        answer,
      )
      | inr (silent, answer) ↦ elim (here-cases rel_path is_dir q excluded) [
        | inl (applies, said) ↦ inl (
          q,
          record {
            before = [];
            later = patterns;
            split = refl;
            applies = applies;
            silent = silent;
          },
          answer ∙ said,
        )
        | inr (mute, said) ↦ inr ((mute, silent), answer ∙ said)
      ]
    ]

-- The last pattern that has a say decides, as in a .gitignore file: a path is excluded if that
-- pattern is not negated, and not excluded if it is, or if no pattern has a say.
pub is_excluded_lem :
    (patterns : List Pattern) (rel_path : Str) (is_dir : Bool)
    → ((q : Pattern) × IsLast rel_path is_dir patterns q
        × (is_excluded patterns rel_path is_dir ≡ not q.negated))
      ⊎ (All (λ r. ¬ Applies rel_path is_dir r) patterns
          × (is_excluded patterns rel_path is_dir ≡ false))
unfolding is_excluded Decided
is_excluded_lem patterns rel_path is_dir = loop-Decided patterns rel_path is_dir false
