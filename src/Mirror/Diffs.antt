-- ===== src/Mirror/Diffs.antt =====
-- `diff_refs` of cpp/src/mirror.cpp: what its changes make of the destination.
use vost.Common.{
  ◌≡◌, ◌↔◌, refl, ◌∙◌, ap, sym, true, Option, none, some, List, [], ◌∷◌, ◌++◌, Str, str_eq,
  str_eq_iff, str_eq_refl, is_empty, ◌&&◌, find, if◌then◌else◌, arith,
}
use vost.Mirror.Refs.{in_sync, RefChange, MirrorDiff, RefMap, changes, deletions, diff_refs}

-- The new target of the first change of a name: none if the name has no change, and `some none` if
-- it is deleted.
unfoldable pub target_in : Str → List RefChange → Option (Option Str)
target_in n [] = none
target_in n (c ∷ cs) = if str_eq c.ref_name n then some c.new_target else target_in n cs

abbrev first_of : Option (Option Str) → Option (Option Str) → Option (Option Str)
first_of none later = later
first_of (some target) later = some target

abbrev target_or : Option (Option Str) → Option Str → Option Str
target_or none old = old
target_or (some target) old = target

-- The reference `n` of the destination after the changes.
unfoldable pub applied : MirrorDiff → RefMap → Str → Option Str
unfolding target_in
applied diff dest n = target_or (target_in n (diff.add ++ (diff.update ++ diff.del))) (find n dest)

-- No name twice, as in a std::map.
abbrev pub IsDistinct : RefMap → Type 0
IsDistinct [] = Unit
IsDistinct ((k, v) ∷ m) = (find k m ≡ none) × IsDistinct m

added_at : Option Str → Option Str → Option (Option Str)
added_at (some s) none = some (some s)
added_at _ _ = none

updated_at : Option Str → Option Str → Option (Option Str)
updated_at (some s) (some d) = if str_eq d s then none else some (some s)
updated_at _ _ = none

deleted_at : Option Str → Option Str → Option (Option Str)
deleted_at none (some d) = some none
deleted_at _ _ = none

target_in-deletions :
    (src dest : RefMap) (n : Str)
    → target_in n (deletions src dest) ≡ deleted_at (find n src) (find n dest)
unfolding target_in deletions find deleted_at
target_in-deletions src [] n = ground arith
target_in-deletions src ((k, v) ∷ dest) n =
    ground (arith, target_in-deletions src dest n, str_eq_iff k n)

target_in-add :
    (del : List RefChange) (src dest : RefMap) (n : Str)
    → target_in n (changes del src dest).add ≡ added_at (find n src) (find n dest)
unfolding target_in changes find added_at
target_in-add del [] dest n = ground arith
target_in-add del ((k, v) ∷ src) dest n =
    ground (arith, target_in-add del src dest n, str_eq_iff k n)

target_in-update :
    (del : List RefChange) (src dest : RefMap) (n : Str)
    → IsDistinct src
    → target_in n (changes del src dest).update ≡ updated_at (find n src) (find n dest)
unfolding target_in changes find updated_at
target_in-update del [] dest n h = ground arith
target_in-update del ((k, v) ∷ src) dest n (fresh, h) =
    ground (arith, target_in-update del src dest n h, str_eq_iff k n, fresh)

changes-del : (del : List RefChange) (src dest : RefMap) → (changes del src dest).del ≡ del
unfolding changes
changes-del del [] dest = refl
changes-del del ((k, v) ∷ src) dest = ground (arith, changes-del del src dest)

-- The first change of two lists.
target_in-append :
    (n : Str) (xs ys : List RefChange)
    → target_in n (xs ++ ys) ≡ first_of (target_in n xs) (target_in n ys)
unfolding target_in
target_in-append n [] ys = refl
target_in-append n (c ∷ xs) ys = ground (arith, target_in-append n xs ys)

-- The change of a name whose targets are `s` and `d`.
change_at : Option Str → Option Str → Option (Option Str)
change_at s d = first_of (added_at s d) (first_of (updated_at s d) (deleted_at s d))

target_in-diff_refs :
    (src dest : RefMap) (n : Str)
    → IsDistinct src
    → let diff = diff_refs src dest in
      target_in n (diff.add ++ (diff.update ++ diff.del)) ≡ change_at (find n src) (find n dest)
unfolding diff_refs change_at
target_in-diff_refs src dest n h =
    let del = deletions src dest in
    let diff = changes del src dest in
    rw
      (
        target_in-append n diff.add (diff.update ++ diff.del),
        target_in-append n diff.update diff.del,
        changes-del del src dest,
        target_in-add del src dest n,
        target_in-update del src dest n h,
        target_in-deletions src dest n,
      )
      refl

-- Made to the destination, the changes that diff_refs returns give it the references of the source,
-- which has no name twice, and no others.
pub applied-diff_refs :
    (src dest : RefMap) (n : Str)
    → IsDistinct src
    → applied (diff_refs src dest) dest n ≡ find n src
unfolding applied change_at added_at updated_at deleted_at
applied-diff_refs src dest n h =
    rw (target_in-diff_refs src dest n h) (combined (find n src) (find n dest))
  where
    combined : (s d : Option Str) → target_or (change_at s d) d ≡ s
    combined none none = refl
    combined none (some d) = refl
    combined (some s) none = refl
    combined (some s) (some d) = ground (arith, str_eq_iff d s)

change_at-eq : (s : Option Str) → change_at s s ≡ none
unfolding change_at added_at updated_at deleted_at
change_at-eq none = refl
change_at-eq (some s) = rw (str_eq_refl s) refl

no_changes : (cs : List RefChange) → ((n : Str) → target_in n cs ≡ none) → is_empty cs ≡ true
unfolding target_in
no_changes [] h = refl
no_changes (c ∷ cs) h = ground (arith, h c.ref_name, str_eq_refl c.ref_name)

is_empty-append : (xs ys : List RefChange) → is_empty (xs ++ ys) ≡ (is_empty xs && is_empty ys)
is_empty-append [] ys = refl
is_empty-append (c ∷ xs) ys = refl

-- A source without a name twice and a destination are in sync exactly if they have the same
-- references.
pub in_sync-diff_refs :
    (src dest : RefMap)
    → IsDistinct src
    → (in_sync (diff_refs src dest) ≡ true) ↔ ((n : Str) → find n src ≡ find n dest)
unfolding in_sync target_in applied
in_sync-diff_refs src dest h =
    let diff = diff_refs src dest in
    let all = diff.add ++ (diff.update ++ diff.del) in
    let emptied : in_sync diff ≡ is_empty all = sym (
      is_empty-append diff.add (diff.update ++ diff.del)
      ∙ ap (λ b. is_empty diff.add && b) (is_empty-append diff.update diff.del)) in
    (
      λ e n. sym (applied-diff_refs src dest n h) ∙ unchanged all (find n dest) n (sym emptied ∙ e),
      λ same.
          emptied
          ∙ no_changes all (λ n.
            target_in-diff_refs src dest n h
            ∙ ap (λ s. change_at s (find n dest)) (same n)
            ∙ change_at-eq (find n dest)),
    )
  where
    unchanged :
        (cs : List RefChange) (d : Option Str) (n : Str)
        → is_empty cs ≡ true
        → target_or (target_in n cs) d ≡ d
    unchanged [] d n e = refl
    unchanged (c ∷ cs) d n e = ground arith
