-- ===== src/Mirror/Names.antt =====
-- The resolution of the names of references in cpp/src/mirror.cpp: `resolve_ref_names` and
-- `resolve_one_ref`, which resolve a name by two loops, and `resolve_ref_map`.
use vost.Common.{
  ◌∙◌, str_eq_refl, ◌≡◌, ◌≢◌, refl, ap, none, codes, ◌++◌, append_assoc, starts_with, false, All,
  Bool, ◌||◌, some, List, [], ◌∷◌, Str, Map, str_eq, find, map_set, find-map_set, any,
  if◌then◌else◌, arith,
}
use vost.Types.{is_some}
use vost.Mirror.Refs.{
  RefMap, candidate_of, insert_candidate, insert_ref, resolve_into, resolve_ref_names,
  resolve_one_ref, up_to_slash, full_dst, resolve_map_into, resolve_ref_map,
}

insert_ref_eq :
    (name : Str) (available : RefMap) (result : Map (Unit {0}))
    → insert_ref name available result ≡ map_set (resolve_one_ref name available) tt result
unfolding insert_ref resolve_one_ref insert_candidate candidate_of
insert_ref_eq name available result = ground arith

is_some-insert_ref :
    (name n : Str) (available : RefMap) (result : Map (Unit {0}))
    → is_some (find n (insert_ref name available result))
      ≡ (str_eq (resolve_one_ref name available) n || is_some (find n result))
is_some-insert_ref name n available result =
    rw
      (
        insert_ref_eq name available result,
        find-map_set (resolve_one_ref name available) n tt result,
      )
      (by_test (str_eq (resolve_one_ref name available) n))
  where
    by_test :
        (b : Bool) → is_some (if b then some tt else find n result) ≡ (b || is_some (find n result))
    by_test b = ground arith

is_some-resolve_into :
    (result : Map (Unit {0})) (names : List Str) (available : RefMap) (n : Str)
    → is_some (find n (resolve_into result names available))
      ≡ (is_some (find n result) || any (λ name. str_eq (resolve_one_ref name available) n) names)
unfolding resolve_into
is_some-resolve_into result [] available n = ground arith
is_some-resolve_into result (name ∷ names) available n = ground (
  arith,
  is_some-resolve_into (insert_ref name available result) names available n,
  is_some-insert_ref name n available result,
)

-- The set that resolve_ref_names returns has exactly the names that resolve_one_ref gives to one of
-- the list.
pub find-resolve_ref_names :
    (names : List Str) (available : RefMap) (n : Str)
    → is_some (find n (resolve_ref_names names available))
      ≡ any (λ name. str_eq (resolve_one_ref name available) n) names
unfolding resolve_ref_names find
find-resolve_ref_names names available n = is_some-resolve_into [] names available n

up_to_slash-none : (base : Str) → All (λ c. c ≢ 47) base → up_to_slash base ≡ none
unfolding up_to_slash
up_to_slash-none [] h = refl
up_to_slash-none (c ∷ base) (h, hs) = ground (arith, up_to_slash-none base hs)

up_to_slash-last :
    (dir base : Str)
    → All (λ c. c ≢ 47) base
    → up_to_slash (dir ++ (47 ∷ base)) ≡ some (dir ++ (47 ∷ []))
unfolding up_to_slash
up_to_slash-last [] base h = rw (up_to_slash-none base h) refl
up_to_slash-last (c ∷ dir) base h = rw (up_to_slash-last dir base h) refl

full_dst-nested :
    (dir base dst : Str)
    → All (λ c. c ≢ 47) base
    → starts_with (codes "refs/") dst ≡ false
    → full_dst (dir ++ (47 ∷ base)) dst ≡ dir ++ (47 ∷ dst)
unfolding full_dst
full_dst-nested dir base dst h short =
    rw (short, up_to_slash-last dir base h) (append_assoc dir (47 ∷ []) dst)

resolve_map_into-append :
    (before : Map Str) (result : RefMap) (after : Map Str) (available : RefMap)
    → resolve_map_into result (before ++ after) available
      ≡ resolve_map_into (resolve_map_into result before available) after available
unfolding resolve_map_into
resolve_map_into-append [] result after available = refl
resolve_map_into-append ((src, dst) ∷ before) result after available =
    resolve_map_into-append before _ after available

-- No entry has a source that resolves to the name.
abbrev pub AllElsewhere : Str → RefMap → Map Str → Type 0
AllElsewhere name available [] = Unit
AllElsewhere name available ((src, dst) ∷ refs) =
    (str_eq (resolve_one_ref src available) name ≡ false) × AllElsewhere name available refs

find-resolve_map_into :
    (name : Str) (after : Map Str) (result : RefMap) (available : RefMap)
    → AllElsewhere name available after
    → find name (resolve_map_into result after available) ≡ find name result
unfolding resolve_map_into
find-resolve_map_into name [] result available h = refl
find-resolve_map_into name ((src, dst) ∷ after) result available (apart, h) =
    let full_src = resolve_one_ref src available in
    find-resolve_map_into name after (map_set full_src (full_dst full_src dst) result) available h
    ∙ find-map_set full_src name (full_dst full_src dst) result
    ∙ rw apart refl

-- A short name at the destination, which does not start with refs/, takes the place of what follows
-- the last slash of the resolved source: all of the directories of a branch such as
-- refs/heads/feature/x stay, not only its prefix. This holds for any entry of a map, if no later
-- entry has a source that resolves to the same name.
pub resolve_ref_map-nested :
    (before after : Map Str) (src dst dir base : Str) (available : RefMap)
    → resolve_one_ref src available ≡ dir ++ (47 ∷ base)
    → All (λ c. c ≢ 47) base
    → starts_with (codes "refs/") dst ≡ false
    → AllElsewhere (dir ++ (47 ∷ base)) available after
    → find (dir ++ (47 ∷ base)) (resolve_ref_map (before ++ ((src, dst) ∷ after)) available)
      ≡ some (dir ++ (47 ∷ dst))
unfolding resolve_ref_map resolve_map_into
resolve_ref_map-nested before after src dst dir base available resolved h short elsewhere =
    let name = dir ++ (47 ∷ base) in
    let result = resolve_map_into [] before available in
    let full_src = resolve_one_ref src available in
    ap (find name) (resolve_map_into-append before [] ((src, dst) ∷ after) available)
    ∙ find-resolve_map_into name after (map_set full_src (full_dst full_src dst) result) available
        elsewhere
    ∙ find-map_set full_src name (full_dst full_src dst) result
    ∙ rw (resolved, str_eq_refl name) (ap some (full_dst-nested dir base dst h short))
