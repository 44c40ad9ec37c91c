-- ===== src/Mirror/Refs.antt =====
-- cpp/src/mirror.cpp: differences of maps of references, and the resolution of short names.
use vost.Common.{
  ℕ, Bool, true, false, ◌&&◌, Option, none, some, List, [], ◌∷◌, ◌++◌, ◌+◌, Str, codes, str_eq,
  starts_with, Map, find, map_set, length, is_empty, ◌==◌, if◌then◌else◌,
}
use vost.Types.{is_some}

pub record RefChange : Type 0 where
  pub ref_name : Str
  pub old_target : Option Str
  pub new_target : Option Str

pub record MirrorDiff : Type 0 where
  pub add : List RefChange
  pub update : List RefChange
  pub del : List RefChange

unfoldable pub in_sync : MirrorDiff → Bool
in_sync diff = is_empty diff.add && (is_empty diff.update && is_empty diff.del)

unfoldable total : MirrorDiff → ℕ
total diff = length diff.add + (length diff.update + length diff.del)

abbrev pub RefMap : Type 0
RefMap = Map Str

-- What one reference of the source adds to the changes.
abbrev pub change_of : Str → Str → Option Str → MirrorDiff → MirrorDiff
change_of ref_name sha none diff = record diff {
  add = record { ref_name = ref_name; old_target = none; new_target = some sha } ∷ diff.add;
}
change_of ref_name sha (some old) diff = if str_eq old sha then diff else record diff {
  update =
      record { ref_name = ref_name; old_target = some old; new_target = some sha } ∷ diff.update;
}

-- The first loop, over the source, before the deletions.
unfoldable pub changes : List RefChange → RefMap → RefMap → MirrorDiff
changes del [] dest = record { add = []; update = []; del = del }
changes del ((ref_name, sha) ∷ src) dest =
    change_of ref_name sha (find ref_name dest) (changes del src dest)

-- The second loop, over the destination.
unfoldable pub deletions : RefMap → RefMap → List RefChange
deletions src [] = []
deletions src ((ref_name, sha) ∷ dest) =
    let rest = deletions src dest in
    if is_some (find ref_name src)
    then rest
    else record { ref_name = ref_name; old_target = some sha; new_target = none } ∷ rest

unfoldable pub diff_refs : RefMap → RefMap → MirrorDiff
unfolding changes deletions
diff_refs src dest = changes (deletions src dest) src dest

abbrev pub prefixes : List Str
prefixes = codes "refs/heads/" ∷ codes "refs/tags/" ∷ codes "refs/notes/" ∷ []

-- The first candidate that is available.
unfoldable pub candidate_of : List Str → Str → RefMap → Option Str
candidate_of [] name available = none
candidate_of (prefix ∷ rest) name available =
    let later = candidate_of rest name available in
    if is_some (find (prefix ++ name) available) then some (prefix ++ name) else later

unfoldable pub resolve_one_ref : Str → RefMap → Str
unfolding candidate_of
resolve_one_ref name available =
    if starts_with (codes "refs/") name then name else elim (candidate_of prefixes name available) [
      | none ↦ codes "refs/heads/" ++ name
      | some candidate ↦ candidate
    ]

-- The loop of resolve_ref_names over the prefixes: the set with the first candidate that is
-- available, and `found`.
unfoldable pub insert_candidate : List Str → Str → RefMap → Map (Unit {0}) → Map (Unit {0}) × Bool
insert_candidate [] name available result = (result, false)
insert_candidate (prefix ∷ rest) name available result =
    let later = insert_candidate rest name available result in
    if is_some (find (prefix ++ name) available)
    then (map_set (prefix ++ name) tt result, true)
    else later

-- One round of resolve_ref_names.
unfoldable pub insert_ref : Str → RefMap → Map (Unit {0}) → Map (Unit {0})
unfolding insert_candidate
insert_ref name available result =
    if starts_with (codes "refs/") name
    then map_set name tt result
    else (let (inserted, found) =
          insert_candidate (codes "refs/heads/" ∷ codes "refs/tags/" ∷ codes "refs/notes/" ∷ [])
            name available result in
        if found then inserted else map_set (codes "refs/heads/" ++ name) tt inserted)

unfoldable pub resolve_into : Map (Unit {0}) → List Str → RefMap → Map (Unit {0})
unfolding insert_ref
resolve_into result [] available = result
resolve_into result (name ∷ names) available =
    resolve_into (insert_ref name available result) names available

unfoldable pub resolve_ref_names : List Str → RefMap → Map (Unit {0})
unfolding resolve_into
resolve_ref_names names available = resolve_into [] names available

-- full_src.substr(0, full_src.rfind('/') + 1), if there is a slash
unfoldable pub up_to_slash : Str → Option Str
up_to_slash [] = none
up_to_slash (c ∷ s) = elim (up_to_slash s) [
  | some start ↦ some (c ∷ start)
  | none ↦ if c == 47 then some (c ∷ []) else none
]

unfoldable pub full_dst : Str → Str → Str
unfolding up_to_slash
full_dst full_src dst =
    if starts_with (codes "refs/") dst then dst else elim (up_to_slash full_src) [
      | some start ↦ start ++ dst
      | none ↦ codes "refs/heads/" ++ dst
    ]

unfoldable pub resolve_map_into : RefMap → Map Str → RefMap → RefMap
unfolding resolve_one_ref full_dst
resolve_map_into result [] src_available = result
resolve_map_into result ((src, dst) ∷ rest) src_available =
    let full_src = resolve_one_ref src src_available in
    resolve_map_into (map_set full_src (full_dst full_src dst) result) rest src_available

unfoldable pub resolve_ref_map : Map Str → RefMap → RefMap
unfolding resolve_map_into
resolve_ref_map refs src_available = resolve_map_into [] refs src_available

-- The references that a set names.
unfoldable pub chosen_into : RefMap → Map (Unit {0}) → RefMap → RefMap
chosen_into filtered resolved [] = filtered
chosen_into filtered resolved ((k, v) ∷ refs) =
    chosen_into (if is_some (find k resolved) then map_set k v filtered else filtered) resolved refs

unfoldable pub chosen : List Str → RefMap → RefMap
unfolding chosen_into resolve_ref_names
chosen names refs =
    if is_empty names then refs else chosen_into [] (resolve_ref_names names refs) refs

-- The name that a reference gets at the destination.
unfoldable pub dest_name : RefMap → Str → Str
dest_name rename name = elim (find name rename) [ none ↦ name | some renamed ↦ renamed ]

unfoldable pub renamed_into : RefMap → RefMap → RefMap → RefMap
unfolding dest_name
renamed_into dest rename [] = dest
renamed_into dest rename ((name, sha) ∷ refs) =
    renamed_into (map_set (dest_name rename name) sha dest) rename refs
