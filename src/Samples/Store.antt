-- ===== src/Samples/Store.antt =====
-- A small repository in memory, to run the code on: what the program asks of libgit2, as lists.
-- An object's hash is one byte, its place in the list of its kind plus 49; a longer name is that of
-- an object no run gets to. A walk stays at one level.
use vost.Common.{
  ℕ, zero, true, false, codes, drop, suc, ◌+◌, ◌-◌, ◌≡◌, refl, not, Option, none, some, List, [],
  ◌∷◌, ◌++◌, map, Str, str_eq, length, keep, Map, find, map_set, if◌then◌else◌,
}
use vost.Types.{Bytes}
use vost.Platform.{Platform, TreeEntry, Commit, acquired}

abbrev pub Entries : Type 0
Entries = List (TreeEntry ℕ)

pub record Memory : Type 0 where
  pub trees : List Entries
  pub blobs : List Bytes
  pub commits : List (Commit ℕ)
  pub refs : Map ℕ

abbrev pub no_objects : Memory
no_objects = record { trees = []; blobs = []; commits = []; refs = [] }

abbrev pub get_elem? : {A : Type 0} → List A → ℕ → Option A
get_elem? [] n = none
get_elem? (x ∷ xs) zero = some x
get_elem? (x ∷ xs) (suc n) = get_elem? xs n

pub get_elem?-append :
    {A : Type 0} (xs ys : List A) (n : ℕ) {a : A}
    → get_elem? xs n ≡ some a
    → get_elem? (xs ++ ys) n ≡ some a
get_elem?-append [] ys n h = cc
get_elem?-append (x ∷ xs) ys zero h = h
get_elem?-append (x ∷ xs) ys (suc n) h = get_elem?-append xs ys n h

pub get_elem?-length :
    {A : Type 0} (xs : List A) (a : A) → get_elem? (xs ++ (a ∷ [])) (length xs) ≡ some a
get_elem?-length [] a = refl
get_elem?-length (x ∷ xs) a = get_elem?-length xs a

unfoldable pub entry_named : Str → Entries → Option (TreeEntry ℕ)
entry_named n [] = none
entry_named n (e ∷ es) = let rest = entry_named n es in if str_eq e.name n then some e else rest

unfoldable pub hash : ℕ → Str
hash o = (o + 49) ∷ []

unfoldable pub parse : Str → Option ℕ
parse [] = none
parse (c ∷ []) = some (c - 49)
parse (c ∷ d ∷ s) = some 1000

unfoldable pub create : Memory → Str → ℕ → Option Memory
create repo name o = elim (find name repo.refs) [
  | none ↦ some (record repo { refs = map_set name o repo.refs })
  | some old ↦ none
]

unfoldable pub delete : Str → Map ℕ → Map ℕ
delete name [] = []
delete name ((k, o) ∷ m) = let rest = delete name m in if str_eq k name then rest else (k, o) ∷ rest

abbrev pub memory : Platform
memory = record {
  Repo = Memory;
  Oid = ℕ;
  Tree = Entries;
  Builder = Entries;
  Reference = Str;
  AuthorSignature = Str × Str;
  oid_fromstr = parse;
  oid_tostr = hash;
  tree_lookup = λ repo o. get_elem? repo.trees o;
  tree_entries = λ t. t;
  tree_entry_byname = λ t n. entry_named n t;
  tree_walk = λ repo t. some (map (λ e. ([], e)) t);
  treebuilder_new = λ repo t. some (elim t [ none ↦ [] | some es ↦ es ]);
  treebuilder_get = λ b n. entry_named n b;
  treebuilder_insert = λ repo b n o mode. some (record { name = n; id = o; filemode = mode } ∷ b);
  treebuilder_remove = λ b n. keep (λ (e : TreeEntry ℕ). not (str_eq e.name n)) b;
  treebuilder_entrycount = λ b. length b;
  treebuilder_write =
      λ repo b. some (length repo.trees, record repo { trees = repo.trees ++ (b ∷ []) });
  blob_create_from_buffer =
      λ repo c. some (length repo.blobs, record repo { blobs = repo.blobs ++ (c ∷ []) });
  blob_lookup = λ repo o. get_elem? repo.blobs o;
  signature_now = λ repo name email. some (name, email);
  commit_create = λ repo a m t ps. some (
    length repo.commits,
    record repo {
      commits =
          repo.commits
          ++ (record { tree_id = t; parents = ps; message = some m; time = 0; author = some a }
              ∷ []);
    },
  );
  commit_lookup = λ repo o. get_elem? repo.commits o;
  reference_lookup = λ repo n. elim (find n repo.refs) [ none ↦ none | some o ↦ some n ];
  reference_peel = λ repo r. find r repo.refs;
  reference_set_target = λ repo r o m. some (record repo { refs = map_set r o repo.refs });
  reference_create = λ repo n o force m. elim force [
    | true ↦ some (record repo { refs = map_set n o repo.refs })
    | false ↦ create repo n o
  ];
  reference_delete = λ repo r. some (record repo { refs = delete r repo.refs });
  commit_create_on = λ repo name a m t. some (
    length repo.commits,
    record repo {
      commits =
          repo.commits
          ++ (record { tree_id = t; parents = []; message = some m; time = 0; author = some a }
              ∷ []);
      refs = map_set name (length repo.commits) repo.refs;
    },
  );
  repository_head = λ repo. elim (find (codes "refs/heads/main") repo.refs) [
    | none ↦ none
    | some o ↦ some (codes "refs/heads/main")
  ];
  reference_is_branch = λ r. true;
  reference_shorthand = λ r. drop 11 r;
  repository_set_head = λ repo name. some repo;
  reference_names = λ repo pattern. some (map (λ (e : Str × ℕ). e.0) repo.refs);
  reflog_read = λ repo n. none;
  lock_attempts = λ repo path. some (acquired ∷ []);
}
