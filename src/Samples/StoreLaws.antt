-- ===== src/Samples/StoreLaws.antt =====
-- The small repository satisfies the laws that the theorems ask of libgit2.
use mathlib.Core.Option.{none-ne-some}
use vost.Common.{
  ℕ, suc, ◌+◌, ◌≡◌, refl, sym, ap, subst, ◌∙◌, Bool, true, false, not, Option, none, some,
  Bool-cases, inl, inr, [], ◌∷◌, ◌++◌, Str, str_eq, length, str_eq_refl, str_eq→eq, keep, Map, find,
  map_set, find-map_set, if◌then◌else◌, arith,
}
use vost.Types.{Bytes}
use vost.Platform.{TreeEntry, Commit}
use vost.Platform.Laws.{Keeps, ObjectLaws, RefLaws, null_hex}
use vost.Samples.Store.{
  Memory, Entries, memory, entry_named, hash, parse, create, delete, get_elem?-append,
  get_elem?-length,
}

parse-hash : (o : ℕ) → parse (hash o) ≡ some o
unfolding parse hash
parse-hash o = ap some (omega arith)

keep-if :
    (a : Bool) (e : TreeEntry ℕ) (es : Entries) (n : Str)
    → entry_named n (elim a [ true ↦ e ∷ es | false ↦ es ])
      ≡ (if a then (if str_eq e.name n then some e else entry_named n es) else entry_named n es)
unfolding entry_named
keep-if true e es n = refl
keep-if false e es n = refl

entry_named-remove :
    (b : Entries) (name n : Str)
    → entry_named n (keep (λ (e : TreeEntry ℕ). not (str_eq e.name name)) b)
      ≡ (if str_eq name n then none else entry_named n b)
unfolding entry_named
entry_named-remove [] name n = ground arith
entry_named-remove (e ∷ es) name n =
    keep-if (not (str_eq e.name name)) e (keep (λ (x : TreeEntry ℕ). not (str_eq x.name name)) es) n
    ∙ remove_if (str_eq e.name name) (str_eq e.name n) (str_eq name n) e _ (entry_named n es)
        (entry_named-remove es name n) (λ h. ap (λ x. str_eq x n) (str_eq→eq e.name name h))
        (λ h. ap (λ x. str_eq e.name x) (sym (str_eq→eq name n h)))
  where
    remove_if :
        (a b c : Bool) (e : TreeEntry ℕ) (kept l : Option (TreeEntry ℕ))
        → kept ≡ (if c then none else l)
        → (a ≡ true → b ≡ c)
        → (c ≡ true → b ≡ a)
        → (if not a then (if b then some e else kept) else kept)
          ≡ (if c then none else (if b then some e else l))
    remove_if true b c e kept l k h g = rw (k, h refl) (either c e l)
      where
        either :
            (c : Bool) (e : TreeEntry ℕ) (l : Option (TreeEntry ℕ))
            → (if c then none else l) ≡ (if c then none else (if c then some e else l))
        either true e l = refl
        either false e l = refl
    remove_if false b true e kept l k h g = rw (g refl, k) refl
    remove_if false b false e kept l k h g = rw k refl

Keeps-trees :
    (repo : Memory) (b : Entries)
    → Keeps memory repo (record repo { trees = repo.trees ++ (b ∷ []) })
Keeps-trees repo b = record {
  trees = λ o t h. get_elem?-append repo.trees (b ∷ []) o h;
  blobs = λ o c h. h;
  commits = λ o c h. h;
}

Keeps-blobs :
    (repo : Memory) (c : Bytes) → Keeps memory repo (record repo { blobs = repo.blobs ++ (c ∷ []) })
Keeps-blobs repo c = record {
  trees = λ o t h. h;
  blobs = λ o d h. get_elem?-append repo.blobs (c ∷ []) o h;
  commits = λ o d h. h;
}

Keeps-commits :
    (repo : Memory) (c : Commit ℕ)
    → Keeps memory repo (record repo { commits = repo.commits ++ (c ∷ []) })
Keeps-commits repo c = record {
  trees = λ o t h. h;
  blobs = λ o d h. h;
  commits = λ o d h. get_elem?-append repo.commits (c ∷ []) o h;
}

Keeps-refs : (repo : Memory) (refs : Map ℕ) → Keeps memory repo (record repo { refs = refs })
Keeps-refs repo refs = record { trees = λ o t h. h; blobs = λ o d h. h; commits = λ o d h. h }

-- The results of a call that returned.
parts :
    {A B : Type 0} {a c : A} {b d : B}
    → ◌≡◌ {A = Option (A × B)} (some (a, b)) (some (c, d))
    → (a ≡ c) × (b ≡ d)
parts h = (cc, cc)

same : {A : Type 0} {a b : A} → some a ≡ some b → a ≡ b
same h = cc

no_null : (c : ℕ) → ¬ ((c ∷ []) ≡ null_hex memory)
no_null c h = nonsense (ap tail h)
  where
    tail : Str → Bool
    tail [] = true
    tail (c ∷ []) = true
    tail (c ∷ d ∷ s) = false

    nonsense : ¬ (true ≡ false)
    nonsense h = cc

no_entries : (b : Entries) (n : Str) → length b ≡ 0 → entry_named n b ≡ none
unfolding entry_named
no_entries [] n h = refl
no_entries (e ∷ b) n h = absurd (not_zero (length b) h)
  where
    not_zero : (n : ℕ) → ¬ (suc n ≡ 0)
    not_zero n h = omega arith

pub memory-ObjectLaws : ObjectLaws memory
unfolding entry_named hash
memory-ObjectLaws = record {
  fromstr-tostr = parse-hash;
  tostr_null = λ repo o t h e. no_null (o + 49) e;
  tostr_empty = λ o e. cc;
  get-new_some = λ repo t b n h. ap (entry_named n) (sym (same h));
  get-new_none = λ repo b n h. ap (entry_named n) (sym (same h));
  get-insert = λ repo b b' name o mode n h. ap (entry_named n) (sym (same h));
  get-remove = λ b name n. entry_named-remove b name n;
  entrycount_zero = no_entries;
  byname-write = λ repo b o repo' h.
      let (e, q) = parts h in (b, rw (← q, ← e) (get_elem?-length repo.trees b), λ n. refl);
  lookup-blob =
      λ repo c o repo' h. let (e, q) = parts h in rw (← q, ← e) (get_elem?-length repo.blobs c);
  lookup-commit = λ repo a m t ps o repo' h.
      let (e, q) = parts h in
      let c : Commit ℕ = record {
        tree_id = t;
        parents = ps;
        message = some m;
        time = 0;
        author = some a;
      } in
      (c, rw (← q, ← e) (get_elem?-length repo.commits c), refl, refl);
  write-Keeps = λ repo b o repo' h. subst (Keeps memory repo) (parts h).1 (Keeps-trees repo b);
  blob-Keeps = λ repo c o repo' h. subst (Keeps memory repo) (parts h).1 (Keeps-blobs repo c);
  commit-Keeps =
      λ repo a m t ps o repo' h. subst (Keeps memory repo) (parts h).1 (Keeps-commits repo _);
}

find-set : (name : Str) (o : ℕ) (refs : Map ℕ) → find name (map_set name o refs) ≡ some o
find-set name o refs = find-map_set name name o refs ∙ rw (str_eq_refl name) refl

named :
    (name : Str) (o : ℕ) (refs : Map ℕ)
    → find name refs ≡ some o
    → memory.reference_lookup (record { trees = []; blobs = []; commits = []; refs = refs }) name
      ≡ some name
named name o refs e = ap (λ x. elim x as (λ y. Option Str) [ none ↦ none | some z ↦ some name ]) e

create-inv :
    (repo : Memory) (name : Str) (o : ℕ) {repo' : Memory}
    → create repo name o ≡ some repo'
    → record repo { refs = map_set name o repo.refs } ≡ repo'
unfolding create
create-inv repo name o {repo'} h = go (find name repo.refs) h
  where
    go :
        (found : Option ℕ)
        → elim found [
          | none ↦ some (record repo { refs = map_set name o repo.refs })
          | some old ↦ none
        ]
          ≡ some repo'
        → record repo { refs = map_set name o repo.refs } ≡ repo'
    go none e = same e
    go (some old) e = absurd (none-ne-some _ e)

lookup-inv : (repo : Memory) (name r : Str) → memory.reference_lookup repo name ≡ some r → name ≡ r
lookup-inv repo name r h = go (find name repo.refs) h
  where
    go :
        (found : Option ℕ)
        → elim found as (λ x. Option Str) [ none ↦ none | some o ↦ some name ] ≡ some r
        → name ≡ r
    go none e = absurd (none-ne-some _ e)
    go (some o) e = same e

created :
    (repo : Memory) (name : Str) (o : ℕ) (force : Bool) (message : Str) {repo' : Memory}
    → memory.reference_create repo name o force message ≡ some repo'
    → record repo { refs = map_set name o repo.refs } ≡ repo'
created repo name o true message h = same h
created repo name o false message h = create-inv repo name o h

find-delete : (name : Str) (refs : Map ℕ) → find name (delete name refs) ≡ none
unfolding delete find
find-delete name [] = refl
find-delete name ((k, o) ∷ m) = step (str_eq k name) (find-delete name m) refl
  where
    step :
        (b : Bool)
        → find name (delete name m) ≡ none
        → str_eq k name ≡ b
        → find name (if b then delete name m else (k, o) ∷ delete name m) ≡ none
    step true below e = below
    step false below e = rw (e, find) below

same_found :
    {a b : Option ℕ} (name : Str)
    → a ≡ b
    → elim a as (λ x. Option Str) [ none ↦ none | some o ↦ some name ]
      ≡ elim b as (λ x. Option Str) [ none ↦ none | some o ↦ some name ]
same_found name e = ap (λ x. elim x as (λ y. Option Str) [ none ↦ none | some z ↦ some name ]) e

-- A name that is not there is none that is.
other_name :
    (repo : Memory) (name other r : Str)
    → memory.reference_lookup repo name ≡ none
    → memory.reference_lookup repo other ≡ some r
    → str_eq name other ≡ false
other_name repo name other r free looked = elim (Bool-cases (str_eq name other)) [
  | inl equal ↦ absurd (
      clash (subst (λ n. memory.reference_lookup repo n ≡ none) (str_eq→eq name other equal) free)
        looked)
  | inr apart ↦ apart
]
  where
    clash : {o : Option Str} → o ≡ none → o ≡ some r → ⊥
    clash e h = cc

pub memory-RefLaws : RefLaws memory
memory-RefLaws = record {
  peel-set_target = λ repo name r o message repo' c looked found h.
      let e = lookup-inv repo name r looked in
      let f : find name (map_set r o repo.refs) ≡ some o = rw (← e) (find-set name o repo.refs) in
      (
        name,
        subst (λ x. memory.reference_lookup x name ≡ some name) (same h)
            (named name o (map_set r o repo.refs) f),
        subst (λ x. find name x.refs ≡ some o) (same h) f,
      );
  peel-create = λ repo name o force message repo' c found h.
      let f = find-set name o repo.refs in
      let q = created repo name o force message h in
      (
        name,
        subst (λ x. memory.reference_lookup x name ≡ some name) q
            (named name o (map_set name o repo.refs) f),
        subst (λ x. find name x.refs ≡ some o) q f,
      );
  set_target-Keeps = λ repo r o message repo' h.
      subst (Keeps memory repo) (same h) (Keeps-refs repo (map_set r o repo.refs));
  lookup-blob_create = λ repo b o repo' name h.
      subst (λ x. memory.reference_lookup x name ≡ memory.reference_lookup repo name) (parts h).1
        refl;
  peel-blob_create =
      λ repo b o repo' r h. subst (λ x. find r x.refs ≡ find r repo.refs) (parts h).1 refl;
  lookup-create_new = λ repo name o force message repo' other r h free looked.
      subst (λ x. memory.reference_lookup x other ≡ some r) (created repo name o force message h)
        (same_found other (
            find-map_set name other o repo.refs
            ∙ rw (other_name repo name other r free looked) refl)
          ∙ looked);
  peel-create_new = λ repo name o force message repo' other r target h free looked peeled.
      let same = lookup-inv repo other r looked in
      subst (λ x. find r x.refs ≡ some target) (created repo name o force message h)
        (find-map_set name r o repo.refs
          ∙ rw (subst (λ x. str_eq name x ≡ false) same (other_name repo name other r free looked))
              refl
          ∙ peeled);
  lookup-delete = λ repo name r repo' looked h.
      subst (λ x. memory.reference_lookup x name ≡ none) (same h)
        (same_found name (
          subst (λ x. find name (delete x repo.refs) ≡ none) (lookup-inv repo name r looked)
            (find-delete name repo.refs)));
  create-Keeps = λ repo name o force message repo' h.
      subst (Keeps memory repo) (created repo name o force message h)
        (Keeps-refs repo (map_set name o repo.refs));
}
