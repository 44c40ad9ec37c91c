-- ===== src/Platform/Laws.antt =====
-- What the program relies on from libgit2: the documented behaviour of the calls that succeed.
use vost.Common.{ℕ, ◌≡◌, ◌≢◌, Bool, none, some, List, [], Str, str_eq, codes, if◌then◌else◌}
use vost.Types.{Bytes}
use vost.Platform.{Platform, Commit}

module _ (p : Platform) where
  open p use {
    Repo, Oid, tree_lookup, blob_lookup, commit_lookup, oid_fromstr, oid_tostr, treebuilder_new,
    treebuilder_get, tree_entry_byname, treebuilder_insert, treebuilder_remove, treebuilder_write,
    blob_create_from_buffer, commit_create, AuthorSignature, Reference, reference_lookup,
    reference_peel, reference_set_target, reference_create, reference_delete,
    treebuilder_entrycount,
  }

  -- Every object of the first repository is one of the second.
  pub record Keeps (repo repo' : Repo) : Type 0 where
    pub trees : (o : Oid) (t : p.Tree) → tree_lookup repo o ≡ some t → tree_lookup repo' o ≡ some t
    pub blobs : (o : Oid) (c : Bytes) → blob_lookup repo o ≡ some c → blob_lookup repo' o ≡ some c
    pub commits :
        (o : Oid) (c : Commit Oid) → commit_lookup repo o ≡ some c → commit_lookup repo' o ≡ some c

  abbrev pub null_hex : Str
  null_hex = codes "0000000000000000000000000000000000000000"

  -- Objects: hashes print and parse, no object has the null hash or an empty one, builders are maps
  -- by name, what is written can be read, and nothing that was there goes away.
  pub record ObjectLaws : Type 0 where
    pub fromstr-tostr : (o : Oid) → oid_fromstr (oid_tostr o) ≡ some o
    pub tostr_null :
        (repo : Repo) (o : Oid) (t : p.Tree) → tree_lookup repo o ≡ some t → oid_tostr o ≢ null_hex
    pub tostr_empty : (o : Oid) → oid_tostr o ≢ []
    pub get-new_some :
        (repo : Repo) (t : p.Tree) (b : p.Builder) (n : Str)
        → treebuilder_new repo (some t) ≡ some b
        → treebuilder_get b n ≡ tree_entry_byname t n
    pub get-new_none :
        (repo : Repo) (b : p.Builder) (n : Str)
        → treebuilder_new repo none ≡ some b
        → treebuilder_get b n ≡ none
    pub get-insert :
        (repo : Repo) (b b' : p.Builder) (name : Str) (o : Oid) (mode : ℕ) (n : Str)
        → treebuilder_insert repo b name o mode ≡ some b'
        → treebuilder_get b' n ≡ (
            if str_eq name n
            then some (record { name = name; id = o; filemode = mode })
            else treebuilder_get b n)
    pub get-remove :
        (b : p.Builder) (name n : Str)
        → treebuilder_get (treebuilder_remove b name) n
          ≡ (if str_eq name n then none else treebuilder_get b n)
    pub entrycount_zero :
        (b : p.Builder) (n : Str) → treebuilder_entrycount b ≡ 0 → treebuilder_get b n ≡ none
    pub byname-write :
        (repo : Repo) (b : p.Builder) (o : Oid) (repo' : Repo)
        → treebuilder_write repo b ≡ some (o, repo')
        → (t : p.Tree) × (tree_lookup repo' o ≡ some t)
          × ((n : Str) → tree_entry_byname t n ≡ treebuilder_get b n)
    pub lookup-blob :
        (repo : Repo) (c : Bytes) (o : Oid) (repo' : Repo)
        → blob_create_from_buffer repo c ≡ some (o, repo')
        → blob_lookup repo' o ≡ some c
    pub lookup-commit :
        (repo : Repo) (a : AuthorSignature) (m : Str) (t : Oid) (ps : List Oid) (o : Oid)
        (repo' : Repo)
        → commit_create repo a m t ps ≡ some (o, repo')
        → (c : Commit Oid) × (commit_lookup repo' o ≡ some c) × (c.tree_id ≡ t) × (c.parents ≡ ps)
    pub write-Keeps :
        (repo : Repo) (b : p.Builder) (o : Oid) (repo' : Repo)
        → treebuilder_write repo b ≡ some (o, repo')
        → Keeps repo repo'
    pub blob-Keeps :
        (repo : Repo) (c : Bytes) (o : Oid) (repo' : Repo)
        → blob_create_from_buffer repo c ≡ some (o, repo')
        → Keeps repo repo'
    pub commit-Keeps :
        (repo : Repo) (a : AuthorSignature) (m : Str) (t : Oid) (ps : List Oid) (o : Oid)
        (repo' : Repo)
        → commit_create repo a m t ps ≡ some (o, repo')
        → Keeps repo repo'

  -- References: one that was set or created names its commit, one that is created where a lookup
  -- found none leaves those that are there as they are, and no object goes away.
  pub record RefLaws : Type 0 where
    pub peel-set_target :
        (repo : Repo) (name : Str) (r : Reference) (o : Oid) (message : Str) (repo' : Repo)
        (c : Commit Oid)
        → reference_lookup repo name ≡ some r
        → commit_lookup repo o ≡ some c
        → reference_set_target repo r o message ≡ some repo'
        → (r' : Reference) × (reference_lookup repo' name ≡ some r')
          × (reference_peel repo' r' ≡ some o)
    pub peel-create :
        (repo : Repo) (name : Str) (o : Oid) (force : Bool) (message : Str) (repo' : Repo)
        (c : Commit Oid)
        → commit_lookup repo o ≡ some c
        → reference_create repo name o force message ≡ some repo'
        → (r' : Reference) × (reference_lookup repo' name ≡ some r')
          × (reference_peel repo' r' ≡ some o)
    pub set_target-Keeps :
        (repo : Repo) (r : Reference) (o : Oid) (message : Str) (repo' : Repo)
        → reference_set_target repo r o message ≡ some repo'
        → Keeps repo repo'
    pub lookup-blob_create :
        (repo : Repo) (b : Bytes) (o : Oid) (repo' : Repo) (name : Str)
        → blob_create_from_buffer repo b ≡ some (o, repo')
        → reference_lookup repo' name ≡ reference_lookup repo name
    pub peel-blob_create :
        (repo : Repo) (b : Bytes) (o : Oid) (repo' : Repo) (r : Reference)
        → blob_create_from_buffer repo b ≡ some (o, repo')
        → reference_peel repo' r ≡ reference_peel repo r
    pub lookup-create_new :
        (repo : Repo) (name : Str) (o : Oid) (force : Bool) (message : Str) (repo' : Repo)
        (other : Str) (r : Reference)
        → reference_create repo name o force message ≡ some repo'
        → reference_lookup repo name ≡ none
        → reference_lookup repo other ≡ some r
        → reference_lookup repo' other ≡ some r
    pub peel-create_new :
        (repo : Repo) (name : Str) (o : Oid) (force : Bool) (message : Str) (repo' : Repo)
        (other : Str) (r : Reference) (target : Oid)
        → reference_create repo name o force message ≡ some repo'
        → reference_lookup repo name ≡ none
        → reference_lookup repo other ≡ some r
        → reference_peel repo r ≡ some target
        → reference_peel repo' r ≡ some target
    pub lookup-delete :
        (repo : Repo) (name : Str) (r : Reference) (repo' : Repo)
        → reference_lookup repo name ≡ some r
        → reference_delete repo r ≡ some repo'
        → reference_lookup repo' name ≡ none
    pub create-Keeps :
        (repo : Repo) (name : Str) (o : Oid) (force : Bool) (message : Str) (repo' : Repo)
        → reference_create repo name o force message ≡ some repo'
        → Keeps repo repo'

  pub Keeps-refl : (repo : Repo) → Keeps repo repo
  Keeps-refl repo = record { trees = λ o t h. h; blobs = λ o c h. h; commits = λ o c h. h }

  pub Keeps-trans : {a b c : Repo} → Keeps a b → Keeps b c → Keeps a c
  Keeps-trans k l = record {
    trees = λ o t h. l.trees o t (k.trees o t h);
    blobs = λ o x h. l.blobs o x (k.blobs o x h);
    commits = λ o x h. l.commits o x (k.commits o x h);
  }
