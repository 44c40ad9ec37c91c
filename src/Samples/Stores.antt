-- ===== src/Samples/Stores.antt =====
-- The theorems on the branches and tags of a store applied to a small repository.
use vost.Common.{
  ℕ, ◌≡◌, refl, true, false, none, some, List, [], ◌∷◌, Str, codes, str_eq, str_lt, contains_text,
  starts_with, ends_with, find, map_set, length, ◌≤◌, arith,
}
use vost.Error.{ok, err, key_not_found}
use vost.Platform.Host.{Host}
use vost.Exec.{◌>>=◌}
use vost.Exec.Refused.{Refused}
use vost.Tree.Read.{need}
use vost.Paths.RefName.{validate_ref_name}
use vost.Fs.{Fs, commit_hash}
use vost.Fs.Commit.{committing}
use vost.Store.{fs, read_by_hash}
use vost.Store.RefDict.{
  branches, tags, refname, get, set, set_target, check_repository, contains, del,
}
use vost.Store.Refs.{get-set, get-del}
use vost.Store.Frozen.{get-set_tags, set_tags, set-Refused}
use vost.Store.Lookup.{fs-set, read_by_hash-eq}
use vost.Samples.Store.{Memory, memory, hash, parse, delete}
use vost.Samples.StoreLaws.{memory-RefLaws}
use vost.Samples.Commits.{inner, after_first, repo_first}

-- One directory, which is there and holds no repository.
abbrev host : Host memory
host = record {
  Disk = Unit;
  Int = Unit;
  exists = λ disk path. true;
  create_directories = λ disk path. some disk;
  weakly_canonical = λ path. some path;
  repository_open_bare = λ disk path. none;
  repository_init = λ disk path. none;
  has_config = λ repo. false;
  config_set_string = λ repo key value. repo;
  config_set_int = λ repo key value. repo;
}

abbrev repo_dev : Memory
repo_dev = record repo_first {
  refs = (codes "refs/heads/dev", 0) ∷ (codes "refs/heads/main", 0) ∷ [];
}

set_dev : set memory host (branches inner) (codes "dev") after_first repo_first ≡ (ok tt, repo_dev)
unfolding set set_target validate_ref_name check_repository commit_hash refname branches need
    committing ◌>>=◌ parse map_set find str_eq contains_text starts_with ends_with str_lt
set_dev = refl

abbrev dev : Fs
dev = record after_first { ref_name = some (codes "dev") }

stored : after_first.commit_oid_hex ≡ memory.oid_tostr 0
unfolding hash
stored = refl

parsed : memory.oid_fromstr after_first.commit_oid_hex ≡ some 0
unfolding parse
parsed = refl

get-set_example : get memory (branches inner) (codes "dev") repo_dev ≡ ok dev
unfolding branches hash
get-set_example =
    get-set memory host memory-RefLaws (branches inner) (codes "dev") after_first repo_first
      repo_dev 0 _ stored parsed refl set_dev

fs-set_example : fs memory inner (codes "dev") repo_dev ≡ ok dev
unfolding branches hash
fs-set_example =
    fs-set memory host memory-RefLaws inner (codes "dev") after_first repo_first repo_dev 0 _ stored
      parsed refl set_dev

del_dev : del memory (branches inner) (codes "dev") repo_dev ≡ (ok tt, repo_first)
unfolding del branches refname need committing ◌>>=◌ find str_eq delete
del_dev = refl

get-del_example :
    (contains memory (branches inner) (codes "dev") repo_first ≡ false)
    × (get memory (branches inner) (codes "dev") repo_first ≡ err (key_not_found (codes "dev")))
    × (del memory (branches inner) (codes "dev") repo_first
        ≡ (err (key_not_found (codes "dev")), repo_first))
get-del_example =
    get-del memory memory-RefLaws (branches inner) (codes "dev") repo_dev repo_first del_dev

-- the same commit under a tag
abbrev repo_tag : Memory
repo_tag = record repo_first {
  refs = (codes "refs/heads/main", 0) ∷ (codes "refs/tags/v1", 0) ∷ [];
}

abbrev v1 : Fs
v1 = record after_first { ref_name = some (codes "v1"); writable = false }

tagged : contains memory (tags inner) (codes "v1") repo_tag ≡ true
unfolding contains tags refname find str_eq
tagged = refl

set-Refused_example : Refused (set memory host (tags inner) (codes "v1") after_first) repo_tag
set-Refused_example = set-Refused memory host inner (codes "v1") after_first repo_tag tagged

tagged_v1 : get memory (tags inner) (codes "v1") repo_tag ≡ ok v1
unfolding get tags refname need find str_eq hash
tagged_v1 = refl

-- a call that throws, and one that stores another tag
abbrev calls : List (Str × Fs)
calls = (codes "v1", dev) ∷ (codes "v2", dev) ∷ []

get-set_tags_example :
    get memory (tags inner) (codes "v1") (set_tags memory host inner calls repo_tag) ≡ ok v1
get-set_tags_example =
    get-set_tags memory host memory-RefLaws inner (codes "v1") v1 calls repo_tag tagged_v1

short : length {A = ℕ} (7 ∷ 8 ∷ 9 ∷ []) ≤ 18446744073709551615
short = omega arith

abbrev repo_blob : Memory
repo_blob = record repo_first { blobs = (7 ∷ 8 ∷ 9 ∷ []) ∷ [] }

read_by_hash_example :
    read_by_hash memory (codes "1") 1 18446744073709551615 repo_blob ≡ ok (8 ∷ 9 ∷ [])
read_by_hash_example =
    read_by_hash-eq memory (codes "1") 1 18446744073709551615 repo_blob 0 (7 ∷ 8 ∷ 9 ∷ []) parsed
      refl short (omega arith)
