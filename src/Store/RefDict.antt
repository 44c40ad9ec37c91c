-- ===== src/Store/RefDict.antt =====
-- cpp/src/gitstore.cpp: `RefDict`, the branches or the tags of a store as a dictionary.
use vost.Common.{
  Bool, true, false, not, ℕ, Option, none, some, List, [], ◌∷◌, ◌++◌, Str, codes, str_eq, length,
  drop, ltb, ◌==◌, ◌&&◌, map, if◌then◌else◌,
}
use vost.Error.{
  Result, ok, err, ◌>>=◌, ◌>>◌, throw_if, key_not_found, key_exists, invalid_path, invalid_hash,
  git_error, permission, filesystem_error,
}
use vost.Types.{is_some}
use vost.Platform.{Platform, LogEntry}
use vost.Platform.Host.{Host}
use vost.Exec
use vost.Exec.{Exec, reading}
use vost.Paths.RefName.{validate_ref_name}
use vost.Tree.Read.{need}
use vost.Tree.WriteCommit.{or_empty}
use vost.Fs.{Inner, Fs, commit_hash}
use vost.Fs.Commit.{committing}

-- `writable` holds of the branches and not of the tags.
pub record RefDict : Type 0 where
  pub inner : Inner
  pub prefix : Str
  pub writable : Bool

unfoldable pub branches : Inner → RefDict
branches inner = record { inner = inner; prefix = codes "refs/heads/"; writable = true }

unfoldable pub tags : Inner → RefDict
tags inner = record { inner = inner; prefix = codes "refs/tags/"; writable = false }

pub record ReflogEntry : Type 0 where
  pub old_sha : Str
  pub new_sha : Str
  pub committer : Str
  pub timestamp : ℕ
  pub message : Str

unfoldable pub refname : RefDict → Str → Str
refname d name = d.prefix ++ name

module _ (p : Platform) where
  open p use {
    Repo, Oid, oid_fromstr, oid_tostr, commit_lookup, reference_lookup, reference_peel,
    reference_create, reference_delete, repository_head, repository_set_head, reference_is_branch,
    reference_shorthand, reference_names, reflog_read,
  }

  unfoldable pub get : RefDict → Str → Repo → Result Fs
  unfolding refname
  get d name repo = do
    ref ← need (reference_lookup repo (refname d name)) (key_not_found name)
    oid ← need (reference_peel repo ref) (git_error (codes "git_reference_peel (commit)"))
    commit ← need (commit_lookup repo oid) (git_error (codes "git_reference_peel (commit)"))
    ok (record {
      inner = d.inner;
      commit_oid_hex = oid_tostr oid;
      tree_oid_hex = oid_tostr commit.tree_id;
      ref_name = some name;
      writable = d.writable;
      changes = none;
    })

  unfoldable pub contains : RefDict → Str → Repo → Bool
  unfolding refname
  contains d name repo = is_some (reference_lookup repo (refname d name))

  module _ (host : Host p) where
    open host use {weakly_canonical}

    -- Two stores are the same repository if they are one object or their paths lead to one place.
    unfoldable pub check_repository : Inner → Inner → Result (Unit {0})
    check_repository inner other = if inner.address == other.address then ok tt else (do
      p1 ← need (weakly_canonical inner.path) filesystem_error
      p2 ← need (weakly_canonical other.path) filesystem_error
      throw_if (not (str_eq p1 p2)) (invalid_path (codes "Fs belongs to a different repository")))

    -- What `set` checks before it writes, and the hash that it parses.
    unfoldable pub set_target : RefDict → Str → Fs → Repo → Result Oid
    unfolding refname check_repository
    set_target d name fs repo = do
      validate_ref_name name
      check_repository d.inner fs.inner
      commit_hex ← need (commit_hash fs) (git_error (codes "Fs has no commit"))
      throw_if (is_some (reference_lookup repo (refname d name)) && not d.writable)
          (key_exists (codes "tag '" ++ (name ++ codes "' already exists")))
      need (oid_fromstr commit_hex) (invalid_hash commit_hex)

    unfoldable pub set : RefDict → Str → Fs → Exec Repo (Unit {0})
    unfolding set_target refname
    set d name fs = Exec.◌>>=◌ (reading (set_target d name fs)) (λ new_oid.
        committing p
          (λ repo. reference_create repo (refname d name) new_oid true (codes "refdict: set"))
          (git_error (codes "git_reference_create")))

    unfoldable pub set_and_get : RefDict → Str → Fs → Exec Repo Fs
    unfolding set get
    set_and_get d name fs = Exec.◌>>=◌ (set d name fs) (λ done. reading (get d name))

  unfoldable pub del : RefDict → Str → Exec Repo (Unit {0})
  unfolding refname
  del d name =
      Exec.◌>>=◌
        (reading (λ repo. need (reference_lookup repo (refname d name)) (key_not_found name)))
        (λ ref.
          committing p (λ repo. reference_delete repo ref)
            (git_error (codes "git_reference_delete")))

  -- The names of the references, less the prefix.
  unfoldable pub short_names : Str → List Str → List Str
  short_names prefix [] = []
  short_names prefix (full ∷ names) =
      let rest = short_names prefix names in
      if ltb (length prefix) (length full) then drop (length prefix) full ∷ rest else rest

  unfoldable pub keys : RefDict → Repo → List Str
  unfolding short_names
  keys d repo = elim (reference_names repo (d.prefix ++ codes "*")) [
    | none ↦ []
    | some names ↦ short_names d.prefix names
  ]

  unfoldable pub get_all : RefDict → List Str → Repo → Result (List Fs)
  unfolding get
  get_all d [] repo = ok []
  get_all d (k ∷ ks) repo =
      let rest = get_all d ks repo in do fs ← get d k repo; out ← rest; ok (fs ∷ out)

  unfoldable pub values : RefDict → Repo → Result (List Fs)
  unfolding keys get_all
  values d repo = get_all d (keys d repo) repo

  -- The branch that HEAD leads to, if it is one of the dictionary.
  unfoldable pub branch_of_head : RefDict → Option p.Reference → Repo → Option Str
  unfolding contains
  branch_of_head d none repo = none
  branch_of_head d (some head) repo =
      let name = reference_shorthand head in
      if not (reference_is_branch head)
      then none
      else if contains d name repo
      then some name
      else none

  unfoldable pub current_name : RefDict → Repo → Option Str
  unfolding branch_of_head
  current_name d repo =
      if not d.writable then none else branch_of_head d (repository_head repo) repo

  -- `try { return f(); } catch (...) { return nullopt; }`
  abbrev pub caught {ℓ} : {A : Type ℓ} → Result A → Option A
  caught (err e) = none
  caught (ok a) = some a

  unfoldable pub current : RefDict → Repo → Option Fs
  unfolding current_name get
  current d repo = elim (current_name d repo) [ none ↦ none | some name ↦ caught (get d name repo) ]

  unfoldable pub set_current : RefDict → Str → Exec Repo (Unit {0})
  unfolding refname
  set_current d name =
      Exec.◌>>=◌
        (reading
          (λ repo. throw_if (not d.writable) (permission (codes "cannot set_current on tags"))))
        (λ allowed.
          committing p (λ repo. repository_set_head repo (refname d name))
            (git_error (codes "git_repository_set_head")))

  abbrev identity : Option (Option Str × Option Str × ℕ) → Str
  identity none = []
  identity (some (name, email, time)) =
      or_empty name ++ (codes " <" ++ (or_empty email ++ codes ">"))

  -- The time stays unset if the entry has no committer; it stands as 0 here.
  abbrev timestamp : Option (Option Str × Option Str × ℕ) → ℕ
  timestamp none = 0
  timestamp (some (name, email, time)) = time

  unfoldable pub reflog_entry : LogEntry Oid → ReflogEntry
  reflog_entry e = record {
    old_sha = oid_tostr e.id_old;
    new_sha = oid_tostr e.id_new;
    committer = identity e.committer;
    timestamp = timestamp e.committer;
    message = or_empty e.message;
  }

  unfoldable pub reflog : RefDict → Str → Repo → List ReflogEntry
  unfolding refname reflog_entry
  reflog d name repo = elim (reflog_read repo (refname d name)) [
    | none ↦ []
    | some entries ↦ map reflog_entry entries
  ]
