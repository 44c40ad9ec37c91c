-- ===== src/Store/Refs.antt =====
-- `RefDict` of cpp/src/gitstore.cpp: what `set` and `del` leave for `get` and `contains` to find.
use vost.Common.{
  ◌≡◌, refl, sym, subst, Bool, true, false, not, ◌&&◌, none, some, Str, codes, is_empty,
  if◌then◌else◌,
}
use vost.Error.{Result, ok, err, throw_if, throw_if-inv, key_not_found, >>=-eq-ok, git_error}
use vost.Types.{is_some}
use vost.Platform.{Platform, Commit}
use vost.Platform.Host.{Host}
use vost.Platform.Laws.{RefLaws}
use vost.Exec.{◌>>=◌, >>=-inv, reading, reading-inv}
use vost.Paths.RefName.{validate_ref_name}
use vost.Tree.Read.{need, need-inv}
use vost.Fs.{Fs, commit_hash}
use vost.Fs.Steps.{committing-inv}
use vost.Store.RefDict.{RefDict, refname, get, contains, check_repository, set_target, set, del}

module _ (p : Platform) where
  open p use {
    Repo, Oid, oid_fromstr, oid_tostr, commit_lookup, reference_lookup, reference_create,
    reference_delete,
  }

  del-inv :
      (d : RefDict) (name : Str) (repo : Repo) {u : Unit {0}} {repo' : Repo}
      → del p d name repo ≡ (ok u, repo')
      → (ref : p.Reference) × (reference_lookup repo (refname d name) ≡ some ref)
        × (reference_delete repo ref ≡ some repo')
  unfolding del
  del-inv d name repo {u} {repo'} h =
      let find : Repo → Result p.Reference =
        λ r. need (reference_lookup r (refname d name)) (key_not_found name) in
      let (ref, repo₁, looked, deleted) = >>=-inv (reading find) _ repo h in
      let (found, same) = reading-inv find repo looked in
      (
        ref,
        need-inv (reference_lookup repo (refname d name)) (key_not_found name) found,
        subst (λ r. reference_delete r ref ≡ some repo') (sym same)
            (committing-inv p _ _ repo₁ deleted),
      )

  module _ (refs : RefLaws p) where
    -- After a `del` that returned, `contains` of the name is false, `get` throws KeyNotFoundError,
    -- and so does a second `del`, which changes nothing.
    pub get-del :
        (d : RefDict) (name : Str) (repo repo' : Repo)
        → del p d name repo ≡ (ok tt, repo')
        → (contains p d name repo' ≡ false)
          × (get p d name repo' ≡ err (key_not_found name))
          × (del p d name repo' ≡ (err (key_not_found name), repo'))
    unfolding get need contains del ◌>>=◌
    get-del d name repo repo' h =
        let (ref, there, deleted) = del-inv d name repo h in
        let gone : reference_lookup repo' (refname d name) ≡ none =
          refs.lookup-delete repo (refname d name) ref repo' there deleted in
        (rw gone refl, rw gone refl, rw gone refl)

  module _ (host : Host p) where
    -- What a call of `set` that returned has done.
    pub record Stored (d : RefDict) (name : Str) (fs : Fs) (repo repo' : Repo) : Type 0 where
      pub oid : Oid
      pub parsed : oid_fromstr fs.commit_oid_hex ≡ some oid
      pub allowed : (is_some (reference_lookup repo (refname d name)) && not d.writable) ≡ false
      pub made : reference_create repo (refname d name) oid true (codes "refdict: set") ≡ some repo'

    commit_hash-inv : (fs : Fs) {hex : Str} → commit_hash fs ≡ some hex → fs.commit_oid_hex ≡ hex
    unfolding commit_hash
    commit_hash-inv fs h = go (is_empty fs.commit_oid_hex) h
      where
        go :
            (b : Bool) {hex : Str}
            → (if b then none else some fs.commit_oid_hex) ≡ some hex
            → fs.commit_oid_hex ≡ hex
        go true h = cc
        go false h = cc

    pub set-inv :
        (d : RefDict) (name : Str) (fs : Fs) (repo : Repo) {u : Unit {0}} {repo' : Repo}
        → set p host d name fs repo ≡ (ok u, repo')
        → Stored d name fs repo repo'
    unfolding set set_target
    set-inv d name fs repo {u} {repo'} h =
        let (oid, repo₁, checked, made) =
          >>=-inv (reading (set_target p host d name fs)) _ repo h in
        let (target, same) = reading-inv (set_target p host d name fs) repo checked in
        let (_, valid, k1) = >>=-eq-ok (validate_ref_name name) _ target in
        let (_, here, k2) = >>=-eq-ok (check_repository p host d.inner fs.inner) _ k1 in
        let (hex, hash, k3) =
          >>=-eq-ok (need (commit_hash fs) (git_error (codes "Fs has no commit"))) _ k2 in
        let (_, free, k4) =
          >>=-eq-ok
            (throw_if (is_some (reference_lookup repo (refname d name)) && not d.writable) _) _
            k3 in
        record {
          oid = oid;
          parsed =
              subst (λ x. oid_fromstr x ≡ some oid) (sym (commit_hash-inv fs (need-inv _ _ hash)))
                (need-inv _ _ k4);
          allowed = throw_if-inv _ _ free;
          made =
              subst
                (λ r.
                  reference_create r (refname d name) oid true (codes "refdict: set") ≡ some repo')
                (sym same) (committing-inv p _ _ repo₁ made);
        }

    module _ (refs : RefLaws p) where
      -- What `set` stored is what `get` returns: once `set` returned, for a snapshot of a commit
      -- that is in the repository, `get` of that name returns that commit and its tree, and whether
      -- the snapshot can be written is the dictionary's.
      pub get-set :
          (d : RefDict) (name : Str) (fs : Fs) (repo repo' : Repo) (o : Oid) (c : Commit Oid)
          → fs.commit_oid_hex ≡ oid_tostr o
          → oid_fromstr fs.commit_oid_hex ≡ some o
          → commit_lookup repo o ≡ some c
          → set p host d name fs repo ≡ (ok tt, repo')
          → get p d name repo'
            ≡ ok (record {
              inner = d.inner;
              commit_oid_hex = fs.commit_oid_hex;
              tree_oid_hex = oid_tostr c.tree_id;
              ref_name = some name;
              writable = d.writable;
              changes = none;
            })
      unfolding get need
      get-set d name fs repo repo' o c printed parsed found h =
          let s = set-inv d name fs repo h in
          let same : s.oid ≡ o = cc (s.parsed, parsed) in
          let found' : commit_lookup repo s.oid ≡ some c = rw same found in
          let (r, looked, peeled) =
            refs.peel-create repo (refname d name) s.oid true (codes "refdict: set") repo' c found'
              s.made in
          let kept =
            (refs.create-Keeps repo (refname d name) s.oid true (codes "refdict: set") repo'
                s.made).commits
              s.oid c found' in
          rw (looked, peeled, kept, printed, same) refl
