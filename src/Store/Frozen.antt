-- ===== src/Store/Frozen.antt =====
-- `RefDict` of cpp/src/gitstore.cpp: the dictionary of the tags only grows by `set`.
use vost.Common.{
  ◌≡◌, refl, sym, ap, subst, ◌⊎◌, inl, inr, true, false, not, ◌&&◌, Option, none, some, List, [],
  ◌∷◌, Str, codes,
}
use vost.Error.{Error, Result, ok, err, >>=-eq-ok}
use vost.Types.{is_some}
use vost.Platform.{Platform, Commit}
use vost.Platform.Host.{Host}
use vost.Platform.Laws.{RefLaws}
use vost.Exec.{Exec, ◌>>=◌, reading, after}
use vost.Exec.Refused.{Refused}
use vost.Tree.Read.{need, need-inv}
use vost.Fs.{Inner, Fs}
use vost.Fs.Commit.{committing}
use vost.Store.RefDict.{RefDict, tags, refname, get, contains, set, set_target}
use vost.Store.Refs.{set-inv}

module _ (p : Platform) where
  open p use {
    Repo, Oid, oid_tostr, commit_lookup, reference_lookup, reference_peel, reference_create,
  }

  -- What a call of `get` that returned has read.
  pub record IsGot (d : RefDict) (name : Str) (repo : Repo) (fs : Fs) : Type 0 where
    pub ref : p.Reference
    pub oid : Oid
    pub commit : Commit Oid
    pub looked : reference_lookup repo (refname d name) ≡ some ref
    pub peeled : reference_peel repo ref ≡ some oid
    pub found : commit_lookup repo oid ≡ some commit
    pub result :
        record {
          inner = d.inner;
          commit_oid_hex = oid_tostr oid;
          tree_oid_hex = oid_tostr commit.tree_id;
          ref_name = some name;
          writable = d.writable;
          changes = none;
        }
        ≡ fs

  pub get-inv :
      (d : RefDict) (name : Str) (repo : Repo) {fs : Fs}
      → get p d name repo ≡ ok fs
      → IsGot d name repo fs
  unfolding get
  get-inv d name repo h =
      let (ref, looked, k1) = >>=-eq-ok (need (reference_lookup repo (refname d name)) _) _ h in
      let (oid, peeled, k2) = >>=-eq-ok (need (reference_peel repo ref) _) _ k1 in
      let (commit, found, k3) = >>=-eq-ok (need (commit_lookup repo oid) _) _ k2 in
      record {
        ref = ref;
        oid = oid;
        commit = commit;
        looked = need-inv _ _ looked;
        peeled = need-inv _ _ peeled;
        found = need-inv _ _ found;
        result = cc k3;
      }

  get-eq :
      (d : RefDict) (name : Str) (repo repo' : Repo) (fs : Fs) (g : IsGot d name repo fs)
      → reference_lookup repo' (refname d name) ≡ some g.ref
      → reference_peel repo' g.ref ≡ some g.oid
      → commit_lookup repo' g.oid ≡ some g.commit
      → get p d name repo' ≡ ok fs
  unfolding get need
  get-eq d name repo repo' fs g looked peeled found = rw (looked, peeled, found) (ap ok g.result)

  committing-cases :
      (call : Repo → Option Repo) (e : Error) (repo : Repo)
      → ((committing p call e repo).1 ≡ repo)
        ⊎ ((repo' : Repo) × (committing p call e repo ≡ (ok tt, repo')))
  unfolding committing
  committing-cases call e repo = go (call repo)
    where
      go :
          (o : Option Repo)
          → let r : Result (Unit {0}) × Repo = elim o [
            | none ↦ (err e, repo)
            | some s ↦ (ok tt, s)
          ] in
            (r.1 ≡ repo) ⊎ ((repo' : Repo) × (r ≡ (ok tt, repo')))
      go none = inl refl
      go (some s) = inr (s, refl)

  after-cases :
      {A : Type 0} (r : Result A) (repo : Repo) (f : A → Exec Repo (Unit {0}))
      → ((a : A) → ((f a repo).1 ≡ repo) ⊎ ((repo' : Repo) × (f a repo ≡ (ok tt, repo'))))
      → ((after r repo f).1 ≡ repo) ⊎ ((repo' : Repo) × (after r repo f ≡ (ok tt, repo')))
  after-cases (ok a) repo f h = h a
  after-cases (err e) repo f h = inl refl

  module _ (host : Host p) where
    set-cases :
        (d : RefDict) (name : Str) (fs : Fs) (repo : Repo)
        → ((set p host d name fs repo).1 ≡ repo)
          ⊎ ((repo' : Repo) × (set p host d name fs repo ≡ (ok tt, repo')))
    unfolding set ◌>>=◌ reading
    set-cases d name fs repo =
        after-cases (set_target p host d name fs repo) repo _ (λ o. committing-cases _ _ repo)

    -- A tag that is there is not written over: `set` throws, whatever the name and the snapshot are,
    -- and leaves the repository as it was.
    pub set-Refused :
        (inner : Inner) (name : Str) (fs : Fs) (repo : Repo)
        → contains p (tags inner) name repo ≡ true
        → Refused (set p host (tags inner) name fs) repo
    unfolding contains tags
    set-Refused inner name fs repo there = elim (set-cases (tags inner) name fs repo) [
      | inl same ↦ (
        same,
        λ u h.
            never u (set p host (tags inner) name fs repo).1
              (ap (λ r. (r, (set p host (tags inner) name fs repo).1)) h),
      )
      | inr (repo', done) ↦ absurd (never tt repo' done)
    ]
      where
        never :
            (u : Unit {0}) (repo' : Repo) → ¬ (set p host (tags inner) name fs repo ≡ (ok u, repo'))
        never u repo' done =
            let s = set-inv p host (tags inner) name fs repo done in
            none_there (reference_lookup repo (refname (tags inner) name)) there s.allowed
          where
            none_there :
                (o : Option p.Reference)
                → is_some o ≡ true
                → ¬ ((is_some o && not (tags inner).writable) ≡ false)
            none_there none h k = cc
            none_there (some r) h k = cc

    -- Calls of `set` on the tags, one after the other, whether they return or throw.
    unfoldable pub set_tags : Inner → List (Str × Fs) → Repo → Repo
    unfolding set tags
    set_tags inner [] repo = repo
    set_tags inner ((name, fs) ∷ calls) repo =
        set_tags inner calls (set p host (tags inner) name fs repo).1

    -- What `set` lets through on the tags is not there yet.
    absent :
        (inner : Inner) (o : Option p.Reference)
        → (is_some o && not (tags inner).writable) ≡ false
        → o ≡ none
    unfolding tags
    absent inner none h = refl
    absent inner (some r) h = cc

    module _ (refs : RefLaws p) where
      kept_by_set :
          (inner : Inner) (name other : Str) (fs fs' : Fs) (repo : Repo)
          → get p (tags inner) name repo ≡ ok fs
          → get p (tags inner) name (set p host (tags inner) other fs' repo).1 ≡ ok fs
      kept_by_set inner name other fs fs' repo h = elim (set-cases (tags inner) other fs' repo) [
        | inl same ↦ subst (λ r. get p (tags inner) name r ≡ ok fs) (sym same) h
        | inr (repo', done) ↦
            let g = get-inv (tags inner) name repo h in
            let s = set-inv p host (tags inner) other fs' repo done in
            let free =
              absent inner (reference_lookup repo (refname (tags inner) other)) s.allowed in
            let full = refname (tags inner) other in
            let message = codes "refdict: set" in
            subst (λ (r : Result (Unit {0}) × Repo). get p (tags inner) name r.1 ≡ ok fs) (sym done)
              (get-eq (tags inner) name repo repo' fs g
                (refs.lookup-create_new repo full s.oid true message repo' _ g.ref s.made free
                  g.looked)
                (refs.peel-create_new repo full s.oid true message repo' _ g.ref g.oid s.made free
                  g.looked g.peeled)
                ((refs.create-Keeps repo full s.oid true message repo' s.made).commits g.oid
                  g.commit g.found))
      ]

      -- A tag never moves by `set`: whatever calls of `set` on the tags follow, of any names and
      -- snapshots, whether they return or throw, `get` still returns what it returned before.
      pub get-set_tags :
          (inner : Inner) (name : Str) (fs : Fs) (calls : List (Str × Fs)) (repo : Repo)
          → get p (tags inner) name repo ≡ ok fs
          → get p (tags inner) name (set_tags inner calls repo) ≡ ok fs
      unfolding set_tags
      get-set_tags inner name fs [] repo h = h
      get-set_tags inner name fs ((other, fs') ∷ calls) repo h =
          get-set_tags inner name fs calls (set p host (tags inner) other fs' repo).1
            (kept_by_set inner name other fs fs' repo h)
