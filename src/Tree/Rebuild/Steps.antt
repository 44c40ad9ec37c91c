-- ===== src/Tree/Rebuild/Steps.antt =====
-- Successful runs of `rebuild` taken apart into their steps.
use mathlib.Core.Path.{ap₂}
use vost.Common.{
  ℕ, suc, ◌≡◌, refl, sym, subst, ◌∙◌, ap, Option, none, some, List, [], ◌∷◌, ◌++◌, Str, arith, map,
  length, ◌+◌,
}
use vost.Error.{Error, Result, ok, err, err≢ok, ok-injective}
use vost.Paths.{segments}
use vost.Platform.{Platform}
use vost.Exec.{>>=-inv, lift-inv, reading-inv, ret-inv}
use vost.Tree.Read.{need-inv, hex_to_oid}
use vost.Tree.Rebuild.{
  PendingWrite, writing, insert_entry, insert_subtrees, insert_leaves, base_builder, collect_writes,
  collect_removes, rebuild, no_level, Write, rebuild_tree, rounds,
}

module _ (p : Platform) where
  open p use {
    Repo, Oid, Tree, Builder, oid_fromstr, oid_tostr, tree_lookup, treebuilder_new, treebuilder_get,
    treebuilder_insert, treebuilder_remove, treebuilder_write, blob_create_from_buffer,
  }

  pub insert_entry-inv :
      (b : Builder) (name hex : Str) (mode : ℕ) (context : Str) (repo : Repo) {b' : Builder}
      {repo' : Repo}
      → insert_entry p b name hex mode context repo ≡ (ok b', repo')
      → (o : Oid) × (oid_fromstr hex ≡ some o)
        × (repo ≡ repo')
        × (treebuilder_insert repo b name o mode ≡ some b')
  unfolding insert_entry hex_to_oid
  insert_entry-inv b name hex mode context repo {b'} h =
      let (o, r, e, g) = >>=-inv _ _ repo h in
      let (e₁, e₂) = lift-inv _ repo e in
      let (g₁, g₂) = reading-inv _ r g in
      (
        o,
        need-inv _ _ e₁,
        e₂ ∙ g₂,
        subst (λ x. treebuilder_insert x b name o mode ≡ some b') (sym e₂) (need-inv _ _ g₁),
      )

  pub writing-inv :
      {A : Type 0} (call : Repo → Option (A × Repo)) (e : Error) (repo : Repo) {a : A}
      {repo' : Repo}
      → writing p call e repo ≡ (ok a, repo')
      → call repo ≡ some (a, repo')
  unfolding writing
  writing-inv {A} call e repo {a} {repo'} h = go (call repo) h
    where
      go :
          (o : Option (A × Repo))
          → ◌≡◌ {A = Result A × Repo}
              (elim o [ none ↦ (err e, repo) | some r ↦ (ok r.0, r.1) ])
              (ok a, repo')
          → o ≡ some (a, repo')
      go none q = absurd (err≢ok (ap (λ x. x.0) q))
      go (some (a', r)) q =
          ap₂ (λ x y. some (x, y)) (ok-injective (ap (λ x. x.0) q)) (ap (λ x. x.1) q)

  -- The repository and the builders between the steps of a round.
  pub record Round (W : List PendingWrite) (R : List (List Str)) (fuel : ℕ) (cur : Str)
      (π : List Str) (repo : Repo) (hex : Str) (repo' : Repo) : Type 0 where
    pub b₀ : Builder
    pub b₂ : Builder
    pub b₃ : Builder
    pub r₂ : Repo
    pub r₃ : Repo
    pub oid : Oid
    pub based : base_builder p repo cur ≡ ok b₀
    pub subtrees :
        insert_subtrees p
          (rebuild p fuel W R)
          π
          (collect_removes p π R (b₀, (collect_writes p b₀ π W no_level).subtrees)).1
          (collect_removes p π R (b₀, (collect_writes p b₀ π W no_level).subtrees)).0
          repo
        ≡ (ok b₂, r₂)
    pub leaves : insert_leaves p (collect_writes p b₀ π W no_level).inserts b₂ r₂ ≡ (ok b₃, r₃)
    pub written : treebuilder_write r₃ b₃ ≡ some (oid, repo')
    pub named : hex ≡ oid_tostr oid

  pub rebuild-inv :
      (W : List PendingWrite) (R : List (List Str)) (fuel : ℕ) (cur : Str) (π : List Str)
      (repo : Repo) {hex : Str} {repo' : Repo}
      → rebuild p (suc fuel) W R cur π repo ≡ (ok hex, repo')
      → Round W R fuel cur π repo hex repo'
  unfolding rebuild
  rebuild-inv W R fuel cur π repo {hex} {repo'} h =
      let (b₀, r₀, e₀, h₁) = >>=-inv _ _ repo h in
      let (based, q₀) = reading-inv _ repo e₀ in
      let (b₂, r₂, e₂, h₂) = >>=-inv _ _ r₀ h₁ in
      let (b₃, r₃, e₃, h₃) = >>=-inv _ _ r₂ h₂ in
      let (oid, r₄, e₄, h₄) = >>=-inv _ _ r₃ h₃ in
      let (named, q₄) = ret-inv _ r₄ h₄ in
      record {
        b₀ = b₀;
        b₂ = b₂;
        b₃ = b₃;
        r₂ = r₂;
        r₃ = r₃;
        oid = oid;
        based = based;
        subtrees = rw q₀ e₂;
        leaves = e₃;
        written = subst (λ r. treebuilder_write r₃ b₃ ≡ some (oid, r)) q₄ (writing-inv _ _ r₃ e₄);
        named = sym named;
      }

  pub rounds-suc : (paths : List (List Str)) → (k : ℕ) × (rounds paths ≡ suc k)
  unfolding rounds
  rounds-suc [] = (0, refl)
  rounds-suc (segs ∷ paths) = (length segs + rounds paths, omega arith)

  -- A tree that `rebuild_tree` returned is named by the hash of an object.
  pub rebuild_tree-named :
      (base : Str) (writes : List Write) (removes : List Str) (repo : Repo) {hex : Str}
      {repo' : Repo}
      → rebuild_tree p base writes removes repo ≡ (ok hex, repo')
      → (o : Oid) × (hex ≡ oid_tostr o)
  unfolding rebuild_tree
  rebuild_tree-named base writes removes repo {hex} {repo'} h =
      let (pending, r₀, e₀, h₁) = >>=-inv _ _ repo h in
      let R = map segments removes in
      let paths = map (λ (pw : PendingWrite). pw.segs) pending ++ R in
      let (k, q) = rounds-suc paths in
      let h₂ : rebuild p (suc k) pending R base [] r₀ ≡ (ok hex, repo') =
        subst (λ n. rebuild p n pending R base [] r₀ ≡ (ok hex, repo')) q h₁ in
      let round = rebuild-inv pending R k base [] r₀ h₂ in (round.oid, round.named)
