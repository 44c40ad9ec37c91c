-- ===== src/Tree/Rebuild/Kept.antt =====
-- What `insert_subtrees` and `rebuild` leave behind: the subtrees in the builder, and every object
-- that was there before.
use vost.Common.{
  ℕ, zero, suc, ◌≡◌, ◌⊎◌, inl, inr, sym, subst, ap, ◌∙◌, some, List, [], ◌∷◌, ◌++◌, Str, Map,
}
use vost.Error.{ok, err≢ok}
use vost.Types.{mode_tree}
use vost.Platform.{Platform}
use vost.Platform.Laws.{Keeps, ObjectLaws, Keeps-refl, Keeps-trans}
use vost.Exec.{Exec, throw, >>=-inv, ret-inv}
use vost.Tree.Rebuild.{PendingWrite, insert_subtrees, rebuild}
use vost.Tree.Rebuild.Steps.{insert_entry-inv, rebuild-inv}
use vost.Tree.Rebuild.Inserts.{
  name_cases, tree_entry, Untouched, no_key-cons, get-insert_self, get-insert_other,
  insert_leaves-get,
}

module _ (p : Platform) (laws : ObjectLaws p) where
  open p use {Repo, Oid, Builder, oid_fromstr, treebuilder_get, treebuilder_insert}

  -- The builder holds a subtree that was rebuilt under the name, and its objects are kept.
  pub record Sub (rb : Str → List Str → Exec Repo Str) (π : List Str) (n : Str) (m : Map Str)
      (b : Builder) (repo' : Repo) : Type 0 where
    pub cur : Str
    pub r₁ : Repo
    pub r₂ : Repo
    pub new : Str
    pub oid : Oid
    pub run : rb cur (π ++ (n ∷ [])) r₁ ≡ (ok new, r₂)
    pub parsed : oid_fromstr new ≡ some oid
    pub got : treebuilder_get b n ≡ some (tree_entry p laws n oid mode_tree)
    pub kept : Keeps p r₂ repo'

  abbrev Keeping : (Str → List Str → Exec Repo Str) → Type 0
  Keeping rb =
      (cur : Str) (π : List Str) (repo : Repo) (new : Str) (repo' : Repo)
      → rb cur π repo ≡ (ok new, repo')
      → Keeps p repo repo'

  pub insert_subtrees-get :
      (rb : Str → List Str → Exec Repo Str) (π : List Str)
      → Keeping rb
      → (m : Map Str) (b : Builder) (repo : Repo) {b' : Builder} {repo' : Repo}
      → insert_subtrees p rb π m b repo ≡ (ok b', repo')
      → Keeps p repo repo' × ((n : Str) → Untouched p laws n m b b' ⊎ Sub rb π n m b' repo')
  unfolding insert_subtrees
  insert_subtrees-get rb π keeps [] b repo {b'} {repo'} h =
      let (e, q) = ret-inv b repo h in
      (
        subst (Keeps p repo) q (Keeps-refl p repo),
        λ n. inl (record { no_key = λ k. k.1; same = ap (λ x. treebuilder_get x n) (sym e) }),
      )
  insert_subtrees-get rb π keeps ((k, cur) ∷ m) b repo {b'} {repo'} h =
      let (new, r₁, e₁, h₁) = >>=-inv _ _ repo h in
      let (b₁, r₂, e₂, h₂) = >>=-inv _ _ r₁ h₁ in
      let (o, parsed, q, ins) = insert_entry-inv p b k new mode_tree _ r₁ e₂ in
      let (kept, ih) = insert_subtrees-get rb π keeps m b₁ r₂ h₂ in
      let kept' : Keeps p r₁ repo' = subst (λ r. Keeps p r repo') (sym q) kept in
      (
        Keeps-trans p (keeps cur (π ++ (k ∷ [])) repo new r₁ e₁) kept',
        λ n. step b₁ new r₁ o e₁ parsed ins kept' n (ih n),
      )
    where
      step :
          (b₁ : Builder) (new : Str) (r₁ : Repo) (o : Oid)
          → rb cur (π ++ (k ∷ [])) repo ≡ (ok new, r₁)
          → oid_fromstr new ≡ some o
          → treebuilder_insert r₁ b k o mode_tree ≡ some b₁
          → Keeps p r₁ repo'
          → (n : Str) → Untouched p laws n m b₁ b' ⊎ Sub rb π n m b' repo'
          → Untouched p laws n ((k, cur) ∷ m) b b' ⊎ Sub rb π n ((k, cur) ∷ m) b' repo'
      step b₁ new r₁ o run parsed ins kept n (inr s) = inr (record {
        cur = s.cur;
        r₁ = s.r₁;
        r₂ = s.r₂;
        new = s.new;
        oid = s.oid;
        run = s.run;
        parsed = s.parsed;
        got = s.got;
        kept = s.kept;
      })
      step b₁ new r₁ o run parsed ins kept n (inl u) = elim (name_cases k n) [
        | inl (e, t) ↦ inr (record {
          cur = cur;
          r₁ = repo;
          r₂ = r₁;
          new = new;
          oid = o;
          run = subst (λ x. rb cur (π ++ (x ∷ [])) repo ≡ (ok new, r₁)) e run;
          parsed = parsed;
          got = u.same ∙ get-insert_self p laws r₁ b b₁ k o mode_tree n ins e;
          kept = kept;
        })
        | inr (ne, t) ↦ inl (record {
          no_key = no_key-cons p laws n k cur m ne u.no_key;
          same = u.same ∙ get-insert_other p laws r₁ b b₁ k o mode_tree n ins t;
        })
      ]

  pub no_fuel :
      (W : List PendingWrite) (R : List (List Str)) (cur : Str) (π : List Str) (repo : Repo)
      {new : Str} {repo' : Repo}
      → ¬ (rebuild p zero W R cur π repo ≡ (ok new, repo'))
  unfolding rebuild throw
  no_fuel W R cur π repo h = err≢ok (ap (λ x. x.0) h)

  -- No object goes away while a tree is rebuilt.
  pub rebuild-Keeps :
      (W : List PendingWrite) (R : List (List Str)) (fuel : ℕ) → Keeping (rebuild p fuel W R)
  rebuild-Keeps W R zero cur π repo new repo' h = absurd (no_fuel W R cur π repo h)
  rebuild-Keeps W R (suc fuel) cur π repo new repo' h =
      let r = rebuild-inv p W R fuel cur π repo h in
      let (kept, subs) =
        insert_subtrees-get (rebuild p fuel W R) π (rebuild-Keeps W R fuel) _ _ repo r.subtrees in
      let (q, leaves) = insert_leaves-get p laws _ r.b₂ r.r₂ r.leaves in
      Keeps-trans p kept (
        Keeps-trans p (subst (Keeps p r.r₂) q (Keeps-refl p r.r₂))
          (laws.write-Keeps r.r₃ r.b₃ r.oid repo' r.written))
