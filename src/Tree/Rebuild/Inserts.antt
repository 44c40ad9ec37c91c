-- ===== src/Tree/Rebuild/Inserts.antt =====
-- What a builder holds after `insert_subtrees` and `insert_leaves`.
use vost.Common.{
  ℕ, ◌≡◌, ◌⊎◌, inl, inr, refl, sym, ap, ◌∙◌, true, false, some, [], ◌∷◌, Str, str_eq, str_eq→eq,
  eq→str_eq, Map, Entry, HasKey, Bool-cases, arith,
}
use vost.Error.{ok}
use vost.Platform.{Platform, TreeEntry}
use vost.Platform.Laws.{ObjectLaws}
use vost.Exec.{>>=-inv, ret-inv}
use vost.Tree.Rebuild.{insert_leaves}
use vost.Tree.Rebuild.Steps.{insert_entry-inv}

-- A test of two names, as an equation or its refutation.
pub name_cases :
    (s t : Str) → ((s ≡ t) × (str_eq s t ≡ true)) ⊎ ((¬ (s ≡ t)) × (str_eq s t ≡ false))
name_cases s t = elim (Bool-cases (str_eq s t)) [
  | inl e ↦ inl (str_eq→eq s t e, e)
  | inr e ↦ inr (λ q. absurd (ground (arith, eq→str_eq s t q, e)), e)
]

module _ (p : Platform) (laws : ObjectLaws p) where
  open p use {Repo, Oid, Builder, oid_fromstr, treebuilder_get, treebuilder_insert}

  abbrev pub tree_entry : Str → Oid → ℕ → TreeEntry Oid
  tree_entry n o mode = record { name = n; id = o; filemode = mode }

  -- The builder holds the entry of a leaf write under the name.
  pub record Leaf (n : Str) (m : Map (Str × ℕ)) (b : Builder) : Type 0 where
    pub hex : Str
    pub mode : ℕ
    pub oid : Oid
    pub entry : Entry n (hex, mode) m
    pub parsed : oid_fromstr hex ≡ some oid
    pub got : treebuilder_get b n ≡ some (tree_entry n oid mode)

  -- The builder holds what it held before under a name that the map does not have.
  pub record Untouched {V : Type 0} (n : Str) (m : Map V) (b b' : Builder) : Type 0 where
    pub no_key : ¬ HasKey n m
    pub same : treebuilder_get b' n ≡ treebuilder_get b n

  pub no_key-cons :
      {V : Type 0} (n k : Str) (v : V) (m : Map V)
      → ¬ (k ≡ n)
      → ¬ HasKey n m
      → ¬ HasKey n ((k, v) ∷ m)
  no_key-cons n k v m ne no_key (w, inl q) = ne q.0
  no_key-cons n k v m ne no_key (w, inr t) = no_key (w, t)

  pub get-insert_self :
      (repo : Repo) (b b' : Builder) (k : Str) (o : Oid) (mode : ℕ) (n : Str)
      → treebuilder_insert repo b k o mode ≡ some b'
      → k ≡ n
      → treebuilder_get b' n ≡ some (tree_entry n o mode)
  get-insert_self repo b b' k o mode n h e =
      laws.get-insert repo b b' k o mode n h
      ∙ rw (eq→str_eq k n e) (ap (λ x. some (tree_entry x o mode)) e)

  pub get-insert_other :
      (repo : Repo) (b b' : Builder) (k : Str) (o : Oid) (mode : ℕ) (n : Str)
      → treebuilder_insert repo b k o mode ≡ some b'
      → str_eq k n ≡ false
      → treebuilder_get b' n ≡ treebuilder_get b n
  get-insert_other repo b b' k o mode n h e = laws.get-insert repo b b' k o mode n h ∙ rw e

  pub insert_leaves-get :
      (m : Map (Str × ℕ)) (b : Builder) (repo : Repo) {b' : Builder} {repo' : Repo}
      → insert_leaves p m b repo ≡ (ok b', repo')
      → (repo ≡ repo') × ((n : Str) → Untouched n m b b' ⊎ Leaf n m b')
  unfolding insert_leaves
  insert_leaves-get [] b repo {b'} h =
      let (e, q) = ret-inv b repo h in
      (q, λ n. inl (record { no_key = λ k. k.1; same = ap (λ x. treebuilder_get x n) (sym e) }))
  insert_leaves-get ((k, (hex, mode)) ∷ m) b repo {b'} {repo'} h =
      let (b₁, r₁, e₁, h₁) = >>=-inv _ _ repo h in
      let (o, parsed, q, ins) = insert_entry-inv p b k hex mode _ repo e₁ in
      let (q', ih) = insert_leaves-get m b₁ r₁ h₁ in (q ∙ q', λ n. step b₁ o parsed ins n (ih n))
    where
      step :
          (b₁ : Builder) (o : Oid)
          → oid_fromstr hex ≡ some o
          → treebuilder_insert repo b k o mode ≡ some b₁
          → (n : Str) → Untouched n m b₁ b' ⊎ Leaf n m b'
          → Untouched n ((k, (hex, mode)) ∷ m) b b' ⊎ Leaf n ((k, (hex, mode)) ∷ m) b'
      step b₁ o parsed ins n (inr l) = inr (record {
        hex = l.hex;
        mode = l.mode;
        oid = l.oid;
        entry = inr l.entry;
        parsed = l.parsed;
        got = l.got;
      })
      step b₁ o parsed ins n (inl u) = elim (name_cases k n) [
        | inl (e, t) ↦ inr (record {
          hex = hex;
          mode = mode;
          oid = o;
          entry = inl (e, refl);
          parsed = parsed;
          got = u.same ∙ get-insert_self repo b b₁ k o mode n ins e;
        })
        | inr (ne, t) ↦ inl (record {
          no_key = no_key-cons n k (hex, mode) m ne u.no_key;
          same = u.same ∙ get-insert_other repo b b₁ k o mode n ins t;
        })
      ]
