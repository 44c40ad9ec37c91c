-- ===== src/Tree/Rebuild/Stops.antt =====
-- The calls that `rebuild_tree` of cpp/src/tree.cpp makes do not run out of the model's fuel.
use vost.Common.{
  ℕ, ◌≡◌, refl, Bool, true, false, Option, none, some, List, [], ◌∷◌, ◌++◌, Str, codes, str_eq,
  if◌then◌else◌, Map,
}
use vost.Error.{Error, Result, ok, err, git_error, invalid_hash, out_of_fuel}
use vost.Types.{mode_tree}
use vost.Platform.{Platform}
use vost.Exec.{Exec, ret, reading, lift, ◌>>=◌, after}
use vost.Tree.Read.{need, hex_to_oid}
use vost.Tree.Rebuild.{
  Write, writing, write_blobs, base_builder, insert_entry, insert_subtrees, insert_leaves, zeros,
}

-- The result is not the error of the model's own.
abbrev is_thrown : Error → Bool
is_thrown out_of_fuel = false
is_thrown _ = true

abbrev pub fuelled : {A : Type 0} → Result A → Bool
fuelled (ok a) = true
fuelled (err e) = is_thrown e

need-fuelled : {A : Type 0} (o : Option A) (s : Str) → fuelled (need o (git_error s)) ≡ true
unfolding need
need-fuelled none s = refl
need-fuelled (some a) s = refl

-- Code that never runs out of fuel.
abbrev pub Stops : {S A : Type 0} → Exec S A → Type 0
Stops {S} m = (s : S) → fuelled (m s).0 ≡ true

module _ {S A B : Type 0} where
  after-Stops :
      (r : Result A) (s : S) (f : A → Exec S B)
      → fuelled r ≡ true
      → ((a : A) → Stops (f a))
      → fuelled (after r s f).0 ≡ true
  after-Stops (ok a) s f h k = k a s
  after-Stops (err e) s f h k = h

  pub >>=-Stops :
      (m : Exec S A) (f : A → Exec S B) → Stops m → ((a : A) → Stops (f a)) → Stops (m >>= f)
  unfolding ◌>>=◌
  >>=-Stops m f h k s = after-Stops (m s).0 (m s).1 f (h s) k

module _ (p : Platform) where
  open p use {Repo, Oid, Builder, oid_fromstr}

  pub reading-Stops :
      {A : Type 0} (f : Repo → Result A)
      → ((repo : Repo) → fuelled (f repo) ≡ true)
      → Stops (reading f)
  unfolding reading
  reading-Stops f h repo = h repo

  pub ret-Stops : {A : Type 0} (a : A) → Stops {S = Repo} (ret a)
  unfolding ret
  ret-Stops a repo = refl

  pub writing-Stops :
      {A : Type 0} (call : Repo → Option (A × Repo)) (s : Str)
      → Stops (writing p call (git_error s))
  unfolding writing
  writing-Stops {A} call s repo = go (call repo)
    where
      go :
          (o : Option (A × Repo))
          → fuelled
              (elim o as (λ x. Result A × Repo) [
                | none ↦ (err (git_error s), repo)
                | some r ↦ (ok r.0, r.1)
              ]).0
            ≡ true
      go none = refl
      go (some r) = refl

  pub write_blobs-Stops : (ws : List Write) → Stops (write_blobs p ws)
  unfolding write_blobs
  write_blobs-Stops [] = ret-Stops []
  write_blobs-Stops (w ∷ ws) =
      >>=-Stops _ _ (writing-Stops _ (codes "git_blob_create_from_buffer"))
        (λ oid. >>=-Stops _ _ (write_blobs-Stops ws) (λ rest. ret-Stops _))

  hex_to_oid-fuelled : (hex : Str) → fuelled (hex_to_oid p hex) ≡ true
  unfolding hex_to_oid need
  hex_to_oid-fuelled hex = go (oid_fromstr hex)
    where
      go : (o : Option Oid) → fuelled (need o (invalid_hash hex)) ≡ true
      go none = refl
      go (some a) = refl

  pub base_builder-fuelled : (hex : Str) (repo : Repo) → fuelled (base_builder p repo hex) ≡ true
  unfolding base_builder
  base_builder-fuelled hex repo = go (hex_to_oid p hex) (hex_to_oid-fuelled hex)
    where
      go :
          (r : Result Oid)
          → fuelled r ≡ true
          → fuelled (elim r as (λ x. Result Builder) [
            | err e ↦ err e
            | ok oid ↦
                need
                  (p.treebuilder_new repo
                    (if str_eq hex zeros then none else p.tree_lookup repo oid))
                  (git_error (codes "git_treebuilder_new"))
          ])
            ≡ true
      go (err e) h = h
      go (ok oid) h = need-fuelled _ (codes "git_treebuilder_new")

  insert_entry-Stops :
      (b : Builder) (name hex : Str) (mode : ℕ) (context : Str)
      → Stops (insert_entry p b name hex mode context)
  unfolding insert_entry lift
  insert_entry-Stops b name hex mode context =
      >>=-Stops (lift (hex_to_oid p hex)) _ (λ repo. hex_to_oid-fuelled hex)
        (λ oid. reading-Stops _ (λ repo. need-fuelled _ context))

  pub insert_subtrees-Stops :
      (run : Str → List Str → Exec Repo Str) (prefix : List Str) (subs : Map Str) (b : Builder)
      → ((hex name : Str) → Stops (run hex (prefix ++ (name ∷ []))))
      → Stops (insert_subtrees p run prefix subs b)
  unfolding insert_subtrees
  insert_subtrees-Stops run prefix [] b h = ret-Stops b
  insert_subtrees-Stops run prefix ((name, hex) ∷ subs) b h = >>=-Stops _ _ (h hex name) (λ new.
      >>=-Stops _ _
        (insert_entry-Stops b name new mode_tree (codes "git_treebuilder_insert subtree"))
        (λ b'. insert_subtrees-Stops run prefix subs b' h))

  pub no_subtrees-Stops :
      (run : Str → List Str → Exec Repo Str) (prefix : List Str) (subs : Map Str) (b : Builder)
      → subs ≡ []
      → Stops (insert_subtrees p run prefix subs b)
  unfolding insert_subtrees
  no_subtrees-Stops run prefix subs b e = rw e (ret-Stops b)

  pub insert_leaves-Stops : (m : Map (Str × ℕ)) (b : Builder) → Stops (insert_leaves p m b)
  unfolding insert_leaves
  insert_leaves-Stops [] b = ret-Stops b
  insert_leaves-Stops ((name, (hex, mode)) ∷ rest) b =
      >>=-Stops _ _ (insert_entry-Stops b name hex mode (codes "git_treebuilder_insert blob"))
        (λ b'. insert_leaves-Stops rest b')
