-- ===== src/Tree/Rebuild/Terminates.antt =====
-- The fuel of the model of `rebuild_tree` of cpp/src/tree.cpp is enough for any input.
use vost.Common.{
  ℕ, zero, suc, ◌+◌, ◌≤◌, ◌<◌, ◌≡◌, ◌≢◌, refl, sym, ap, ◌∙◌, ◌⊎◌, inl, inr, true, false, Option,
  none, some, List, [], ◌∷◌, ◌++◌, Str, codes, map, length, length-append, Map, All, arith,
}
use vost.Error.{err, out_of_fuel}
use vost.Paths.{segments}
use vost.Platform.{Platform}
use vost.Tree.Rebuild.{
  PendingWrite, Write, Level, no_level, below_prefix, rounds, collect_write, collect_writes,
  collect_remove, collect_removes, rebuild, rebuild_tree,
}
use vost.Tree.Rebuild.Stops.{
  fuelled, Stops, >>=-Stops, reading-Stops, ret-Stops, writing-Stops, write_blobs-Stops,
  base_builder-fuelled, insert_subtrees-Stops, no_subtrees-Stops, insert_leaves-Stops,
}
use vost.Tree.Rebuild.Collect.{below_prefix-eq}

-- Every path is shorter than `bound`.
abbrev Below : ℕ → List (List Str) → Type 0
Below bound paths = All (λ segs. length segs < bound) paths

-- A subtree is only recorded where a path goes on below it.
abbrev Deep : ℕ → List Str → Map Str → Type 0
Deep bound prefix subs = (subs ≡ []) ⊎ (length prefix + 2 < bound)

below_prefix-deep :
    (bound : ℕ) (prefix segs : List Str) {name d : Str} {ds : List Str}
    → length segs < bound
    → below_prefix prefix segs ≡ some (name, d ∷ ds)
    → length prefix + 2 < bound
below_prefix-deep bound prefix segs {name} {d} {ds} h e =
    let n : length segs ≡ length prefix + length (name ∷ d ∷ ds) =
      ap length (below_prefix-eq prefix segs e) ∙ length-append prefix (name ∷ d ∷ ds) in
    far (length segs) (length ds) n h
  where
    far : (n m : ℕ) → n ≡ length prefix + suc (suc m) → n < bound → length prefix + 2 < bound
    far n m e h = omega (arith, e, h)

module _ (p : Platform) where
  open p use {Repo, Oid, Builder}

  collect_write-Deep :
      (b : Builder) (bound : ℕ) (prefix : List Str) (pw : PendingWrite)
      (o : Option (Str × List Str)) (l : Level)
      → below_prefix prefix pw.segs ≡ o
      → length pw.segs < bound
      → Deep bound prefix l.subtrees
      → Deep bound prefix (collect_write p b pw o l).subtrees
  unfolding collect_write
  collect_write-Deep b bound prefix pw none l e h d = d
  collect_write-Deep b bound prefix pw (some (name, [])) l e h d = d
  collect_write-Deep b bound prefix pw (some (name, x ∷ xs)) l e h d =
      inr (below_prefix-deep bound prefix pw.segs h e)

  collect_writes-Deep :
      (b : Builder) (bound : ℕ) (prefix : List Str) (pws : List PendingWrite) (l : Level)
      → Below bound (map (λ (pw : PendingWrite). pw.segs) pws)
      → Deep bound prefix l.subtrees
      → Deep bound prefix (collect_writes p b prefix pws l).subtrees
  unfolding collect_writes
  collect_writes-Deep b bound prefix [] l h d = d
  collect_writes-Deep b bound prefix (pw ∷ pws) l (h, hs) d =
      collect_writes-Deep b bound prefix pws _ hs
        (collect_write-Deep b bound prefix pw (below_prefix prefix pw.segs) l refl h d)

  collect_remove-Deep :
      (bound : ℕ) (prefix segs : List Str) (o : Option (Str × List Str)) (b : Builder)
      (subs : Map Str)
      → below_prefix prefix segs ≡ o
      → length segs < bound
      → Deep bound prefix subs
      → Deep bound prefix (collect_remove p o (b, subs)).1
  unfolding collect_remove
  collect_remove-Deep bound prefix segs none b subs e h d = d
  collect_remove-Deep bound prefix segs (some (name, [])) b subs e h d = d
  collect_remove-Deep bound prefix segs (some (name, x ∷ xs)) b subs e h d =
      inr (below_prefix-deep bound prefix segs h e)

  collect_removes-Deep :
      (bound : ℕ) (prefix : List Str) (rvs : List (List Str)) (s : Builder × Map Str)
      → Below bound rvs
      → Deep bound prefix s.1
      → Deep bound prefix (collect_removes p prefix rvs s).1
  unfolding collect_removes
  collect_removes-Deep bound prefix [] s h d = d
  collect_removes-Deep bound prefix (rv ∷ rvs) (b, subs) (h, hs) d =
      collect_removes-Deep bound prefix rvs _ hs
        (collect_remove-Deep bound prefix rv (below_prefix prefix rv) b subs refl h d)

  deeper :
      (prefix : List Str) (name : Str) (fuel bound : ℕ)
      → bound ≤ length prefix + suc fuel
      → bound ≤ length (prefix ++ (name ∷ [])) + fuel
  deeper prefix name fuel bound h = omega (arith, h, length-append prefix (name ∷ []))

  enough : (n fuel bound : ℕ) → bound ≤ n + suc fuel → n + 2 < bound → 1 ≤ fuel
  enough n fuel bound h k = omega (arith, h, k)

  rebuild-Stops :
      (fuel bound : ℕ) (pending : List PendingWrite) (rvs : List (List Str)) (cur : Str)
      (prefix : List Str)
      → Below bound (map (λ (pw : PendingWrite). pw.segs) pending)
      → Below bound rvs
      → bound ≤ length prefix + fuel
      → 1 ≤ fuel
      → Stops (rebuild p fuel pending rvs cur prefix)
  unfolding rebuild
  rebuild-Stops zero bound pending rvs cur prefix hw hr d pos = absurd (never pos)
    where
      never : ¬ (1 ≤ 0)
      never h = omega (arith, h)
  rebuild-Stops (suc fuel) bound pending rvs cur prefix hw hr d pos =
      >>=-Stops _ _ (reading-Stops p _ (base_builder-fuelled p cur)) (λ b₀.
        let l = collect_writes p b₀ prefix pending no_level in
        let run = rebuild p fuel pending rvs in
        let (b₁, subs) = collect_removes p prefix rvs (b₀, l.subtrees) in
        let deep =
          collect_removes-Deep bound prefix rvs (b₀, l.subtrees) hr
            (collect_writes-Deep b₀ bound prefix pending no_level hw (inl refl)) in
        >>=-Stops _ _
          (elim deep [
            | inl nothing ↦ no_subtrees-Stops p run prefix subs b₁ nothing
            | inr far ↦ insert_subtrees-Stops p run prefix subs b₁ (λ hex name.
                rebuild-Stops fuel bound pending rvs hex (prefix ++ (name ∷ [])) hw hr
                  (deeper prefix name fuel bound d) (enough (length prefix) fuel bound d far))
          ])
          (λ b₂. >>=-Stops _ _ (insert_leaves-Stops p l.inserts b₂) (λ b₃.
            >>=-Stops _ _ (writing-Stops p _ (codes "git_treebuilder_write"))
              (λ oid. ret-Stops p _))))

  rounds-positive : (paths : List (List Str)) → 1 ≤ rounds paths
  unfolding rounds
  rounds-positive [] = omega arith
  rounds-positive (segs ∷ paths) = omega (arith, rounds-positive paths)

  Below-weaken : (m n : ℕ) (paths : List (List Str)) → m ≤ n → Below m paths → Below n paths
  Below-weaken m n [] h b = tt
  Below-weaken m n (segs ∷ paths) h (b, bs) = (omega (arith, h, b), Below-weaken m n paths h bs)

  rounds-Below : (paths : List (List Str)) → Below (rounds paths) paths
  unfolding rounds
  rounds-Below [] = tt
  rounds-Below (segs ∷ paths) = (
    omega (arith, rounds-positive paths),
    Below-weaken (rounds paths) (suc (length segs) + rounds paths) paths (omega arith)
        (rounds-Below paths),
  )

  Below-append : (n : ℕ) (xs ys : List (List Str)) → Below n (xs ++ ys) → Below n xs × Below n ys
  Below-append n [] ys b = (tt, b)
  Below-append n (x ∷ xs) ys (b, bs) = let (l, r) = Below-append n xs ys bs in ((b, l), r)

  rebuild_tree-Stops :
      (base : Str) (writes : List Write) (removes : List Str)
      → Stops (rebuild_tree p base writes removes)
  unfolding rebuild_tree
  rebuild_tree-Stops base writes removes = >>=-Stops _ _ (write_blobs-Stops p writes) (λ pending.
      let paths = map (λ (pw : PendingWrite). pw.segs) pending ++ map segments removes in
      let (w, r) =
        Below-append (rounds paths) (map (λ (pw : PendingWrite). pw.segs) pending)
          (map segments removes) (rounds-Below paths) in
      rebuild-Stops (rounds paths) (rounds paths) pending (map segments removes) base [] w r
        (omega arith) (rounds-positive paths))

  -- The recursion of `rebuild_tree` ends: for any base, writes and removes, in any repository, the
  -- model, whose fuel is computed from the paths, never runs out of it.
  pub rebuild_tree-terminates :
      (base : Str) (writes : List Write) (removes : List Str) (repo : Repo)
      → (rebuild_tree p base writes removes repo).0 ≢ err out_of_fuel
  rebuild_tree-terminates base writes removes repo h =
      clash (sym (rebuild_tree-Stops base writes removes repo) ∙ ap fuelled h)
    where
      clash : ¬ (true ≡ false)
      clash h = cc
