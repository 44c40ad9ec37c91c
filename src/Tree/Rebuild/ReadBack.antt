-- ===== src/Tree/Rebuild/ReadBack.antt =====
-- `entry_at_path` of cpp/src/tree.cpp on the tree that `rebuild_tree` wrote.
use vost.Common.{
  ℕ, zero, suc, ◌≡◌, ◌≢◌, inl, inr, refl, sym, subst, ap, ◌∙◌, Bool, true, false, Option, none,
  some, List, [], ◌∷◌, ◌++◌, Str, codes, append_assoc, if◌then◌else◌, ◌==◌,
}
use vost.Error.{Result, ok, git_error, >>=-eq-ok}
use vost.Types.{mode_tree}
use vost.Platform.{Platform, TreeEntry}
use vost.Platform.Laws.{Keeps, ObjectLaws, Keeps-trans}
use vost.Tree.Read.{need, need-inv, EntryResult, at_entry, entry_from}
use vost.Tree.Rebuild.{PendingWrite, below_prefix, rebuild, no_level, collect_writes}
use vost.Tree.Rebuild.Steps.{rebuild-inv}
use vost.Tree.Rebuild.Collect.{
  In, below_prefix-eq, below_prefix-append, collect_writes-Recorded, Source, collect_writes-Source,
  collect_removes-Grows,
}
use vost.Tree.Rebuild.Inserts.{tree_entry, Leaf, insert_leaves-get}
use vost.Tree.Rebuild.Kept.{no_fuel, insert_subtrees-get, rebuild-Keeps}

module _ (p : Platform) where
  open p use {Repo, Oid, oid_fromstr, oid_tostr, tree_lookup, tree_entry_byname}

  entry_from-step :
      (repo : Repo) (o : Oid) (n : Str) (segs : List Str) (t : p.Tree)
      → tree_lookup repo o ≡ some t
      → entry_from p repo o (n ∷ segs)
        ≡ at_entry p segs (λ x. entry_from p repo x segs) (tree_entry_byname t n)
  unfolding entry_from need
  entry_from-step repo o n segs t e = rw e refl

  tree_or_none :
      (b : Bool) (f g : Result (Option EntryResult)) {x : EntryResult}
      → (f ≡ ok (some x) → g ≡ ok (some x))
      → (if b then f else ok none) ≡ ok (some x)
      → (if b then g else ok none) ≡ ok (some x)
  tree_or_none true f g k h = k h
  tree_or_none false f g k h = h

  at_entry-Keeps :
      (r r' : Repo) (segs : List Str) (found : Option (TreeEntry Oid)) {x : EntryResult}
      → ((o : Oid) → entry_from p r o segs ≡ ok (some x) → entry_from p r' o segs ≡ ok (some x))
      → at_entry p segs (λ o. entry_from p r o segs) found ≡ ok (some x)
      → at_entry p segs (λ o. entry_from p r' o segs) found ≡ ok (some x)
  unfolding at_entry
  at_entry-Keeps r r' segs none k h = h
  at_entry-Keeps r r' [] (some e) k h = h
  at_entry-Keeps r r' (s ∷ segs) (some e) k h =
      tree_or_none (e.filemode == mode_tree) (entry_from p r e.id (s ∷ segs))
        (entry_from p r' e.id (s ∷ segs)) (k e.id) h

  -- What a lookup finds is found in every repository that keeps the objects.
  pub entry_from-Keeps :
      (r r' : Repo) (o : Oid) (segs : List Str) {x : EntryResult}
      → Keeps p r r'
      → entry_from p r o segs ≡ ok (some x)
      → entry_from p r' o segs ≡ ok (some x)
  unfolding entry_from
  entry_from-Keeps r r' o [] {x} k h = h
  entry_from-Keeps r r' o (n ∷ segs) {x} k h =
      let (t, found, rest) =
        >>=-eq-ok (need (tree_lookup r o) (git_error (codes "git_tree_lookup"))) _ h in
      let e = need-inv (tree_lookup r o) _ found in
      entry_from-step r' o n segs t (k.trees o t e)
      ∙ at_entry-Keeps r r' segs (tree_entry_byname t n) (λ o'. entry_from-Keeps r r' o' segs k)
          rest

  -- Equal paths write the same, and no path goes on below the path of the write.
  pub record IsAlone (w : PendingWrite) (W : List PendingWrite) : Type 0 where
    pub same :
        (v : PendingWrite) → In v W → v.segs ≡ w.segs → (v.oid_hex ≡ w.oid_hex) × (v.mode ≡ w.mode)
    pub no_file_above :
        (v : PendingWrite) (m : Str) (ms : List Str) → In v W → w.segs ≢ v.segs ++ (m ∷ ms)

  module _ (laws : ObjectLaws p) where
    same_oid : {a b : Oid} → some a ≡ some b → a ≡ b
    same_oid h = cc

    open_entry :
        (repo : Repo) (o : Oid) (n m : Str) (ms : List Str) (t : p.Tree) (sub : Oid)
        → tree_lookup repo o ≡ some t
        → tree_entry_byname t n ≡ some (tree_entry p laws n sub mode_tree)
        → entry_from p repo o (n ∷ m ∷ ms) ≡ entry_from p repo sub (m ∷ ms)
    unfolding at_entry
    open_entry repo o n m ms t sub e f =
        entry_from-step repo o n (m ∷ ms) t e
        ∙ ap (at_entry p (m ∷ ms) (λ x. entry_from p repo x (m ∷ ms))) f

    last_entry :
        (repo : Repo) (o : Oid) (n : Str) (t : p.Tree) (sub : Oid) (mode : ℕ)
        → tree_lookup repo o ≡ some t
        → tree_entry_byname t n ≡ some (tree_entry p laws n sub mode)
        → entry_from p repo o (n ∷ []) ≡ ok (some (record { oid_hex = oid_tostr sub; mode = mode }))
    unfolding at_entry
    last_entry repo o n t sub mode e f =
        entry_from-step repo o n [] t e ∙ ap (at_entry p [] (λ x. entry_from p repo x [])) f

    -- A leaf of this level comes from a write of this level.
    Leaf-Source :
        (W : List PendingWrite) (π : List Str) (b b' : p.Builder) (n : Str)
        → (l : Leaf p laws n (collect_writes p b π W no_level).inserts b')
        → Source p π W n (l.hex, l.mode)
    Leaf-Source W π b b' n l =
        elim (collect_writes-Source p b π W no_level n (l.hex, l.mode) l.entry) [
          | inl s ↦ s
          | inr x ↦ absurd x
        ]

    abbrev pub written_entry : (w : PendingWrite) → EntryResult
    written_entry w = record { oid_hex = w.oid_hex; mode = w.mode }

    Leaf-get :
        (W : List PendingWrite) (π : List Str) (b b' : p.Builder) (w : PendingWrite) (n : Str)
        (bo : Oid)
        → IsAlone w W
        → oid_fromstr w.oid_hex ≡ some bo
        → below_prefix π w.segs ≡ some (n, [])
        → Leaf p laws n (collect_writes p b π W no_level).inserts b'
        → p.treebuilder_get b' n ≡ some (tree_entry p laws n bo w.mode)
    Leaf-get W π b b' w n bo alone parsed at l =
        let s = Leaf-Source W π b b' n l in
        let (hex, mode) =
          alone.same s.write s.listed
            (below_prefix-eq π s.write.segs s.leaf ∙ sym (below_prefix-eq π w.segs at)) in
        let q : l.oid ≡ bo =
          same_oid (sym l.parsed ∙ ap oid_fromstr (sym (ap (λ v. v.0) s.value) ∙ hex) ∙ parsed) in
        let q' : l.mode ≡ w.mode = sym (ap (λ v. v.1) s.value) ∙ mode in l.got ∙ rw (q, q') refl

    -- No write is recorded as a leaf where a lone write goes deeper.
    no_deeper :
        (W : List PendingWrite) (π : List Str) (b b' : p.Builder) (w : PendingWrite) (n m : Str)
        (ms : List Str)
        → IsAlone w W
        → below_prefix π w.segs ≡ some (n, m ∷ ms)
        → ¬ Leaf p laws n (collect_writes p b π W no_level).inserts b'
    no_deeper W π b b' w n m ms alone at l =
        let s = Leaf-Source W π b b' n l in
        alone.no_file_above s.write m ms s.listed (
          below_prefix-eq π w.segs at
          ∙ sym (append_assoc π (n ∷ []) (m ∷ ms))
          ∙ ap (λ xs. xs ++ (m ∷ ms)) (sym (below_prefix-eq π s.write.segs s.leaf)))

    deeper :
        (π segs : List Str) (n m : Str) (ms : List Str)
        → below_prefix π segs ≡ some (n, m ∷ ms)
        → below_prefix (π ++ (n ∷ [])) segs ≡ some (m, ms)
    deeper π segs n m ms at =
        ap (below_prefix (π ++ (n ∷ [])))
          (below_prefix-eq π segs at ∙ sym (append_assoc π (n ∷ []) (m ∷ ms)))
        ∙ below_prefix-append (π ++ (n ∷ [])) m ms

    pub rebuild-reads :
        (W : List PendingWrite) (R : List (List Str)) (w : PendingWrite) (bo : Oid)
        → In w W
        → IsAlone w W
        → oid_fromstr w.oid_hex ≡ some bo
        → oid_tostr bo ≡ w.oid_hex
        → (fuel : ℕ) (cur : Str) (π : List Str) (repo : Repo) (n : Str) (rest : List Str)
          {hex : Str} {repo' : Repo}
        → below_prefix π w.segs ≡ some (n, rest)
        → rebuild p fuel W R cur π repo ≡ (ok hex, repo')
        → (o : Oid) × (hex ≡ oid_tostr o)
          × (entry_from p repo' o (n ∷ rest) ≡ ok (some (written_entry w)))
    rebuild-reads W R w bo i alone parsed printed zero cur π repo n rest at h =
        absurd (no_fuel p laws W R cur π repo h)
    rebuild-reads W R w bo i alone parsed printed (suc fuel) cur π repo n [] {hex} {repo'} at h =
        let r = rebuild-inv p W R fuel cur π repo h in
        let (t, found, same) = laws.byname-write r.r₃ r.b₃ r.oid repo' r.written in
        let (q, leaves) = insert_leaves-get p laws _ r.b₂ r.r₂ r.leaves in
        (
          r.oid,
          r.named,
          elim (leaves n) [
            | inl u ↦ absurd (u.no_key (collect_writes-Recorded p r.b₀ π W no_level w n [] i at))
            | inr l ↦
                last_entry repo' r.oid n t bo w.mode found
                  (same n ∙ Leaf-get W π r.b₀ r.b₃ w n bo alone parsed at l)
                ∙ rw printed refl
          ],
        )
    rebuild-reads W R w bo i alone parsed printed (suc fuel) cur π repo n (m ∷ ms) {hex} {repo'} at
          h =
        let r = rebuild-inv p W R fuel cur π repo h in
        let (t, found, same) = laws.byname-write r.r₃ r.b₃ r.oid repo' r.written in
        let (q, leaves) = insert_leaves-get p laws _ r.b₂ r.r₂ r.leaves in
        let (kept, subs) =
          insert_subtrees-get p laws (rebuild p fuel W R) π (rebuild-Keeps p laws W R fuel) _ _ repo
            r.subtrees in
        let last : Keeps p r.r₂ repo' =
          subst (λ x. Keeps p x repo') (sym q) (laws.write-Keeps r.r₃ r.b₃ r.oid repo' r.written) in
        (
          r.oid,
          r.named,
          elim (leaves n) [
            | inr l ↦ absurd (no_deeper W π r.b₀ r.b₃ w n m ms alone at l)
            | inl u ↦ elim (subs n) [
              | inl v ↦ absurd (
                  v.no_key (
                    collect_removes-Grows p π R r.b₀ _ n
                      (collect_writes-Recorded p r.b₀ π W no_level w n (m ∷ ms) i at)))
              | inr s ↦
                  let (o, named, read) =
                    rebuild-reads W R w bo i alone parsed printed fuel s.cur (π ++ (n ∷ [])) s.r₁ m
                      ms (deeper π w.segs n m ms at) s.run in
                  let e : s.oid ≡ o =
                    same_oid (sym s.parsed ∙ ap oid_fromstr named ∙ laws.fromstr-tostr o) in
                  open_entry repo' r.oid n m ms t s.oid found (same n ∙ u.same ∙ s.got)
                  ∙ ap (λ x. entry_from p repo' x (m ∷ ms)) e
                  ∙ entry_from-Keeps s.r₂ repo' o (m ∷ ms) (Keeps-trans p s.kept last) read
            ]
          ],
        )
