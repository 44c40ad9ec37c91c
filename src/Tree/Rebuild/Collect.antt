-- ===== src/Tree/Rebuild/Collect.antt =====
-- What the loops of `rebuild` record at one level: `inserts` and `subtree_writes`.
use mathlib.Core.Option.{none-ne-some}
use vost.Common.{
  ℕ, ◌≡◌, ◌⊎◌, inl, inr, refl, ap, ◌∙◌, Option, none, some, List, [], ◌∷◌, ◌++◌, Str, str_eq,
  str_eq→eq, str_eq_refl, Any, Map, find, Entry, HasKey, Entry-map_set, HasKey-map_set, find-HasKey,
  Bool-cases,
}
use vost.Platform.{Platform}
use vost.Tree.Rebuild.{
  Level, PendingWrite, below_prefix, note_subtree, subtree_oid, collect_write, collect_writes,
  collect_remove, collect_removes,
}

-- The value is an item of the list.
abbrev pub In : {A : Type 0} → A → List A → Type 0
In a xs = Any (λ x. x ≡ a) xs

pub below_prefix-eq :
    (π segs : List Str) {n : Str} {rest : List Str}
    → below_prefix π segs ≡ some (n, rest)
    → segs ≡ π ++ (n ∷ rest)
unfolding below_prefix
below_prefix-eq [] [] h = absurd (none-ne-some _ h)
below_prefix-eq [] (s ∷ ss) h = cc
below_prefix-eq (d ∷ π) [] h = absurd (none-ne-some _ h)
below_prefix-eq (d ∷ π) (s ∷ ss) {n} {rest} h = elim (Bool-cases (str_eq s d)) [
  | inl e ↦
      let h' : below_prefix π ss ≡ some (n, rest) = rw e at h in
      cc (str_eq→eq s d e, below_prefix-eq π ss h')
  | inr e ↦
      let h' : ◌≡◌ {A = Option (Str × List Str)} none (some (n, rest)) = rw e at h in
      absurd (none-ne-some _ h')
]

pub below_prefix-append :
    (π : List Str) (n : Str) (rest : List Str) → below_prefix π (π ++ (n ∷ rest)) ≡ some (n, rest)
unfolding below_prefix
below_prefix-append [] n rest = refl
below_prefix-append (d ∷ π) n rest = rw (str_eq_refl d) (below_prefix-append π n rest)

module _ (p : Platform) where
  open p use {Builder, treebuilder_get}

  HasKey-note_subtree :
      (b : Builder) (name : Str) (subs : Map Str)
      → ((j : Str) → HasKey j subs → HasKey j (note_subtree p b name subs))
        × HasKey name (note_subtree p b name subs)
  HasKey-note_subtree b name subs = by_key (find name subs) refl
    where
      by_key :
          (o : Option Str)
          → find name subs ≡ o
          → ((j : Str) → HasKey j subs → HasKey j (note_subtree p b name subs))
            × HasKey name (note_subtree p b name subs)
      by_key none e =
          unfold note_subtree in
          rw (e, note_subtree) (HasKey-map_set name (subtree_oid p (treebuilder_get b name)) subs)
      by_key (some x) e =
          unfold note_subtree in rw (e, note_subtree) (λ j h. h, find-HasKey name subs e)

  abbrev Grows : Level → Level → Type 0
  Grows l l' =
      ((n : Str) → HasKey n l.inserts → HasKey n l'.inserts)
      × ((n : Str) → HasKey n l.subtrees → HasKey n l'.subtrees)

  -- Where a path with these segments below the prefix is recorded.
  abbrev pub Recorded : Str → List Str → Level → Type 0
  Recorded n [] l = HasKey n l.inserts
  Recorded n (m ∷ ms) l = HasKey n l.subtrees

  Recorded-Grows :
      (l l' : Level) (n : Str) (rest : List Str)
      → Grows l l'
      → Recorded n rest l
      → Recorded n rest l'
  Recorded-Grows l l' n [] g h = g.0 n h
  Recorded-Grows l l' n (m ∷ ms) g h = g.1 n h

  collect_write-Grows :
      (b : Builder) (pw : PendingWrite) (o : Option (Str × List Str)) (l : Level)
      → Grows l (collect_write p b pw o l)
  unfolding collect_write
  collect_write-Grows b pw none l = (λ n h. h, λ n h. h)
  collect_write-Grows b pw (some (name, [])) l =
      ((HasKey-map_set name (pw.oid_hex, pw.mode) l.inserts).0, λ n h. h)
  collect_write-Grows b pw (some (name, m ∷ ms)) l =
      (λ n h. h, (HasKey-note_subtree b name l.subtrees).0)

  collect_write-records :
      (b : Builder) (pw : PendingWrite) (n : Str) (rest : List Str) (l : Level)
      → Recorded n rest (collect_write p b pw (some (n, rest)) l)
  unfolding collect_write
  collect_write-records b pw n [] l = (HasKey-map_set n (pw.oid_hex, pw.mode) l.inserts).1
  collect_write-records b pw n (m ∷ ms) l = (HasKey-note_subtree b n l.subtrees).1

  collect_writes-Grows :
      (b : Builder) (π : List Str) (W : List PendingWrite) (l : Level)
      → Grows l (collect_writes p b π W l)
  unfolding collect_writes
  collect_writes-Grows b π [] l = (λ n h. h, λ n h. h)
  collect_writes-Grows b π (pw ∷ W) l =
      let step = collect_write-Grows b pw (below_prefix π pw.segs) l in
      let rest = collect_writes-Grows b π W (collect_write p b pw (below_prefix π pw.segs) l) in
      (λ n h. rest.0 n (step.0 n h), λ n h. rest.1 n (step.1 n h))

  -- Every write below the prefix is recorded.
  pub collect_writes-Recorded :
      (b : Builder) (π : List Str) (W : List PendingWrite) (l : Level) (w : PendingWrite) (n : Str)
      (rest : List Str)
      → In w W
      → below_prefix π w.segs ≡ some (n, rest)
      → Recorded n rest (collect_writes p b π W l)
  unfolding collect_writes
  collect_writes-Recorded b π [] l w n rest i h = absurd i
  collect_writes-Recorded b π (pw ∷ W) l w n rest (inl e) h =
      let h' : below_prefix π pw.segs ≡ some (n, rest) = rw e h in
      let l' = collect_write p b pw (below_prefix π pw.segs) l in
      Recorded-Grows l' (collect_writes p b π W l') n rest (collect_writes-Grows b π W l')
        (rw h' (collect_write-records b pw n rest l))
  collect_writes-Recorded b π (pw ∷ W) l w n rest (inr i) h =
      collect_writes-Recorded b π W (collect_write p b pw (below_prefix π pw.segs) l) w n rest i h

  -- The write that an entry of `inserts` comes from.
  pub record Source (π : List Str) (W : List PendingWrite) (n : Str) (v : Str × ℕ) : Type 0 where
    pub write : PendingWrite
    pub listed : In write W
    pub leaf : below_prefix π write.segs ≡ some (n, [])
    pub value : (write.oid_hex, write.mode) ≡ v

  collect_write-Source :
      (b : Builder) (π : List Str) (pw : PendingWrite) (l : Level) (n : Str) (v : Str × ℕ)
      (o : Option (Str × List Str))
      → below_prefix π pw.segs ≡ o
      → Entry n v (collect_write p b pw o l).inserts
      → Source π (pw ∷ []) n v ⊎ Entry n v l.inserts
  unfolding collect_write
  collect_write-Source b π pw l n v none e h = inr h
  collect_write-Source b π pw l n v (some (name, [])) e h =
      elim (Entry-map_set name (pw.oid_hex, pw.mode) l.inserts n v h) [
        | inl q ↦ inl (record {
          write = pw;
          listed = inl refl;
          leaf = e ∙ ap (λ x. some (x, [])) q.0;
          value = q.1;
        })
        | inr t ↦ inr t
      ]
  collect_write-Source b π pw l n v (some (name, m ∷ ms)) e h = inr h

  Source-weaken :
      {π : List Str} {pw : PendingWrite} {W : List PendingWrite} {n : Str} {v : Str × ℕ}
      → Source π (pw ∷ []) n v
      → Source π (pw ∷ W) n v
  Source-weaken s = record {
    write = s.write;
    listed = elim s.listed [ inl e ↦ inl e | inr x ↦ absurd x ];
    leaf = s.leaf;
    value = s.value;
  }

  Source-cons :
      {π : List Str} {pw : PendingWrite} {W : List PendingWrite} {n : Str} {v : Str × ℕ}
      → Source π W n v
      → Source π (pw ∷ W) n v
  Source-cons s = record { write = s.write; listed = inr s.listed; leaf = s.leaf; value = s.value }

  -- What stands in `inserts` was written at this level, or was there before.
  pub collect_writes-Source :
      (b : Builder) (π : List Str) (W : List PendingWrite) (l : Level) (n : Str) (v : Str × ℕ)
      → Entry n v (collect_writes p b π W l).inserts
      → Source π W n v ⊎ Entry n v l.inserts
  unfolding collect_writes
  collect_writes-Source b π [] l n v h = inr h
  collect_writes-Source b π (pw ∷ W) l n v h =
      elim (collect_writes-Source b π W (collect_write p b pw (below_prefix π pw.segs) l) n v h) [
        | inl s ↦ inl (Source-cons s)
        | inr t ↦ elim (collect_write-Source b π pw l n v (below_prefix π pw.segs) refl t) [
          | inl s ↦ inl (Source-weaken s)
          | inr u ↦ inr u
        ]
      ]

  collect_remove-Grows :
      (o : Option (Str × List Str)) (b : Builder) (subs : Map Str) (n : Str)
      → HasKey n subs
      → HasKey n (collect_remove p o (b, subs)).1
  unfolding collect_remove
  collect_remove-Grows none b subs n h = h
  collect_remove-Grows (some (name, [])) b subs n h = h
  collect_remove-Grows (some (name, m ∷ ms)) b subs n h = (HasKey-note_subtree b name subs).0 n h

  -- The loop over the removes keeps the subtrees that are recorded.
  pub collect_removes-Grows :
      (π : List Str) (R : List (List Str)) (b : Builder) (subs : Map Str) (n : Str)
      → HasKey n subs
      → HasKey n (collect_removes p π R (b, subs)).1
  unfolding collect_removes
  collect_removes-Grows π [] b subs n h = h
  collect_removes-Grows π (rv ∷ R) b subs n h =
      let s = collect_remove p (below_prefix π rv) (b, subs) in
      collect_removes-Grows π R s.0 s.1 n (collect_remove-Grows (below_prefix π rv) b subs n h)
