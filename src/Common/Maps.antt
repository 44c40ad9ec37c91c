-- ===== src/Common/Maps.antt =====
-- std::map<std::string, V>, as the list of its entries in the order of the keys.
use mathlib.Core.Path.{◌≡◌, refl, sym, subst, ◌∙◌}
use mathlib.Core.Bool.{Bool, true, false}
use mathlib.Core.List.{List, [], ◌∷◌}
use mathlib.Core.Option.{Option, none, some, none-ne-some}
use mathlib.Core.Logic.{◌⊎◌, inl, inr}
use native.Mathlib.Omega.{arith}
use vost.Common.Tests.{Bool-cases, ltb, ◌==◌, if◌then◌else◌}
use vost.Common.Text.{Str, str_eq, str_eq_iff, str_eq→eq}

abbrev pub Map {ℓ} : Type ℓ → Type ℓ
Map V = List (Str × V)

-- operator< of std::string, byte by byte
unfoldable pub str_lt : Str → Str → Bool
str_lt s [] = false
str_lt [] (b ∷ t) = true
str_lt (a ∷ s) (b ∷ t) =
    let rest = str_lt s t in if ltb a b then true else if a == b then rest else false

module _ {ℓ} {V : Type ℓ} where
  unfoldable pub find : Str → Map V → Option V
  find k [] = none
  find k ((j, v) ∷ m) = if str_eq j k then some v else find k m

  unfoldable pub replace : Str → V → Map V → Map V
  replace k v [] = []
  replace k v ((j, w) ∷ m) = if str_eq j k then (j, v) ∷ m else (j, w) ∷ replace k v m

  unfoldable pub insert_sorted : Str → V → Map V → Map V
  insert_sorted k v [] = (k, v) ∷ []
  insert_sorted k v ((j, w) ∷ m) =
      if str_lt k j then (k, v) ∷ (j, w) ∷ m else (j, w) ∷ insert_sorted k v m

  -- m[k] = v
  unfoldable pub map_set : Str → V → Map V → Map V
  unfolding replace insert_sorted
  map_set k v m = elim (find k m) [ none ↦ insert_sorted k v m | some w ↦ replace k v m ]

  find-insert_sorted :
      (k j : Str) (v : V) (m : Map V)
      → find k m ≡ none
      → find j (insert_sorted k v m) ≡ (if str_eq k j then some v else find j m)
  unfolding find insert_sorted
  find-insert_sorted k j v [] h = refl
  find-insert_sorted k j v ((i, w) ∷ m) h =
      ground (arith, find-insert_sorted k j v m, str_eq_iff i k, str_eq_iff i j, str_eq_iff k j)

  find-replace :
      (k j : Str) (v w : V) (m : Map V)
      → find k m ≡ some w
      → find j (replace k v m) ≡ (if str_eq k j then some v else find j m)
  unfolding find replace
  find-replace k j v w [] h = ground arith
  find-replace k j v w ((i, u) ∷ m) h =
      ground (arith, find-replace k j v w m, str_eq_iff i k, str_eq_iff i j, str_eq_iff k j)

  map_set-absent :
      (k : Str) (v : V) (m : Map V) → find k m ≡ none → map_set k v m ≡ insert_sorted k v m
  unfolding map_set
  map_set-absent k v m e = rw (e, map_set)

  map_set-present :
      (k : Str) (v w : V) (m : Map V) → find k m ≡ some w → map_set k v m ≡ replace k v m
  unfolding map_set
  map_set-present k v w m e = rw (e, map_set)

  pub find-map_set :
      (k j : Str) (v : V) (m : Map V)
      → find j (map_set k v m) ≡ (if str_eq k j then some v else find j m)
  unfolding map_set
  find-map_set k j v m = by_key (find k m) refl
    where
      by_key :
          (o : Option V)
          → find k m ≡ o
          → find j (map_set k v m) ≡ (if str_eq k j then some v else find j m)
      by_key none e = rw (e, map_set) (find-insert_sorted k j v m e)
      by_key (some w) e = rw (e, map_set) (find-replace k j v w m e)

module _ {V : Type 0} where
  -- The entry stands somewhere in the map.
  abbrev pub Entry : Str → V → Map V → Type 0
  Entry k v [] = ⊥
  Entry k v ((j, w) ∷ m) = ((j ≡ k) × (w ≡ v)) ⊎ Entry k v m

  abbrev pub HasKey : Str → Map V → Type 0
  HasKey k m = (v : V) × Entry k v m

  pub find-HasKey : (k : Str) (m : Map V) {v : V} → find k m ≡ some v → HasKey k m
  unfolding find
  find-HasKey k [] h = absurd (none-ne-some _ h)
  find-HasKey k ((j, w) ∷ m) h = elim (Bool-cases (str_eq j k)) [
    | inl e ↦ (w, inl (str_eq→eq j k e, refl))
    | inr e ↦ let (v, i) = find-HasKey k m (rw e at h) in (v, inr i)
  ]

  Entry-replace :
      (k : Str) (v : V) (m : Map V) (j : Str) (w : V)
      → Entry j w (replace k v m)
      → ((k ≡ j) × (v ≡ w)) ⊎ Entry j w m
  unfolding replace
  Entry-replace k v [] j w h = absurd h
  Entry-replace k v ((i, u) ∷ m) j w h = elim (Bool-cases (str_eq i k)) [
    | inl e ↦
        let h' : Entry j w ((i, v) ∷ m) = rw e at h in
        elim h' [ inl q ↦ inl (sym (str_eq→eq i k e) ∙ q.0, q.1) | inr t ↦ inr (inr t) ]
    | inr e ↦
        let h' : Entry j w ((i, u) ∷ replace k v m) = rw e at h in
        elim h' [ inl q ↦ inr (inl q) | inr t ↦ deeper (Entry-replace k v m j w t) ]
  ]
    where
      deeper : ((k ≡ j) × (v ≡ w)) ⊎ Entry j w m → ((k ≡ j) × (v ≡ w)) ⊎ Entry j w ((i, u) ∷ m)
      deeper (inl q) = inl q
      deeper (inr t) = inr (inr t)

  Entry-insert_sorted :
      (k : Str) (v : V) (m : Map V) (j : Str) (w : V)
      → Entry j w (insert_sorted k v m)
      → ((k ≡ j) × (v ≡ w)) ⊎ Entry j w m
  unfolding insert_sorted
  Entry-insert_sorted k v [] j w h = h
  Entry-insert_sorted k v ((i, u) ∷ m) j w h = elim (Bool-cases (str_lt k i)) [
    | inl e ↦ let h' : Entry j w ((k, v) ∷ (i, u) ∷ m) = rw e at h in h'
    | inr e ↦
        let h' : Entry j w ((i, u) ∷ insert_sorted k v m) = rw e at h in
        elim h' [ inl q ↦ inr (inl q) | inr t ↦ deeper (Entry-insert_sorted k v m j w t) ]
  ]
    where
      deeper : ((k ≡ j) × (v ≡ w)) ⊎ Entry j w m → ((k ≡ j) × (v ≡ w)) ⊎ Entry j w ((i, u) ∷ m)
      deeper (inl q) = inl q
      deeper (inr t) = inr (inr t)

  -- What a map holds after m[k] = v.
  pub Entry-map_set :
      (k : Str) (v : V) (m : Map V) (j : Str) (w : V)
      → Entry j w (map_set k v m)
      → ((k ≡ j) × (v ≡ w)) ⊎ Entry j w m
  Entry-map_set k v m j w h = by_key (find k m) refl
    where
      by_key : (o : Option V) → find k m ≡ o → ((k ≡ j) × (v ≡ w)) ⊎ Entry j w m
      by_key none e =
          Entry-insert_sorted k v m j w (subst (λ t. Entry j w t) (map_set-absent k v m e) h)
      by_key (some x) e =
          Entry-replace k v m j w (subst (λ t. Entry j w t) (map_set-present k v x m e) h)

  HasKey-cons : (k i : Str) (u : V) (m : Map V) → HasKey k m → HasKey k ((i, u) ∷ m)
  HasKey-cons k i u m (v, e) = (v, inr e)

  HasKey-replace : (k : Str) (v : V) (m : Map V) (j : Str) → HasKey j m → HasKey j (replace k v m)
  unfolding replace
  HasKey-replace k v [] j h = h
  HasKey-replace k v ((i, u) ∷ m) j (w, h) = elim (Bool-cases (str_eq i k)) [
    | inl e ↦ rw e (elim h [ inl q ↦ (v, inl (q.0, refl)) | inr t ↦ (w, inr t) ])
    | inr e ↦ rw e (elim h [
      | inl q ↦ (w, inl q)
      | inr t ↦ HasKey-cons j i u (replace k v m) (HasKey-replace k v m j (w, t))
    ])
  ]

  HasKey-insert_sorted :
      (k : Str) (v : V) (m : Map V)
      → ((j : Str) → HasKey j m → HasKey j (insert_sorted k v m)) × HasKey k (insert_sorted k v m)
  unfolding insert_sorted
  HasKey-insert_sorted k v [] = (λ j h. absurd h.1, (v, inl (refl, refl)))
  HasKey-insert_sorted k v ((i, u) ∷ m) =
      let (mono, self) = HasKey-insert_sorted k v m in
      elim (Bool-cases (str_lt k i)) [
        | inl e ↦ rw e (λ j h. HasKey-cons j k v ((i, u) ∷ m) h, (v, inl (refl, refl)))
        | inr e ↦ rw e (
          λ j h. elim h.1 [
            | inl q ↦ (h.0, inl q)
            | inr t ↦ HasKey-cons j i u (insert_sorted k v m) (mono j (h.0, t))
          ],
          HasKey-cons k i u (insert_sorted k v m) self,
        )
      ]

  pub HasKey-map_set :
      (k : Str) (v : V) (m : Map V)
      → ((j : Str) → HasKey j m → HasKey j (map_set k v m)) × HasKey k (map_set k v m)
  HasKey-map_set k v m = by_key (find k m) refl
    where
      by_key :
          (o : Option V)
          → find k m ≡ o
          → ((j : Str) → HasKey j m → HasKey j (map_set k v m)) × HasKey k (map_set k v m)
      by_key none e = rw (map_set-absent k v m e) (HasKey-insert_sorted k v m)
      by_key (some x) e =
          rw (map_set-present k v x m e)
            (HasKey-replace k v m, HasKey-replace k v m k (find-HasKey k m e))
