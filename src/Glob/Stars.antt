-- ===== src/Glob/Stars.antt =====
-- Stars in patterns, and the search through the suffixes of a name.
use vost.Common.{
  ℕ, ◌≡◌, ◌≢◌, refl, ap, sym, subst, Bool, true, false, [], ◌∷◌, ◌++◌, Str, is_empty, length, ◌≤◌,
  ◌==◌, inl, inr, Bool-cases, arith, ==_iff,
}
use vost.Glob.{star, skip_stars, any_suffix}
use vost.Glob.Spec.{Matches, done, star_none, star_more, one, class, byte}

pub ne_of_test : (a b : ℕ) → (a == b) ≡ false → a ≢ b
ne_of_test a b h = ground arith

pub skip_star : (pc : ℕ) (p : Str) → pc ≡ star → skip_stars (pc ∷ p) ≡ skip_stars p
unfolding skip_stars
skip_star pc p e = rw e

pub skip_other : (pc : ℕ) (p : Str) → pc ≢ star → skip_stars (pc ∷ p) ≡ pc ∷ p
unfolding skip_stars
skip_other pc p e = ground arith

pub stars_match : (p : Str) {s : Str} → Matches (skip_stars p) s → Matches p s
unfolding skip_stars
stars_match [] d = d
stars_match (c ∷ p) {s} d = elim (Bool-cases (c == star)) [
  | inl e ↦
      let q = (==_iff c star).0 e in
      star_none q (stars_match p (subst (λ t. Matches t s) (skip_star c p q) d))
  | inr e ↦ subst (λ t. Matches t s) (skip_other c p (ne_of_test c star e)) d
]

pub star_absorb :
    {pc : ℕ} {p : Str} (xs s : Str) → pc ≡ star → Matches p s → Matches (pc ∷ p) (xs ++ s)
star_absorb [] s e d = star_none e d
star_absorb (x ∷ xs) s e d = star_more e (star_absorb xs s e d)

-- What a pattern matches ends in what it matches without its first stars.
pub Matches-skip_stars :
    {p s : Str} → Matches p s → (xs : Str) × (s' : Str) × (s ≡ xs ++ s') × Matches (skip_stars p) s'
Matches-skip_stars done = ([], [], refl, unfold skip_stars in done)
Matches-skip_stars (star_none {pc} {p} e d) =
    let (xs, s', q, m) = Matches-skip_stars d in
    (xs, s', q, subst (λ t. Matches t s') (sym (skip_star pc p e)) m)
Matches-skip_stars (star_more {c} e d) =
    let (xs, s', q, m) = Matches-skip_stars d in (c ∷ xs, s', ap (λ t. c ∷ t) q, m)
Matches-skip_stars (one {pc} {c} {p} {s} e d) =
    ([], c ∷ s, refl, rw (skip_other pc p (omega arith)) (one e d))
Matches-skip_stars (class {pc} {c} {p} {s} e a d) =
    ([], c ∷ s, refl, rw (skip_other pc p (omega arith)) (class e a d))
Matches-skip_stars (byte {pc} {c} {p} {s} n₀ n₁ n₂ e d) =
    ([], c ∷ s, refl, rw (skip_other pc p n₀) (byte n₀ n₁ n₂ e d))

pub any_suffix-intro :
    (next : Str → Bool) (xs s : Str) → next s ≡ true → any_suffix next (xs ++ s) ≡ true
unfolding any_suffix
any_suffix-intro next [] [] h = h
any_suffix-intro next [] (c ∷ s) h = rw h
any_suffix-intro next (x ∷ xs) s h = ground (arith, any_suffix-intro next xs s)

pub any_suffix-inv :
    (next : Str → Bool) (s : Str)
    → any_suffix next s ≡ true
    → (xs : Str) × (s' : Str) × (s ≡ xs ++ s') × (next s' ≡ true)
unfolding any_suffix
any_suffix-inv next [] h = ([], [], refl, h)
any_suffix-inv next (c ∷ s) h = elim (Bool-cases (next (c ∷ s))) [
  | inl e ↦ ([], c ∷ s, refl, e)
  | inr e ↦
      let (xs, s', q, n) = any_suffix-inv next s (ground (arith, h, e)) in
      (c ∷ xs, s', ap (λ t. c ∷ t) q, n)
]

-- Only stars match the empty name.
pub Matches-nil : {p s : Str} → Matches p s → s ≡ [] → is_empty (skip_stars p) ≡ true
Matches-nil done q = unfold skip_stars in refl
Matches-nil (star_none {pc} {p} e d) q = rw (skip_star pc p e) (Matches-nil d q)
Matches-nil (star_more e d) q = cc
Matches-nil (one e d) q = cc
Matches-nil (class e a d) q = cc
Matches-nil (byte n₀ n₁ n₂ e d) q = cc

pub length-skip_stars-le : (p : Str) → length (skip_stars p) ≤ length p
unfolding skip_stars
length-skip_stars-le [] = omega arith
length-skip_stars-le (c ∷ p) = ground (arith, length-skip_stars-le p)
