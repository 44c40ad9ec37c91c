-- ===== src/Exec.antt =====
-- Code that changes the repository and may throw: what was written before the exception stays
-- written, so the state comes back beside the error too.
pub mod Refused
use vost.Common.{◌≡◌, refl, ap}
use vost.Error.{Error, Result, ok, err, err≢ok, ok-injective}

abbrev pub Exec {ℓ} : Type ℓ → Type ℓ → Type ℓ
Exec S A = S → Result A × S

module _ {ℓ} {S A : Type ℓ} where
  unfoldable pub ret : A → Exec S A
  ret a s = (ok a, s)

  unfoldable pub throw : Error → Exec S A
  throw e s = (err e, s)

  -- code that only reads the state
  unfoldable pub reading : (S → Result A) → Exec S A
  reading f s = (f s, s)

  unfoldable pub lift : Result A → Exec S A
  lift r s = (r, s)

module _ {ℓ} {S A B : Type ℓ} where
  abbrev pub after : Result A → S → (A → Exec S B) → Result B × S
  after (ok a) s f = f a s
  after (err e) s f = (err e, s)

  infixl 5 ◌>>=◌ ◌>>◌
  -- opening this opens `ret`, `throw`, `reading` and `lift` too
  unfoldable pub ◌>>=◌ : Exec S A → (A → Exec S B) → Exec S B
  unfolding ret throw reading lift
  ◌>>=◌ m f s = let (r, s') = m s in after r s' f

  abbrev pub ◌>>◌ : Exec S A → Exec S B → Exec S B
  m >> n = m >>= λ _. n

-- Runs that returned, taken apart.
module _ {ℓ} {S A B : Type ℓ} where
  after-inv :
      (r : Result A) (s : S) (f : A → Exec S B) {b : B} {s' : S}
      → after r s f ≡ (ok b, s')
      → (a : A) × (r ≡ ok a) × (f a s ≡ (ok b, s'))
  after-inv (ok a) s f h = (a, refl, h)
  after-inv (err e) s f h = absurd (err≢ok (ap (λ x. x.0) h))

  pub >>=-inv :
      (m : Exec S A) (f : A → Exec S B) (s : S) {b : B} {s' : S}
      → (m >>= f) s ≡ (ok b, s')
      → (a : A) × (s₁ : S) × (m s ≡ (ok a, s₁)) × (f a s₁ ≡ (ok b, s'))
  unfolding ◌>>=◌
  >>=-inv m f s h =
      let (a, e, g) = after-inv (m s).0 (m s).1 f h in (a, (m s).1, ap (λ r. (r, (m s).1)) e, g)

module _ {ℓ} {S A : Type ℓ} where
  pub reading-inv :
      (f : S → Result A) (s : S) {a : A} {s' : S}
      → reading f s ≡ (ok a, s')
      → (f s ≡ ok a) × (s ≡ s')
  unfolding reading
  reading-inv f s h = (ap (λ x. x.0) h, ap (λ x. x.1) h)

  pub lift-inv :
      (r : Result A) (s : S) {a : A} {s' : S} → lift r s ≡ (ok a, s') → (r ≡ ok a) × (s ≡ s')
  unfolding lift
  lift-inv r s h = (ap (λ x. x.0) h, ap (λ x. x.1) h)

  pub ret-inv : (a : A) (s : S) {b : A} {s' : S} → ret a s ≡ (ok b, s') → (a ≡ b) × (s ≡ s')
  unfolding ret
  ret-inv a s h = (ok-injective (ap (λ x. x.0) h), ap (λ x. x.1) h)
