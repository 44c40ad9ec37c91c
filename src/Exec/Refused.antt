-- ===== src/Exec/Refused.antt =====
-- Code that throws and leaves the state as it was.
use vost.Common.{◌≡◌, ◌≢◌, refl}
use vost.Error.{Result, ok, err, err≢ok}
use vost.Exec.{Exec, reading, lift, after, ◌>>=◌}

module _ {S A : Type 0} where
  abbrev pub Refused : Exec S A → S → Type 0
  Refused m s = ((m s).1 ≡ s) × ((a : A) → (m s).0 ≢ ok a)

module _ {S A B : Type 0} where
  after-Refused :
      (r : Result A) (s : S) (f : A → Exec S B)
      → ((a : A) → r ≡ ok a → Refused (f a) s)
      → ((after r s f).1 ≡ s) × ((b : B) → (after r s f).0 ≢ ok b)
  after-Refused (ok a) s f h = h a refl
  after-Refused (err e) s f h = (refl, λ b. err≢ok)

  -- What follows a computation that changes nothing, if that returned, is refused.
  pub lift-Refused :
      (r : Result A) (f : A → Exec S B) (s : S)
      → ((a : A) → r ≡ ok a → Refused (f a) s)
      → Refused (lift r >>= f) s
  unfolding lift ◌>>=◌
  lift-Refused r f s h = after-Refused r s f h

  pub reading-Refused :
      (g : S → Result A) (f : A → Exec S B) (s : S)
      → ((a : A) → g s ≡ ok a → Refused (f a) s)
      → Refused (reading g >>= f) s
  unfolding reading ◌>>=◌
  reading-Refused g f s h = after-Refused (g s) s f h
