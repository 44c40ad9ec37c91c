-- ===== src/Error.antt =====
-- cpp/include/vost/error.h: the exception classes, and results that may be such an exception.
use vost.Common.{◌≡◌, refl, Bool, true, false, Str}

pub data Error : Type 0 where
  vost_error not_found is_a_directory not_a_directory permission stale_snapshot : Str → Error
  key_not_found key_exists invalid_path invalid_hash invalid_ref_name git_error io_error :
      Str → Error
  batch_closed : Error
  -- std::filesystem::filesystem_error
  filesystem_error : Error
  -- no exception: the program dereferences an empty std::optional
  undefined_behaviour : Error
  -- not an exception of the program: a traversal of the model ran out of its fuel
  out_of_fuel : Error

-- What a call returned, or the exception that it threw.
pub data Result {ℓ} (A : Type ℓ) : Type ℓ where
  err : Error → Result A
  ok : A → Result A

module _ {ℓ κ} {A : Type ℓ} {B : Type κ} where
  infixl 5 ◌>>=◌ ◌>>◌
  -- an exception skips what follows
  abbrev pub ◌>>=◌ : Result A → (A → Result B) → Result B
  err thrown >>= next = err thrown
  ok value >>= next = next value

  abbrev pub ◌>>◌ : Result A → Result B → Result B
  first >> second = first >>= λ _. second

-- `if (bad) throw e;`
abbrev pub throw_if : Bool → Error → Result (Unit {0})
throw_if true e = err e
throw_if false e = ok tt

module _ {ℓ} {A : Type ℓ} where
  pub err≢ok : {e : Error} {a : A} → ¬ (err e ≡ ok a)
  err≢ok h = cc

  pub ok-injective : {a b : A} → ok a ≡ ok b → a ≡ b
  ok-injective h = cc

module _ {ℓ κ} {A : Type ℓ} {B : Type κ} where
  -- A chain that returned: its first call returned, and the rest ran on that value.
  pub >>=-eq-ok :
      (first : Result A) (next : A → Result B) {b : B}
      → (first >>= next) ≡ ok b
      → (value : A) × (first ≡ ok value) × (next value ≡ ok b)
  >>=-eq-ok (err thrown) next returned = absurd (err≢ok returned)
  >>=-eq-ok (ok value) next returned = (value, refl, returned)

-- A test that did not throw.
pub throw_if-inv : (b : Bool) (e : Error) {u : Unit} → throw_if b e ≡ ok u → b ≡ false
throw_if-inv true e h = absurd (err≢ok h)
throw_if-inv false e h = refl
