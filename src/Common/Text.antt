-- ===== src/Common/Text.antt =====
-- std::string as a list of bytes. A literal is written `codes "…"`.
use Prim.Native.Nat.{ℕ, zero, suc, ◌+◌, ◌-◌, ◌/◌, ◌%◌}
use Prim.Native.Char.{code}
use Prim.Native.String.{String}
use mathlib.Core.Path.{◌≡◌, refl, ap, sym, ◌∙◌}
use mathlib.Core.Logic.{◌↔◌, inl, inr}
use mathlib.Core.Bool.{Bool, true, false, ◌&&◌, ◌||◌}
use mathlib.Core.List.{List, [], ◌∷◌, ◌++◌}
use native.Mathlib.Omega.{arith}
use vost.Common.Tests.{◌==◌, leb, if◌then◌else◌, le→leb, ==_refl, ==_iff, &&-eq-true, ||-eq-true}
use vost.Common.Lists.{length, drop, take, length-append}

abbrev pub Str : Type 0
Str = List ℕ

abbrev pub codes : String → Str
codes String.[] = []
codes (String.◌∷◌ c s) = code c ∷ codes s

-- operator== of std::string
unfoldable pub str_eq : Str → Str → Bool
str_eq [] [] = true
str_eq [] (b ∷ t) = false
str_eq (a ∷ s) [] = false
str_eq (a ∷ s) (b ∷ t) = (a == b) && str_eq s t

pub str_eq_refl : (s : Str) → str_eq s s ≡ true
unfolding str_eq
str_eq_refl [] = refl
str_eq_refl (a ∷ s) = ground (arith, str_eq_refl s)

pub str_eq→eq : (s t : Str) → str_eq s t ≡ true → s ≡ t
unfolding str_eq
str_eq→eq [] [] h = refl
str_eq→eq [] (b ∷ t) h = ground arith
str_eq→eq (a ∷ s) [] h = ground arith
str_eq→eq (a ∷ s) (b ∷ t) h = ground (arith, str_eq→eq s t)

pub eq→str_eq : (s t : Str) → s ≡ t → str_eq s t ≡ true
eq→str_eq s t e = rw e (str_eq_refl t)

pub str_eq_iff : (s t : Str) → (str_eq s t ≡ true) ↔ (s ≡ t)
str_eq_iff s t = (str_eq→eq s t, eq→str_eq s t)

-- starts_with, by compare
unfoldable pub starts_with : Str → Str → Bool
starts_with [] s = true
starts_with (a ∷ p) [] = false
starts_with (a ∷ p) (b ∷ s) = (a == b) && starts_with p s

-- s.find(sub) != npos
unfoldable pub contains_text : Str → Str → Bool
contains_text sub [] = starts_with sub []
contains_text sub (c ∷ s) = starts_with sub (c ∷ s) || contains_text sub s

-- s.size() >= suffix.size() && s.substr(s.size() - suffix.size()) == suffix
unfoldable pub ends_with : Str → Str → Bool
ends_with suffix s =
    leb (length suffix) (length s) && str_eq (drop (length s - length suffix) s) suffix

pub starts_with-append : (p s : Str) → starts_with p (p ++ s) ≡ true
unfolding starts_with
starts_with-append [] s = refl
starts_with-append (a ∷ p) s = rw (==_refl a) (starts_with-append p s)

pub starts_with-inv : (p s : Str) → starts_with p s ≡ true → (ys : Str) × (s ≡ p ++ ys)
unfolding starts_with
starts_with-inv [] s h = (s, refl)
starts_with-inv (a ∷ p) [] h = cc
starts_with-inv (a ∷ p) (b ∷ s) h =
    let (e, h') = &&-eq-true (a == b) (starts_with p s) h in
    let (ys, f) = starts_with-inv p s h' in (ys, cc ((==_iff a b).0 e))

pub contains_text-append : (sub xs ys : Str) → contains_text sub (xs ++ (sub ++ ys)) ≡ true
unfolding contains_text
contains_text-append [] [] [] = starts_with-append [] []
contains_text-append [] [] (y ∷ ys) = rw (starts_with-append [] (y ∷ ys))
contains_text-append (a ∷ sub) [] ys = rw (starts_with-append (a ∷ sub) ys)
contains_text-append sub (x ∷ xs) ys = ground (arith, contains_text-append sub xs ys)

pub contains_text-inv :
    (sub s : Str) → contains_text sub s ≡ true → (xs : Str) × (ys : Str) × (s ≡ xs ++ (sub ++ ys))
unfolding contains_text
contains_text-inv sub [] h = let (ys, e) = starts_with-inv sub [] h in ([], ys, e)
contains_text-inv sub (c ∷ s) h =
    elim (||-eq-true (starts_with sub (c ∷ s)) (contains_text sub s) h) [
      | inl here ↦ let (ys, e) = starts_with-inv sub (c ∷ s) here in ([], ys, e)
      | inr later ↦
          let (xs, ys, e) = contains_text-inv sub s later in (c ∷ xs, ys, ap (λ t. c ∷ t) e)
    ]

drop-append : (xs ys : Str) → drop (length xs) (xs ++ ys) ≡ ys
drop-append [] ys = refl
drop-append (x ∷ xs) ys = drop-append xs ys

pub ends_with-append : (suffix xs : Str) → ends_with suffix (xs ++ suffix) ≡ true
unfolding ends_with
ends_with-append suffix xs =
    let n : length (xs ++ suffix) - length suffix ≡ length xs =
      omega (arith, length-append xs suffix) in
    rw (n, drop-append xs suffix, str_eq_refl suffix)
      (ground (
        arith,
        le→leb (length suffix) (length (xs ++ suffix)) (omega (arith, length-append xs suffix)),
      ))

pub take-append-drop : (n : ℕ) (xs : Str) → take n xs ++ drop n xs ≡ xs
take-append-drop zero xs = refl
take-append-drop (suc n) [] = refl
take-append-drop (suc n) (x ∷ xs) = ap (λ t. x ∷ t) (take-append-drop n xs)

pub ends_with-inv : (suffix s : Str) → ends_with suffix s ≡ true → (xs : Str) × (s ≡ xs ++ suffix)
unfolding ends_with
ends_with-inv suffix s h =
    let n = length s - length suffix in
    let (_, e) = &&-eq-true (leb (length suffix) (length s)) (str_eq (drop n s) suffix) h in
    (take n s, sym (take-append-drop n s) ∙ ap (λ t. take n s ++ t) (str_eq→eq (drop n s) suffix e))

-- std::to_string of an unsigned number: the decimal digits. Each round drops one, so `n` bounds
-- the rounds.
digits_of : ℕ → ℕ → Str → Str
digits_of zero n out = out
digits_of (suc f) n out =
    let out' = (48 + n % 10) ∷ out in
    let more = digits_of f (n / 10) out' in if n / 10 == 0 then out' else more

unfoldable pub to_string : ℕ → Str
unfolding digits_of
to_string n = digits_of (suc n) n []
