-- ===== src/Notes/Names.antt =====
-- The names in a tree of notes: a hash, and its two parts.
use vost.Common.{
  ℕ, zero, suc, ◌≡◌, refl, sym, ap, ◌∙◌, true, false, ◌&&◌, [], ◌∷◌, Str, str_eq, str_eq→eq,
  eq→str_eq, Bool-cases, inl, inr, take, drop, length, arith,
}
use vost.Notes.Tree.{prefix_of, suffix_of}

abbrev pub IsHash : Str → Type 0
IsHash hash = length hash ≡ 40

pub str_eq_split :
    (n : ℕ) (s t : Str)
    → str_eq s t ≡ (str_eq (take n s) (take n t) && str_eq (drop n s) (drop n t))
unfolding str_eq
str_eq_split zero s t = refl
str_eq_split (suc n) [] [] = refl
str_eq_split (suc n) [] (b ∷ t) = refl
str_eq_split (suc n) (a ∷ s) [] = refl
str_eq_split (suc n) (a ∷ s) (b ∷ t) = ground (arith, str_eq_split n s t)

pub same_prefix :
    (s t : Str)
    → str_eq (prefix_of s) (prefix_of t) ≡ true
    → str_eq (suffix_of s) (suffix_of t) ≡ str_eq s t
same_prefix s t h = rw (str_eq_split 2 s t, h) refl

pub other_prefix : (s t : Str) → str_eq (prefix_of s) (prefix_of t) ≡ false → str_eq s t ≡ false
other_prefix s t h = rw (str_eq_split 2 s t, h) refl

length-take_le : (n : ℕ) (s : Str) → length s ≡ 40 → length (take 2 s) ≡ 2
length-take_le n [] h = omega (arith, h)
length-take_le n (a ∷ []) h = omega (arith, h)
length-take_le n (a ∷ b ∷ s) h = refl

-- No hash is the first part of one.
pub hash_apart : (s t : Str) → IsHash s → IsHash t → str_eq s (prefix_of t) ≡ false
hash_apart s t h k = elim (Bool-cases (str_eq s (prefix_of t))) [
  | inl e ↦ absurd (short (ap length (str_eq→eq s (prefix_of t) e)) h (length-take_le 0 t k))
  | inr e ↦ e
]
  where
    short : {a b : ℕ} → a ≡ b → a ≡ 40 → ¬ (b ≡ 2)
    short e f g = omega (arith, e, f, g)

pub prefix_apart : (s t : Str) → IsHash s → IsHash t → str_eq (prefix_of t) s ≡ false
prefix_apart s t h k = elim (Bool-cases (str_eq (prefix_of t) s)) [
  | inl e ↦ absurd (
      clash
        (sym (eq→str_eq s (prefix_of t) (sym (str_eq→eq (prefix_of t) s e))) ∙ hash_apart s t h k))
  | inr e ↦ e
]
  where
    clash : ¬ (true ≡ false)
    clash h = cc
