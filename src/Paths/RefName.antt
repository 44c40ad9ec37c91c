-- ===== src/Paths/RefName.antt =====
-- `validate_ref_name` of cpp/src/paths.cpp.
use vost.Common.{
  ℕ, ◌≡◌, ◌≢◌, ◌↔◌, refl, ap, subst, ◌∙◌, Bool, false, not, ◌&&◌, [], ◌∷◌, ◌++◌, Str, codes,
  is_empty, any, All, ◌==◌, Bool-cases, inl, inr, if◌then◌else◌, arith, contains_text, ends_with,
  contains_text-append, contains_text-inv, ends_with-append, ends_with-inv, ==_iff,
}
use vost.Error.{Error, Result, ok, err, ◌>>◌, throw_if, invalid_ref_name}

-- The cases of the switch.
abbrev pub forbidden : Str
forbidden = b':' ∷ b' ' ∷ 9 ∷ 10 ∷ 13 ∷ 92 ∷ b'^' ∷ b'~' ∷ b'?' ∷ b'*' ∷ b'[' ∷ []

unfoldable pub is_forbidden : ℕ → Bool
is_forbidden ch = any (λ c. c == ch) forbidden

abbrev pub character_message : ℕ → Str
character_message ch = codes "ref name contains invalid character: '" ++ (ch ∷ codes "'")

-- for (char ch : name) switch (ch) { … }
unfoldable pub check_characters : Str → Result (Unit {0})
check_characters [] = ok tt
check_characters (ch ∷ name) =
    let rest = check_characters name in
    if is_forbidden ch then err (invalid_ref_name (character_message ch)) else rest

-- name.back(), of a name that is not empty
unfoldable pub back : Str → ℕ
back [] = 0
back (c ∷ []) = c
back (c ∷ d ∷ s) = back (d ∷ s)

unfoldable pub validate_ref_name : Str → Result (Unit {0})
unfolding check_characters is_forbidden back
validate_ref_name name = do
  throw_if (is_empty name) (invalid_ref_name (codes "ref name must not be empty"))
  check_characters name
  throw_if (contains_text (codes "..") name)
      (invalid_ref_name (codes "ref name must not contain '..'"))
  throw_if (contains_text (codes "@{") name)
      (invalid_ref_name (codes "ref name must not contain '@{'"))
  throw_if (not (is_empty name) && (back name == b'.'))
      (invalid_ref_name (codes "ref name must not end with '.'"))
  throw_if (ends_with (codes ".lock") name)
      (invalid_ref_name (codes "ref name must not end with '.lock'"))

-- A character that a name may have.
pub record IsNameCharacter (ch : ℕ) : Type 0 where
  pub no_colon : ch ≢ 58
  pub no_space : ch ≢ 32
  pub no_tab : ch ≢ 9
  pub no_newline : ch ≢ 10
  pub no_return : ch ≢ 13
  pub no_backslash : ch ≢ 92
  pub no_caret : ch ≢ 94
  pub no_tilde : ch ≢ 126
  pub no_question : ch ≢ 63
  pub no_star : ch ≢ 42
  pub no_bracket : ch ≢ 91

-- A name that the program accepts, without reference to how it tests for it.
pub record IsRefName (name : Str) : Type 0 where
  pub not_empty : name ≢ []
  pub characters : All IsNameCharacter name
  pub no_dotdot : (xs ys : Str) → name ≢ xs ++ (codes ".." ++ ys)
  pub no_at_brace : (xs ys : Str) → name ≢ xs ++ (codes "@{" ++ ys)
  pub no_last_dot : (xs : Str) → name ≢ xs ++ codes "."
  pub no_lock : (xs : Str) → name ≢ xs ++ codes ".lock"

back-append : (xs : Str) (c : ℕ) → back (xs ++ (c ∷ [])) ≡ c
unfolding back
back-append [] c = refl
back-append (x ∷ []) c = refl
back-append (x ∷ y ∷ xs) c = back-append (y ∷ xs) c

back-inv : (c : ℕ) (s : Str) → (xs : Str) × (c ∷ s ≡ xs ++ (back (c ∷ s) ∷ []))
unfolding back
back-inv c [] = ([], refl)
back-inv c (d ∷ s) = let (xs, e) = back-inv d s in (c ∷ xs, ap (λ t. c ∷ t) e)

is_forbidden_iff : (ch : ℕ) → (is_forbidden ch ≡ false) ↔ IsNameCharacter ch
unfolding is_forbidden
is_forbidden_iff ch = (
  λ h. record {
    no_colon = λ e. ground (arith, h, e);
    no_space = λ e. ground (arith, h, e);
    no_tab = λ e. ground (arith, h, e);
    no_newline = λ e. ground (arith, h, e);
    no_return = λ e. ground (arith, h, e);
    no_backslash = λ e. ground (arith, h, e);
    no_caret = λ e. ground (arith, h, e);
    no_tilde = λ e. ground (arith, h, e);
    no_question = λ e. ground (arith, h, e);
    no_star = λ e. ground (arith, h, e);
    no_bracket = λ e. ground (arith, h, e);
  },
  λ a. ground (
    arith, a.no_colon, a.no_space, a.no_tab, a.no_newline, a.no_return, a.no_backslash, a.no_caret,
    a.no_tilde, a.no_question, a.no_star, a.no_bracket,
  ),
)

check_characters_iff : (name : Str) → (check_characters name ≡ ok tt) ↔ All IsNameCharacter name
unfolding check_characters
check_characters_iff [] = (λ h. tt, λ a. refl)
check_characters_iff (ch ∷ name) = elim (Bool-cases (is_forbidden ch)) [
  | inl e ↦
      (λ h. absurd (ground (arith, h)), λ a. absurd (ground (arith, (is_forbidden_iff ch).1 a.0)))
  | inr e ↦ rw e (
    λ h. ((is_forbidden_iff ch).0 e, (check_characters_iff name).0 h),
    λ a. (check_characters_iff name).1 a.1,
  )
]

contains_text-false :
    (sub s : Str) → (contains_text sub s ≡ false) ↔ ((xs ys : Str) → s ≢ xs ++ (sub ++ ys))
contains_text-false sub s = (
  λ h xs ys e. cc (contains_text-append sub xs ys),
  λ h. elim (Bool-cases (contains_text sub s)) [
    | inl e ↦ let (xs, ys, q) = contains_text-inv sub s e in absurd (h xs ys q)
    | inr e ↦ e
  ],
)

ends_with-false : (sub s : Str) → (ends_with sub s ≡ false) ↔ ((xs : Str) → s ≢ xs ++ sub)
ends_with-false sub s = (
  λ h xs e. cc (ends_with-append sub xs),
  λ h. elim (Bool-cases (ends_with sub s)) [
    | inl e ↦ let (xs, q) = ends_with-inv sub s e in absurd (h xs q)
    | inr e ↦ e
  ],
)

last_dot_clash :
    (xs : Str) → ¬ ((not (is_empty (xs ++ codes ".")) && (back (xs ++ codes ".") == b'.')) ≡ false)
last_dot_clash [] h = unfold back in cc h
last_dot_clash (x ∷ xs) h = ground (arith, h, back-append (x ∷ xs) b'.')

last_dot_other :
    (s : Str) → ((xs : Str) → s ≢ xs ++ codes ".") → (not (is_empty s) && (back s == b'.')) ≡ false
last_dot_other [] h = refl
last_dot_other (c ∷ s) h = elim (Bool-cases (back (c ∷ s) == b'.')) [
  | inl e ↦
      let (xs, q) = back-inv c s in
      absurd (h xs (q ∙ ap (λ t. xs ++ (t ∷ [])) ((==_iff (back (c ∷ s)) b'.').0 e)))
  | inr e ↦ rw e
]

last_dot-false :
    (s : Str)
    → ((not (is_empty s) && (back s == b'.')) ≡ false) ↔ ((xs : Str) → s ≢ xs ++ codes ".")
last_dot-false s = (
  λ h xs e. last_dot_clash xs (subst (λ t. (not (is_empty t) && (back t == b'.')) ≡ false) e h),
  λ h. last_dot_other s h,
)

six_checks :
    (a c d e f : Bool) (m : Result (Unit {0})) (x₀ x₁ x₂ x₃ x₄ : Error)
    → ((do throw_if a x₀; m; throw_if c x₁; throw_if d x₂; throw_if e x₃; throw_if f x₄) ≡ ok tt)
      ↔ ((a ≡ false) × (m ≡ ok tt) × (c ≡ false) × (d ≡ false) × (e ≡ false) × (f ≡ false))
six_checks a c d e f m x₀ x₁ x₂ x₃ x₄ = (λ h. ground arith, λ h. ground arith)

checks :
    (name : Str)
    → (validate_ref_name name ≡ ok tt) ↔ (
        (is_empty name ≡ false)
        × (check_characters name ≡ ok tt)
        × (contains_text (codes "..") name ≡ false)
        × (contains_text (codes "@{") name ≡ false)
        × ((not (is_empty name) && (back name == b'.')) ≡ false)
        × (ends_with (codes ".lock") name ≡ false))
checks name = unfold validate_ref_name in six_checks _ _ _ _ _ _ _ _ _ _ _

ne_nil : (s : Str) → is_empty s ≡ false → s ≢ []
ne_nil [] h e = cc
ne_nil (c ∷ s) h e = cc

is_empty-false : (s : Str) → s ≢ [] → is_empty s ≡ false
is_empty-false [] h = absurd (h refl)
is_empty-false (c ∷ s) h = refl

-- `validate_ref_name` accepts exactly the names that are not empty, hold none of the characters
-- : space, tab, newline, carriage return, backslash, ^ ~ ? * [, contain neither ".." nor "@{" and
-- end neither in "." nor in ".lock".
pub validate_ref_name_iff : (name : Str) → (validate_ref_name name ≡ ok tt) ↔ IsRefName name
validate_ref_name_iff name = (
  λ h.
      let (a, m, c, d, e, f) = (checks name).0 h in
      record {
        not_empty = λ q. ne_nil name a q;
        characters = (check_characters_iff name).0 m;
        no_dotdot = (contains_text-false (codes "..") name).0 c;
        no_at_brace = (contains_text-false (codes "@{") name).0 d;
        no_last_dot = (last_dot-false name).0 e;
        no_lock = (ends_with-false (codes ".lock") name).0 f;
      },
  λ r. (checks name).1 (
    is_empty-false name r.not_empty,
    (check_characters_iff name).1 r.characters,
    (contains_text-false (codes "..") name).1 r.no_dotdot,
    (contains_text-false (codes "@{") name).1 r.no_at_brace,
    (last_dot-false name).1 r.no_last_dot,
    (ends_with-false (codes ".lock") name).1 r.no_lock,
  ),
)
