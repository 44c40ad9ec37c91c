-- ===== src/Glob/Decides.antt =====
-- `fnmatch` of cpp/src/glob.cpp decides `Matches`.
use vost.Common.{
  ℕ, zero, suc, ◌≡◌, ◌≢◌, ◌≤◌, ◌<◌, ◌↔◌, ◌⊎◌, inl, inr, refl, sym, subst, ◌∙◌, Bool, true, false,
  not, ◌&&◌, ◌||◌, [], ◌∷◌, append-nil, Str, codes, str_eq, str_eq→eq, eq→str_eq, Any, is_empty,
  any, length, ◌==◌, if◌then◌else◌, arith, ==_iff, ||-eq-true,
}
use mathlib.Core.Bool.{false≢true}
use native.Mathlib.Decide.{ℕ_discrete}
use vost.Glob.{
  star, question, bracket, negated, class_body, skip_stars, any_suffix, xnor, fnmatch_step,
  fnmatch_loop, fnmatch, glob_match, leading_dot,
}
use vost.Glob.Spec.{class_items, Has, Admits, Matches, done, star_none, star_more, one, class, byte}
use vost.Glob.Stars.{
  skip_star, stars_match, star_absorb, Matches-skip_stars, any_suffix-intro, any_suffix-inv,
  Matches-nil, length-skip_stars-le,
}
use vost.Glob.Classes.{
  has_item, scan_class_lem, length-class_items, length-class_body-le, xnor-Admits,
}

-- The branches of a round.
module _ (next : Str → Str → Bool) (pc : ℕ) (p : Str) (c : ℕ) (s : Str) where
  step_star :
      pc ≡ star
      → fnmatch_step next pc p c s
        ≡ (is_empty (skip_stars p) || any_suffix (next (skip_stars p)) (c ∷ s))
  unfolding fnmatch_step
  step_star e = rw e

  step_one : pc ≡ question → fnmatch_step next pc p c s ≡ next p s
  unfolding fnmatch_step
  step_one e = rw e

  step_class :
      pc ≡ bracket
      → fnmatch_step next pc p c s ≡ (
          if xnor (any (has_item c) (class_items (class_body p)).0) (negated p)
          then false
          else next (class_items (class_body p)).1 s)
  unfolding fnmatch_step
  step_class e = rw (e, scan_class_lem c false (class_body p))

  step_byte :
      pc ≢ star
      → pc ≢ question
      → pc ≢ bracket
      → fnmatch_step next pc p c s ≡ (if pc == c then next p s else false)
  unfolding fnmatch_step
  step_byte n₀ n₁ n₂ = ground arith

empty_stars : (p s : Str) → is_empty (skip_stars p) ≡ true → Matches (skip_stars p) []
empty_stars p s h = empty (skip_stars p) h
  where
    empty : (q : Str) → is_empty q ≡ true → Matches q []
    empty [] e = done
    empty (x ∷ q) e = absurd (false≢true e)

sound_star :
    (next : Str → Bool) (pc : ℕ) (p s : Str)
    → pc ≡ star
    → ((s' : Str) → next s' ≡ true → Matches (skip_stars p) s')
    → (is_empty (skip_stars p) || any_suffix next s) ≡ true
    → Matches (pc ∷ p) s
sound_star next pc p s e sound h =
    elim (||-eq-true (is_empty (skip_stars p)) (any_suffix next s) h) [
      | inl q ↦
          subst (λ t. Matches (pc ∷ p) t) (append-nil s)
            (star_absorb s [] e (stars_match p (empty_stars p s q)))
      | inr q ↦
          let (xs, s', f, n) = any_suffix-inv next s q in
          subst (λ t. Matches (pc ∷ p) t) (sym f) (star_absorb xs s' e (stars_match p (sound s' n)))
    ]

if_true : (b x : Bool) → (if b then false else x) ≡ true → (b ≡ false) × (x ≡ true)
if_true b x h = ground arith

then_true : (b x : Bool) → (if b then x else false) ≡ true → (b ≡ true) × (x ≡ true)
then_true b x h = ground arith

sound_step :
    (next : Str → Str → Bool)
    → ((q t : Str) → next q t ≡ true → Matches q t)
    → (pc : ℕ) (p : Str) (c : ℕ) (s : Str) → fnmatch_step next pc p c s ≡ true
    → Matches (pc ∷ p) (c ∷ s)
sound_step next sound pc p c s h = elim (ℕ_discrete pc star) [
  | yes e ↦
      sound_star (next (skip_stars p)) pc p (c ∷ s) e (sound (skip_stars p))
        (sym (step_star next pc p c s e) ∙ h)
  | no n₀ ↦ elim (ℕ_discrete pc question) [
    | yes e ↦ one e (sound p s (sym (step_one next pc p c s e) ∙ h))
    | no n₁ ↦ elim (ℕ_discrete pc bracket) [
      | yes e ↦
          let (a, n) = if_true _ _ (sym (step_class next pc p c s e) ∙ h) in
          class e ((xnor-Admits c p).0 a) (sound _ s n)
      | no n₂ ↦
          let (q, n) = then_true _ _ (sym (step_byte next pc p c s n₀ n₁ n₂) ∙ h) in
          byte n₀ n₁ n₂ ((==_iff pc c).0 q) (sound p s n)
    ]
  ]
]

-- Soundness does not depend on the fuel.
loop_sound : (f : ℕ) (p s : Str) → fnmatch_loop f p s ≡ true → Matches p s
unfolding fnmatch_loop
loop_sound zero p s h = absurd (false≢true h)
loop_sound (suc f) [] [] h = done
loop_sound (suc f) [] (c ∷ s) h = absurd (false≢true h)
loop_sound (suc f) (pc ∷ p) [] h = stars_match (pc ∷ p) (empty_stars (pc ∷ p) [] h)
loop_sound (suc f) (pc ∷ p) (c ∷ s) h = sound_step (fnmatch_loop f) (loop_sound f) pc p c s h

||-true_right : (a b : Bool) → b ≡ true → (a || b) ≡ true
||-true_right a b h = ground arith

module _ (next : Str → Str → Bool) (pc : ℕ) (p : Str) (c : ℕ) (s : Str) where
  -- `next` finds every match of a pattern that is no longer than what is left.
  abbrev IsComplete : Type 0
  IsComplete = (q t : Str) → length q ≤ length p → Matches q t → next q t ≡ true

  complete_star :
      IsComplete → pc ≡ star → Matches (pc ∷ p) (c ∷ s) → fnmatch_step next pc p c s ≡ true
  complete_star complete e m =
      let (xs, s', q, n) = Matches-skip_stars m in
      let n' : Matches (skip_stars p) s' = subst (λ t. Matches t s') (skip_star pc p e) n in
      let hit =
        any_suffix-intro (next (skip_stars p)) xs s'
          (complete (skip_stars p) s' (length-skip_stars-le p) n') in
      step_star next pc p c s e
      ∙ ||-true_right (is_empty (skip_stars p)) _
          (subst (λ t. any_suffix (next (skip_stars p)) t ≡ true) (sym q) hit)

  complete_class :
      IsComplete
      → pc ≡ bracket
      → Admits (negated p) (Any (Has c) (class_items (class_body p)).0)
      → Matches (class_items (class_body p)).1 s
      → fnmatch_step next pc p c s ≡ true
  complete_class complete e a m =
      rw (step_class next pc p c s e, (xnor-Admits c p).1 a)
        (complete (class_items (class_body p)).1 s
          (omega (arith, length-class_items (class_body p), length-class_body-le p)) m)

  complete_byte :
      IsComplete
      → pc ≢ star
      → pc ≢ question
      → pc ≢ bracket
      → pc ≡ c
      → Matches p s
      → fnmatch_step next pc p c s ≡ true
  complete_byte complete n₀ n₁ n₂ e m =
      rw (step_byte next pc p c s n₀ n₁ n₂, (==_iff pc c).1 e) (complete p s (omega arith) m)

complete_step :
    (next : Str → Str → Bool) {pc : ℕ} {p : Str} {c : ℕ} {s : Str}
    → Matches (pc ∷ p) (c ∷ s)
    → ((q t : Str) → length q ≤ length p → Matches q t → next q t ≡ true)
    → fnmatch_step next pc p c s ≡ true
complete_step next {pc} {p} {c} {s} (star_none e d) h =
    complete_star next pc p c s h e (star_none e d)
complete_step next {pc} {p} {c} {s} (star_more e d) h =
    complete_star next pc p c s h e (star_more e d)
complete_step next {pc} {p} {c} {s} (one e d) h = step_one next pc p c s e ∙ h p s (omega arith) d
complete_step next {pc} {p} {c} {s} (class e a d) h = complete_class next pc p c s h e a d
complete_step next {pc} {p} {c} {s} (byte n₀ n₁ n₂ e d) h =
    complete_byte next pc p c s h n₀ n₁ n₂ e d

-- Fuel beyond the length of the pattern finds every match.
loop_complete : (f : ℕ) (p s : Str) → length p < f → Matches p s → fnmatch_loop f p s ≡ true
unfolding fnmatch_loop
loop_complete zero p s h m = absurd (omega arith)
loop_complete (suc f) [] [] h m = refl
loop_complete (suc f) [] (c ∷ s) h m = elim m [ ]
loop_complete (suc f) (pc ∷ p) [] h m = Matches-nil m refl
loop_complete (suc f) (pc ∷ p) (c ∷ s) h m =
    complete_step (fnmatch_loop f) m (λ q t le n. loop_complete f q t (omega arith) n)

-- `fnmatch` answers true exactly for the names that the pattern stands for.
pub fnmatch_iff : (pattern name : Str) → (fnmatch pattern name ≡ true) ↔ Matches pattern name
unfolding fnmatch
fnmatch_iff pattern name = (
  loop_sound (suc (length pattern)) pattern name,
  loop_complete (suc (length pattern)) pattern name (omega arith),
)

-- The guard of `glob_match`, before `fnmatch` runs.
guard_iff :
    (a b c d x : Bool)
    → ((if a && (not b && (not c && not d)) then false else x) ≡ true)
      ↔ ((x ≡ true) × (a ≡ true → (b ≡ true) ⊎ ((c ≡ true) ⊎ (d ≡ true))))
guard_iff false b c d x = (λ h. (h, λ e. absurd (false≢true e)), λ h. h.0)
guard_iff true true c d x = (λ h. (h, λ e. inl refl), λ h. h.0)
guard_iff true false true d x = (λ h. (h, λ e. inr (inl refl)), λ h. h.0)
guard_iff true false false true x = (λ h. (h, λ e. inr (inr refl)), λ h. h.0)
guard_iff true false false false x = (λ h. absurd (false≢true h), λ h. ground (arith, h.1 refl))

-- The empty pattern does not match a name that begins with a dot.
dotted :
    (pattern name : Str)
    → Matches pattern name
    → leading_dot name ≡ true
    → (is_empty pattern ≡ true)
      ⊎ ((leading_dot pattern ≡ true) ⊎ (str_eq pattern (codes "**") ≡ true))
    → (leading_dot pattern ≡ true) ⊎ (pattern ≡ codes "**")
dotted [] [] m e h = absurd (false≢true e)
dotted [] (c ∷ s) m e h = elim m [ ]
dotted (p ∷ ps) name m e (inl q) = absurd (false≢true q)
dotted (p ∷ ps) name m e (inr (inl q)) = inl q
dotted (p ∷ ps) name m e (inr (inr q)) = inr (str_eq→eq (p ∷ ps) (codes "**") q)

glob_match-guarded :
    (pattern name : Str)
    → (glob_match pattern name ≡ true) ↔ (
        Matches pattern name
        × (leading_dot name ≡ true → (leading_dot pattern ≡ true) ⊎ (pattern ≡ codes "**")))
unfolding glob_match
glob_match-guarded pattern name =
    let (there, back) =
      guard_iff (leading_dot name) (is_empty pattern) (leading_dot pattern)
        (str_eq pattern (codes "**")) (fnmatch pattern name) in
    (
      λ h. (
        (fnmatch_iff pattern name).0 (there h).0,
        λ e. dotted pattern name ((fnmatch_iff pattern name).0 (there h).0) e ((there h).1 e),
      ),
      λ h. back (
        (fnmatch_iff pattern name).1 h.0,
        λ e. inr (elim (h.1 e) [ inl d ↦ inl d | inr d ↦ inr (eq→str_eq pattern (codes "**") d) ]),
      ),
    )

-- What a Boolean implies, as a choice.
implies_iff : {A : Type 0} (b : Bool) → (b ≡ true → A) ↔ ((b ≡ false) ⊎ A)
implies_iff false = (λ h. inl refl, λ h e. absurd (false≢true e))
implies_iff true =
    (λ h. inr (h refl), λ h e. elim h [ inl q ↦ absurd (false≢true (sym q)) | inr a ↦ a ])

-- `glob_match` answers true exactly for the names that the pattern stands for and that do not
-- begin with a dot, unless the pattern begins with a dot or is "**".
pub glob_match_iff :
    (pattern name : Str)
    → (glob_match pattern name ≡ true) ↔ (
        Matches pattern name
        × ((leading_dot name ≡ false) ⊎ ((leading_dot pattern ≡ true) ⊎ (pattern ≡ codes "**"))))
glob_match_iff pattern name = (
  λ h.
      let m = (glob_match-guarded pattern name).0 h in
      (m.0, (implies_iff (leading_dot name)).0 m.1),
  λ h. (glob_match-guarded pattern name).1 (h.0, (implies_iff (leading_dot name)).1 h.1),
)
