-- ===== src/Glob/Classes.antt =====
-- Character classes in patterns.
use vost.Common.{
  ℕ, ◌≡◌, ◌≤◌, ◌↔◌, refl, Bool, true, false, ◌||◌, List, [], ◌∷◌, Str, Any, any, any_iff, length,
  ◌==◌, arith, ==_iff,
}
use mathlib.Core.Bool.{false≢true}
use vost.Glob.{in_range, negated, class_body, scan_class, xnor}
use vost.Glob.Spec.{ClassItem, single, range, class_items, Has, Admits}

pub has_item : ℕ → ClassItem → Bool
has_item ch (single a) = ch == a
has_item ch (range lo hi) = in_range lo hi ch

has_item_iff : (ch : ℕ) (i : ClassItem) → (has_item ch i ≡ true) ↔ Has ch i
unfolding has_item
has_item_iff ch (single a) = ==_iff ch a
has_item_iff ch (range lo hi) =
    (λ h. (ground (arith, h), ground (arith, h)), λ h. ground (arith, h.0, h.1))

any-has_item :
    (ch : ℕ) (items : List ClassItem) → (any (has_item ch) items ≡ true) ↔ Any (Has ch) items
any-has_item ch items = any_iff (has_item ch) (Has ch) items (has_item_iff ch)

pub scan_class_lem :
    (ch : ℕ) (m : Bool) (p : Str)
    → scan_class ch m p ≡ (m || any (has_item ch) (class_items p).0, (class_items p).1)
unfolding scan_class class_items has_item
scan_class_lem ch m [] = ground arith
scan_class_lem ch m (a ∷ []) = ground arith
scan_class_lem ch m (a ∷ d ∷ []) = ground (arith, scan_class_lem ch (m || (ch == a)) (d ∷ []))
scan_class_lem ch m (a ∷ d ∷ b ∷ p) = ground (
  arith,
  scan_class_lem ch (m || in_range a b ch) p,
  scan_class_lem ch (m || (ch == a)) (d ∷ b ∷ p),
)

pub length-class_items : (p : Str) → length (class_items p).1 ≤ length p
unfolding class_items
length-class_items [] = omega arith
length-class_items (a ∷ []) = ground arith
length-class_items (a ∷ d ∷ []) = ground (arith, length-class_items (d ∷ []))
length-class_items (a ∷ d ∷ b ∷ p) =
    ground (arith, length-class_items (d ∷ b ∷ p), length-class_items p)

admits : {X : Type 0} {m : Bool} (n : Bool) → (m ≡ true) ↔ X → (xnor m n ≡ false) ↔ Admits n X
admits {m = true} true e = (λ h. cc, λ a. absurd (a (e.0 refl)))
admits {m = false} true e = (λ h x. false≢true (e.1 x), λ a. refl)
admits {m = true} false e = (λ h. e.0 refl, λ a. refl)
admits {m = false} false e = (λ h. cc, λ a. absurd (false≢true (e.1 a)))

-- The test that the program makes with `matched` and `negate`.
pub xnor-Admits :
    (ch : ℕ) (p : Str)
    → (xnor (any (has_item ch) (class_items (class_body p)).0) (negated p) ≡ false)
      ↔ Admits (negated p) (Any (Has ch) (class_items (class_body p)).0)
xnor-Admits ch p = admits (negated p) (any-has_item ch (class_items (class_body p)).0)

pub length-class_body-le : (p : Str) → length (class_body p) ≤ length p
unfolding class_body
length-class_body-le [] = omega arith
length-class_body-le (c ∷ p) = ground arith
