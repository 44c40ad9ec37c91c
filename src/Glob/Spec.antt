-- ===== src/Glob/Spec.antt =====
-- Which names a pattern of cpp/src/glob.cpp stands for, without a matching loop.
use vost.Common.{ℕ, ◌≡◌, ◌≢◌, ◌≤◌, Bool, true, false, List, [], ◌∷◌, Str, Any, ◌==◌, if◌then◌else◌}
use vost.Glob.{star, question, bracket, char_key, negated, class_body}

pub data ClassItem : Type 0 where
  single : ℕ → ClassItem
  range : ℕ → ℕ → ClassItem

abbrev add_item : ClassItem → List ClassItem × Str → List ClassItem × Str
add_item i (items, rest) = (i ∷ items, rest)

-- The items of a class up to its ']', and the pattern behind it.
unfoldable pub class_items : Str → List ClassItem × Str
class_items [] = ([], [])
class_items (a ∷ []) = if a == b']' then ([], []) else (single a ∷ [], [])
class_items (a ∷ d ∷ []) =
    let more = class_items (d ∷ []) in if a == b']' then ([], d ∷ []) else add_item (single a) more
class_items (a ∷ d ∷ b ∷ p) =
    let far = class_items p in
    let more = class_items (d ∷ b ∷ p) in
    if a == b']'
    then ([], d ∷ b ∷ p)
    else if d == b'-'
    then add_item (range a b) far
    else add_item (single a) more

abbrev pub Has : ℕ → ClassItem → Type 0
Has ch (single a) = ch ≡ a
Has ch (range lo hi) = (char_key lo ≤ char_key ch) × (char_key ch ≤ char_key hi)

-- A class with "!" stands for the bytes that no item has.
abbrev pub Admits : Bool → Type 0 → Type 0
Admits true X = ¬ X
Admits false X = X

pub data Matches : Str → Str → Type 0 where
  done : Matches [] []
  star_none : {pc : ℕ} {p s : Str} → pc ≡ star → Matches p s → Matches (pc ∷ p) s
  star_more : {pc c : ℕ} {p s : Str} → pc ≡ star → Matches (pc ∷ p) s → Matches (pc ∷ p) (c ∷ s)
  one : {pc c : ℕ} {p s : Str} → pc ≡ question → Matches p s → Matches (pc ∷ p) (c ∷ s)
  class :
      {pc c : ℕ} {p s : Str}
      → pc ≡ bracket
      → Admits (negated p) (Any (Has c) (class_items (class_body p)).0)
      → Matches (class_items (class_body p)).1 s
      → Matches (pc ∷ p) (c ∷ s)
  byte :
      {pc c : ℕ} {p s : Str}
      → pc ≢ star
      → pc ≢ question
      → pc ≢ bracket
      → pc ≡ c
      → Matches p s
      → Matches (pc ∷ p) (c ∷ s)
