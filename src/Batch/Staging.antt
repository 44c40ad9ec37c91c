-- ===== src/Batch/Staging.antt =====
-- What a batch has staged after each call of cpp/src/batch.cpp.
use vost.Common.{
  ℕ, ◌≡◌, refl, sym, ap, ◌∙◌, Bool, true, false, not, List, [], ◌∷◌, ◌++◌, Str, str_eq, str_eq→eq,
  any, Bool-cases, if◌then◌else◌, arith, inl, inr, ◌||◌,
}
use vost.Error.{ok, throw_if, batch_closed, ok-injective, >>=-eq-ok, throw_if-inv}
use vost.Types.{Bytes}
use vost.Paths.{normalize}
use vost.Tree.Rebuild.{Write}
use vost.Batch.{Batch, require_open, erase_writes, erase_removes, write_with_mode, remove}

-- What the batch does with a path: the last write staged for it, else a removal, else nothing.
pub data Staged : Type 0 where
  untouched removed : Staged
  written : Bytes → ℕ → Staged

abbrev pub later : Staged → Staged → Staged
later first untouched = first
later first removed = removed
later first (written content mode) = written content mode

later_untouched : (s : Staged) → s ≡ later untouched s
later_untouched untouched = refl
later_untouched removed = refl
later_untouched (written content mode) = refl

later_assoc : (a b c : Staged) → later a (later b c) ≡ later (later a b) c
later_assoc a b untouched = refl
later_assoc a b removed = refl
later_assoc a b (written content mode) = refl

unfoldable pub last_write : Str → List Write → Staged
last_write q [] = untouched
last_write q (w ∷ ws) =
    later (if str_eq w.path q then written w.content w.mode else untouched) (last_write q ws)

unfoldable pub staged : Batch → Str → Staged
unfolding last_write
staged b q =
    later (if any (λ r. str_eq r q) b.removes then removed else untouched) (last_write q b.writes)

last_write-append :
    (q : Str) (ws vs : List Write)
    → last_write q (ws ++ vs) ≡ later (last_write q ws) (last_write q vs)
unfolding last_write
last_write-append q [] vs = later_untouched (last_write q vs)
last_write-append q (w ∷ ws) vs =
    ap (later (if str_eq w.path q then written w.content w.mode else untouched))
      (last_write-append q ws vs)
    ∙ later_assoc (if str_eq w.path q then written w.content w.mode else untouched)
        (last_write q ws) (last_write q vs)

if_lem :
    (c : Bool) (l : Staged) (content : Bytes) (mode : ℕ)
    → (if c then untouched else l)
      ≡ (if c then untouched else later (if c then written content mode else untouched) l)
if_lem true l content mode = refl
if_lem false l content mode = later_untouched l

other_lem :
    (c b : Bool) (l : Staged) (content : Bytes) (mode : ℕ)
    → (c ≡ true → b ≡ false)
    → later (if b then written content mode else untouched) (if c then untouched else l)
      ≡ (if c then untouched else later (if b then written content mode else untouched) l)
other_lem true b l content mode h = rw (h refl) refl
other_lem false b l content mode h = refl

-- Equal names answer alike, and a name that differs from q's equal is not q.
pub same_test :
    (r norm q : Str)
    → (str_eq r norm ≡ true → str_eq r q ≡ str_eq norm q)
      × (str_eq norm q ≡ true → str_eq r q ≡ str_eq r norm)
same_test r norm q = (
  λ h. ap (λ x. str_eq x q) (str_eq→eq r norm h),
  λ h. ap (λ x. str_eq r x) (sym (str_eq→eq norm q h)),
)

-- Erasing the writes to a path leaves the others as they are.
last_write-erase_writes :
    (q norm : Str) (ws : List Write)
    → last_write q (erase_writes norm ws) ≡ (if str_eq norm q then untouched else last_write q ws)
unfolding last_write erase_writes
last_write-erase_writes q norm [] = ground arith
last_write-erase_writes q norm (w ∷ ws) = elim (Bool-cases (str_eq w.path norm)) [
  | inl e ↦
      let p : str_eq w.path q ≡ str_eq norm q = ap (λ x. str_eq x q) (str_eq→eq w.path norm e) in
      rw (e, p, erase_writes, last_write)
        (last_write-erase_writes q norm ws
          ∙ if_lem (str_eq norm q) (last_write q ws) w.content w.mode)
  | inr e ↦
      rw (e, erase_writes, last_write)
        (ap (later (if str_eq w.path q then written w.content w.mode else untouched))
            (last_write-erase_writes q norm ws)
          ∙ other_lem (str_eq norm q) (str_eq w.path q) (last_write q ws) w.content w.mode
              (λ h. rw (str_eq→eq norm q h) at e))
]

any-if :
    {A : Type 0} (a : Bool) (f : A → Bool) (x : A) (xs : List A)
    → any f (elim a [ true ↦ x ∷ xs | false ↦ xs ])
      ≡ (if a then (if f x then true else any f xs) else any f xs)
any-if true f x xs = ground arith
any-if false f x xs = refl

pub any-erase_removes :
    (q norm : Str) (rs : List Str)
    → any (λ r. str_eq r q) (erase_removes norm rs)
      ≡ (if str_eq norm q then false else any (λ r. str_eq r q) rs)
unfolding erase_removes
any-erase_removes q norm [] = ground arith
any-erase_removes q norm (r ∷ rs) =
    any-if (not (str_eq r norm)) (λ x. str_eq x q) r (erase_removes norm rs)
    ∙ ground (arith, any-erase_removes q norm rs, same_test r norm q)

pub any-append :
    (q : Str) (xs ys : List Str)
    → any (λ r. str_eq r q) (xs ++ ys) ≡ (any (λ r. str_eq r q) xs || any (λ r. str_eq r q) ys)
any-append q [] ys = ground arith
any-append q (x ∷ xs) ys = ground (arith, any-append q xs ys)

any-add_if :
    (a : Bool) (q norm : Str) (rs : List Str)
    → any (λ r. str_eq r norm) rs ≡ a
    → any (λ r. str_eq r q) (if a then rs else rs ++ (norm ∷ []))
      ≡ (if str_eq norm q then true else any (λ r. str_eq r q) rs)
any-add_if true q norm rs e =
    let p : str_eq norm q ≡ true → any (λ r. str_eq r q) rs ≡ true =
      λ h. ap (λ x. any (λ r. str_eq r x) rs) (sym (str_eq→eq norm q h)) ∙ e in
    ground (arith, p)
any-add_if false q norm rs e = any-append q rs (norm ∷ []) ∙ ground arith

pub any-add :
    (q norm : Str) (rs : List Str)
    → any (λ r. str_eq r q) (if any (λ r. str_eq r norm) rs then rs else rs ++ (norm ∷ []))
      ≡ (if str_eq norm q then true else any (λ r. str_eq r q) rs)
any-add q norm rs = any-add_if (any (λ r. str_eq r norm) rs) q norm rs refl

written_lem :
    (c r : Bool) (l : Staged) (content : Bytes) (mode : ℕ)
    → later (if (if c then false else r) then removed else untouched) (
        later
          (if c then untouched else l)
          (later (if c then written content mode else untouched) untouched))
      ≡ (if c then written content mode else later (if r then removed else untouched) l)
written_lem true r l content mode = refl
written_lem false r untouched content mode = refl
written_lem false r removed content mode = refl
written_lem false r (written x y) content mode = refl

removed_lem :
    (c r : Bool) (l : Staged)
    → later (if (if c then true else r) then removed else untouched) (if c then untouched else l)
      ≡ (if c then removed else later (if r then removed else untouched) l)
removed_lem true r l = refl
removed_lem false r l = refl

-- A call that returned: the batch was open, the path was normal.
pub write_with_mode-inv :
    (b : Batch) (path : Str) (content : Bytes) (mode : ℕ) {b' : Batch} {norm : Str}
    → normalize path ≡ ok norm
    → write_with_mode b path content mode ≡ ok b'
    → (b.closed ≡ false)
      × (b' ≡ (record b {
        writes =
            erase_writes norm b.writes
            ++ (record { path = norm; content = content; mode = mode } ∷ []);
        removes = erase_removes norm b.removes;
      }))
unfolding write_with_mode require_open
write_with_mode-inv b path content mode n h =
    let (u, open_, h₁) = >>=-eq-ok (throw_if b.closed batch_closed) _ h in
    let (norm', n', h₂) = >>=-eq-ok (normalize path) _ h₁ in
    let e : norm' ≡ _ = ok-injective (sym n' ∙ n) in
    (throw_if-inv b.closed batch_closed open_, rw (← e) (sym (ok-injective h₂)))

pub remove-inv :
    (b : Batch) (path : Str) {b' : Batch} {norm : Str}
    → normalize path ≡ ok norm
    → remove b path ≡ ok b'
    → (b.closed ≡ false)
      × (b' ≡ (record b {
        writes = erase_writes norm b.writes;
        removes =
            if any (λ r. str_eq r norm) b.removes then b.removes else b.removes ++ (norm ∷ []);
      }))
unfolding remove require_open
remove-inv b path n h =
    let (u, open_, h₁) = >>=-eq-ok (throw_if b.closed batch_closed) _ h in
    let (norm', n', h₂) = >>=-eq-ok (normalize path) _ h₁ in
    let e : norm' ≡ _ = ok-injective (sym n' ∙ n) in
    (throw_if-inv b.closed batch_closed open_, rw (← e) (sym (ok-injective h₂)))

-- Writing stages the content for the normal form of the path and leaves every other path as it was.
pub staged-write_with_mode :
    (b : Batch) (path : Str) (content : Bytes) (mode : ℕ) (q : Str) {b' : Batch} {norm : Str}
    → normalize path ≡ ok norm
    → write_with_mode b path content mode ≡ ok b'
    → staged b' q ≡ (if str_eq norm q then written content mode else staged b q)
unfolding staged last_write
staged-write_with_mode b path content mode q {b'} {norm} n h =
    let (open_, e) = write_with_mode-inv b path content mode n h in
    ap (λ x. staged x q) e
    ∙ ap
        (later
          (if any (λ r. str_eq r q) (erase_removes norm b.removes) then removed else untouched))
        (last_write-append q (erase_writes norm b.writes) _)
    ∙ rw (any-erase_removes q norm b.removes, last_write-erase_writes q norm b.writes)
        (written_lem (str_eq norm q) (any (λ r. str_eq r q) b.removes) (last_write q b.writes)
          content mode)

-- Removing stages the removal of the normal form of the path and leaves every other path as it was.
pub staged-remove :
    (b : Batch) (path : Str) (q : Str) {b' : Batch} {norm : Str}
    → normalize path ≡ ok norm
    → remove b path ≡ ok b'
    → staged b' q ≡ (if str_eq norm q then removed else staged b q)
unfolding staged
staged-remove b path q {b'} {norm} n h =
    let (open_, e) = remove-inv b path n h in
    ap (λ x. staged x q) e
    ∙ rw (any-add q norm b.removes, last_write-erase_writes q norm b.writes)
        (removed_lem (str_eq norm q) (any (λ r. str_eq r q) b.removes) (last_write q b.writes))
