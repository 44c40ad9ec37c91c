-- ===== src/Paths/Normalize.antt =====
-- What `normalize` of cpp/src/paths.cpp returns, and when it throws.
use vost.Common.{
  ℕ, ◌≡◌, ◌≢◌, refl, sym, ap, subst, All-keep, All-map, ◌∙◌, Bool, true, false, not, ◌&&◌, List, [],
  ◌∷◌, Str, codes, str_eq, is_empty, keep, any, All, if◌then◌else◌, arith, str_eq_iff, eq→str_eq,
}
use vost.Error.{Error, ok, err, ◌>>=◌, invalid_path}
use vost.Paths.{
  IsSegment, split_slash, join_slash, segments, segments-join_slash, segments-IsSegment, dot,
  dotdot, dotdot_message, scan, all_slashes, is_root, finish, normalize,
}

-- The pieces of a path that mean something: "." is left out.
abbrev pub kept : Str → List Str
kept path = keep (λ seg. not (str_eq seg dot)) (segments path)

abbrev pub empty_message : Str
empty_message = codes "path must not be empty"

abbrev pub has_dotdot : Str → Bool
has_dotdot path = any (λ seg. str_eq seg dotdot) (segments path)

scan_lem :
    (segs : List Str)
    → scan segs ≡ (
        let full = keep (λ tok. not (is_empty tok)) segs in
        if any (λ seg. str_eq seg dotdot) full
        then err (invalid_path dotdot_message)
        else ok (keep (λ seg. not (str_eq seg dot)) full))
unfolding scan
scan_lem [] = refl
scan_lem ([] ∷ segs) = scan_lem segs
scan_lem ((c ∷ s) ∷ segs) =
    ground (arith, scan_lem segs, str_eq_iff (c ∷ s) dotdot, str_eq_iff (c ∷ s) dot)

all_slashes-is_root : (path : Str) → all_slashes path ≡ is_root path
unfolding all_slashes is_root
all_slashes-is_root [] = refl
all_slashes-is_root (c ∷ path) = ground (arith, all_slashes-is_root path)

finish_eq :
    (path : Str) (bad : Bool) (ks : List Str) (e : Error)
    → ((if bad then err e else ok ks) >>= finish path) ≡ (
        if bad
        then err e
        else if is_empty ks && not (is_root path)
        then err (invalid_path empty_message)
        else ok (join_slash ks))
unfolding finish join_slash
finish_eq path true ks e = refl
finish_eq path false [] e = ground (arith, all_slashes-is_root path)
finish_eq path false (k ∷ ks) e = refl

normalize_cons :
    (c : ℕ) (path : Str)
    → normalize (c ∷ path) ≡ (scan (split_slash (c ∷ path)) >>= finish (c ∷ path))
unfolding normalize
normalize_cons c path = refl

-- `normalize` throws exactly if a piece of the path is "..", or if no piece is left beside "." and
-- the path is not made of slashes alone; otherwise it returns the pieces other than ".", joined by
-- single slashes.
pub normalize_eq :
    (path : Str)
    → normalize path ≡ (
        if has_dotdot path
        then err (invalid_path dotdot_message)
        else if is_empty (kept path) && not (is_root path)
        then err (invalid_path empty_message)
        else ok (join_slash (kept path)))
unfolding segments
normalize_eq [] = unfold normalize split_slash join_slash is_root in refl
normalize_eq (c ∷ path) =
    normalize_cons c path
    ∙ ap (λ r. r >>= finish (c ∷ path)) (scan_lem (split_slash (c ∷ path)))
    ∙ finish_eq (c ∷ path) (has_dotdot (c ∷ path)) (kept (c ∷ path)) (invalid_path dotdot_message)

-- A piece that a normal path may have.
abbrev pub IsNormalSegment : Str → Type 0
IsNormalSegment seg = IsSegment seg × (seg ≢ dot) × (seg ≢ dotdot)

any_cons_false :
    (b r : Bool) → elim b [ true ↦ true | false ↦ r ] ≡ false → (b ≡ false) × (r ≡ false)
any_cons_false b r h = ground arith

without_dotdot :
    (segs : List Str)
    → All IsSegment segs
    → any (λ seg. str_eq seg dotdot) segs ≡ false
    → All (λ seg. IsSegment seg × (seg ≢ dotdot)) segs
without_dotdot [] a h = tt
without_dotdot (seg ∷ segs) (a, rest) h =
    let (ne, h') = any_cons_false (str_eq seg dotdot) (any (λ s. str_eq s dotdot) segs) h in
    ((a, λ q. cc (eq→str_eq seg dotdot q)), without_dotdot segs rest h')

keep-IsNormalSegment :
    (segs : List Str)
    → All IsSegment segs
    → any (λ seg. str_eq seg dotdot) segs ≡ false
    → All IsNormalSegment (keep (λ seg. not (str_eq seg dot)) segs)
keep-IsNormalSegment segs a h =
    All-keep (λ seg. not (str_eq seg dot)) segs
      (λ seg p e. (p.0, λ q. ground (arith, eq→str_eq seg dot q), p.1)) (without_dotdot segs a h)

two_tests :
    (a b : Bool) (e f : Error) {x y : Str}
    → (if a then err e else if b then err f else ok x) ≡ ok y
    → (a ≡ false) × (x ≡ y)
two_tests a b e f h = ground arith

normalize_inv :
    (path : Str) {norm : Str}
    → normalize path ≡ ok norm
    → (has_dotdot path ≡ false) × (join_slash (kept path) ≡ norm)
normalize_inv path h =
    two_tests (has_dotdot path) (is_empty (kept path) && not (is_root path))
      (invalid_path dotdot_message) (invalid_path empty_message) (sym (normalize_eq path) ∙ h)

All-IsSegment : (segs : List Str) → All IsNormalSegment segs → All IsSegment segs
All-IsSegment segs a = All-map segs (λ seg p. p.0) a

kept-IsNormal : (path : Str) → has_dotdot path ≡ false → All IsNormalSegment (kept path)
kept-IsNormal path h = keep-IsNormalSegment (segments path) (segments-IsSegment path) h

-- The pieces of a normalized path are the pieces of the path, without each ".".
pub segments-normalize :
    (path : Str) {norm : Str} → normalize path ≡ ok norm → segments norm ≡ kept path
segments-normalize path h =
    let (ne, e) = normalize_inv path h in
    rw (← e) (segments-join_slash (kept path) (All-IsSegment (kept path) (kept-IsNormal path ne)))

-- A normal path is made of pieces that are not empty, hold no slash and are neither "." nor "..",
-- and splitting it gives back those pieces.
pub normalize-IsNormal :
    (path : Str) {norm : Str}
    → normalize path ≡ ok norm
    → All IsNormalSegment (segments norm) × (join_slash (segments norm) ≡ norm)
normalize-IsNormal path {norm} h =
    let (ne, e) = normalize_inv path h in rw (segments-normalize path h) (kept-IsNormal path ne, e)

keep_normal :
    (segs : List Str)
    → All IsNormalSegment segs
    → (keep (λ seg. not (str_eq seg dot)) segs ≡ segs)
      × (any (λ seg. str_eq seg dotdot) segs ≡ false)
keep_normal [] a = (refl, refl)
keep_normal (seg ∷ segs) (n, a) =
    ground (arith, keep_normal segs a, str_eq_iff seg dot, str_eq_iff seg dotdot)

joined_empty : (segs : List Str) → (is_empty segs && not (is_root (join_slash segs))) ≡ false
unfolding is_root join_slash
joined_empty [] = refl
joined_empty (seg ∷ segs) = refl

-- A path that `normalize` returned is left as it is by `normalize`.
pub normalize-normalize :
    (path : Str) {norm : Str} → normalize path ≡ ok norm → normalize norm ≡ ok norm
normalize-normalize path {norm} h =
    let (n, e) = normalize-IsNormal path h in
    let (k, ne) = keep_normal (segments norm) n in
    let root : (is_empty (segments norm) && not (is_root norm)) ≡ false =
      subst (λ x. (is_empty (segments norm) && not (is_root x)) ≡ false) e
        (joined_empty (segments norm)) in
    rw (normalize_eq norm) (rw (ne, k, root) (ap ok e))
