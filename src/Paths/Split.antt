-- ===== src/Paths/Split.antt =====
-- Splitting a text at slashes, and joining segments by slashes.
use vost.Common.{
  ℕ, ◌≡◌, ◌≢◌, refl, ap, not, List, [], ◌∷◌, ◌++◌, Str, is_empty, keep, All, ◌==◌, Bool-cases, inl,
  inr, if◌then◌else◌, arith, is_empty,
}

abbrev pub slash : ℕ
slash = b'/'

abbrev cons_first : ℕ → List Str → List Str
cons_first c [] = (c ∷ []) ∷ []
cons_first c (seg ∷ segs) = (c ∷ seg) ∷ segs

-- All the pieces between slashes, the empty ones too.
unfoldable pub split_slash : Str → List Str
split_slash [] = [] ∷ []
split_slash (c ∷ s) =
    let rest = split_slash s in if c == slash then [] ∷ rest else cons_first c rest

-- `while (std::getline(ss, tok, '/')) if (!tok.empty()) segs.push_back(tok);`
unfoldable pub segments : Str → List Str
segments s = keep (λ tok. not (is_empty tok)) (split_slash s)

unfoldable pub join_slash : List Str → Str
join_slash [] = []
join_slash (seg ∷ []) = seg
join_slash (seg ∷ next ∷ segs) = seg ++ (slash ∷ join_slash (next ∷ segs))

abbrev pub NoSlash : Str → Type 0
NoSlash s = All (λ c. c ≢ slash) s

-- A piece of a path: not empty, and no slash in it.
pub record IsSegment (s : Str) : Type 0 where
  pub not_empty : s ≢ []
  pub no_slash : NoSlash s

cons_first-NoSlash :
    (c : ℕ) (segs : List Str) → c ≢ slash → All NoSlash segs → All NoSlash (cons_first c segs)
cons_first-NoSlash c [] h a = ((h, tt), tt)
cons_first-NoSlash c (seg ∷ segs) h a = ((h, a.0), a.1)

split_slash-NoSlash : (s : Str) → All NoSlash (split_slash s)
unfolding split_slash
split_slash-NoSlash [] = (tt, tt)
split_slash-NoSlash (c ∷ s) = elim (Bool-cases (c == slash)) [
  | inl e ↦ rw e (tt, split_slash-NoSlash s)
  | inr e ↦ rw e (cons_first-NoSlash c (split_slash s) (λ h. ground arith) (split_slash-NoSlash s))
]

-- A text with no slash is one piece, and a slash ends it.
split_slash_one : (s : Str) → NoSlash s → split_slash s ≡ s ∷ []
unfolding split_slash
split_slash_one [] h = refl
split_slash_one (c ∷ s) h = rw (split_slash_one s h.1) (ground arith)

split_slash-append :
    (s rest : Str) → NoSlash s → split_slash (s ++ (slash ∷ rest)) ≡ s ∷ split_slash rest
unfolding split_slash
split_slash-append [] rest h = refl
split_slash-append (c ∷ s) rest h = rw (split_slash-append s rest h.1) (ground arith)

keep-IsSegment :
    (segs : List Str) → All NoSlash segs → All IsSegment (keep (λ tok. not (is_empty tok)) segs)
keep-IsSegment [] a = tt
keep-IsSegment ([] ∷ segs) a = keep-IsSegment segs a.1
keep-IsSegment ((c ∷ s) ∷ segs) a =
    (record { not_empty = λ e. cc; no_slash = a.0 }, keep-IsSegment segs a.1)

pub segments-IsSegment : (s : Str) → All IsSegment (segments s)
unfolding segments
segments-IsSegment s = keep-IsSegment (split_slash s) (split_slash-NoSlash s)

split_slash-join_slash :
    (seg : Str) (segs : List Str)
    → All NoSlash (seg ∷ segs)
    → split_slash (join_slash (seg ∷ segs)) ≡ seg ∷ segs
unfolding join_slash
split_slash-join_slash seg [] h = split_slash_one seg h.0
split_slash-join_slash seg (next ∷ segs) h =
    rw (split_slash-append seg (join_slash (next ∷ segs)) h.0)
      (rw (split_slash-join_slash next segs h.1))

IsSegment-NoSlash : (segs : List Str) → All IsSegment segs → All NoSlash segs
IsSegment-NoSlash [] a = tt
IsSegment-NoSlash (seg ∷ segs) a = (a.0.no_slash, IsSegment-NoSlash segs a.1)

keep_segments :
    (segs : List Str) → All IsSegment segs → keep (λ tok. not (is_empty tok)) segs ≡ segs
keep_segments [] a = refl
keep_segments ([] ∷ segs) a = absurd (a.0.not_empty refl)
keep_segments ((c ∷ s) ∷ segs) a = ap (λ r. (c ∷ s) ∷ r) (keep_segments segs a.1)

pub segments-join_slash : (segs : List Str) → All IsSegment segs → segments (join_slash segs) ≡ segs
unfolding segments join_slash split_slash
segments-join_slash [] h = refl
segments-join_slash (seg ∷ segs) h =
    rw (split_slash-join_slash seg segs (IsSegment-NoSlash (seg ∷ segs) h))
      (keep_segments (seg ∷ segs) h)
