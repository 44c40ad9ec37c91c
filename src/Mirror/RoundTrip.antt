-- ===== src/Mirror/RoundTrip.antt =====
-- The header that `bundle_export_impl` of cpp/src/mirror.cpp writes, read by `parse_bundle_header`.
use vost.Common.{
  ℕ, ◌+◌, ◌≡◌, ◌≢◌, refl, ◌∙◌, ap, sym, false, some, [], ◌∷◌, ◌++◌, append_assoc, append-nil, subst,
  Str, codes, str_eq, starts_with, map_set, length, length-append, All, arith,
}
use vost.Error.{Result, ok}
use vost.Mirror.Refs.{RefMap, dest_name, renamed_into}
use vost.Mirror.Urls.{cut_at}
use vost.Mirror.Bundle.{
  signature, header_lines, bundle_header, lines_of, read_line, read_lines, parse_bundle_header,
}

-- A byte that a hash may have, and one that a line may have.
abbrev pub IsPlain : ℕ → Type 0
IsPlain c = (c ≢ 10) × (c ≢ 32) × (c ≢ 45)

abbrev pub NoEnd : Str → Type 0
NoEnd = All (λ c. c ≢ 10)

-- No end of a line, space or dash in the hash, no end of a line in the name, which is not HEAD.
abbrev pub IsWritten : Str → Str → Type 0
IsWritten sha name = All IsPlain sha × NoEnd name × (str_eq name (codes "HEAD") ≡ false)

abbrev pub AllWritten : RefMap → RefMap → Type 0
AllWritten rename [] = Unit
AllWritten rename ((name, sha) ∷ refs) =
    IsWritten sha (dest_name rename name) × AllWritten rename refs

abbrev line_of : Str → Str → Str
line_of sha name = sha ++ (32 ∷ name)

-- The lines of the header, of which there is one at least, without the last end.
abbrev body : RefMap → Str → Str → RefMap → Str
body rename name sha [] = line_of sha (dest_name rename name)
body rename name sha ((name', sha') ∷ refs) =
    line_of sha (dest_name rename name) ++ (10 ∷ body rename name' sha' refs)

line-NoEnd : (sha name : Str) → IsWritten sha name → NoEnd (line_of sha name)
line-NoEnd [] name (h, k, l) = (ground arith, k)
line-NoEnd (c ∷ sha) name ((h, hs), k, l) = (h.0, line-NoEnd sha name (hs, k, l))

-- No blank line starts within a line.
cut_at-skip :
    (xs ys before after : Str)
    → NoEnd xs
    → cut_at (codes "\n\n") ys ≡ some (before, after)
    → cut_at (codes "\n\n") (xs ++ ys) ≡ some (xs ++ before, after)
unfolding cut_at starts_with
cut_at-skip [] ys before after h e = e
cut_at-skip (c ∷ xs) ys before after (h, hs) e = ground (arith, cut_at-skip xs ys before after hs e)

-- Nor at the end of a line, before a byte that is no end.
cut_at-end :
    (c : ℕ) (ys before after : Str)
    → c ≢ 10
    → cut_at (codes "\n\n") (c ∷ ys) ≡ some (before, after)
    → cut_at (codes "\n\n") (10 ∷ (c ∷ ys)) ≡ some (10 ∷ before, after)
unfolding cut_at starts_with
cut_at-end c ys before after h e = ground arith

blank : (pack : Str) → cut_at (codes "\n\n") (10 ∷ (10 ∷ pack)) ≡ some ([], pack)
unfolding cut_at starts_with
blank pack = refl

line-append :
    (sha name ys pack : Str)
    → (sha ++ (32 ∷ (name ++ (10 ∷ ys)))) ++ pack ≡ line_of sha name ++ (10 ∷ (ys ++ pack))
line-append [] name ys pack = ap (λ t. 32 ∷ t) (append_assoc name (10 ∷ ys) pack)
line-append (c ∷ sha) name ys pack = ap (λ t. c ∷ t) (line-append sha name ys pack)

lines_of-last : (xs : Str) → NoEnd xs → lines_of xs ≡ xs ∷ []
unfolding lines_of
lines_of-last [] h = refl
lines_of-last (c ∷ xs) (h, hs) = ground (arith, lines_of-last xs hs)

lines_of-line : (xs ys : Str) → NoEnd xs → lines_of (xs ++ (10 ∷ ys)) ≡ xs ∷ lines_of ys
unfolding lines_of
lines_of-line [] ys h = refl
lines_of-line (c ∷ xs) ys (h, hs) = ground (arith, lines_of-line xs ys hs)

cut_at-space :
    (sha name : Str) → All IsPlain sha → cut_at (codes " ") (line_of sha name) ≡ some (sha, name)
unfolding cut_at starts_with
cut_at-space [] name h = refl
cut_at-space (c ∷ sha) name (h, hs) = ground (arith, cut_at-space sha name hs)

no_dash : (sha name : Str) → All IsPlain sha → starts_with (codes "-") (line_of sha name) ≡ false
unfolding starts_with
no_dash [] name h = refl
no_dash (c ∷ sha) name (h, hs) = ground arith

read_line-line :
    (refs : RefMap) (sha name : Str)
    → IsWritten sha name
    → read_line refs (line_of sha name) ≡ map_set name sha refs
unfolding read_line
read_line-line refs sha name (h, k, l) = rw (no_dash sha name h, cut_at-space sha name h, l) refl

module _ (rename : RefMap) where
  -- The lines, the blank one, and the pack.
  header_lines-body :
      (name sha : Str) (refs : RefMap) (pack : Str)
      → header_lines rename ((name, sha) ∷ refs) ++ pack
        ≡ body rename name sha refs ++ (10 ∷ (10 ∷ pack))
  unfolding header_lines
  header_lines-body name sha [] pack = line-append sha (dest_name rename name) (10 ∷ []) pack
  header_lines-body name sha ((name', sha') ∷ refs) pack =
      let line = line_of sha (dest_name rename name) in
      line-append sha (dest_name rename name) (header_lines rename ((name', sha') ∷ refs)) pack
      ∙ ap (λ t. line ++ (10 ∷ t)) (header_lines-body name' sha' refs pack)
      ∙ sym (append_assoc line (10 ∷ body rename name' sha' refs) (10 ∷ (10 ∷ pack)))

  body-starts :
      (name sha : Str) (refs : RefMap) (ys : Str)
      → All IsPlain sha
      → (c : ℕ) × (zs : Str) × (body rename name sha refs ++ ys ≡ c ∷ zs) × (c ≢ 10)
  body-starts name [] [] ys h = (32, _, refl, ground arith)
  body-starts name [] (r ∷ refs) ys h = (32, _, refl, ground arith)
  body-starts name (c ∷ sha) [] ys (h, hs) = (c, _, refl, h.0)
  body-starts name (c ∷ sha) (r ∷ refs) ys (h, hs) = (c, _, refl, h.0)

  cut_at-body :
      (name sha : Str) (refs : RefMap) (pack : Str)
      → AllWritten rename ((name, sha) ∷ refs)
      → cut_at (codes "\n\n") (body rename name sha refs ++ (10 ∷ (10 ∷ pack)))
        ≡ some (body rename name sha refs, pack)
  cut_at-body name sha [] pack (h, hs) =
      let line = line_of sha (dest_name rename name) in
      cut_at-skip line (10 ∷ (10 ∷ pack)) [] pack (line-NoEnd sha _ h) (blank pack)
      ∙ ap (λ t. some (t, pack)) (append-nil line)
  cut_at-body name sha ((name', sha') ∷ refs) pack (h, hs) =
      let line = line_of sha (dest_name rename name) in
      let later = body rename name' sha' refs in
      let (c, zs, starts, ordinary) = body-starts name' sha' refs (10 ∷ (10 ∷ pack)) hs.0.0 in
      let found =
        subst (λ t. cut_at (codes "\n\n") t ≡ some (later, pack)) starts
          (cut_at-body name' sha' refs pack hs) in
      rw (append_assoc line (10 ∷ later) (10 ∷ (10 ∷ pack))) (
        cut_at-skip line (10 ∷ (later ++ (10 ∷ (10 ∷ pack)))) (10 ∷ later) pack (line-NoEnd sha _ h)
          (subst (λ t. cut_at (codes "\n\n") (10 ∷ t) ≡ some (10 ∷ later, pack)) (sym starts)
            (cut_at-end c zs later pack ordinary found)))

  read_lines-body :
      (found : RefMap) (name sha : Str) (refs : RefMap)
      → AllWritten rename ((name, sha) ∷ refs)
      → read_lines found (lines_of (body rename name sha refs))
        ≡ renamed_into found rename ((name, sha) ∷ refs)
  unfolding read_lines renamed_into
  read_lines-body found name sha [] (h, hs) =
      rw (lines_of-last (line_of sha (dest_name rename name)) (line-NoEnd sha _ h))
        (read_line-line found sha (dest_name rename name) h)
  read_lines-body found name sha ((name', sha') ∷ refs) (h, hs) =
      let later = body rename name' sha' refs in
      ap (λ ls. read_lines found ls)
        (lines_of-line (line_of sha (dest_name rename name)) later (line-NoEnd sha _ h))
      ∙ ap (λ m. read_lines m (lines_of later)) (read_line-line found sha (dest_name rename name) h)
      ∙ read_lines-body (map_set (dest_name rename name) sha found) name' sha' refs hs

  length-body :
      (name sha : Str) (refs : RefMap)
      → length (header_lines rename ((name, sha) ∷ refs)) ≡ length (body rename name sha refs) + 2
  length-body name sha refs =
      let lines = header_lines rename ((name, sha) ∷ refs) in
      let text = body rename name sha refs in
      omega (
        arith,
        ap (λ t. length t) (header_lines-body name sha refs []),
        length-append lines [],
        length-append text (10 ∷ (10 ∷ [])),
      )

-- A header with one reference at least, in front of any pack, is read back, if the hashes have no
-- end of a line, space or dash, and the names at the destination no end of a line and none is HEAD:
-- parse_bundle_header returns the references under those names, and that the pack starts after it.
pub parse-bundle_header :
    (rename : RefMap) (name sha : Str) (refs : RefMap) (pack : Str)
    → AllWritten rename ((name, sha) ∷ refs)
    → let header = bundle_header rename ((name, sha) ∷ refs) in
      parse_bundle_header (header ++ pack)
      ≡ ok (renamed_into [] rename ((name, sha) ∷ refs), length header)
unfolding parse_bundle_header bundle_header starts_with
parse-bundle_header rename name sha refs pack h =
    rw (header_lines-body rename name sha refs pack, cut_at-body rename name sha refs pack h)
      (both (read_lines-body rename [] name sha refs h) (
        start _ _ _ (length-body rename name sha refs)
          (length-append signature (header_lines rename ((name, sha) ∷ refs)))))
  where
    both :
        {m m' : RefMap} {n n' : ℕ}
        → m ≡ m'
        → n ≡ n'
        → ◌≡◌ {A = Result (RefMap × ℕ)} (ok (m, n)) (ok (m', n'))
    both e f = cc

    start : (n m k : ℕ) → n ≡ m + 2 → k ≡ 16 + n → 16 + m + 2 ≡ k
    start n m k e f = omega (arith, e, f)
