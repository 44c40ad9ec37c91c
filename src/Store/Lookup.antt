-- ===== src/Store/Lookup.antt =====
-- `GitStore::fs` and `GitStore::read_by_hash` of cpp/src/gitstore.cpp.
use vost.Common.{
  ℕ, zero, suc, ◌+◌, ◌%◌, ◌^◌, ◌-◌, ◌≤◌, ◌<◌, min, ◌≡◌, refl, sym, ap, ◌⊎◌, inl, inr, ◌∙◌, Bool,
  true, false, Option, none, some, [], ◌∷◌, Str, length, take, drop, ◌==◌, leb, if◌then◌else◌,
  arith,
}
use vost.Error.{ok}
use vost.Types.{Bytes, is_some}
use vost.Platform.{Platform, Commit}
use vost.Platform.Host.{Host}
use vost.Platform.Laws.{RefLaws}
use vost.Tree.Read.{need}
use vost.Fs.{Inner, Fs}
use vost.Fs.Read.{cut, size_max}
use vost.Store.{fs, read_by_hash}
use vost.Store.RefDict.{RefDict, branches, get, contains, set}
use vost.Store.Refs.{get-set}
use vost.Store.Frozen.{get-inv}

-- No more is taken than there is.
take-over : (n : ℕ) (xs : Bytes) → length xs ≤ n → take n xs ≡ xs
take-over zero [] h = refl
take-over zero (x ∷ xs) h = absurd (never h)
  where
    never : {m : ℕ} → ¬ (suc m ≤ 0)
    never h = omega (arith, h)
take-over (suc n) [] h = refl
take-over (suc n) (x ∷ xs) h = ap (λ t. x ∷ t) (take-over n xs (less h))
  where
    less : {m k : ℕ} → suc m ≤ suc k → m ≤ k
    less h = omega (arith, h)

length-drop : (n : ℕ) (xs : Bytes) → length (drop n xs) ≡ length xs - n
length-drop zero xs = omega arith
length-drop (suc n) [] = omega arith
length-drop (suc n) (x ∷ xs) = omega (arith, length-drop n xs)

drop-over : (n : ℕ) (xs : Bytes) → length xs ≤ n → drop n xs ≡ []
drop-over zero [] h = refl
drop-over zero (x ∷ xs) h = absurd (never h)
  where
    never : {m : ℕ} → ¬ (suc m ≤ 0)
    never h = omega (arith, h)
drop-over (suc n) [] h = refl
drop-over (suc n) (x ∷ xs) h = drop-over n xs (less h)
  where
    less : {m k : ℕ} → suc m ≤ suc k → m ≤ k
    less h = omega (arith, h)

-- What is left from `start`, an offset that was brought back to the end if it was past it.
drop-start : (xs : Bytes) (offset : ℕ) → drop (min offset (length xs)) xs ≡ drop offset xs
drop-start xs offset = elim (lt-or-ge offset (length xs)) [
  | inl h ↦ ap (λ n. drop n xs) (omega (arith, h))
  | inr h ↦
      ap (λ n. drop n xs) (whole offset (length xs) h)
      ∙ drop-over (length xs) xs (omega arith)
      ∙ sym (drop-over offset xs h)
]
  where
    lt-or-ge : (m n : ℕ) → (m < n) ⊎ (n ≤ m)
    lt-or-ge m n = ground arith

    whole : (m n : ℕ) → n ≤ m → min m n ≡ n
    whole m n h = omega (arith, h)

-- The end of the range, where the sum is only formed if it fits in size_t: it does not wrap around.
stop_at : ℕ → ℕ → ℕ → ℕ
stop_at n start size =
    min (if leb start (size_max - size) then (start + size) % 2 ^ 64 else size_max) n

stop-exact :
    (n offset size : ℕ)
    → n ≤ size_max
    → size ≤ size_max
    → (stop_at n (min offset n) size - min offset n ≡ size)
      ⊎ ((stop_at n (min offset n) size - min offset n ≡ n - min offset n)
          × (n - min offset n ≤ size))
unfolding stop_at
stop-exact n offset size fits sized = ground arith

take-stop :
    (xs : Bytes) (offset size : ℕ)
    → length xs ≤ size_max
    → size ≤ size_max
    → take
        (stop_at (length xs) (min offset (length xs)) size - min offset (length xs))
        (drop (min offset (length xs)) xs)
      ≡ take size (drop offset xs)
take-stop xs offset size fits sized =
    let start = min offset (length xs) in
    elim (stop-exact (length xs) offset size fits sized) [
      | inl exact ↦ rw exact (ap (take size) (drop-start xs offset))
      | inr (rest, short) ↦
          let n : length (drop start xs) ≡ length xs - start = length-drop start xs in
          rw rest (
            take-over (length xs - start) (drop start xs) (omega (arith, n))
            ∙ sym (take-over size (drop start xs) (omega (arith, n, short)))
            ∙ ap (take size) (drop-start xs offset))
    ]

-- A size that is an integer of the machine, or none.
abbrev FitsSize : Option ℕ → Type 0
FitsSize none = Unit
FitsSize (some n) = n ≤ size_max

-- The range that `read_by_hash` and `read_range` cut is the one asked for, whatever the offset and
-- the size are, also where their sum would wrap around, for data that fits in memory.
cut-eq :
    (xs : Bytes) (offset : ℕ) (size : Option ℕ)
    → length xs ≤ size_max
    → FitsSize size
    → cut xs offset size ≡ elim size [ none ↦ drop offset xs | some n ↦ take n (drop offset xs) ]
unfolding cut stop_at
cut-eq xs offset none fits sized =
    take-over (length xs - min offset (length xs)) (drop (min offset (length xs)) xs)
      (omega (arith, length-drop (min offset (length xs)) xs))
    ∙ drop-start xs offset
cut-eq xs offset (some n) fits sized = take-stop xs offset n fits sized

module _ (p : Platform) where
  open p use {Repo, Oid, oid_fromstr, oid_tostr, commit_lookup, blob_lookup}

  -- `read_by_hash` returns the bytes of the blob from the offset on, all of them for a size of 0 and
  -- else at most so many, for a size of at most 2 ^ 64 - 1 and a blob of no more bytes.
  pub read_by_hash-eq :
      (hash : Str) (offset size : ℕ) (repo : Repo) (o : Oid) (raw : Bytes)
      → oid_fromstr hash ≡ some o
      → blob_lookup repo o ≡ some raw
      → length raw ≤ size_max
      → size ≤ size_max
      → read_by_hash p hash offset size repo
        ≡ ok (if size == 0 then drop offset raw else take size (drop offset raw))
  unfolding read_by_hash need
  read_by_hash-eq hash offset size repo o raw parsed looked fits sized =
      rw (parsed, looked) (ap ok (by_size (size == 0)))
    where
      by_size :
          (b : Bool)
          → cut raw offset (if b then none else some size)
            ≡ (if b then drop offset raw else take size (drop offset raw))
      by_size true = cut-eq raw offset none fits tt
      by_size false = cut-eq raw offset (some size) fits sized

  module _ (host : Host p) (refs : RefLaws p) where
    found :
        (d : RefDict) (name : Str) (repo : Repo) {f : Fs}
        → get p d name repo ≡ ok f
        → contains p d name repo ≡ true
    unfolding contains
    found d name repo h = ap is_some (get-inv p d name repo h).looked

    -- A branch comes before a tag or a commit of the same name: once `set` stored a commit of the
    -- repository under a name of the branches, `fs` of that name returns a snapshot of that commit
    -- and its tree that can be written.
    pub fs-set :
        (inner : Inner) (name : Str) (f : Fs) (repo repo' : Repo) (o : Oid) (c : Commit Oid)
        → f.commit_oid_hex ≡ oid_tostr o
        → oid_fromstr f.commit_oid_hex ≡ some o
        → commit_lookup repo o ≡ some c
        → set p host (branches inner) name f repo ≡ (ok tt, repo')
        → fs p inner name repo'
          ≡ ok (record {
            inner = inner;
            commit_oid_hex = f.commit_oid_hex;
            tree_oid_hex = oid_tostr c.tree_id;
            ref_name = some name;
            writable = true;
            changes = none;
          })
    unfolding fs branches
    fs-set inner name f repo repo' o c printed parsed looked h =
        let got =
          get-set p host refs (branches inner) name f repo repo' o c printed parsed looked h in
        rw (found (branches inner) name repo' got) got
