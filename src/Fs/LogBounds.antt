-- ===== src/Fs/LogBounds.antt =====
-- How many commits `log` of cpp/src/fs.cpp returns.
use vost.Common.{
  ℕ, zero, suc, ◌+◌, ◌-◌, ◌≤◌, ◌≡◌, refl, sym, subst, Bool, true, false, some, List, [], ◌∷◌, ◌⊎◌,
  Str, length, leb, is_empty, if◌then◌else◌, inl, inr, arith,
}
use vost.Error.{Result, ok, ◌>>=◌, >>=-eq-ok, ok-injective, err≢ok}
use vost.Platform.{Platform}
use vost.Fs.{Fs}
use vost.Fs.Log.{LogOptions, CommitInfo, commit_info, is_skipped, visit, matches, log_loop, log}
use vost.Tree.WriteCommit.{read_commit}

-- A loop that starts with `count` commits ends with at most the limit, or one.
abbrev Bounded : ℕ → (ℕ → ℕ → Result (List CommitInfo)) → Type 0
Bounded n next =
    (skipped count : ℕ) (entries : List CommitInfo)
    → count ≤ n - 1
    → next skipped count ≡ ok entries
    → count + length entries ≤ suc (n - 1)

counted :
    (a b : Bool) (n : ℕ) (ci : CommitInfo) (skipped count : ℕ)
    (next : ℕ → ℕ → Result (List CommitInfo)) (entries : List CommitInfo)
    → leb n (suc count) ≡ b
    → Bounded n next
    → count ≤ n - 1
    → (if a
        then next (suc skipped) count
        else if b
        then ok (ci ∷ [])
        else (next skipped (suc count) >>= λ rest. ok (ci ∷ rest)))
      ≡ ok entries
    → count + length entries ≤ suc (n - 1)
counted true b n ci skipped count next entries e bound le h = bound (suc skipped) count entries le h
counted false true n ci skipped count next entries e bound le h =
    subst (λ xs. count + length xs ≤ suc (n - 1)) (ok-injective h) (omega (arith, le))
counted false false n ci skipped count next entries e bound le h =
    let (rest, run, q) = >>=-eq-ok (next skipped (suc count)) _ h in
    let small : suc count ≤ n - 1 = ground (arith, e) in
    subst (λ xs. count + length xs ≤ suc (n - 1)) (ok-injective q)
      (omega (arith, bound skipped (suc count) rest small run))

visit-Bounded :
    (opts : LogOptions) (n : ℕ) (hit : Bool) (ci : CommitInfo)
    (next : ℕ → ℕ → Result (List CommitInfo))
    → opts.limit ≡ some n
    → Bounded n next
    → Bounded n (λ skipped count. visit opts hit ci skipped count next)
unfolding visit
visit-Bounded opts n false ci next e bound skipped count entries le h =
    bound skipped count entries le h
visit-Bounded opts n true ci next e bound skipped count entries le h =
    counted (is_skipped opts.skip skipped) (leb n (suc count)) n ci skipped count next entries refl
      bound le (rw e at h)

ended :
    (b : Bool) (r : Result (List CommitInfo)) (entries : List CommitInfo)
    → (if b then ok [] else r) ≡ ok entries
    → (entries ≡ []) ⊎ (r ≡ ok entries)
ended true r entries h = inl (sym (ok-injective h))
ended false r entries h = inr h

module _ (p : Platform) where
  log_loop-Bounded :
      (fuel : ℕ) (repo : p.Repo) (opts : LogOptions) (cur_hex : Str) (n : ℕ)
      → opts.limit ≡ some n
      → Bounded n (log_loop p fuel repo opts cur_hex)
  unfolding log_loop
  log_loop-Bounded zero repo opts cur_hex n e skipped count entries le h =
      elim (ended (is_empty cur_hex) _ entries h) [
        | inl q ↦ subst (λ xs. count + length xs ≤ suc (n - 1)) (sym q) (omega (arith, le))
        | inr q ↦ absurd (err≢ok q)
      ]
  log_loop-Bounded (suc fuel) repo opts cur_hex n e skipped count entries le h =
      elim (ended (is_empty cur_hex) _ entries h) [
        | inl q ↦ subst (λ xs. count + length xs ≤ suc (n - 1)) (sym q) (omega (arith, le))
        | inr q ↦
            let (meta, found, h₁) = >>=-eq-ok (read_commit p repo cur_hex) _ q in
            let (hit, matched, h₂) = >>=-eq-ok (matches p repo opts meta) _ h₁ in
            visit-Bounded opts n hit (commit_info cur_hex meta)
              (log_loop p fuel repo opts meta.parent_oid_hex) e
              (log_loop-Bounded fuel repo opts meta.parent_oid_hex n e) skipped count entries le h₂
      ]

  -- With a limit, `log` returns at most that many commits, or one if the limit is 0.
  pub length-log :
      (fuel : ℕ) (repo : p.Repo) (fs : Fs) (opts : LogOptions) (n : ℕ) (entries : List CommitInfo)
      → opts.limit ≡ some n
      → log p fuel repo fs opts ≡ ok entries
      → length entries ≤ suc (n - 1)
  unfolding log
  length-log fuel repo fs opts n entries e h =
      omega
        (arith, log_loop-Bounded fuel repo opts fs.commit_oid_hex n e 0 0 entries (omega arith) h)
