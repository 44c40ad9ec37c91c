-- ===== src/Tree/Rebuild/RoundTrip.antt =====
-- `read_blob` of cpp/src/tree.cpp on the tree that `rebuild_tree` wrote.
use vost.Common.{
  ℕ, ◌≡◌, ◌≢◌, ◌⊎◌, inl, inr, refl, sym, subst, ap, ◌∙◌, false, some, List, [], ◌∷◌, ◌++◌, Str, map,
  All, ◌==◌,
}
use vost.Error.{ok}
use vost.Types.{mode_tree, Bytes}
use vost.Paths.{segments, split_slash}
use vost.Platform.{Platform}
use vost.Platform.Laws.{Keeps, ObjectLaws, Keeps-refl, Keeps-trans}
use vost.Exec.{>>=-inv, ret-inv}
use vost.Tree.Read.{need, hex_to_oid, entry_from, entry_at_path, read_blob}
use vost.Tree.Rebuild.{Write, PendingWrite, below_prefix, write_blobs, rebuild_tree, rounds}
use vost.Tree.Rebuild.Steps.{writing-inv}
use vost.Tree.Rebuild.Collect.{In, below_prefix-append}
use vost.Tree.Rebuild.Kept.{rebuild-Keeps}
use vost.Tree.Rebuild.ReadBack.{IsAlone, entry_from-Keeps, rebuild-reads}

-- The write stands in the list, and no other one has its path.
abbrev pub Once : Write → List Write → Type 0
Once w [] = ⊥
Once w (v ∷ vs) =
    ((v ≡ w) × All (λ u. segments u.path ≢ segments w.path) vs)
    ⊎ ((segments v.path ≢ segments w.path) × Once w vs)

module _ (p : Platform) (laws : ObjectLaws p) where
  open p use {Repo, Oid, oid_fromstr, oid_tostr, blob_lookup}

  -- Every pending write is that of a write in the list.
  abbrev Origins : List Write → List PendingWrite → Type 0
  Origins ws pending =
      (v : PendingWrite) → In v pending → (u : Write) × In u ws × (v.segs ≡ segments u.path)

  -- The pending write of a write, whose blob is in the repository.
  record Pending (w : Write) (pending : List PendingWrite) (repo' : Repo) : Type 0 where
    pub write : PendingWrite
    pub oid : Oid
    pub listed : In write pending
    pub path : write.segs ≡ segments w.path
    pub mode : write.mode ≡ w.mode
    pub named : write.oid_hex ≡ oid_tostr oid
    pub stored : blob_lookup repo' oid ≡ some w.content
    pub only : (v : PendingWrite) → In v pending → v.segs ≡ segments w.path → v ≡ write

  write_blobs-inv :
      (w : Write) (ws : List Write) (repo : Repo) {pending : List PendingWrite} {repo' : Repo}
      → write_blobs p (w ∷ ws) repo ≡ (ok pending, repo')
      → (o : Oid) × (r : Repo) × (rest : List PendingWrite) × (p.blob_create_from_buffer repo
            w.content
          ≡ some (o, r))
        × (write_blobs p ws r ≡ (ok rest, repo'))
        × (record { segs = segments w.path; oid_hex = oid_tostr o; mode = w.mode } ∷ rest ≡ pending)
  unfolding write_blobs
  write_blobs-inv w ws repo {pending} {repo'} h =
      let (o, r₁, e₁, h₁) = >>=-inv _ _ repo h in
      let (rest, r₂, e₂, h₂) = >>=-inv _ _ r₁ h₁ in
      let (e₃, q) = ret-inv _ r₂ h₂ in
      (
        o,
        r₁,
        rest,
        writing-inv p _ _ repo e₁,
        subst (λ r. write_blobs p ws r₁ ≡ (ok rest, r)) q e₂,
        e₃,
      )

  nothing_written :
      (repo : Repo) {pending : List PendingWrite} {repo' : Repo}
      → write_blobs p [] repo ≡ (ok pending, repo')
      → ([] ≡ pending) × (repo ≡ repo')
  unfolding write_blobs
  nothing_written repo h = ret-inv _ repo h

  write_blobs-Keeps :
      (ws : List Write) (repo : Repo) {pending : List PendingWrite} {repo' : Repo}
      → write_blobs p ws repo ≡ (ok pending, repo')
      → Keeps p repo repo' × Origins ws pending
  write_blobs-Keeps [] repo h =
      let (e, q) = nothing_written repo h in
      (subst (Keeps p repo) q (Keeps-refl p repo), subst (Origins []) e (λ v i. absurd i))
  write_blobs-Keeps (w ∷ ws) repo h =
      let (o, r, rest, made, run, e) = write_blobs-inv w ws repo h in
      let (kept, from) = write_blobs-Keeps ws r run in
      (
        Keeps-trans p (laws.blob-Keeps repo w.content o r made) kept,
        subst (Origins (w ∷ ws)) e (λ v i. elim i [
          | inl q ↦ (w, inl refl, ap (λ (x : PendingWrite). x.segs) (sym q))
          | inr j ↦ let (u, k, q) = from v j in (u, inr k, q)
        ]),
      )

  -- No pending write of the rest has the path, if no write of the rest has it.
  none_other :
      (w : Write) (ws : List Write) (rest : List PendingWrite) (v : PendingWrite)
      → All (λ (u : Write). segments u.path ≢ segments w.path) ws
      → Origins ws rest
      → In v rest
      → v.segs ≢ segments w.path
  none_other w ws rest v none_ from i q =
      let (u, j, s) = from v i in All-In w ws u none_ j (sym s ∙ q)
    where
      All-In :
          (w : Write) (ws : List Write) (u : Write)
          → All (λ (x : Write). segments x.path ≢ segments w.path) ws
          → In u ws
          → segments u.path ≢ segments w.path
      All-In w [] u a j = absurd j
      All-In w (x ∷ ws) u (a, rest) (inl e) =
          subst (λ (y : Write). segments y.path ≢ segments w.path) e a
      All-In w (x ∷ ws) u (a, rest) (inr j) = All-In w ws u rest j

  write_blobs-Pending :
      (w : Write) (ws : List Write) (repo : Repo) {pending : List PendingWrite} {repo' : Repo}
      → Once w ws
      → write_blobs p ws repo ≡ (ok pending, repo')
      → Pending w pending repo'
  write_blobs-Pending w [] repo once h = absurd once
  write_blobs-Pending w (v ∷ vs) repo {pending} {repo'} (inl (e, others)) h =
      let (o, r, rest, made, run, q) = write_blobs-inv v vs repo h in
      let (kept, from) = write_blobs-Keeps vs r run in
      let head : PendingWrite = record {
        segs = segments v.path;
        oid_hex = oid_tostr o;
        mode = v.mode;
      } in
      let s : segments v.path ≡ segments w.path = ap (λ (x : Write). segments x.path) e in
      subst (λ xs. Pending w xs repo') q
        (record {
          write = head;
          oid = o;
          listed = inl refl;
          path = s;
          mode = ap (λ (x : Write). x.mode) e;
          named = refl;
          stored =
              kept.blobs o w.content
                (laws.lookup-blob repo v.content o r made ∙ ap (λ (x : Write). some x.content) e);
          only = λ u i same. elim i [
            | inl here ↦ sym here
            | inr there ↦ absurd (none_other w vs rest u others from there same)
          ];
        })
  write_blobs-Pending w (v ∷ vs) repo {pending} {repo'} (inr (ne, once)) h =
      let (o, r, rest, made, run, q) = write_blobs-inv v vs repo h in
      let l = write_blobs-Pending w vs r once run in
      subst (λ xs. Pending w xs repo') q
        (record {
          write = l.write;
          oid = l.oid;
          listed = inr l.listed;
          path = l.path;
          mode = l.mode;
          named = l.named;
          stored = l.stored;
          only = λ u i same. elim i [
            | inl here ↦ absurd (ne (ap (λ (x : PendingWrite). x.segs) here ∙ same))
            | inr there ↦ l.only u there same
          ];
        })

  no_segments : {n : Str} {rest : List Str} → ¬ (segments [] ≡ n ∷ rest)
  unfolding segments split_slash
  no_segments h = cc

  read_blob-eq :
      (repo : Repo) (hex path : Str) (o bo : Oid) (mode : ℕ) (content : Bytes) (n : Str)
      (rest : List Str)
      → oid_fromstr hex ≡ some o
      → segments path ≡ n ∷ rest
      → entry_from p repo o (n ∷ rest) ≡ ok (some (record { oid_hex = oid_tostr bo; mode = mode }))
      → (mode == mode_tree) ≡ false
      → blob_lookup repo bo ≡ some content
      → read_blob p repo hex path ≡ ok content
  unfolding read_blob entry_at_path hex_to_oid need
  read_blob-eq repo hex [] o bo mode content n rest parsed segs found file stored =
      absurd (no_segments segs)
  read_blob-eq repo hex (c ∷ path) o bo mode content n rest parsed segs found file stored =
      rw (parsed, segs, found, file, laws.fromstr-tostr bo, stored) refl

  -- The next theorem, in any repository that keeps the objects.
  pub rebuild_tree-kept :
      (base : Str) (writes : List Write) (removes : List Str) (repo : Repo) (w : Write) (n : Str)
      (rest : List Str) {hex : Str} {repo' later : Repo}
      → rebuild_tree p base writes removes repo ≡ (ok hex, repo')
      → Keeps p repo' later
      → Once w writes
      → ((u : Write) (m : Str) (ms : List Str)
          → In u writes
          → segments w.path ≢ segments u.path ++ (m ∷ ms))
      → segments w.path ≡ n ∷ rest
      → (w.mode == mode_tree) ≡ false
      → read_blob p later hex w.path ≡ ok w.content
  unfolding rebuild_tree
  rebuild_tree-kept base writes removes repo w n rest {hex} {repo'} {later} h keeps once above segs
        file =
      let (pending, r₀, e₀, h₁) = >>=-inv _ _ repo h in
      let (kept, from) = write_blobs-Keeps writes repo e₀ in
      let l = write_blobs-Pending w writes repo once e₀ in
      let fuel = rounds (map (λ (pw : PendingWrite). pw.segs) pending ++ map segments removes) in
      let alone : IsAlone p l.write pending = record {
        same = λ v i q.
            let e = l.only v i (q ∙ l.path) in
            (ap (λ (x : PendingWrite). x.oid_hex) e, ap (λ (x : PendingWrite). x.mode) e);
        no_file_above = λ v m ms i q.
            let (u, j, s) = from v i in
            above u m ms j (sym l.path ∙ q ∙ ap (λ xs. xs ++ (m ∷ ms)) s);
      } in
      let at : below_prefix [] l.write.segs ≡ some (n, rest) =
        ap (below_prefix []) (l.path ∙ segs) ∙ below_prefix-append [] n rest in
      let (o, named, found) =
        rebuild-reads p laws pending (map segments removes) l.write l.oid l.listed alone
          (ap oid_fromstr l.named ∙ laws.fromstr-tostr l.oid) (sym l.named) fuel base [] r₀ n rest
          at h₁ in
      let objects =
        rebuild-Keeps p laws pending (map segments removes) fuel base [] r₀ hex repo' h₁ in
      read_blob-eq later hex w.path o l.oid l.write.mode w.content n rest
        (ap oid_fromstr named ∙ laws.fromstr-tostr o) segs
        (entry_from-Keeps p repo' later o (n ∷ rest) keeps found
          ∙ ap (λ x. ok (some (record { oid_hex = x; mode = l.write.mode }))) l.named)
        (ap (λ x. x == mode_tree) l.mode ∙ file)
        (keeps.blobs l.oid w.content (objects.blobs l.oid w.content l.stored))

  -- A file that `rebuild_tree` wrote is read back: if one write has the path, which is not the root,
  -- no write goes to a path above it, and its mode is not that of a tree, then `read_blob` returns
  -- its content, whatever the base tree holds and whatever else is written or removed.
  pub rebuild_tree-reads :
      (base : Str) (writes : List Write) (removes : List Str) (repo : Repo) (w : Write) (n : Str)
      (rest : List Str) {hex : Str} {repo' : Repo}
      → rebuild_tree p base writes removes repo ≡ (ok hex, repo')
      → Once w writes
      → ((u : Write) (m : Str) (ms : List Str)
          → In u writes
          → segments w.path ≢ segments u.path ++ (m ∷ ms))
      → segments w.path ≡ n ∷ rest
      → (w.mode == mode_tree) ≡ false
      → read_blob p repo' hex w.path ≡ ok w.content
  rebuild_tree-reads base writes removes repo w n rest {hex} {repo'} h once above segs file =
      rebuild_tree-kept base writes removes repo w n rest h (Keeps-refl p repo') once above segs
        file
