-- ===== src/Fs/Log.antt =====
-- cpp/src/fs.cpp: `log` and `squash`.
use vost.Common.{
  ℕ, zero, suc, Bool, true, false, not, ◌&&◌, Option, none, some, List, [], ◌∷◌, Str, codes, str_eq,
  is_empty, ltb, leb, ◌==◌, if◌then◌else◌,
}
use vost.Error.{Result, ok, err, ◌>>=◌, not_found, out_of_fuel}
use vost.Paths.{normalize}
use vost.Glob.{glob_match}
use vost.Platform.{Platform}
use vost.Exec
use vost.Exec.{Exec, lift}
use vost.Tree.Read.{EntryResult, lookup, need}
use vost.Tree.WriteCommit.{CommitMeta, read_commit, write_commit}
use vost.Fs.{Fs, require_tree, commit_hash}

pub record LogOptions : Type 0 where
  pub limit : Option ℕ
  pub skip : Option ℕ
  pub path : Option Str
  pub match_pattern : Option Str
  pub before : Option ℕ

pub record CommitInfo : Type 0 where
  pub commit_hash : Str
  pub message : Str
  pub time : ℕ
  pub author_name : Str
  pub author_email : Str

abbrev pub commit_info : Str → CommitMeta → CommitInfo
commit_info hex meta = record {
  commit_hash = hex;
  message = meta.message;
  time = meta.time;
  author_name = meta.author_name;
  author_email = meta.author_email;
}

abbrev pub not_after : Option ℕ → ℕ → Bool
not_after none time = true
not_after (some before) time = leb time before

abbrev pub message_matches : Option Str → Str → Bool
message_matches none message = true
message_matches (some pattern) message = glob_match pattern message

-- Whether the entry of this commit differs from its parent's in hash or mode.
unfoldable pub entries_differ : Option EntryResult → Option EntryResult → Bool
entries_differ none none = false
entries_differ none (some b) = true
entries_differ (some a) none = true
entries_differ (some a) (some b) = not (str_eq a.oid_hex b.oid_hex && (a.mode == b.mode))

-- `opts.skip && skipped < *opts.skip`
abbrev pub is_skipped : Option ℕ → ℕ → Bool
is_skipped none skipped = false
is_skipped (some n) skipped = ltb skipped n

-- `opts.limit && results.size() >= *opts.limit`
abbrev pub reached : Option ℕ → ℕ → Bool
reached none count = false
reached (some n) count = leb n count

-- What a commit becomes: `matches` and `skip` first, then `limit`.
unfoldable pub visit :
    LogOptions
    → Bool
    → CommitInfo
    → ℕ
    → ℕ
    → (ℕ → ℕ → Result (List CommitInfo))
    → Result (List CommitInfo)
visit opts false ci skipped count next = next skipped count
visit opts true ci skipped count next =
    if is_skipped opts.skip skipped
    then next (suc skipped) count
    else if reached opts.limit (suc count)
    then ok (ci ∷ [])
    else (next skipped (suc count) >>= λ rest. ok (ci ∷ rest))

module _ (p : Platform) where
  open p use {Repo}

  unfoldable pub parent_entry : Repo → Str → Str → Result (Option EntryResult)
  parent_entry repo parent_hex norm_path =
      if is_empty parent_hex
      then ok none
      else (do meta ← read_commit p repo parent_hex; lookup p repo meta.tree_oid_hex norm_path)

  unfoldable pub changes_path : Repo → CommitMeta → Str → Result Bool
  unfolding entries_differ parent_entry
  changes_path repo meta path = do
    norm_path ← normalize path
    this ← lookup p repo meta.tree_oid_hex norm_path
    old ← parent_entry repo meta.parent_oid_hex norm_path
    ok (entries_differ this old)

  unfoldable pub matches : Repo → LogOptions → CommitMeta → Result Bool
  unfolding changes_path
  matches repo opts meta =
      if not_after opts.before meta.time && message_matches opts.match_pattern meta.message
      then elim opts.path [ none ↦ ok true | some path ↦ changes_path repo meta path ]
      else ok false

  -- `count` is results.size(). `fuel` bounds the length of the history.
  unfoldable pub log_loop : ℕ → Repo → LogOptions → Str → ℕ → ℕ → Result (List CommitInfo)
  unfolding matches visit
  log_loop zero repo opts cur_hex skipped count =
      if is_empty cur_hex then ok [] else err out_of_fuel
  log_loop (suc fuel) repo opts cur_hex skipped count = if is_empty cur_hex then ok [] else (do
    meta ← read_commit p repo cur_hex
    hit ← matches repo opts meta
    visit opts hit (commit_info cur_hex meta) skipped count
        (log_loop fuel repo opts meta.parent_oid_hex))

  unfoldable pub log : ℕ → Repo → Fs → LogOptions → Result (List CommitInfo)
  unfolding log_loop
  log fuel repo fs opts = log_loop fuel repo opts fs.commit_oid_hex 0 0

  abbrev pub squash_parents : Option Fs → Result (List Str)
  squash_parents none = ok []
  squash_parents (some parent_fs) = do
    hex ← need (commit_hash parent_fs) (not_found (codes "parent snapshot has no commit"))
    ok (hex ∷ [])

  unfoldable pub squash : Fs → Option Fs → Str → Exec Repo Fs
  squash fs parent_fs message = Exec.◌>>=◌ (lift (require_tree fs)) λ tree_hex.
      Exec.◌>>=◌ (lift (squash_parents parent_fs)) λ parent_oids.
        Exec.◌>>=◌ (write_commit p tree_hex parent_oids fs.inner.signature message) λ hex.
          Exec.ret (record fs {
            commit_oid_hex = hex;
            tree_oid_hex = tree_hex;
            ref_name = none;
            writable = false;
            changes = none;
          })
