-- ===== src/Batch.antt =====
-- cpp/src/batch.cpp: staged changes, committed together, and the buffered writer.
pub mod Staging
pub mod Tidy
pub mod Runs
use vost.Common.{
  ℕ, Bool, true, false, not, ◌&&◌, Option, none, some, List, [], ◌∷◌, ◌++◌, Str, codes, str_eq,
  is_empty, any, keep, length, to_string, if◌then◌else◌,
}
use vost.Error.{Result, ok, err, ◌>>=◌, ◌>>◌, throw_if, batch_closed, io_error}
use vost.Types.{mode_blob, mode_link, Bytes}
use vost.Paths.{normalize}
use vost.Platform.{Platform}
use vost.Exec
use vost.Exec.{Exec}
use vost.Tree.Rebuild.{Write}
use vost.Fs.{Fs}
use vost.Fs.Commit.{commit_changes}
use vost.Fs.Write.{value_or}

pub record Batch : Type 0 where
  pub fs : Fs
  pub writes : List Write
  pub removes : List Str
  pub message : Option Str
  pub operation : Option Str
  pub parents : List Str
  pub result_fs : Option Fs
  pub closed : Bool

unfoldable pub new_batch : Fs → Option Str → Option Str → List Str → Batch
new_batch fs message operation parents = record {
  fs = fs;
  writes = [];
  removes = [];
  message = message;
  operation = operation;
  parents = parents;
  result_fs = none;
  closed = false;
}

unfoldable pub require_open : Batch → Result (Unit {0})
require_open b = throw_if b.closed batch_closed

-- writes_.erase(std::remove_if(…, kv.first == norm), …)
unfoldable pub erase_writes : Str → List Write → List Write
erase_writes norm ws = keep (λ (w : Write). not (str_eq w.path norm)) ws

unfoldable pub erase_removes : Str → List Str → List Str
erase_removes norm rs = keep (λ r. not (str_eq r norm)) rs

unfoldable pub write_with_mode : Batch → Str → Bytes → ℕ → Result Batch
unfolding require_open erase_writes erase_removes
write_with_mode b path content mode = do
  require_open b
  norm ← normalize path
  ok (record b {
    writes =
        erase_writes norm b.writes ++ (record { path = norm; content = content; mode = mode } ∷ []);
    removes = erase_removes norm b.removes;
  })

unfoldable pub write : Batch → Str → Bytes → Result Batch
unfolding write_with_mode
write b path content = write_with_mode b path content mode_blob

unfoldable pub write_symlink : Batch → Str → Str → Result Batch
unfolding write_with_mode
write_symlink b path target = write_with_mode b path target mode_link

-- A file of the local disk: whether it exists, and its bytes if it can be opened.
pub record LocalFile : Type 0 where
  pub exists : Bool
  pub content : Option Bytes

unfoldable pub write_from_file : Batch → Str → LocalFile → ℕ → Result Batch
unfolding write_with_mode
write_from_file b path file mode = do
  throw_if (not file.exists) (io_error (codes "file not found: "))
  elim file.content [
    | none ↦ err (io_error (codes "cannot open file: "))
    | some content ↦ write_with_mode b path content mode
  ]

unfoldable pub remove : Batch → Str → Result Batch
unfolding require_open erase_writes
remove b path = do
  require_open b
  norm ← normalize path
  ok (record b {
    writes = erase_writes norm b.writes;
    removes = if any (λ r. str_eq r norm) b.removes then b.removes else b.removes ++ (norm ∷ []);
  })

unfoldable pub batch_message : Batch → Str
batch_message b = elim b.message [
  | some message ↦ message
  | none ↦
      let op = value_or b.operation (codes "batch") in
      let w = to_string (length b.writes) in
      let r = to_string (length b.removes) in
      if not (is_empty b.writes) && is_empty b.removes
      then op ++ (codes ": write " ++ (w ++ codes " file(s)"))
      else if is_empty b.writes && not (is_empty b.removes)
      then op ++ (codes ": remove " ++ (r ++ codes " file(s)"))
      else op ++ (codes ": " ++ (w ++ (codes " write(s), " ++ (r ++ codes " remove(s)"))))
]

-- The batch is closed before the commit is tried, and stays closed if that throws.
abbrev pub committed : Batch → Result Fs → Batch
committed b (ok fs) = record b { closed = true; result_fs = some fs }
committed b (err e) = record b { closed = true }

module _ (p : Platform) where
  open p use {Repo}

  abbrev pub finish_commit : Batch → Result Fs × Repo → Result Fs × (Batch × Repo)
  finish_commit b (r, repo) = (r, (committed b r, repo))

  unfoldable pub commit : Batch → Repo → Result Fs × (Batch × Repo)
  unfolding batch_message
  commit b repo =
      if b.closed
      then (err batch_closed, (b, repo))
      else finish_commit b
          (commit_changes p b.fs b.writes b.removes (batch_message b) none b.parents repo)

-- BatchWriter: the batch it belongs to is passed along.
pub record BatchWriter : Type 0 where
  pub path : Str
  pub mode : ℕ
  pub buffer : Bytes
  pub closed : Bool

unfoldable pub writer_write : BatchWriter → Bytes → Result BatchWriter
writer_write w content =
    if w.closed then err batch_closed else ok (record w { buffer = w.buffer ++ content })

unfoldable pub writer_close : BatchWriter → Batch → Result Batch × BatchWriter
unfolding write_with_mode
writer_close w b =
    if w.closed
    then (err batch_closed, w)
    else (write_with_mode b w.path w.buffer w.mode, record w { closed = true })
