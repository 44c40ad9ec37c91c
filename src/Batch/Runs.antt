-- ===== src/Batch/Runs.antt =====
-- Sequences of calls on one batch of cpp/src/batch.cpp, and the end of its life.
use vost.Common.{ℕ, ◌≡◌, Option, List, Str}
use vost.Error.{ok, throw_if, batch_closed, >>=-eq-ok}
use vost.Types.{Bytes}
use vost.Paths.{normalize}
use vost.Platform.{Platform}
use vost.Fs.{Fs}
use vost.Batch.{Batch, new_batch, require_open, write_with_mode, remove}
use vost.Batch.Tidy.{IsTidy, new_batch-IsTidy, write_with_mode-IsTidy, remove-IsTidy}

-- The second batch comes from the first by calls that returned.
pub data Stages (b : Batch) : Batch → Type 0 where
  start : Stages b b
  then_write :
      (b₁ b₂ : Batch) (path : Str) (content : Bytes) (mode : ℕ)
      → Stages b b₁
      → write_with_mode b₁ path content mode ≡ ok b₂
      → Stages b b₂
  then_remove : (b₁ b₂ : Batch) (path : Str) → Stages b b₁ → remove b₁ path ≡ ok b₂ → Stages b b₂

written_path :
    (b : Batch) (path : Str) (content : Bytes) (mode : ℕ) {b' : Batch}
    → write_with_mode b path content mode ≡ ok b'
    → (norm : Str) × (normalize path ≡ ok norm)
unfolding write_with_mode require_open
written_path b path content mode h =
    let (u, open_, h₁) = >>=-eq-ok (throw_if b.closed batch_closed) _ h in
    let (norm, n, h₂) = >>=-eq-ok (normalize path) _ h₁ in (norm, n)

removed_path :
    (b : Batch) (path : Str) {b' : Batch}
    → remove b path ≡ ok b'
    → (norm : Str) × (normalize path ≡ ok norm)
unfolding remove require_open
removed_path b path h =
    let (u, open_, h₁) = >>=-eq-ok (throw_if b.closed batch_closed) _ h in
    let (norm, n, h₂) = >>=-eq-ok (normalize path) _ h₁ in (norm, n)

Stages-keeps : (b b' : Batch) → IsTidy b → Stages b b' → IsTidy b'
Stages-keeps b b' t start = t
Stages-keeps b b' t (then_write b₁ b₂ path content mode s h) =
    let (norm, n) = written_path b₁ path content mode h in
    write_with_mode-IsTidy b₁ path content mode n h (Stages-keeps b b₁ t s)
Stages-keeps b b' t (then_remove b₁ b₂ path s h) =
    let (norm, n) = removed_path b₁ path h in remove-IsTidy b₁ path n h (Stages-keeps b b₁ t s)

-- After any sequence of writes and removals on a new batch, no path is staged twice, and none is
-- staged both for writing and for removal.
pub Stages-IsTidy :
    (fs : Fs) (message operation : Option Str) (parents : List Str) (b : Batch)
    → Stages (new_batch fs message operation parents) b
    → IsTidy b
Stages-IsTidy fs message operation parents b s =
    Stages-keeps _ b (new_batch-IsTidy fs message operation parents) s
