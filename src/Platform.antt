-- ===== src/Platform.antt =====
-- What the program calls and does not implement: libgit2, and the lock of the operating system.
-- Each field is a call as the program makes it, `none` where the call returns an error code.
pub mod Laws
pub mod Host
use vost.Common.{ℕ, Bool, Str, Option, List}
use vost.Types.{Bytes}

pub record TreeEntry (Oid : Type 0) : Type 0 where
  pub name : Str
  pub id : Oid
  pub filemode : ℕ

pub record Commit (Oid : Type 0) : Type 0 where
  pub tree_id : Oid
  pub parents : List Oid
  pub message : Option Str
  pub time : ℕ
  pub author : Option (Str × Str)

pub record LogEntry (Oid : Type 0) : Type 0 where
  pub id_old : Oid
  pub id_new : Oid
  pub message : Option Str
  -- the committer's name and e-mail address, if they are there, and the time
  pub committer : Option (Option Str × Option Str × ℕ)

-- One call of flock(fd, LOCK_EX | LOCK_NB).
pub data Attempt : Type 0 where
  acquired would_block failed : Attempt

pub record Platform : Type 1 where
  -- git_repository*: objects, references and their logs
  pub Repo : Type 0
  pub Oid : Type 0
  pub Tree : Type 0
  pub Builder : Type 0
  pub Reference : Type 0
  pub AuthorSignature : Type 0
  pub oid_fromstr : Str → Option Oid
  pub oid_tostr : Oid → Str
  pub tree_lookup : Repo → Oid → Option Tree
  -- git_tree_entrycount and git_tree_entry_byindex
  pub tree_entries : Tree → List (TreeEntry Oid)
  pub tree_entry_byname : Tree → Str → Option (TreeEntry Oid)
  -- the calls of the callback, in preorder, while the callback returns 0
  pub tree_walk : Repo → Tree → Option (List (Str × TreeEntry Oid))
  pub treebuilder_new : Repo → Option Tree → Option Builder
  pub treebuilder_get : Builder → Str → Option (TreeEntry Oid)
  pub treebuilder_insert : Repo → Builder → Str → Oid → ℕ → Option Builder
  -- an error leaves the builder as it was
  pub treebuilder_remove : Builder → Str → Builder
  pub treebuilder_entrycount : Builder → ℕ
  pub treebuilder_write : Repo → Builder → Option (Oid × Repo)
  pub blob_create_from_buffer : Repo → Bytes → Option (Oid × Repo)
  pub blob_lookup : Repo → Oid → Option Bytes
  pub signature_now : Repo → Str → Str → Option AuthorSignature
  pub commit_create : Repo → AuthorSignature → Str → Oid → List Oid → Option (Oid × Repo)
  pub commit_lookup : Repo → Oid → Option (Commit Oid)
  pub reference_lookup : Repo → Str → Option Reference
  pub reference_peel : Repo → Reference → Option Oid
  pub reference_set_target : Repo → Reference → Oid → Str → Option Repo
  pub reference_create : Repo → Str → Oid → Bool → Str → Option Repo
  pub reference_delete : Repo → Reference → Option Repo
  -- git_commit_create with a reference to create or move
  pub commit_create_on : Repo → Str → AuthorSignature → Str → Oid → Option (Oid × Repo)
  -- the reference that HEAD leads to
  pub repository_head : Repo → Option Reference
  pub reference_is_branch : Reference → Bool
  pub reference_shorthand : Reference → Str
  pub repository_set_head : Repo → Str → Option Repo
  -- the full names that git_reference_next gives, for a pattern
  pub reference_names : Repo → Str → Option (List Str)
  pub reflog_read : Repo → Str → Option (List (LogEntry Oid))
  -- the lock file: `none` if it cannot be opened, else the attempts until the deadline
  pub lock_attempts : Repo → Str → Option (List Attempt)
