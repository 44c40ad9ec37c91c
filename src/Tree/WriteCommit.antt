-- ===== src/Tree/WriteCommit.antt =====
-- cpp/src/tree.cpp: `write_commit`, `tree_oid_for_commit` and `read_commit`.
use vost.Common.{ℕ, Option, none, some, List, [], ◌∷◌, Str, codes, is_empty, ◌==◌, if◌then◌else◌}
use vost.Error.{Result, ok, err, git_error, ◌>>=◌, ◌>>◌}
use vost.Platform.{Platform, Commit}
use vost.Exec
use vost.Exec.{Exec, reading}
use vost.Tree.Read.{need, hex_to_oid}

-- struct Signature, with its default values
pub record Signature : Type 0 where
  pub name : Str
  pub email : Str

abbrev pub default_signature : Signature
default_signature = record { name = codes "vost"; email = codes "vost@localhost" }

pub record CommitMeta : Type 0 where
  pub message : Str
  pub time : ℕ
  pub author_name : Str
  pub author_email : Str
  pub parent_oid_hex : Str
  pub tree_oid_hex : Str

-- `while (!message.empty() && message.back() == '\n') message.pop_back();`
unfoldable pub strip_newlines : Str → Str
strip_newlines [] = []
strip_newlines (c ∷ s) =
    let rest = strip_newlines s in
    if is_empty rest then (if c == 10 then [] else c ∷ []) else c ∷ rest

-- `ptr ? ptr : ""`
abbrev pub or_empty : Option Str → Str
or_empty none = []
or_empty (some s) = s

abbrev author_part : (Str × Str → Str) → Option (Str × Str) → Str
author_part part none = []
author_part part (some a) = part a

module _ (p : Platform) where
  open p use {Repo, Oid, oid_tostr, tree_lookup, commit_lookup, commit_create, signature_now}

  -- The parents that are named, each looked up in turn.
  unfoldable pub parent_commits : Repo → List Str → Result (List Oid)
  parent_commits repo [] = ok []
  parent_commits repo (hex ∷ hexes) =
      let rest = parent_commits repo hexes in
      if is_empty hex then rest else (do
        oid ← hex_to_oid p hex
        need (commit_lookup repo oid) (git_error (codes "git_commit_lookup (parent)"))
        others ← rest
        ok (oid ∷ others))

  unfoldable pub commit_arguments :
      Repo → Str → List Str → Signature → Result (Oid × p.AuthorSignature × List Oid)
  unfolding parent_commits
  commit_arguments repo tree_oid_hex parent_oids sig = do
    tree ← hex_to_oid p tree_oid_hex
    need (tree_lookup repo tree) (git_error (codes "git_tree_lookup (write_commit)"))
    author ← need (signature_now repo sig.name sig.email) (git_error (codes "git_signature_now"))
    parents ← parent_commits repo parent_oids
    ok (tree, author, parents)

  -- git_commit_create, with no reference to update
  unfoldable pub create_commit : Str → Oid × p.AuthorSignature × List Oid → Exec Repo Str
  create_commit message (tree, author, parents) repo =
      elim (commit_create repo author message tree parents) [
        | none ↦ (err (git_error (codes "git_commit_create")), repo)
        | some (oid, repo') ↦ (ok (oid_tostr oid), repo')
      ]

  unfoldable pub write_commit : Str → List Str → Signature → Str → Exec Repo Str
  unfolding commit_arguments create_commit
  write_commit tree_oid_hex parent_oids sig message =
      Exec.◌>>=◌ (reading (λ repo. commit_arguments repo tree_oid_hex parent_oids sig))
        (create_commit message)

  unfoldable pub find_commit : Repo → Str → Str → Result (Commit Oid)
  find_commit repo hex context = do
    oid ← hex_to_oid p hex
    need (commit_lookup repo oid) (git_error context)

  unfoldable pub tree_oid_for_commit : Repo → Str → Result Str
  unfolding find_commit
  tree_oid_for_commit repo hex = do
    c ← find_commit repo hex (codes "git_commit_lookup (tree_oid_for_commit)")
    ok (oid_tostr c.tree_id)

  unfoldable pub first_parent : List Oid → Str
  first_parent [] = []
  first_parent (oid ∷ oids) = oid_tostr oid

  unfoldable pub read_commit : Repo → Str → Result CommitMeta
  unfolding find_commit first_parent strip_newlines
  read_commit repo hex = do
    c ← find_commit repo hex (codes "git_commit_lookup (read_commit)")
    ok (record {
      message = strip_newlines (or_empty c.message);
      time = c.time;
      author_name = author_part (λ a. a.0) c.author;
      author_email = author_part (λ a. a.1) c.author;
      parent_oid_hex = first_parent c.parents;
      tree_oid_hex = oid_tostr c.tree_id;
    })
