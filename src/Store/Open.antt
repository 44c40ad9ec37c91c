-- ===== src/Store/Open.antt =====
-- cpp/src/gitstore.cpp: `GitStore::open` and `init_branch`.
use vost.Common.{Bool, ℕ, Option, none, some, Str, codes, ◌++◌, ◌||◌, if◌then◌else◌}
use vost.Error.{Result, ok, err, git_error, not_found, filesystem_error}
use vost.Error
use vost.Types.{is_some}
use vost.Platform.{Platform}
use vost.Platform.Host.{Host}
use vost.Exec.{Exec, ret, reading, ◌>>=◌, ◌>>◌}
use vost.Tree.Read.{need}
use vost.Tree.WriteCommit.{Signature, default_signature}
use vost.Fs.{Inner}
use vost.Fs.Commit.{committing, storing}

pub record OpenOptions (Int : Type 0) : Type 0 where
  pub create : Bool
  pub branch : Option Str
  pub author : Option Str
  pub email : Option Str
  pub compression : Option Int
  pub big_file_threshold : Option Int

abbrev value_or : Option Str → Str → Str
value_or none s = s
value_or (some t) s = t

-- The default signature, with the names that the options give.
unfoldable pub store_signature : {Int : Type 0} → OpenOptions Int → Signature
store_signature opts = record {
  name = value_or opts.author default_signature.name;
  email = value_or opts.email default_signature.email;
}

module _ (p : Platform) where
  open p use {
    Repo, Oid, treebuilder_new, treebuilder_write, tree_lookup, signature_now, commit_create_on,
    repository_set_head,
  }

  unfoldable pub empty_builder : Repo → Result p.Builder
  empty_builder repo = need (treebuilder_new repo none) (git_error (codes "git_treebuilder_new"))

  unfoldable pub init_author : Oid → Signature → Repo → Result p.AuthorSignature
  init_author tree_oid sig repo =
      Error.◌>>=◌ (need (tree_lookup repo tree_oid) (git_error (codes "git_tree_lookup"))) (λ tree.
        need (signature_now repo sig.name sig.email) (git_error (codes "git_signature_now")))

  -- A branch with one commit, of an empty tree, and HEAD on it.
  unfoldable pub init_branch : Str → Signature → Exec Repo (Unit {0})
  unfolding storing empty_builder init_author
  init_branch branch sig = do
    tb ← reading empty_builder
    tree_oid ← storing p (λ repo. treebuilder_write repo tb) (codes "git_treebuilder_write")
    author ← reading (init_author tree_oid sig)
    storing p
        (λ repo.
          commit_create_on repo (codes "refs/heads/" ++ branch) author
            (codes "Initialize " ++ branch) tree_oid)
        (codes "git_commit_create")
    committing p (λ repo. repository_set_head repo (codes "refs/heads/" ++ branch))
        (git_error (codes "git_repository_set_head"))

  module _ (host : Host p) where
    open host use {
      Disk, Int, exists, create_directories, repository_open_bare, repository_init, has_config,
      config_set_string, config_set_int,
    }

    unfoldable pub set_int : Str → Option Int → Repo → Repo
    set_int key none repo = repo
    set_int key (some n) repo = config_set_int repo key n

    unfoldable pub configure : OpenOptions Int → Repo → Repo
    unfolding set_int
    configure opts repo =
        if (is_some opts.compression || is_some opts.big_file_threshold)
        then (if has_config repo
            then set_int (codes "core.bigFileThreshold") opts.big_file_threshold
                (set_int (codes "core.compression") opts.compression repo)
            else repo)
        else repo

    -- Reflogs in a bare repository, which undo and redo need.
    unfoldable pub enable_reflogs : Repo → Repo
    enable_reflogs repo =
        if has_config repo
        then config_set_string repo (codes "core.logAllRefUpdates") (codes "always")
        else repo

    unfoldable pub init_options : OpenOptions Int → Exec Repo (Unit {0})
    unfolding init_branch
    init_options opts = elim opts.branch [
      | none ↦ ret tt
      | some branch ↦ init_branch branch (store_signature opts)
    ]

    unfoldable pub create_repository : Str → OpenOptions Int → Disk → Result Repo
    unfolding enable_reflogs init_options
    create_repository path opts disk =
        Error.◌>>=◌ (need (create_directories disk path) filesystem_error) (λ disk'.
          Error.◌>>=◌ (need (repository_init disk' path) (git_error (codes "git_repository_init")))
            (λ repo.
              let (done, repo') = init_options opts (enable_reflogs repo) in
              Error.◌>>=◌ done (λ tt. ok repo')))

    unfoldable pub open_repository : Str → OpenOptions Int → Disk → Result Repo
    unfolding create_repository
    open_repository path opts disk =
        if exists disk path
        then need (repository_open_bare disk path) (git_error (codes "git_repository_open_bare"))
        else if opts.create
        then create_repository path opts disk
        else err (not_found (codes "repository not found: " ++ path))

    -- The store at `path`, and its repository. What a call that throws leaves on the disk is left
    -- out. `address` is where the new object stands.
    unfoldable pub open_store : Str → OpenOptions Int → ℕ → Disk → Result (Inner × Repo)
    unfolding open_repository configure store_signature
    open_store path opts address disk = Error.◌>>=◌ (open_repository path opts disk) (λ repo. ok (
      record { path = path; signature = store_signature opts; address = address },
      configure opts repo,
    ))
