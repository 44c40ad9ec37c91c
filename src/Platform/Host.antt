-- ===== src/Platform/Host.antt =====
-- What the program calls of std::filesystem, and of libgit2 to open a repository by its path.
use vost.Common.{Bool, Str, Option}
use vost.Platform.{Platform}

pub record Host (p : Platform) : Type 1 where
  pub Disk : Type 0
  -- int and int64_t, as numbers that are only passed on
  pub Int : Type 0
  pub exists : Disk → Str → Bool
  -- `none` where the call throws std::filesystem::filesystem_error
  pub create_directories : Disk → Str → Option Disk
  pub weakly_canonical : Str → Option Str
  pub repository_open_bare : Disk → Str → Option p.Repo
  pub repository_init : Disk → Str → Option p.Repo
  -- git_repository_config returns 0
  pub has_config : p.Repo → Bool
  -- git_config_set_string and its like, whose errors the program does not look at
  pub config_set_string : p.Repo → Str → Str → p.Repo
  pub config_set_int : p.Repo → Str → Int → p.Repo
