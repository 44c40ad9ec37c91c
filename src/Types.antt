-- ===== src/Types.antt =====
-- cpp/include/vost/types.h: file modes and types, the entries of trees, the entries to write.
use vost.Common.{ℕ, ◌≡◌, ◌↔◌, Bool, true, false, ◌||◌, Option, none, some, List, Str, codes, arith}
use vost.Common.{◌==◌, if◌then◌else◌}
use vost.Error.{Result, err, ◌>>◌, throw_if, invalid_path}

abbrev pub mode_blob : ℕ
mode_blob = 0o100644

abbrev pub mode_blob_exec : ℕ
mode_blob_exec = 0o100755

abbrev pub mode_link : ℕ
mode_link = 0o120000

abbrev pub mode_tree : ℕ
mode_tree = 0o040000

pub data FileType : Type 0 where
  blob executable link tree : FileType

unfoldable pub file_type_from_mode : ℕ → Option FileType
file_type_from_mode mode =
    if mode == mode_blob
    then some blob
    else if mode == mode_blob_exec
    then some executable
    else if mode == mode_link
    then some link
    else if mode == mode_tree
    then some tree
    else none

unfoldable pub file_type_to_mode : FileType → ℕ
file_type_to_mode blob = mode_blob
file_type_to_mode executable = mode_blob_exec
file_type_to_mode link = mode_link
file_type_to_mode tree = mode_tree

-- a vector of bytes
abbrev pub Bytes : Type 0
Bytes = List ℕ

pub record WalkEntry : Type 0 where
  pub name : Str
  pub oid : Str
  pub mode : ℕ

pub record WalkDirEntry : Type 0 where
  pub dirpath : Str
  pub dirnames : List Str
  pub files : List WalkEntry

pub record StatResult : Type 0 where
  pub mode : ℕ
  pub file_type : FileType
  pub size : ℕ
  pub hash : Str
  pub nlink : ℕ
  pub mtime : ℕ

pub record WriteEntry : Type 0 where
  pub bytes : Option Bytes
  pub target : Option Str
  pub mode : ℕ

-- has_value()
abbrev pub is_some {ℓ} : {A : Type ℓ} → Option A → Bool
is_some none = false
is_some (some a) = true

abbrev pub is_none {ℓ} : {A : Type ℓ} → Option A → Bool
is_none none = true
is_none (some a) = false

-- The last message ends in the decimal digits of the mode, which are left out.
unfoldable pub validate : WriteEntry → Result (Unit {0})
validate e =
    if e.mode == mode_link
    then throw_if (is_none e.target) (invalid_path (codes "symlink entry requires a target"))
      >> throw_if (is_some e.bytes) (invalid_path (codes "symlink entry must not have data"))
    else if (e.mode == mode_blob) || (e.mode == mode_blob_exec)
    then throw_if (is_none e.bytes) (invalid_path (codes "blob entry requires data"))
      >> throw_if (is_some e.target)
          (invalid_path (codes "blob entry must not have a symlink target"))
    else err (invalid_path (codes "unsupported mode: "))

-- A mode has a file type exactly if it is the mode of that type, and every type has a mode.
pub file_type_iff :
    (mode : ℕ) (ft : FileType)
    → (file_type_from_mode mode ≡ some ft) ↔ (mode ≡ file_type_to_mode ft)
unfolding file_type_from_mode file_type_to_mode
file_type_iff mode blob = (λ h. ground arith, λ h. ground arith)
file_type_iff mode executable = (λ h. ground arith, λ h. ground arith)
file_type_iff mode link = (λ h. ground arith, λ h. ground arith)
file_type_iff mode tree = (λ h. ground arith, λ h. ground arith)

pub record FileEntry : Type 0 where
  pub path : Str
  pub file_type : FileType
  pub src : Option Str

pub record ChangeError : Type 0 where
  pub path : Str
  pub error : Str

pub record ChangeReport : Type 0 where
  pub add : List FileEntry
  pub update : List FileEntry
  pub del : List FileEntry
  pub errors : List ChangeError
  pub warnings : List ChangeError
