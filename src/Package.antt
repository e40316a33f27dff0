-- ===== src/Package.antt =====
-- prototypes/rust_stage0/src/package.rs: the package that the later stages read.
pub mod Words
pub mod Fields
pub mod Load
pub mod Versions
pub mod Valid
pub mod Semver
mod Tests
use snap_surf_lang.Prelude.{Bytes, Bool, true, false, List, Option}

pub data PackageType : Type 0 where
  executable library build_script : PackageType

pub record Dependency : Type 0 where
  pub name : Bytes
  pub version : Bytes

-- `requires` is a set of texts.
pub record Package : Type 0 where
  pub name : Bytes
  pub version : Bytes
  pub package_type : PackageType
  pub target : Bytes
  pub runtime : Bytes
  pub entry : Option Bytes
  pub requires : List Bytes
  pub deps : List Dependency
  pub root : Bytes
  pub path : Bytes

-- `== PackageType::Executable`
abbrev pub is_executable : PackageType → Bool
is_executable executable = true
is_executable library = false
is_executable build_script = false
