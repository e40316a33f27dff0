-- ===== src/Source.antt =====
-- prototypes/rust_stage0/src/source.rs: a source file. `bytes` is what the lexer reads; `text` is
-- the same bytes as a `String`. A path is the text of the path.
pub mod Lossy
pub mod Load
pub mod Utf8
pub mod Encoded
pub mod Loaded
mod Tests
use snap_surf_lang.Prelude.{ℕ, Bytes}

pub record SourceFile : Type 0 where
  pub id : ℕ
  pub path : Bytes
  pub bytes : Bytes
  pub text : Bytes
