-- ===== src/Parser.antt =====
-- prototypes/rust_stage0/src/parser.rs.
pub mod Cursor
pub mod Literals
pub mod Exprs
pub mod Stmts
pub mod Items
pub mod Moves
pub mod Strings
pub mod Numerals
pub mod Quotes
pub mod Primary
pub mod Total
pub mod Steps
pub mod Blocks
pub mod Closed
pub mod Params
pub mod Stuck
pub mod Rounds
pub mod Files
mod Tests
mod FileTests
mod ValueTests
