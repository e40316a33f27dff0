-- ===== src/Lexer.antt =====
-- prototypes/rust_stage0/src/lexer.rs.
pub mod Cursor
pub mod Scan
pub mod Main
pub mod Positions
pub mod Tiles
mod Loops
mod Quoted
mod Tokens
mod Ints
pub mod Dispatch
pub mod Sound
mod Tests
