-- ===== src/Sema.antt =====
-- prototypes/rust_stage0/src/sema.rs.
pub mod Types
pub mod Emit
pub mod Exprs
pub mod Stmts
pub mod Bounds
pub mod Flow
pub mod Scope
pub mod Returns
pub mod Typing
pub mod WellFormed
mod Tests
