-- ===== src/Codegen.antt =====
-- prototypes/rust_stage0/src/codegen.rs.
pub mod Tests
mod BodyTests
mod SlotTests
mod BoolTests
pub mod Asm
pub mod Exprs
pub mod Stmts
pub mod Fns
pub mod Labels
pub mod Targets
pub mod Tidy
pub mod Jumps
pub mod Scopes
pub mod FnLabels
pub mod Items
pub mod Links
pub mod Locals
pub mod Accepted
pub mod Machine
pub mod Operators
pub mod Args
pub mod Values
pub mod Points
pub mod BigStep
pub mod Routes
pub mod Leaps
pub mod Correct
pub mod Rounds
pub mod Ifs
pub mod Loops
pub mod Whiles
pub mod Preserves
pub mod Bodies
pub mod Arrivals
pub mod Slots
pub mod Bools
