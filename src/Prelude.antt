-- ===== src/Prelude.antt =====
-- The names that the other modules share: the libraries', passed on, and those of the children.
mod Tests
mod Lists
mod Loops
mod Texts
pub mod Maps
pub use Tests.*
pub use Lists.*
pub use Loops.{
  Run, done, panic, out_of_fuel, ◌>>=◌, or_panic, Flow, next, exit, Post, Post-bind, Post-weaken,
  Round, loop-Post, loop-next, loop-exit,
}
unfoldable pub use Loops.{loop}
pub use Texts.{Bytes, text, text_eq_iff, text_eq_refl, text_eq_of_ne, ne_of_text_eq}
unfoldable pub use Texts.{text_eq, decimal}
pub use Prim.Native.Nat.{ℕ, zero, suc, ◌+◌, ◌-◌, ◌*◌, ◌/◌, ◌%◌, ◌^◌, ◌≤◌, ◌<◌}
pub use mathlib.Core.Path.{◌≡◌, refl, sym, ap, ◌∙◌}
pub use mathlib.Core.Logic.{◌≢◌, ◌↔◌, ◌⊎◌, inl, inr}
pub use mathlib.Core.Bool.{Bool, true, false, ◌&&◌, ◌||◌, not}
pub use mathlib.Core.Option.{Option, none, some}
pub use mathlib.Core.List.{List, [], ◌∷◌, ◌++◌, map, append-nil, append_assoc}
pub use native.Mathlib.Omega.{arith}
