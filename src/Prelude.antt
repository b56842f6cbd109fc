-- ===== src/Prelude.antt =====
-- The names that the modules of this library share: the libraries' own, passed on, and those of the
-- children: Boolean tests, lists over native numbers, signed 64-bit integers, byte strings, the
-- ordering that `sort.Slice` promises, string-keyed maps and the operations on `float64`.
mod Tests
mod Lists
pub mod Int
pub mod Text
pub mod Sort
pub mod Members
pub mod Lex
pub mod Time
pub mod Dict
pub mod Print
pub mod Float
pub mod Duration
pub mod Canonical
pub mod Fallible
pub mod Atoi
pub use Tests.*
pub use Lists.*
pub use Prim.Native.Nat.{ℕ, zero, suc, ◌+◌, ◌-◌, ◌*◌, ◌/◌, ◌%◌, ◌^◌, ◌≤◌, ◌<◌, min}
pub use mathlib.Core.Path.{◌≡◌, refl, sym, ap, ap₂, ◌∙◌}
pub use mathlib.Core.Logic.{◌≢◌, ◌↔◌, ◌⊎◌, inl, inr}
pub use mathlib.Core.Bool.{Bool, true, false, not, ◌&&◌, ◌||◌}
pub use mathlib.Core.Option.{Option, none, some}
pub use mathlib.Core.List.{List, [], ◌∷◌, ◌++◌, map, append-nil, append_assoc}
pub use native.Mathlib.Omega.{arith}
