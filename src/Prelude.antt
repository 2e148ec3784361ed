-- ===== src/Prelude.antt =====
-- Names that every module shares: the libraries' names passed on, tests, lists, texts, signed numbers.
mod Tests
mod Lists
mod Text
mod Signed
pub mod Table
pub mod Decimal
mod Faults
pub mod Chain
pub use Tests.*
pub use Lists.*
pub use Text.*
pub use Signed.*
pub use Faults.*
pub use Prim.Native.Nat.{ℕ, zero, suc, ◌+◌, ◌-◌, ◌*◌, ◌/◌, ◌%◌, ◌^◌, ◌≤◌, ◌<◌, min}
pub use mathlib.Core.Path.{◌≡◌, refl, sym, ap, ◌∙◌}
pub use mathlib.Core.Logic.{◌≢◌, ◌↔◌, ◌⊎◌, inl, inr}
pub use mathlib.Core.Bool.{Bool, true, false, not, ◌&&◌, ◌||◌}
pub use mathlib.Core.Option.{Option, none, some}
pub use mathlib.Core.List.{List, [], ◌∷◌, ◌++◌, map, append-nil, append_assoc}
pub use native.Mathlib.Omega.{arith}
