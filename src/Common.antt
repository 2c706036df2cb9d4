-- ===== src/Common.antt =====
-- The names that every other module shares: the libraries', passed on, the Boolean tests on
-- native numbers, lists measured by native numbers, and decisions on lists of records.
mod Compare
mod Lists
mod Search
pub mod Maps
pub mod Bits
pub mod BufMut
pub mod Bytes
mod Xor
pub mod Result
pub use Compare.*
pub use Lists.*
pub use Xor.{bit_xor-lt, bit_xor_twice}
pub use Search.*
pub use Prim.Native.Nat.{ℕ, zero, suc, ◌+◌, ◌-◌, ◌*◌, ◌/◌, ◌%◌, ◌^◌, ◌≤◌, ◌<◌}
pub use Prim.Native.Nat.{min, max, bit_and, bit_or, bit_xor}
pub use mathlib.Core.Path.{◌≡◌, refl, sym, ap, ◌∙◌}
pub use mathlib.Core.Logic.{◌≢◌, ◌↔◌, ◌⊎◌, inl, inr}
pub use mathlib.Core.Bool.{Bool, true, false, not, ◌&&◌, ◌||◌}
pub use mathlib.Core.Option.{Option, none, some}
pub use mathlib.Core.List.{List, [], ◌∷◌, ◌++◌, map}
pub use native.Mathlib.Omega.{arith}
