-- ===== src/Prelude.antt =====
-- The names that the modules share: the libraries' names passed on, tests, lists, bit laws.
mod Tests
mod Lists
mod Bits
mod Xor
mod Bytes
mod CStrings
mod Order
pub use Tests.*
pub use Lists.*
pub use Bits.*
pub use Xor.*
pub use Bytes.*
pub use CStrings.*
unfoldable pub use Order.{lt_wf}
unfoldable pub use native.Mathlib.Decide.{dec_lt, ℕ_discrete}
pub use mathlib.Core.WellFounded.{Acc}
pub use mathlib.Core.Logic.{ite, dite, if_pos, if_neg, dif_pos, dif_neg}
pub use Prim.Native.Nat.{
  ℕ, zero, suc, ◌+◌, ◌-◌, ◌*◌, ◌/◌, ◌%◌, ◌^◌, ◌≤◌, ◌<◌, bit_and, bit_or, bit_xor,
}
pub use mathlib.Core.Path.{◌≡◌, refl, sym, ap, ap₂, subst, ◌∙◌}
pub use mathlib.Core.Logic.{◌≢◌, ◌↔◌, ◌⊎◌, inl, inr}
pub use mathlib.Core.Bool.{Bool, true, false, not, ◌&&◌, ◌||◌}
pub use mathlib.Core.Option.{Option, none, some}
pub use mathlib.Core.List.{List, [], ◌∷◌, ◌++◌, map}
pub use native.Mathlib.Omega.{arith}
