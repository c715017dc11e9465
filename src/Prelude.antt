-- ===== src/Prelude.antt =====
-- The names that the modules share: the libraries', passed on, and those of the children.
mod Tests
mod Outcome
mod Words
mod Bits
mod Digits
pub use Digits.{bit_or_digit, bit_or-div, bit_or-mod, bit_or_zero}
mod Memory
pub use Tests.*
pub use Outcome.*
pub use Words.*
pub use Bits.{
  test_bit-set_bit, test_bit-clear_bit, set_bit-lt, clear_bit-lt, test_bit_of_full,
  full_of_test_bit, test_bit-zero, test_bit_ones,
}
unfoldable pub use Bits.{test_bit, set_bit, clear_bit}
pub use Memory.*
pub use Prim.Native.Nat.{ℕ, zero, suc, ◌+◌, ◌-◌, ◌*◌, ◌/◌, ◌%◌, ◌^◌, ◌≤◌, ◌<◌, min, bit_and, bit_or}
pub use mathlib.Core.Path.{◌≡◌, refl, sym, ap, subst, ◌∙◌}
pub use mathlib.Core.Logic.{◌≢◌, ◌↔◌, ◌⊎◌, inl, inr}
pub use mathlib.Core.Bool.{Bool, true, false, not, ◌&&◌, ◌||◌}
pub use mathlib.Core.Option.{Option, none, some}
pub use mathlib.Core.List.{List, [], ◌∷◌, ◌++◌}
pub use native.Mathlib.Omega.{arith}
unfoldable pub use native.Mathlib.Decide.{dec_lt}
