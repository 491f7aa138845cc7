-- ===== src/Base.antt =====
-- The names that the other modules share: the libraries', passed on, and those of the children.
pub mod Tests
pub mod Lists
pub mod Sets
pub mod Codes
pub mod Eq
pub mod Dict
pub mod Fallible
pub mod Exec
pub mod Rounding
pub mod Strip
pub mod Patch
pub mod Decimal
pub mod Float
pub mod Changes
pub use Tests.*
pub use Lists.*
pub use Codes.*
pub use Fallible.{
  Error, not_found, forbidden, unauthorized, value_error, integrity_error, type_error,
  decimal_error, key_error, app_error, zero_division_error, attribute_error, http_exception,
  Result-cases, Result, ok, err,
}
pub use Exec.*
pub use Prim.Native.Nat.{ℕ, zero, suc, ◌+◌, ◌-◌, ◌*◌, ◌/◌, ◌%◌, ◌≤◌, ◌<◌, min, max}
pub use Prim.Native.String.{String}
pub use mathlib.Core.Path.{◌≡◌, refl, sym, ap, ◌∙◌}
pub use mathlib.Core.Logic.{◌≢◌, ◌↔◌, ◌⊎◌, inl, inr}
pub use mathlib.Core.Bool.{Bool, true, false, ◌&&◌, ◌||◌, not}
pub use mathlib.Core.Option.{Option, none, some}
pub use mathlib.Core.List.{List, [], ◌∷◌, ◌++◌, map}
pub use native.Mathlib.Omega.{arith}
