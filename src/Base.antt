-- ===== src/Base.antt =====
-- What every module shares: library names, Boolean tests on the native numbers, lists measured by
-- them, Python's text and dictionary operations, and exceptions with state.
pub mod Lists
pub mod Text
pub mod Dict
pub mod Effect
pub mod Raise
pub mod Calls
pub mod Yields
pub mod Int
mod Tests
pub use Tests.*
pub use Lists.{
  length, take, drop, All, length-append, length-map, All-append, All-map, In, All-In, All-of_In,
  drop-drop, take-append-drop-length, take-eq-nil,
}
pub use Effect.{Exception, Result, ok, raise, out_of_fuel, is_ok, ok_of_is_ok}
pub use Prim.Native.Nat.{ℕ, zero, suc, ◌+◌, ◌-◌, ◌*◌, ◌/◌, ◌%◌, ◌^◌, ◌≤◌, ◌<◌}
pub use Prim.Native.String.{String}
pub use mathlib.Core.Path.{◌≡◌, refl, sym, ap, ◌∙◌}
pub use mathlib.Core.Logic.{◌≢◌, ◌↔◌, ◌⊎◌, inl, inr}
pub use mathlib.Core.Bool.{Bool, true, false, not, ◌&&◌, ◌||◌}
pub use mathlib.Core.Option.{Option, none, some}
pub use mathlib.Core.List.{List, [], ◌∷◌, ◌++◌, map}
pub use native.Mathlib.Omega.{arith}
pub use text.Mathlib.Text.{◌==◌ as str_eq}
pub use text.Mathlib.TextEquality.{eq_iff}
pub use text.Mathlib.TextPositions.{eq_refl}
