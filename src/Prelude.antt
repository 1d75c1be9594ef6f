-- ===== src/Prelude.antt =====
-- What the components share: the library's names, passed on, Boolean tests, lists and arrays
-- indexed by native numbers, and machine words.
mod Tests
mod Lists
mod Words
mod Arrays
mod Fallible
mod Contents
mod Bytes
pub use Tests.*
pub use Lists.*
pub use Words.*
pub use Arrays.*
unfoldable pub use Fallible.*
pub use Bytes.*
unfoldable pub use Contents.*
pub use Prim.Native.Nat.{ℕ, zero, suc, ◌+◌, ◌-◌, ◌*◌, ◌/◌, ◌%◌, ◌^◌, ◌≤◌, ◌<◌}
pub use mathlib.Core.Path.{◌≡◌, refl, sym, ap, subst, ◌∙◌, fun_ext}
pub use mathlib.Core.Logic.{◌≢◌, ◌↔◌, ◌⊎◌, inl, inr}
pub use mathlib.Core.Bool.{Bool, true, false, ◌&&◌, ◌||◌, not}
pub use mathlib.Core.Option.{Option, none, some}
pub use mathlib.Core.List.{List, [], ◌∷◌, ◌++◌, map}
pub use native.Mathlib.Omega.{arith}
unfoldable pub use native.Mathlib.Decide.{dec_lt, dec_le, ℕ_discrete}
