-- ===== src/Prelude.antt =====
-- The names that the other modules share: the libraries', passed on, and those of its children.
mod Tests
mod Lists
mod Errors
mod Bytes
mod Decimal
mod Integers
mod Padding
pub use Tests.*
unfoldable pub use Tests.{text_eq, nat_eq, option_eq}
pub use Lists.*
pub use Errors.*
pub use Bytes.*
pub use Decimal.*
pub use Integers.*
pub use Padding.*
unfoldable pub use Padding.{precedes, padded}
unfoldable pub use Decimal.{print, value, value_from}
unfoldable pub use Bytes.{lower, has_prefix, has_suffix, split, join}
pub use Prim.Native.String.{String}
pub use Prim.Native.Nat.{ℕ, zero, suc, ◌+◌, ◌-◌, ◌*◌, ◌/◌, ◌%◌, ◌^◌, ◌≤◌, ◌<◌}
pub use mathlib.Core.Path.{◌≡◌, refl, sym, ap, subst, ◌∙◌}
pub use mathlib.Core.Logic.{◌≢◌, ◌↔◌, ◌⊎◌, inl, inr, ite, dite}
pub use mathlib.Core.Bool.{Bool, true, false, not, ◌&&◌, ◌||◌}
pub use mathlib.Core.Option.{Option, none, some, some-injective}
pub use mathlib.Core.List.{List, [], ◌∷◌, ◌++◌, map}
pub use native.Mathlib.Omega.{arith}
