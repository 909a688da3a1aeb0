-- ===== src/Common.antt =====
-- The names that the modules of the library share: the libraries' own, passed on, and those of the
-- children: Boolean tests and `if` (Tests), lists over the native numbers (Lists), little-endian
-- words as bytes (Words), results
-- (Result), methods (Exec), maps (Dict), and what methods establish (Triple),
-- and Go strings (Text).
mod Tests
mod Lists
mod Words
pub mod Result
pub mod Exec
pub mod Dict
pub mod Triple
pub mod Text
pub use Tests.*
pub use Lists.*
unfoldable pub use Words.*
pub use Prim.Native.Nat.{ℕ, zero, suc, ◌+◌, ◌-◌, ◌*◌, ◌/◌, ◌%◌, ◌^◌, ◌≤◌, ◌<◌, min, max}
pub use Prim.Native.String.{String}
pub use mathlib.Core.Path.{◌≡◌, refl, sym, ap, ◌∙◌, subst}
pub use mathlib.Core.Logic.{◌≢◌, ◌↔◌, ◌⊎◌, inl, inr}
pub use mathlib.Core.Bool.{Bool, true, false, not, ◌&&◌, ◌||◌}
pub use mathlib.Core.Option.{Option, none, some}
pub use mathlib.Core.List.{List, [], ◌∷◌, ◌++◌, map, append-nil, append_assoc}
pub use native.Mathlib.Omega.{arith}
