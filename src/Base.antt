-- ===== src/Base.antt =====
-- Names that every module shares: the libraries', Boolean tests on numbers, lists measured by
-- numbers, and maps from addresses.
mod Tests
mod Lists
mod Maps
mod Bags
pub use Tests.*
pub use Lists.*
pub use Maps.*
pub use Bags.{Bag, Alike, bag_of, copies, add, copies-add, bag_of-eq, bag_of-add}
pub use Prim.Native.Nat.{ℕ, zero, suc, ◌+◌, ◌-◌, ◌*◌, ◌/◌, ◌%◌, ◌^◌, ◌≤◌, ◌<◌}
pub use Prim.Native.String.{String}
pub use mathlib.Core.Path.{◌≡◌, refl, sym, ap, ◌∙◌, subst}
pub use mathlib.Core.Logic.{◌≢◌, ◌↔◌, ◌⊎◌, inl, inr}
pub use mathlib.Core.Bool.{Bool, true, false, not, ◌&&◌, ◌||◌}
pub use mathlib.Core.Option.{Option, none, some}
pub use mathlib.Core.List.{List, [], ◌∷◌, ◌++◌, map}
pub use native.Mathlib.Omega.{arith}
pub use text.Mathlib.TextEquality.{eq_iff}
unfoldable pub use text.Mathlib.Text.{◌==◌ as str_eq}
