-- ===== src/Base.antt =====
-- Names that every module shares: the libraries', passed on, and the children's.
mod Tests
mod Eq
mod Lists
pub mod Num
pub mod Map
pub mod Result
pub mod Text
pub mod Enum
pub mod Words
pub use Tests.*
pub use Eq.{
  HasEq, ◌==◌, nat_eq, string_eq, bool_eq, option_eq, pair_eq, list_eq, eq_of_beq, beq_of_eq,
  beq_refl, beq_false,
}
pub use Lists.*
pub use Prim.Native.Nat.{ℕ, zero, suc, ◌+◌, ◌-◌, ◌*◌, ◌/◌, ◌%◌, ◌^◌, ◌≤◌, ◌<◌}
pub use Prim.Native.String.{String}
pub use mathlib.Core.Path.{◌≡◌, refl, sym, ap, subst, ◌∙◌}
pub use mathlib.Core.Logic.{◌≢◌, ◌↔◌, ◌⊎◌, inl, inr}
pub use mathlib.Core.Bool.{Bool, true, false, not, ◌&&◌, ◌||◌}
pub use mathlib.Core.Option.{Option, none, some}
pub use mathlib.Core.List.{List, [], ◌∷◌, ◌++◌, map}
pub use native.Mathlib.Omega.{arith}
