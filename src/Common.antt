-- ===== src/Common.antt =====
-- The names that the modules of all services share: the libraries', passed on, and those of the
-- children. `Exec` is the handlers' monad, `Dict` is JavaScript's `Map` with text keys, `Text` is
-- what the sources use of JavaScript's strings, and `Repository` is the interface of TypeORM.
mod Tests
mod Lists
pub mod Exec
pub mod Number
pub mod Equality
pub mod Outcome
pub mod Dict
pub mod Text
pub mod Repository
pub mod Redis
pub use Tests.*
pub use Lists.*
pub use Prim.Native.Nat.{ℕ, zero, suc, ◌+◌, ◌-◌, ◌*◌, ◌/◌, ◌%◌, ◌^◌, ◌≤◌, ◌<◌, min, max}
pub use Prim.Native.String.{String}
pub use mathlib.Core.Path.{◌≡◌, refl, sym, ap, subst, ◌∙◌}
pub use mathlib.Core.Logic.{◌≢◌, ◌↔◌, ◌⊎◌, inl, inr}
pub use mathlib.Core.Bool.{Bool, true, false, false≢true, not, ◌&&◌, ◌||◌}
pub use mathlib.Core.Option.{Option, none, some}
pub use mathlib.Core.List.{List, [], ◌∷◌, ◌++◌, map}
pub use native.Mathlib.Omega.{arith}
pub use text.Mathlib.Text.{◌==◌}
pub use text.Mathlib.TextEquality.{eq_iff}
pub use text.Mathlib.TextPositions.{eq_refl}
