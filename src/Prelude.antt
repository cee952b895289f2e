-- ===== src/Prelude.antt =====
-- Names that the modules share: the libraries', passed on, with the Boolean tests, list helpers,
-- texts and association lists that the modelled code computes with.
mod Tests
mod Lists
pub mod Texts
pub mod Assoc
pub mod Parts
pub mod Words
pub mod Maybe
pub use Tests.*
pub use Lists.*
pub use Prim.Native.Nat.{ℕ, zero, suc, ◌+◌, ◌-◌, ◌*◌, ◌/◌, ◌%◌, ◌^◌, ◌≤◌, ◌<◌}
pub use Prim.Native.String.{String}
pub use mathlib.Core.Path.{◌≡◌, refl, sym, ap, ◌∙◌}
pub use mathlib.Core.Logic.{◌≢◌, ◌↔◌, ◌⊎◌, inl, inr}
pub use mathlib.Core.Bool.{Bool, true, false, not, ◌&&◌, ◌||◌}
pub use mathlib.Core.Option.{Option, none, some}
pub use mathlib.Core.List.{List, [], ◌∷◌, ◌++◌, map, foldl, reverse, append_assoc, append-nil}
pub use native.Mathlib.Omega.{arith}
