-- ===== src/Base.antt =====
-- The names that the other modules share: the libraries', passed on, with Boolean tests, lists
-- over the native numbers, signed integers and byte strings.
mod Tests
mod Lists
mod Int
mod Text
mod Outcomes
mod Maps
pub use Tests.*
pub use Lists.*
pub use Int.*
pub use Text.{Bytes, codes, equal_iff}
unfoldable pub use Text.{equal}
pub use Outcomes.*
pub use Maps.{update, bit, count-append, count_split, count_last, count-le}
unfoldable pub use Maps.{count}
pub use Prim.Native.Nat.{ℕ, zero, suc, ◌+◌, ◌-◌, ◌*◌, ◌/◌, ◌%◌, ◌^◌, ◌≤◌, ◌<◌, min}
pub use mathlib.Core.Path.{◌≡◌, refl, sym, subst, ap, ◌∙◌, ◌≡⟨◌⟩◌, ◌∎}
pub use mathlib.Core.Logic.{◌≢◌, ◌↔◌, ◌⊎◌, inl, inr}
pub use mathlib.Core.Bool.{Bool, true, false, not, ◌&&◌, ◌||◌}
pub use mathlib.Core.Option.{Option, none, some}
pub use mathlib.Core.List.{List, [], ◌∷◌, ◌++◌, map, append-nil, append_assoc}
pub use native.Mathlib.Omega.{arith}
unfoldable pub use native.Mathlib.Decide.{ℕ_discrete}
