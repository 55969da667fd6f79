-- ===== src/Base.antt =====
-- The names that the modules of the library share: the libraries' names, passed on, and those of
-- the children: Boolean tests, lists, texts, orders with `sort` and `dedup`, and equality tests.
-- Filters has lemmas on these and is used by itself.
mod Tests
mod Lists
mod Texts
mod Order
mod Equality
pub mod Filters
pub use Tests.*
pub use Lists.*
unfoldable pub use Texts.*
unfoldable pub use Order.*
pub use Order.Lexicographic.{triple_order}
pub use Order.Absorb.{Within, Within-self, sort_dedup-fixed, sort_dedup-absorb}
pub use Equality.*
pub use Prim.Native.Nat.{ℕ, zero, suc, ◌+◌, ◌-◌, ◌*◌, ◌/◌, ◌%◌, ◌^◌, ◌≤◌, ◌<◌}
pub use mathlib.Core.Path.{◌≡◌, refl, sym, ap, ap₂, subst, ◌∙◌, ◌≡⟨◌⟩◌, ◌∎}
pub use mathlib.Core.Logic.{◌≢◌, ◌↔◌, ◌⊎◌, inl, inr}
pub use mathlib.Core.Bool.{Bool, true, false, not, ◌&&◌, ◌||◌}
pub use mathlib.Core.Option.{Option, none, some}
pub use mathlib.Core.List.{List, [], ◌∷◌, ◌++◌, map, map-append, append-nil, append_assoc}
pub use native.Mathlib.Omega.{arith}
