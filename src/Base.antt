-- ===== src/Base.antt =====
-- The names that the other modules share: the libraries', passed on, and those of the modules below.
mod Tests
mod Lists
mod Texts
mod Dicts
mod Int
mod Bits
mod Results
mod Sorting
mod Sorted
mod Words
mod JsonValues
mod Quote
pub use Tests.*
pub use Lists.*
unfoldable pub use Texts.*
unfoldable pub use Dicts.*
pub use Int.*
unfoldable pub use Bits.*
unfoldable pub use Results.*
unfoldable pub use Sorting.*
pub use Sorted.*
unfoldable pub use Words.*
pub use JsonValues.*
unfoldable pub use Quote.*
pub use Prim.Native.Nat.{ℕ, zero, suc, ◌+◌, ◌-◌, ◌*◌, ◌/◌, ◌%◌, ◌^◌, ◌≤◌, ◌<◌, min, max}
pub use mathlib.Core.Path.{◌≡◌, refl, sym, ap, subst, ◌∙◌, ◌≡⟨◌⟩◌, ◌∎}
pub use mathlib.Core.Logic.{◌≢◌, ◌↔◌, ◌⊎◌, inl, inr}
pub use mathlib.Core.Bool.{Bool, true, false, ◌&&◌, ◌||◌, not}
pub use mathlib.Core.Option.{Option, none, some}
pub use mathlib.Core.List.{List, [], ◌∷◌, ◌++◌, map}
pub use native.Mathlib.Omega.{arith}
