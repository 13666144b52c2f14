-- ===== src/Base.antt =====
-- The names that the other modules share: the libraries' and those of their children.
mod Tests
mod Types
mod Lists
mod Outcome
pub mod Table
pub use Types.{
  Ref, no_id, Time, Duration, seconds, Text, Bytes, codes, same_text, unix_mono, unix_lt,
}
unfoldable pub use Types.{unix}
pub use Tests.*
pub use Lists.*
pub use Outcome.*
pub use Prim.Native.Nat.{ℕ, zero, suc, ◌+◌, ◌-◌, ◌*◌, ◌/◌, ◌%◌, ◌^◌, ◌≤◌, ◌<◌}
pub use mathlib.Core.Path.{◌≡◌, refl, sym, ap, ◌∙◌}
pub use mathlib.Core.Logic.{◌≢◌, ◌↔◌, ◌⊎◌, inl, inr}
pub use mathlib.Core.Bool.{Bool, true, false, not, ◌&&◌, ◌||◌}
pub use mathlib.Core.Option.{Option, none, some}
pub use mathlib.Core.List.{List, [], ◌∷◌, ◌++◌, map}
pub use native.Mathlib.Omega.{arith}
