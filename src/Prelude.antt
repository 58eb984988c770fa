-- ===== src/Prelude.antt =====
-- The names that the other modules share: those of the libraries, passed on, and those of the
-- children, which have the Boolean tests, the lists as tables, the texts, the thrown errors, integers, bytes
-- and hexadecimal texts.
mod Tests
mod Lists
mod TableLaws
mod Sequences
mod Text
mod Throws
mod Doubles
mod Integers
mod Bytes
mod Hex
pub use Tests.*
unfoldable pub use Lists.*
pub use TableLaws.*
pub use Sequences.*
pub use native.Mathlib.Decide.{ℕ_discrete}
unfoldable pub use Text.*
pub use Throws.*
pub use Integers.*
pub use Doubles.*
unfoldable pub use Bytes.*
unfoldable pub use Hex.*
pub use Prim.Native.Nat.{ℕ, zero, suc, ◌+◌, ◌-◌, ◌*◌, ◌/◌, ◌%◌, ◌^◌, ◌≤◌, ◌<◌, min, max}
pub use Prim.Native.String.{String, ◌++◌ as ◌+++◌}
pub use mathlib.Core.Path.{◌≡◌, refl, sym, ap, ◌∙◌}
pub use mathlib.Core.Logic.{◌≢◌, ◌↔◌, ◌⊎◌, inl, inr}
pub use mathlib.Core.Bool.{Bool, true, false, not, ◌&&◌, ◌||◌}
pub use mathlib.Core.Option.{Option, none, some}
pub use mathlib.Core.List.{List, [], ◌∷◌, ◌++◌, map, Memᴰ}
pub use native.Mathlib.Omega.{arith}
