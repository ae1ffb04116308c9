-- ===== src/Base.antt =====
-- The names that every module shares: the library's, passed on, with Boolean tests, text and
-- signed integers. Identifiers and digests are compared for equality only, so a UUID is its
-- 128-bit value (`uuid.Nil` is 0) and a SHA-256 digest its 256-bit value.
mod Tests
mod Strings
mod Lists
mod Trim
mod Numerals
mod Split
pub mod Int
pub use Tests.*
pub use Strings.*
pub use Lists.*
unfoldable pub use Trim.*
unfoldable pub use Numerals.*
unfoldable pub use Split.*
pub use Prim.Native.Nat.{ℕ, zero, suc, ◌+◌, ◌-◌, ◌*◌, ◌/◌, ◌%◌, ◌^◌, ◌≤◌, ◌<◌}
pub use Prim.Native.String.{String}
pub use mathlib.Core.Path.{◌≡◌, refl, sym, ap, ◌∙◌, subst}
pub use mathlib.Core.Logic.{◌≢◌, ◌↔◌, ◌⊎◌, inl, inr}
pub use mathlib.Core.Bool.{Bool, true, false, ◌&&◌, ◌||◌, not}
pub use mathlib.Core.Option.{Option, none, some}
pub use mathlib.Core.List.{List, [], ◌∷◌, ◌++◌}
pub use native.Mathlib.Omega.{arith}

abbrev pub Uuid : Type 0
Uuid = ℕ

abbrev pub nil_uuid : Uuid
nil_uuid = 0

abbrev pub Digest : Type 0
Digest = ℕ
