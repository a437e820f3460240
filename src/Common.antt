-- ===== src/Common.antt =====
-- What every component shares: the library's names, Boolean tests on numbers, and the children
-- for request handlers (`Common.Handler`) and database tables (`Common.Table`).
mod Tests
pub mod Chars
pub mod Handler
pub mod Int
pub mod Lists
pub mod Table
pub use Tests.*
pub use Prim.Native.Nat.{ℕ, zero, suc, ◌+◌, ◌-◌, ◌*◌, ◌/◌, ◌%◌, ◌≤◌, ◌<◌, min, max}
pub use Prim.Native.String.{String}
pub use mathlib.Core.Path.{◌≡◌, refl, sym, ap, ◌∙◌}
pub use mathlib.Core.Logic.{◌≢◌, ◌↔◌, ◌⊎◌, inl, inr}
pub use mathlib.Core.Bool.{Bool, true, false, not, ◌&&◌, ◌||◌}
pub use mathlib.Core.Option.{Option, none, some}
pub use mathlib.Core.List.{List, [], ◌∷◌, ◌++◌, map}
pub use native.Mathlib.Omega.{arith}

-- A text that the code only stores and compares: an id, a token or its hash, an email, a URI.
abbrev pub Key : Type 0
Key = ℕ

-- Milliseconds since the epoch, `Date.now()`.
abbrev pub Time : Type 0
Time = ℕ
