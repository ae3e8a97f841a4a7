-- ===== src/Base.antt =====
-- Shared names: the libraries' ones passed on, Boolean tests, texts as bytes, the results and the
-- state monad in which the services are written, hash sets and hash maps.
mod Tests
pub mod Utf8
pub mod Outcome
pub mod HashSet
pub mod HashMap
pub mod Reads
pub mod Str
pub mod Bytes
pub mod Collect
pub use Tests.*
pub use Utf8.{Text, utf8, ==_iff, ==_refl, text_cases}
unfoldable pub use Utf8.{◌==◌, starts_with}
pub use Outcome.{Result, ok, err, Action, ◌>>◌, is_ok, Result-cases}
unfoldable pub use Outcome.{pure, raise, ◌>>=◌, map_err, lift, ensure}
pub use Prim.Native.Nat.{ℕ, zero, suc, ◌+◌, ◌-◌, ◌*◌, ◌/◌, ◌%◌, ◌^◌, ◌≤◌, ◌<◌}
pub use mathlib.Core.Path.{◌≡◌, refl, sym, ap, ◌∙◌, subst}
pub use mathlib.Core.Logic.{◌≢◌, ◌↔◌, ◌⊎◌, inl, inr}
pub use mathlib.Core.Bool.{Bool, true, false, ◌&&◌, ◌||◌, not}
pub use mathlib.Core.Option.{Option, none, some}
pub use mathlib.Core.List.{List, [], ◌∷◌, ◌++◌, map, foldl}
pub use native.Mathlib.Omega.{arith}
