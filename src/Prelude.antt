-- ===== src/Prelude.antt =====
-- The names that the other modules share: the libraries', passed on, and those of the children.
-- The children model what the program uses of Go itself (strings, maps, error values), with no
-- code of the repository in them.
mod Tests
mod Lists
mod Text
mod Errors
pub mod GoMap
pub use Tests.*
pub use Lists.*
pub use Text.{GoString, codes, has_prefix, eq_iff, eq_refl}
unfoldable pub use Text.{◌==◌, contains, valid_utf8}
pub use Errors.*
unfoldable pub use Errors.{◌>>=◌}
pub use Prim.Native.Nat.{ℕ, zero, suc, ◌+◌, ◌-◌, ◌*◌, ◌/◌, ◌%◌, ◌^◌, ◌≤◌, ◌<◌}
pub use mathlib.Core.Path.{◌≡◌, refl, sym, ap, ◌∙◌, subst, fun_ext}
pub use mathlib.Core.Logic.{◌≢◌, ◌↔◌, ◌⊎◌, inl, inr}
pub use mathlib.Core.Bool.{Bool, true, false, not, ◌&&◌, ◌||◌, false≢true}
pub use mathlib.Core.Option.{Option, none, some}
pub use mathlib.Core.List.{List, [], ◌∷◌, ◌++◌, map}
pub use native.Mathlib.Omega.{arith}
