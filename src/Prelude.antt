-- ===== src/Prelude.antt =====
-- Names that every module shares: the libraries' names, passed on, and the helpers of the children.
mod Tests
mod Lists
mod Ints
mod Strings
pub use Tests.*
pub use Lists.*
pub use Ints.*
unfoldable pub use Strings.{bytes_eq}
pub use Strings.{bytes_eq_refl, bytes_eq_sound, bytes_eq_iff}
pub use Prim.Native.Nat.{ℕ, zero, suc, ◌+◌, ◌-◌, ◌*◌, ◌/◌, ◌%◌, ◌^◌, ◌≤◌, ◌<◌, min}
pub use mathlib.Core.Path.{◌≡◌, refl, sym, ap, ap₂, ◌∙◌, subst, fun_ext}
pub use mathlib.Core.Logic.{◌≢◌, ◌↔◌, ◌⊎◌, inl, inr}
pub use mathlib.Core.Bool.{Bool, true, false, not, ◌&&◌, ◌||◌}
pub use mathlib.Core.Option.{Option, none, some}
pub use mathlib.Core.List.{List, [], ◌∷◌, ◌++◌, map, append_assoc, append-nil}
pub use native.Mathlib.Omega.{arith}
