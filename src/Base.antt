-- ===== src/Base.antt =====
-- The names that the other modules share: those of the libraries and of the children below.
pub mod Tests
pub mod Lists
pub mod Words
pub mod Memory
pub use Tests.*
pub use Lists.*
pub use Words.*
pub use Memory.{bytes16, overwrite}
unfoldable pub use Memory.{cstr, strlen, strncpy}
pub use Prim.Native.Nat.{ℕ, zero, suc, ◌+◌, ◌-◌, ◌*◌, ◌/◌, ◌%◌, ◌^◌, ◌≤◌, ◌<◌, min}
pub use mathlib.Core.Path.{◌≡◌, refl, sym, ap, ap₂, ◌∙◌, subst, fun_ext}
pub use mathlib.Core.Logic.{◌≢◌, ◌↔◌, ◌⊎◌, inl, inr}
pub use mathlib.Core.Bool.{Bool, true, false, not, ◌&&◌, ◌||◌}
pub use mathlib.Core.Option.{Option, none, some}
pub use mathlib.Core.List.{List, [], ◌∷◌, ◌++◌, map, append_assoc, append-nil}
pub use native.Mathlib.Omega.{arith}
