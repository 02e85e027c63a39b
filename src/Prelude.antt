-- ===== src/Prelude.antt =====
-- The names that the modules of the library share: the libraries', passed on, and those of the
-- children.
mod Tests
mod Lists
mod Slices
mod Strings
mod Int
mod Filepath
mod Sort
mod Unique
mod Selections
pub use Tests.*
pub use Lists.*
pub use Slices.*
pub use Int.*
pub use Sort.*
pub use Unique.*
pub use Selections.*
pub use Strings.{
  Bytes, codes, bytes_eq_refl, bytes_eq_iff, bytes_eq_sym, bytes_eq-append, has_prefix-append,
  prefix-append-drop,
}
unfoldable pub use Strings.{bytes_eq, has_prefix}
unfoldable pub use Filepath.{trim_prefix, trim_right, after_last, base, ext, trim_slash}
pub use Prim.Native.Nat.{ℕ, zero, suc, ◌+◌, ◌-◌, ◌*◌, ◌/◌, ◌%◌, ◌^◌, ◌≤◌, ◌<◌, min, max}
pub use mathlib.Core.Path.{◌≡◌, refl, sym, ap, subst, ◌∙◌}
pub use mathlib.Core.Logic.{◌≢◌, ◌↔◌, ◌⊎◌, inl, inr}
pub use mathlib.Core.Bool.{Bool, true, false, ◌&&◌, ◌||◌, not}
pub use mathlib.Core.Option.{Option, none, some}
pub use mathlib.Core.List.{List, [], ◌∷◌, ◌++◌, map, append_assoc, append-nil}
pub use native.Mathlib.Omega.{arith}
