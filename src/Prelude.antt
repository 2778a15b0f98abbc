-- ===== src/Prelude.antt =====
-- The names that the other modules share: the library's, passed on, Boolean tests, results, and
-- those of the children on lists, texts, dictionaries and sorted sets of texts.
mod Tests
mod Lists
mod Texts
mod Result
pub mod Dict
pub mod Sorted
pub mod Groups
pub mod Iso
pub use Tests.*
pub use Lists.*
pub use Texts.{
  Text, codes, empty_text, is_empty, or_text, eq_iff, eq_refl, eq-false, eq_sym, all_text,
  some_text,
}
unfoldable pub use Texts.{◌==◌, decimal}
pub use Result.*
pub use Prim.Native.Nat.{ℕ, zero, suc, ◌+◌, ◌-◌, ◌*◌, ◌/◌, ◌%◌, ◌≤◌, ◌<◌}
pub use mathlib.Core.Path.{◌≡◌, refl, sym, ap, fun_ext, ◌∙◌}
pub use mathlib.Core.Logic.{◌≢◌, ◌↔◌, ◌⊎◌, inl, inr}
pub use mathlib.Core.Bool.{Bool, true, false, not, ◌&&◌, ◌||◌}
pub use mathlib.Core.Option.{Option, none, some}
pub use mathlib.Core.List.{List, [], ◌∷◌, ◌++◌, map, append-nil, append_assoc}
pub use native.Mathlib.Omega.{arith}
