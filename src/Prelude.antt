-- ===== src/Prelude.antt =====
-- Names that every module shares: the libraries' own, passed on, and those of the children.
mod Tests
mod Lists
mod Texts
pub mod Maps
pub mod TextMap
pub mod Integers
pub mod Uri
pub use Tests.*
pub use Lists.*
unfoldable pub use Texts.{
  text_eq, lower, starts_with, ends_with, strip_dots, has_code, trim, lower_char, split_lines,
}
pub use Texts.{
  Text, codes, text_eq_iff, text_eq_refl, text_eq_swap, starts_with-append, starts_with_iff,
  ends_with_iff, lower_idem, is_space, trim_of_no_space, All-trim, cons_line, lower_of_fixed,
  strip_dots_idem,
}
pub use Prim.Native.Nat.{ℕ, zero, suc, ◌+◌, ◌-◌, ◌*◌, ◌/◌, ◌%◌, ◌^◌, ◌≤◌, ◌<◌, min, max}
pub use Prim.Native.String.{String}
pub use mathlib.Core.Path.{◌≡◌, refl, sym, ap, ◌∙◌, subst, ◌≡⟨◌⟩◌, ◌∎}
pub use mathlib.Core.Logic.{◌≢◌, ◌↔◌, ◌⊎◌, inl, inr}
pub use mathlib.Core.Bool.{Bool, true, false, not, ◌&&◌, ◌||◌}
pub use mathlib.Core.Option.{Option, none, some}
pub use mathlib.Core.List.{List, [], ◌∷◌, ◌++◌, map, append_assoc, append-nil}
pub use native.Mathlib.Omega.{arith}
