-- ===== src/Prelude.antt =====
-- The names that the other modules share: the libraries', passed on, and those of the children.
mod Tests
mod Lists
mod Slices
mod Bytes
mod Chain
mod Equal
mod Digits
pub use Equal.{bytes_eq_refl, bytes_eq→eq, bytes_eq_iff, bytes_eq_flip}
unfoldable pub use Equal.{bytes_eq}
pub use Digits.{bit_xor-zero, bit_xor_self, bit_or-zero}
pub use Slices.*
pub use Chain.*
pub use Tests.*
pub use Lists.*
pub use Bytes.{IsByte, All, All-append, All-imp, codes, all_below_sound, bit_or_low}
unfoldable pub use Bytes.{all_below}
pub use Prim.Native.Nat.{
  ℕ, zero, suc, ◌+◌, ◌-◌, ◌*◌, ◌/◌, ◌%◌, ◌^◌, ◌≤◌, ◌<◌, bit_or, bit_and, bit_xor,
}
pub use mathlib.Core.Path.{◌≡◌, refl, sym, ap, ap₂, subst, ◌∙◌, ◌≡⟨◌⟩◌, ◌∎}
pub use mathlib.Core.Logic.{◌≢◌, ◌↔◌, ◌⊎◌, inl, inr}
pub use mathlib.Core.Bool.{Bool, true, false, not, ◌&&◌, ◌||◌}
pub use mathlib.Core.Option.{Option, none, some}
pub use mathlib.Core.List.{List, [], ◌∷◌, ◌++◌, map, append-nil, append_assoc}
pub use native.Mathlib.Omega.{arith}
