-- ===== src/Prelude/Equal.antt =====
-- `strcmp(a, b) == 0` on strings and `memcmp(a, b, n) == 0` on buffers of one length.
use Prim.Native.Nat.{ℕ}
use mathlib.Core.Path.{◌≡◌, refl, ap, sym, ◌∙◌}
use mathlib.Core.Logic.{◌↔◌, inl, inr}
use mathlib.Core.Bool.{Bool, true, false, ◌&&◌}
use mathlib.Core.List.{List, [], ◌∷◌}
use native.Mathlib.Omega.{arith}
use espshell.Prelude.Tests.{◌==◌, Bool-cases}

unfoldable pub bytes_eq : List ℕ → List ℕ → Bool
bytes_eq [] [] = true
bytes_eq (x ∷ xs) (y ∷ ys) = x == y && bytes_eq xs ys
bytes_eq _ _ = false

pub bytes_eq_refl : (xs : List ℕ) → bytes_eq xs xs ≡ true
unfolding bytes_eq
bytes_eq_refl [] = refl
bytes_eq_refl (x ∷ xs) = ground (arith, bytes_eq_refl xs)

pub bytes_eq→eq : (xs ys : List ℕ) → bytes_eq xs ys ≡ true → xs ≡ ys
unfolding bytes_eq
bytes_eq→eq [] [] e = refl
bytes_eq→eq [] (y ∷ ys) e = cc
bytes_eq→eq (x ∷ xs) [] e = cc
bytes_eq→eq (x ∷ xs) (y ∷ ys) e = ground (arith, bytes_eq→eq xs ys)

pub bytes_eq_iff : (xs ys : List ℕ) → (bytes_eq xs ys ≡ true) ↔ (xs ≡ ys)
bytes_eq_iff xs ys = (bytes_eq→eq xs ys, λ e. ground (arith, bytes_eq_refl xs))

pub bytes_eq_flip :
    (x e other : List ℕ) → bytes_eq x other ≡ true → bytes_eq x e ≡ false → bytes_eq e other ≡ false
bytes_eq_flip x e other found different = elim (Bool-cases (bytes_eq e other)) [
  | inl named ↦
      let same : x ≡ e = bytes_eq→eq x other found ∙ sym (bytes_eq→eq e other named) in
      absurd (cc (ap (bytes_eq x) same, bytes_eq_refl x))
  | inr other ↦ other
]
