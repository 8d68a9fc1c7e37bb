-- ===== src/Prelude/Bytes.antt =====
-- Bytes: a predicate on lists, tables over a small range, and `|` of parts with no bit in common.
use Prim.Native.Char.{code}
use Prim.Native.String.{String}
use Prim.Native.Nat.{
  ℕ, zero, suc, ◌+◌, ◌*◌, ◌/◌, ◌%◌, ◌^◌, ◌≤◌, ◌<◌, max, bit_or, digits, bit_or-bitwise,
}
use mathlib.Core.Path.{◌≡◌, refl, ap}
use mathlib.Core.Bool.{Bool, true, ◌&&◌}
use mathlib.Core.List.{List, [], ◌∷◌, ◌++◌}
use native.Mathlib.Nat.{pow-suc}
use native.Mathlib.Omega.{arith}

abbrev pub IsByte : ℕ → Type 0
IsByte b = b < 256

abbrev pub All {ℓ κ} : {A : Type ℓ} → (A → Type κ) → List A → Type κ
All P [] = Unit
All P (x ∷ xs) = P x × All P xs

pub All-append {ℓ κ} :
    {A : Type ℓ} (P : A → Type κ) (xs ys : List A) → All P xs → All P ys → All P (xs ++ ys)
All-append P [] ys p q = q
All-append P (x ∷ xs) ys (px, p) q = (px, All-append P xs ys p q)

pub All-imp {ℓ κ μ} :
    {A : Type ℓ} (P : A → Type κ) (Q : A → Type μ) (xs : List A)
    → ((x : A) → P x → Q x)
    → All P xs
    → All Q xs
All-imp P Q [] f p = tt
All-imp P Q (x ∷ xs) f (px, p) = (f x px, All-imp P Q xs f p)

-- The bytes of an ASCII literal.
abbrev pub codes : String → List ℕ
codes String.[] = []
codes (String.◌∷◌ c s) = code c ∷ codes s

unfoldable pub all_below : ℕ → (ℕ → Bool) → Bool
all_below zero p = true
all_below (suc n) p = p n && all_below n p

pub all_below_sound : (n : ℕ) (p : ℕ → Bool) → all_below n p ≡ true → (x : ℕ) → x < n → p x ≡ true
unfolding all_below
all_below_sound zero p h x lt = absurd (omega arith)
all_below_sound (suc n) p h x lt = ground (arith, all_below_sound n p (ground arith) x)

-- The library's recursion on binary digits does not depend on its fuel, once that is enough.
or_fuel : (n m x y : ℕ) → x ≤ n → x ≤ m → digits (λ k. k) max n x y ≡ digits (λ k. k) max m x y
or_fuel n m zero y p q = or_none n m y
  where
    or_none : (n m y : ℕ) → digits (λ k. k) max n zero y ≡ digits (λ k. k) max m zero y
    or_none zero zero y = refl
    or_none zero (suc m) y = refl
    or_none (suc n) zero y = refl
    or_none (suc n) (suc m) y = refl
or_fuel zero m (suc x) y p q = absurd (omega arith)
or_fuel (suc n) zero (suc x) y p q = absurd (omega arith)
or_fuel (suc n) (suc m) (suc x) y p q =
    omega (arith, or_fuel n m (suc x / 2) (y / 2) (omega arith) (omega arith))

bit_or-halves : (x y : ℕ) → bit_or x y ≡ bit_or (x / 2) (y / 2) * 2 + max (x % 2) (y % 2)
bit_or-halves zero y = omega (arith, bit_or-bitwise zero y, bit_or-bitwise (zero / 2) (y / 2))
bit_or-halves (suc x) y = omega (
  arith,
  bit_or-bitwise (suc x) y,
  bit_or-bitwise (suc x / 2) (y / 2),
  or_fuel x (suc x / 2) (suc x / 2) (y / 2) (omega arith) (omega arith),
)

or_zero_below : (n x : ℕ) → x ≤ n → bit_or x 0 ≡ x
or_zero_below n zero h = refl
or_zero_below zero (suc x) h = absurd (omega arith)
or_zero_below (suc n) (suc x) h =
    omega (arith, bit_or-halves (suc x) 0, or_zero_below n (suc x / 2) (omega arith))

-- `(x << 4) | b` and `(x << 8) | b` are sums when `b` fits under the shift.
or_shift_one :
    (x b s : ℕ) → bit_or (x * s) (b / 2) ≡ x * s + b / 2 → bit_or (x * s * 2) b ≡ x * s * 2 + b
or_shift_one x b s h =
    omega (arith, bit_or-halves (x * s * 2) b, ap (λ (t : ℕ). bit_or t (b / 2)) half, h)
  where
    half : x * s * 2 / 2 ≡ x * s
    half = omega arith

pub bit_or_low : (k x b : ℕ) → b < 2 ^ k → bit_or (x * 2 ^ k) b ≡ x * 2 ^ k + b
bit_or_low zero x b h =
    let none_left : b ≡ 0 = omega arith in
    rw none_left (omega (arith, or_zero_below (x * 1) (x * 1) (omega arith)))
bit_or_low (suc k) x b h =
    let double : x * 2 ^ suc k ≡ x * 2 ^ k * 2 =
      omega (arith, ap (λ (t : ℕ). x * t) (pow-suc 2 k)) in
    rw double (or_shift_one x b (2 ^ k) (bit_or_low k x (b / 2) (omega (arith, pow-suc 2 k))))
