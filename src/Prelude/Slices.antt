-- ===== src/Prelude/Slices.antt =====
-- Parts of a list.
use Prim.Native.Nat.{ℕ, zero, suc, ◌+◌, ◌≤◌}
use mathlib.Core.Path.{◌≡◌, refl, ap}
use mathlib.Core.List.{List, [], ◌∷◌, ◌++◌}
use native.Mathlib.Omega.{arith}
use espshell.Prelude.Lists.{length, take, drop, get_or, set}

module _ {ℓ} {A : Type ℓ} where
  pub take_all : (n : ℕ) (xs : List A) → length xs ≤ n → take n xs ≡ xs
  take_all zero [] h = refl
  take_all zero (x ∷ xs) h = absurd (omega arith)
  take_all (suc n) [] h = refl
  take_all (suc n) (x ∷ xs) h = ap (λ t. x ∷ t) (take_all n xs (omega arith))

  pub drop_all : (n : ℕ) (xs : List A) → length xs ≤ n → drop n xs ≡ []
  drop_all zero [] h = refl
  drop_all zero (x ∷ xs) h = absurd (omega arith)
  drop_all (suc n) [] h = refl
  drop_all (suc n) (x ∷ xs) h = drop_all n xs (omega arith)

  pub take-append : (xs ys : List A) → take (length xs) (xs ++ ys) ≡ xs
  take-append [] ys = refl
  take-append (x ∷ xs) ys = ap (λ t. x ∷ t) (take-append xs ys)

  pub drop-append : (xs ys : List A) → drop (length xs) (xs ++ ys) ≡ ys
  drop-append [] ys = refl
  drop-append (x ∷ xs) ys = drop-append xs ys

  pub take-append_of_eq : (n : ℕ) (xs ys : List A) → length xs ≡ n → take n (xs ++ ys) ≡ xs
  take-append_of_eq n xs ys e = rw (← e) (take-append xs ys)

  pub drop-append_of_eq : (n : ℕ) (xs ys : List A) → length xs ≡ n → drop n (xs ++ ys) ≡ ys
  drop-append_of_eq n xs ys e = rw (← e) (drop-append xs ys)

  pub get_or-append_right :
      (xs ys : List A) (p k : ℕ) (d : A) → p ≡ length xs + k → get_or (xs ++ ys) p d ≡ get_or ys k d
  get_or-append_right [] ys p k d e = ap (λ i. get_or ys i d) (omega arith)
  get_or-append_right (x ∷ xs) ys zero k d e = absurd (omega arith)
  get_or-append_right (x ∷ xs) ys (suc p) k d e = get_or-append_right xs ys p k d (omega arith)

  pub get_or-drop : (xs : List A) (p k : ℕ) (d : A) → get_or (drop p xs) k d ≡ get_or xs (p + k) d
  get_or-drop [] zero k d = refl
  get_or-drop [] (suc p) k d = refl
  get_or-drop (x ∷ xs) zero k d = ap (λ i. get_or (x ∷ xs) i d) (omega arith)
  get_or-drop (x ∷ xs) (suc p) k d =
      let step : suc p + k ≡ suc (p + k) = omega arith in rw step (get_or-drop xs p k d)

  pub drop-drop : (m n : ℕ) (xs : List A) → drop m (drop n xs) ≡ drop (n + m) xs
  drop-drop m zero xs = ap (λ i. drop i xs) (omega arith)
  drop-drop m (suc n) [] =
      let step : suc n + m ≡ suc (n + m) = omega arith in rw (step, drop_all m [] (omega arith))
  drop-drop m (suc n) (x ∷ xs) =
      let step : suc n + m ≡ suc (n + m) = omega arith in rw step (drop-drop m n xs)

  -- A write at the end of a prefix.
  pub set-append :
      (xs : List A) (y : A) (ys : List A) (v : A)
      → set (xs ++ (y ∷ ys)) (length xs) v ≡ xs ++ (v ∷ ys)
  set-append [] y ys v = refl
  set-append (x ∷ xs) y ys v = ap (λ t. x ∷ t) (set-append xs y ys v)
