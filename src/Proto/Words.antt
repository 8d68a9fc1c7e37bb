-- ===== src/Proto/Words.antt =====
-- Big-endian words: what `be16`, `be64`, `rd16` and `rd64` of the two proto.c files do.
use espshell.Prelude.{
  ℕ, zero, suc, ◌+◌, ◌*◌, ◌/◌, ◌%◌, ◌^◌, ◌<◌, ◌≡◌, refl, ap, ◌∙◌, arith, List, [], ◌∷◌, ◌++◌,
  length, bit_or_low, IsByte, All,
}
use native.Mathlib.Nat.{zero-add}
use espshell.Proto.{be16, rd16, be_loop, be64, rd_loop, rd64}

-- What is left of a word when its last `k` bytes are shifted out.
abbrev top : ℕ → ℕ → ℕ
top zero w = w
top (suc k) w = top k (w / 2 ^ 8)

pub rd16-be16 : (v : ℕ) (rest : List ℕ) → v < 2 ^ 16 → rd16 (be16 v ++ rest) ≡ v
unfolding rd16 be16
rd16-be16 v rest h = omega (arith, bit_or_low 8 ((v / 2 ^ 8) % 2 ^ 8) (v % 2 ^ 8) (omega arith))

-- One round puts a word's last byte behind the rest of it.
rd_loop_word :
    (n w : ℕ) (p : List ℕ)
    → w < 2 ^ 64
    → rd_loop (suc n) (w / 2 ^ 8) (w % 2 ^ 8 ∷ p) ≡ rd_loop n w p
unfolding rd_loop
rd_loop_word n w p h =
    let wide : w / 2 ^ 8 * 2 ^ 8 % 2 ^ 64 ≡ w / 2 ^ 8 * 2 ^ 8 = omega arith in
    ap (λ t. rd_loop n t p)
      (rw (wide, bit_or_low 8 (w / 2 ^ 8) (w % 2 ^ 8) (omega arith)) (omega arith))

-- Reading what the loop of `be64` wrote, `k` bytes of it, goes on with the whole word.
rd_loop-be_loop :
    (k n w : ℕ) (p : List ℕ)
    → w < 2 ^ 64
    → rd_loop (k + n) (top k w) (be_loop k w p) ≡ rd_loop n w p
unfolding be_loop
rd_loop-be_loop zero n w p h = rw zero-add
rd_loop-be_loop (suc k) n w p h =
    let order : suc k + n ≡ k + suc n = omega arith in
    rw order
      (rd_loop-be_loop k (suc n) (w / 2 ^ 8) (w % 2 ^ 8 ∷ p) (omega arith) ∙ rd_loop_word n w p h)

pub length-be64 : (v : ℕ) → length (be64 v) ≡ 8
unfolding be64
length-be64 v = refl

pub be64-IsByte : (v : ℕ) → All IsByte (be64 v)
unfolding be64
be64-IsByte v = omega arith

be_loop-append : (k w : ℕ) (p rest : List ℕ) → be_loop k w p ++ rest ≡ be_loop k w (p ++ rest)
unfolding be_loop
be_loop-append zero w p rest = refl
be_loop-append (suc k) w p rest = be_loop-append k (w / 2 ^ 8) (w % 2 ^ 8 ∷ p) rest

rd_loop_done : (v : ℕ) (p : List ℕ) → rd_loop 0 v p ≡ v
unfolding rd_loop
rd_loop_done v p = refl

pub rd64-be64 : (v : ℕ) (rest : List ℕ) → v < 2 ^ 64 → rd64 (be64 v ++ rest) ≡ v
unfolding rd64 be64
rd64-be64 v rest h =
    let start : 0 ≡ top 8 v = omega arith in
    rw (be_loop-append 8 v [] rest) (
      ap (λ t. rd_loop 8 t (be_loop 8 v rest)) start
      ∙ rd_loop-be_loop 8 0 v rest h
      ∙ rd_loop_done v rest)
