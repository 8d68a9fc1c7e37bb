-- ===== src/Clib/Numbers.antt =====
-- `%d` and `strtoul` against each other.
use espshell.Prelude.{
  ℕ, zero, suc, ◌+◌, ◌-◌, ◌*◌, ◌/◌, ◌%◌, ◌^◌, ◌≤◌, ◌<◌, ◌≡◌, refl, ap, ◌∙◌, true, false, List, [],
  ◌∷◌, ltb, leb, ◌==◌, ◌&&◌, length, All, Bool-cases, inl, inr, arith,
}
use espshell.Clib.{
  print_digits, print_int, read_digits, read_signed, strtoul, is_space, signed_number, strtol,
  skip_spaces, number_after_sign, atoi,
}

-- A printing character behind the quote.
abbrev pub IsPlain : ℕ → Type 0
IsPlain c = (35 ≤ c) × (c ≤ 126)

abbrev pub IsDigit : ℕ → Type 0
IsDigit c = (48 ≤ c) × (c ≤ 57)

print_digits-IsDigit :
    (fuel n : ℕ) (behind : List ℕ) → All IsDigit behind → All IsDigit (print_digits fuel n behind)
unfolding print_digits
print_digits-IsDigit zero n behind a = a
print_digits-IsDigit (suc fuel) n behind a =
    let more : All IsDigit ((b'0' + n % 10) ∷ behind) = ((omega arith, omega arith), a) in
    elim (Bool-cases (ltb n 10)) [
      | inl last ↦ rw last more
      | inr rest ↦ rw rest (print_digits-IsDigit fuel (n / 10) ((b'0' + n % 10) ∷ behind) more)
    ]

print_digits-length :
    (fuel n : ℕ) (behind : List ℕ) → length behind ≤ length (print_digits fuel n behind)
unfolding print_digits
print_digits-length zero n behind = omega arith
print_digits-length (suc fuel) n behind = elim (Bool-cases (ltb n 10)) [
  | inl last ↦ rw last (omega arith)
  | inr rest ↦ rw rest (omega (arith, print_digits-length fuel (n / 10) ((b'0' + n % 10) ∷ behind)))
]

pub print_int-IsDigit : (n : ℕ) → All IsDigit (print_int n)
print_int-IsDigit n = print_digits-IsDigit (suc n) n [] tt

pub print_int-nonempty : (n : ℕ) → 0 < length (print_int n)
unfolding print_digits
print_int-nonempty n = elim (Bool-cases (ltb n 10)) [
  | inl last ↦ rw last (omega arith)
  | inr rest ↦ rw rest (omega (arith, print_digits-length n (n / 10) ((b'0' + n % 10) ∷ [])))
]

read_digit :
    (d : ℕ) (behind : List ℕ) (acc : ℕ)
    → d < 10
    → read_digits ((b'0' + d) ∷ behind) acc ≡ read_digits behind (acc * 10 + d)
unfolding read_digits
read_digit d behind acc h =
    let digit : (leb b'0' (b'0' + d) && leb (b'0' + d) b'9') ≡ true = ground arith in
    rw digit (ap (λ k. read_digits behind (acc * 10 + k)) (omega arith))

read-print :
    (fuel n : ℕ) (behind : List ℕ)
    → n < fuel
    → read_digits (print_digits fuel n behind) 0 ≡ read_digits behind n
unfolding print_digits
read-print zero n behind h = absurd (omega arith)
read-print (suc fuel) n behind h = elim (Bool-cases (ltb n 10)) [
  | inl last ↦
      rw last (read_digit (n % 10) behind 0 (omega arith) ∙ ap (read_digits behind) (ground arith))
  | inr rest ↦ rw rest (
      read-print fuel (n / 10) ((b'0' + n % 10) ∷ behind) (ground arith)
      ∙ (read_digit (n % 10) behind (n / 10) (omega arith) ∙ ap (read_digits behind) (omega arith)))
]

strtoul_digits :
    (s : List ℕ)
    → All IsDigit s
    → 0 < length s
    → read_digits s 0 < 2 ^ 32
    → strtoul s ≡ read_digits s 0
unfolding strtoul read_signed
strtoul_digits [] a h small = absurd (omega arith)
strtoul_digits (c ∷ s) (digit, a) h small =
    let solid : is_space c ≡ false = ground arith in
    let unsigned : (c == b'-') ≡ false = ground arith in
    let plain : (c == b'+') ≡ false = ground arith in
    let fits : ltb (2 ^ 32 - 1) (read_digits (c ∷ s) 0) ≡ false = ground arith in
    rw (solid, unsigned, plain, fits) refl

pub strtoul-print_int : (n : ℕ) → n < 2 ^ 32 → strtoul (print_int n) ≡ n
strtoul-print_int n h =
    let back : read_digits (print_int n) 0 ≡ n =
      read-print (suc n) n [] (omega arith) ∙ unfold read_digits in refl in
    strtoul_digits (print_int n) (print_int-IsDigit n) (print_int-nonempty n) (omega arith) ∙ back

print_digits-fits :
    (k fuel n : ℕ) (behind : List ℕ)
    → n < 10 ^ suc k
    → length (print_digits fuel n behind) ≤ suc k + length behind
unfolding print_digits
print_digits-fits k zero n behind h = omega arith
print_digits-fits zero (suc fuel) n behind h =
    let last : ltb n 10 ≡ true = ground arith in rw last (omega arith)
print_digits-fits (suc k) (suc fuel) n behind h = elim (Bool-cases (ltb n 10)) [
  | inl last ↦ rw last (omega arith)
  | inr rest ↦
      rw rest
        (omega (arith, print_digits-fits k fuel (n / 10) ((b'0' + n % 10) ∷ behind) (omega arith)))
]

pub print_int-fits : (n : ℕ) → n < 2 ^ 32 → length (print_int n) ≤ 10
print_int-fits n h = omega (arith, print_digits-fits 9 (suc n) n [] (omega arith))

signed_digits :
    (s start : List ℕ)
    → All IsDigit s
    → 0 < length s
    → read_digits s 0 < 2 ^ 31
    → (signed_number start false s).0 ≡ read_digits s 0
unfolding signed_number
signed_digits [] start a h small = absurd (omega arith)
signed_digits (c ∷ s) start (digit, a) h small =
    let is : (leb b'0' c && leb c b'9') ≡ true = ground arith in ground arith

strtol_digits : (s : List ℕ) → All IsDigit s → 0 < length s → strtol s ≡ signed_number s false s
unfolding strtol skip_spaces number_after_sign
strtol_digits [] a h = absurd (omega arith)
strtol_digits (c ∷ s) (digit, a) h =
    let solid : is_space c ≡ false = ground arith in
    let unsigned : (c == b'-') ≡ false = ground arith in
    let plain : (c == b'+') ≡ false = ground arith in rw (solid, unsigned, plain) refl

pub atoi-print_int : (n : ℕ) → n < 2 ^ 31 → atoi (print_int n) ≡ n
unfolding atoi
atoi-print_int n h =
    let digits = print_int-IsDigit n in
    let some_digits = print_int-nonempty n in
    let back : read_digits (print_int n) 0 ≡ n =
      read-print (suc n) n [] (omega arith) ∙ unfold read_digits in refl in
    ap (λ r. r.0) (strtol_digits (print_int n) digits some_digits)
    ∙ (signed_digits (print_int n) (print_int n) digits some_digits (omega arith) ∙ back)
