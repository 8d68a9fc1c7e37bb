-- ===== src/Cmd/Tokenizer/InPlace.antt =====
-- `tokenize` of components/core/src/cmd.c, which writes over its input, against the words of the text.
use espshell.Prelude.{
  ℕ, zero, suc, ◌+◌, ◌≤◌, ◌<◌, ◌≡◌, refl, ap, sym, ◌∙◌, List, [], ◌∷◌, ◌++◌, length, All, arith,
  drop, get_or-drop, drop-drop, Bool-cases, inl, inr,
}
use espshell.Clib.{is_space}
use espshell.Cmd.Tokenizer.{at, skip_space, skip_word}
use espshell.Cmd.Tokenizer.Words.{drop_space, span_word}

-- A C string has no zero byte before its terminator.
abbrev pub IsText : List ℕ → Type 0
IsText s = All (λ c. 0 < c) s

-- The string `s` stands at `p`, and `junk` behind its terminator.
abbrev pub StandsAt : List ℕ → ℕ → List ℕ → List ℕ → Type 0
StandsAt line p s junk = drop p line ≡ s ++ (0 ∷ junk)

read_at : (line : List ℕ) (p k : ℕ) (s : List ℕ) → drop p line ≡ s → at line (p + k) ≡ at s k
read_at line p k s e = sym (get_or-drop line p k 0) ∙ ap (λ t. at t k) e

next_at :
    (line : List ℕ) (p c : ℕ) (s : List ℕ)
    → drop p line ≡ c ∷ s
    → (at line p ≡ c) × (drop (p + 1) line ≡ s)
next_at line p c s e =
    let here : p ≡ p + 0 = omega arith in
    (ap (at line) here ∙ read_at line p 0 (c ∷ s) e, sym (drop-drop 1 p line) ∙ ap (drop 1) e)

pub skip_space_lem :
    (fuel : ℕ) (line : List ℕ) (p : ℕ) (s junk : List ℕ)
    → IsText s
    → length s ≤ fuel
    → StandsAt line p s junk
    → (blank : List ℕ) × (s ≡ blank ++ drop_space s) × (skip_space fuel line p ≡ p + length blank)
unfolding skip_space drop_space
skip_space_lem zero line p [] junk t f e = ([], refl, omega arith)
skip_space_lem (suc fuel) line p [] junk t f e =
    let (zero_here, _) = next_at line p 0 junk e in ([], refl, ground arith)
skip_space_lem zero line p (c ∷ s) junk t f e = absurd (omega arith)
skip_space_lem (suc fuel) line p (c ∷ s) junk (pos, t) f e =
    let (here, next) = next_at line p c _ e in
    let (blank, split, skipped) = skip_space_lem fuel line (p + 1) s junk t (omega arith) next in
    elim (Bool-cases (is_space c)) [
      | inl space ↦ (c ∷ blank, ground arith, ground arith)
      | inr other ↦ ([], ground arith, ground arith)
    ]

pub skip_word_lem :
    (fuel : ℕ) (line : List ℕ) (p : ℕ) (s junk : List ℕ)
    → IsText s
    → length s ≤ fuel
    → StandsAt line p s junk
    → skip_word fuel line p ≡ p + length (span_word s).0
unfolding skip_word span_word
skip_word_lem zero line p [] junk t f e = omega arith
skip_word_lem (suc fuel) line p [] junk t f e =
    let (zero_here, _) = next_at line p 0 junk e in ground arith
skip_word_lem zero line p (c ∷ s) junk t f e = absurd (omega arith)
skip_word_lem (suc fuel) line p (c ∷ s) junk (pos, t) f e =
    let (here, next) = next_at line p c _ e in
    let skipped = skip_word_lem fuel line (p + 1) s junk t (omega arith) next in ground arith

pub span_word_split : (s : List ℕ) → s ≡ (span_word s).0 ++ (span_word s).1
unfolding span_word
span_word_split [] = refl
span_word_split (c ∷ s) = ground (arith, span_word_split s)
