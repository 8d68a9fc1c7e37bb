-- ===== src/Cmd/Tokenizer/Texts.antt =====
-- What the words of a text are, and one round of the outer loop of `tokenize` in
-- components/core/src/cmd.c.
use espshell.Prelude.{
  ℕ, suc, ◌≡◌, refl, Bool, true, false, List, [], ◌∷◌, ◌≢◌, ◌++◌, ◌==◌, if◌then◌else◌, arith,
}
use espshell.Clib.{is_space}
use espshell.Cmd.Tokenizer.{
  until_zero, quote, at, skip_space, read_argument, argument_start, tokenize_loop,
}
use espshell.Cmd.Tokenizer.Words.{
  drop_space, span_word, span_quoted, first_word, behind, words_from,
}
use espshell.Cmd.Tokenizer.InPlace.{IsText}

pub until_zero_lem : (s y : List ℕ) → IsText s → at y 0 ≡ 0 → until_zero (s ++ y) ≡ s
unfolding until_zero
until_zero_lem [] [] t h = refl
until_zero_lem [] (c ∷ y) t h = ground arith
until_zero_lem (c ∷ s) y (pos, t) h = ground (arith, until_zero_lem s y t h)

if_ind {ℓ κ} :
    {A : Type ℓ} (P : A → Type κ) (b : Bool) (x y : A) → P x → P y → P (if b then x else y)
if_ind P true x y px py = px
if_ind P false x y px py = py

abbrev IsTexts : List ℕ × List ℕ → Type 0
IsTexts r = IsText r.0 × IsText r.1

IsText-word : (s : List ℕ) → IsText s → IsTexts (span_word s)
unfolding span_word
IsText-word [] t = (tt, tt)
IsText-word (c ∷ s) (pos, t) =
    let (word, rest) = IsText-word s t in
    if_ind IsTexts (is_space c) _ _ (tt, (pos, t)) ((pos, word), rest)

IsText-quoted : (s : List ℕ) → IsText s → IsTexts (span_quoted s)
unfolding span_quoted
IsText-quoted [] t = (tt, tt)
IsText-quoted (c ∷ []) (pos, t) = if_ind IsTexts (c == quote) _ _ (tt, (pos, tt)) ((pos, tt), tt)
IsText-quoted (c ∷ d ∷ s) (pos, (posd, t)) =
    let (after, rest) = IsText-quoted s t in
    let (text, end) = IsText-quoted (d ∷ s) (posd, t) in
    if_ind IsTexts (c == quote) _ _ (tt, (pos, (posd, t)))
      (if_ind IsTexts _ _ _ ((posd, after), rest) ((pos, text), end))

pub IsText-first : (c : ℕ) (t : List ℕ) → IsText (c ∷ t) → IsTexts (first_word c t)
unfolding first_word
IsText-first c t (pos, h) =
    if_ind IsTexts (c == quote) _ _ (IsText-quoted t h) (IsText-word (c ∷ t) (pos, h))

pub IsText-behind : (s : List ℕ) → IsText s → IsText (behind s)
IsText-behind [] t = tt
IsText-behind (c ∷ s) (pos, t) = t

pub loop_end :
    (fuel room : ℕ) (line : List ℕ) (p : ℕ)
    → at line (skip_space fuel line p) ≡ 0
    → tokenize_loop fuel (suc room) line p ≡ ([], line)
unfolding tokenize_loop
loop_end fuel room line p h = ground arith

pub loop_step :
    (fuel room : ℕ) (line : List ℕ) (p : ℕ)
    → at line p ≢ 0
    → at line (skip_space fuel line p) ≢ 0
    → tokenize_loop fuel (suc room) line p ≡ (
      argument_start line (skip_space fuel line p)
          ∷ (tokenize_loop fuel room
              (read_argument fuel line (skip_space fuel line p)).0
              (read_argument fuel line (skip_space fuel line p)).1).0,
      (tokenize_loop fuel room
          (read_argument fuel line (skip_space fuel line p)).0
          (read_argument fuel line (skip_space fuel line p)).1).1,
    )
unfolding tokenize_loop
loop_step fuel room line p h k = ground arith

pub words_end : (room : ℕ) (s : List ℕ) → drop_space s ≡ [] → words_from (suc room) s ≡ []
unfolding words_from
words_end room s e = rw (words_from, e)

pub words_step :
    (room : ℕ) (s : List ℕ) (c : ℕ) (t : List ℕ)
    → drop_space s ≡ c ∷ t
    → words_from (suc room) s ≡ (first_word c t).0 ∷ words_from room (behind (first_word c t).1)
unfolding words_from
words_step room s c t e = rw (words_from, e)
