-- ===== src/Cmd/Tokenizer/Plain.antt =====
-- The words of a line of plain words with a space between them.
use espshell.Prelude.{
  ℕ, suc, zero, ◌≡◌, refl, ap, ◌∙◌, false, List, [], ◌∷◌, ◌++◌, ◌==◌, All, arith,
}
use espshell.Clib.{is_space}
use espshell.Clib.Numbers.{IsPlain}
use espshell.Cmd.Tokenizer.{quote}
use espshell.Cmd.Tokenizer.Words.{drop_space, span_word, first_word, behind, words_from}
use espshell.Cmd.Tokenizer.Texts.{words_step}

span_plain : (g s : List ℕ) → All IsPlain g → span_word (g ++ (b' ' ∷ s)) ≡ (g, b' ' ∷ s)
unfolding span_word
span_plain [] s a = refl
span_plain (c ∷ g) s (h, a) =
    let solid : is_space c ≡ false = ground arith in rw (solid, span_plain g s a) refl

span_last : (g : List ℕ) → All IsPlain g → span_word g ≡ (g, [])
unfolding span_word
span_last [] a = refl
span_last (c ∷ g) (h, a) =
    let solid : is_space c ≡ false = ground arith in rw (solid, span_last g a) refl

plain_start : (c : ℕ) (t : List ℕ) → IsPlain c → drop_space (c ∷ t) ≡ c ∷ t
unfolding drop_space
plain_start c t h = let solid : is_space c ≡ false = ground arith in rw solid refl

plain_first : (c : ℕ) (t : List ℕ) → IsPlain c → first_word c t ≡ span_word (c ∷ t)
unfolding first_word
plain_first c t h = let bare : (c == quote) ≡ false = ground arith in rw bare refl

-- A plain word and a space.
pub words_plain :
    (room c : ℕ) (g s : List ℕ)
    → All IsPlain (c ∷ g)
    → words_from (suc room) ((c ∷ g) ++ (b' ' ∷ s)) ≡ (c ∷ g) ∷ words_from room s
words_plain room c g s (h, a) =
    let t = g ++ (b' ' ∷ s) in
    let first : first_word c t ≡ (c ∷ g, b' ' ∷ s) =
      plain_first c t h ∙ span_plain (c ∷ g) s (h, a) in
    words_step room (c ∷ t) c t (plain_start c t h)
    ∙ ap (λ r. r.0 ∷ words_from room (behind r.1)) first

words_none : (room : ℕ) → words_from room [] ≡ []
unfolding words_from drop_space
words_none zero = refl
words_none (suc room) = refl

-- The last word.
pub words_last :
    (room c : ℕ) (g : List ℕ) → All IsPlain (c ∷ g) → words_from (suc room) (c ∷ g) ≡ (c ∷ g) ∷ []
words_last room c g (h, a) =
    let first : first_word c g ≡ (c ∷ g, []) = plain_first c g h ∙ span_last (c ∷ g) (h, a) in
    words_step room (c ∷ g) c g (plain_start c g h)
    ∙ (ap (λ r. r.0 ∷ words_from room (behind r.1)) first
        ∙ ap (λ ws. (c ∷ g) ∷ ws) (words_none room))
