-- ===== src/Cmd/Tokenizer/Words.antt =====
-- The command-line syntax of components/core/include/cmd.h, on text: arguments are separated by white
-- space; one that starts with a quote goes on to the next quote, with \" and \\ for these two.
use espshell.Prelude.{ℕ, zero, suc, ◌&&◌, ◌||◌, List, [], ◌∷◌, ◌==◌, if◌then◌else◌}
use espshell.Clib.{is_space}
use espshell.Cmd.Tokenizer.{quote, backslash}

unfoldable pub drop_space : List ℕ → List ℕ
drop_space [] = []
drop_space (c ∷ s) = if is_space c then drop_space s else c ∷ s

-- A text, and what follows it from the byte that ends it.
unfoldable pub span_word : List ℕ → List ℕ × List ℕ
span_word [] = ([], [])
span_word (c ∷ s) =
    let (word, rest) = span_word s in if is_space c then ([], c ∷ s) else (c ∷ word, rest)

unfoldable pub span_quoted : List ℕ → List ℕ × List ℕ
span_quoted [] = ([], [])
span_quoted (c ∷ []) = if c == quote then ([], c ∷ []) else (c ∷ [], [])
span_quoted (c ∷ d ∷ s) =
    let (after, rest) = span_quoted s in
    let (text, end) = span_quoted (d ∷ s) in
    if c == quote
    then ([], c ∷ d ∷ s)
    else if c == backslash && (d == quote || d == backslash)
    then (d ∷ after, rest)
    else (c ∷ text, end)

-- A text starts with `c`: the argument, and what follows from the byte that ends it.
unfoldable pub first_word : ℕ → List ℕ → List ℕ × List ℕ
first_word c t = if c == quote then span_quoted t else span_word (c ∷ t)

abbrev pub behind : List ℕ → List ℕ
behind [] = []
behind (c ∷ s) = s

unfoldable pub words_from : ℕ → List ℕ → List (List ℕ)
words_from zero s = []
words_from (suc room) s = elim (drop_space s) [
  | [] ↦ []
  | c ∷ t ↦ (first_word c t).0 ∷ words_from room (behind (first_word c t).1)
]
