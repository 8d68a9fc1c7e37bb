-- ===== src/Cmd/Tokenizer/Endings.antt =====
-- How an argument ends in `tokenize` of components/core/src/cmd.c.
use espshell.Prelude.{
  ℕ, suc, ◌+◌, ◌≡◌, refl, ap, sym, ◌∙◌, List, [], ◌∷◌, ◌++◌, append_assoc, length, set, arith,
  get_or-append_right, length-append, set-append,
}
use espshell.Cmd.Tokenizer.{quote, at, end_quoted, end_word}
use espshell.Cmd.Tokenizer.Words.{span_quoted, behind}
use espshell.Cmd.Tokenizer.InPlace.{IsText}
use espshell.Cmd.Tokenizer.Buffer.{write_lem, buffer, read_buffer}

-- `text` stands behind `lead` with a zero byte behind it, and the search goes on behind a gap, at what
-- follows the byte that ended the argument.
abbrev pub Reads : List ℕ → List ℕ → List ℕ → List ℕ → List ℕ × ℕ → ℕ → Type 0
Reads lead text rest junk r size =
    (gap : List ℕ) × (r.0 ≡ lead ++ (text ++ (gap ++ (behind rest ++ (0 ∷ junk)))))
    × (r.1 ≡ length lead + length text + length gap)
    × (at (gap ++ (behind rest ++ (0 ∷ junk))) 0 ≡ 0)
    × (length text + length gap + length (behind rest) ≡ size)

-- The byte that ends a quoted text is a quote.
pub span_quoted_end :
    (s : List ℕ) (e : ℕ) (rest : List ℕ) → (span_quoted s).1 ≡ e ∷ rest → e ≡ quote
unfolding span_quoted
span_quoted_end [] e rest h = cc
span_quoted_end (c ∷ []) e rest h = ground arith
span_quoted_end (c ∷ d ∷ s) e rest h =
    ground (arith, span_quoted_end s e rest, span_quoted_end (d ∷ s) e rest)

-- A write of zero behind `lead ++ text`.
write_end :
    (lead text tail : List ℕ) (x : ℕ)
    → set ((lead ++ text) ++ (x ∷ tail)) (length lead + length text) 0
      ≡ lead ++ (text ++ (0 ∷ tail))
write_end lead text tail x =
    let e : length lead + length text ≡ length (lead ++ text) = sym (length-append lead text) in
    ap (λ i. set ((lead ++ text) ++ (x ∷ tail)) i 0) e
    ∙ (set-append (lead ++ text) x tail 0 ∙ append_assoc lead text (0 ∷ tail))

pub end_quoted_lem :
    (lead text gap rest junk : List ℕ)
    → ((e : ℕ) (s : List ℕ) → rest ≡ e ∷ s → e ≡ quote)
    → Reads lead text rest junk
        (end_quoted (
          buffer (lead ++ text) gap rest junk,
          length lead + length text + length gap,
          length lead + length text,
        ))
        (length gap + length text + length rest)
unfolding end_quoted
end_quoted_lem lead text [] [] junk h =
    let here =
      read_buffer (lead ++ text) [] [] junk (length lead + length text + 0) 0
        (omega (arith, length-append lead text)) in
    ([], write_end lead text junk 0, ground arith, refl, omega arith)
end_quoted_lem lead text (g ∷ gap) [] junk h =
    let here =
      read_buffer (lead ++ text) (g ∷ gap) [] junk (length lead + length text + suc (length gap)) 0
        (omega (arith, length-append lead text)) in
    (0 ∷ gap, write_end lead text (gap ++ (0 ∷ junk)) g, ground arith, refl, omega arith)
end_quoted_lem lead text gap (e ∷ rest) junk h =
    let (gap', lg, written) = write_lem (lead ++ text) gap e (rest ++ (0 ∷ junk)) 0 in
    let here =
      read_buffer (lead ++ text) gap (e ∷ rest) junk (length lead + length text + length gap) 0
        (omega (arith, length-append lead text)) in
    let closing : e ≡ quote = h e rest refl in
    let index : length lead + length text ≡ length (lead ++ text) = sym (length-append lead text) in
    (
      0 ∷ gap',
      ap (λ i. set (buffer (lead ++ text) gap (e ∷ rest) junk) i 0) index
          ∙ (written
              ∙ (append_assoc (lead ++ text) (0 ∷ []) (gap' ++ (rest ++ (0 ∷ junk)))
                  ∙ append_assoc lead text (0 ∷ (gap' ++ (rest ++ (0 ∷ junk)))))),
      ground arith,
      refl,
      omega arith,
    )

pub end_word_lem :
    (lead text rest junk : List ℕ)
    → IsText rest
    → Reads lead text rest junk
        (end_word (lead ++ (text ++ (rest ++ (0 ∷ junk)))) (length lead + length text))
        (length text + length rest)
unfolding end_word
end_word_lem lead text [] junk t =
    let here =
      get_or-append_right lead (text ++ (0 ∷ junk)) (length lead + length text) (length text) 0
        refl in
    let end = get_or-append_right text (0 ∷ junk) (length text) 0 0 (omega arith) in
    ([], ground arith, ground arith, refl, omega arith)
end_word_lem lead text (c ∷ rest) junk (pos, t) =
    let here =
      get_or-append_right lead (text ++ ((c ∷ rest) ++ (0 ∷ junk))) (length lead + length text)
        (length text) 0 refl in
    let end = get_or-append_right text ((c ∷ rest) ++ (0 ∷ junk)) (length text) 0 0 (omega arith) in
    let assoc = append_assoc lead text (c ∷ (rest ++ (0 ∷ junk))) in
    let written = write_end lead text (rest ++ (0 ∷ junk)) c in
    let line_set : set (lead ++ (text ++ (c ∷ (rest ++ (0 ∷ junk))))) (length lead + length text) 0
        ≡ lead ++ (text ++ (0 ∷ (rest ++ (0 ∷ junk)))) =
      ap (λ l. set l (length lead + length text) 0) (sym assoc) ∙ written in
    (0 ∷ [], ground arith, ground arith, refl, omega arith)
