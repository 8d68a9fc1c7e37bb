-- ===== src/Cmd/Tokenizer/Argument.antt =====
-- One argument of `tokenize` in components/core/src/cmd.c: what it leaves in the line, and where the
-- search for the next one starts.
use espshell.Prelude.{
  ℕ, ◌+◌, ◌≤◌, ◌≡◌, refl, ap, ap₂, subst, sym, ◌∙◌, true, false, List, [], ◌∷◌, ◌++◌, append_assoc,
  ◌==◌, if◌then◌else◌, length, arith, get_or-append_right, drop-append, Bool-cases, inl, inr,
  length-append, append-nil,
}
use espshell.Cmd.Tokenizer.{
  quote, at, copy_quoted, skip_word, end_quoted, end_word, read_argument, argument_start,
}
use espshell.Cmd.Tokenizer.Words.{span_word, span_quoted, first_word}
use espshell.Cmd.Tokenizer.InPlace.{IsText, skip_word_lem, span_word_split}
use espshell.Cmd.Tokenizer.Quoted.{copy_lem}
use espshell.Cmd.Tokenizer.Endings.{Reads, span_quoted_end, end_quoted_lem, end_word_lem}

pub IsText-append : (s r : List ℕ) → IsText (s ++ r) → IsText r
IsText-append [] r h = h
IsText-append (c ∷ s) r (pos, h) = IsText-append s r h

read_quoted :
    (fuel : ℕ) (lead t junk : List ℕ)
    → IsText t
    → length t ≤ fuel
    → Reads lead
        (span_quoted t).0
        (span_quoted t).1
        junk
        (end_quoted (copy_quoted fuel (lead ++ (t ++ (0 ∷ junk))) (length lead) (length lead)))
        (length t)
read_quoted fuel lead t junk text f =
    let (gap, copied, size) =
      copy_lem fuel lead [] t junk (length lead) (length lead) text f refl (omega arith) in
    let ended =
      end_quoted_lem lead (span_quoted t).0 gap (span_quoted t).1 junk (span_quoted_end t) in
    subst (λ r. Reads lead (span_quoted t).0 (span_quoted t).1 junk (end_quoted r) (length t))
      (sym copied) (subst (Reads lead (span_quoted t).0 (span_quoted t).1 junk _) size ended)

read_word :
    (fuel : ℕ) (pre s junk : List ℕ)
    → IsText s
    → length s ≤ fuel
    → Reads pre
        (span_word s).0
        (span_word s).1
        junk
        (end_word
          (pre ++ (s ++ (0 ∷ junk)))
          (skip_word fuel (pre ++ (s ++ (0 ∷ junk))) (length pre)))
        (length s)
read_word fuel pre s junk text f =
    let line = pre ++ (s ++ (0 ∷ junk)) in
    let word = (span_word s).0 in
    let rest = (span_word s).1 in
    let split = span_word_split s in
    let skipped =
      skip_word_lem fuel line (length pre) s junk text f (drop-append pre (s ++ (0 ∷ junk))) in
    let shape : line ≡ pre ++ (word ++ (rest ++ (0 ∷ junk))) =
      ap (λ l. pre ++ (l ++ (0 ∷ junk))) split
      ∙ ap (λ l. pre ++ l) (append_assoc word rest (0 ∷ junk)) in
    let size : length word + length rest ≡ length s =
      sym (length-append word rest) ∙ ap length (sym split) in
    let ended =
      end_word_lem pre word rest junk (IsText-append word rest (subst IsText split text)) in
    subst (λ i. Reads pre word rest junk (end_word line i) (length s)) (sym skipped)
      (subst (λ l. Reads pre word rest junk (end_word l (length pre + length word)) (length s))
        (sym shape) (subst (Reads pre word rest junk _) size ended))

Reads-at :
    (lead junk : List ℕ) {w w' : List ℕ × List ℕ} {r r' : List ℕ × ℕ} {size size' : ℕ}
    → w ≡ w'
    → r ≡ r'
    → size ≡ size'
    → Reads lead w.0 w.1 junk r size
    → Reads lead w'.0 w'.1 junk r' size'
Reads-at lead junk {w} {w'} {r} {r'} {size} {size'} ew er es h =
    subst (λ v. Reads lead v.0 v.1 junk r' size') ew
      (subst (λ v. Reads lead w.0 w.1 junk v size') er (subst (Reads lead w.0 w.1 junk r) es h))

read_argument_quoted :
    (fuel : ℕ) (line : List ℕ) (p : ℕ)
    → (at line p == quote) ≡ true
    → read_argument fuel line p ≡ end_quoted (copy_quoted fuel line (p + 1) (p + 1))
unfolding read_argument
read_argument_quoted fuel line p h = rw h

read_argument_word :
    (fuel : ℕ) (line : List ℕ) (p : ℕ)
    → (at line p == quote) ≡ false
    → read_argument fuel line p ≡ end_word line (skip_word fuel line p)
unfolding read_argument
read_argument_word fuel line p h = rw h

-- The search after white space, at an argument that starts with `c`.
pub read_argument_lem :
    (fuel : ℕ) (pre : List ℕ) (c : ℕ) (t junk : List ℕ)
    → IsText (c ∷ t)
    → length (c ∷ t) ≤ fuel
    → (opening : List ℕ) × (size : ℕ) × (length opening + size ≡ length (c ∷ t))
      × (argument_start (pre ++ (c ∷ (t ++ (0 ∷ junk)))) (length pre) ≡ length (pre ++ opening))
      × Reads
          (pre ++ opening)
          (first_word c t).0
          (first_word c t).1
          junk
          (read_argument fuel (pre ++ (c ∷ (t ++ (0 ∷ junk)))) (length pre))
          size
unfolding first_word
read_argument_lem fuel pre c t junk (pos, text) f =
    let line = pre ++ (c ∷ (t ++ (0 ∷ junk))) in
    let here : at line (length pre) ≡ c =
      get_or-append_right pre (c ∷ (t ++ (0 ∷ junk))) (length pre) 0 0 (omega arith) in
    let first : argument_start line (length pre)
        ≡ (if c == quote then length pre + 1 else length pre) =
      ap (λ b. if b == quote then length pre + 1 else length pre) here in
    let quoted = read_quoted fuel (pre ++ c ∷ []) t junk text (omega arith) in
    let word = read_word fuel pre (c ∷ t) junk (pos, text) f in
    let behind_quote : length (pre ++ c ∷ []) ≡ length pre + 1 = length-append pre (c ∷ []) in
    elim (Bool-cases (c == quote)) [
      | inl q ↦ (
        c ∷ [],
        length t,
        omega arith,
        ground arith,
        Reads-at (pre ++ c ∷ []) junk {w = span_quoted t} {w' = first_word c t} (ground arith)
            (sym (
              read_argument_quoted fuel line (length pre) (ground arith)
              ∙ ap₂ (λ l i. end_quoted (copy_quoted fuel l i i))
                  (sym (append_assoc pre (c ∷ []) (t ++ (0 ∷ junk)))) (sym behind_quote)))
            refl quoted,
      )
      | inr n ↦ (
        [],
        length (c ∷ t),
        omega arith,
        ground (arith, append-nil pre),
        subst
            (λ l.
              Reads l (first_word c t).0 (first_word c t).1 junk
                (read_argument fuel line (length pre)) (length (c ∷ t)))
            (sym (append-nil pre))
            (Reads-at pre junk {w = span_word (c ∷ t)} {w' = first_word c t} (ground arith)
              (sym (read_argument_word fuel line (length pre) (ground arith))) refl word),
      )
    ]
