-- ===== src/Cmd/Tokenizer/Whole.antt =====
-- `tokenize` of components/core/src/cmd.c on a whole line: the strings its pointers reach.
use espshell.Prelude.{
  ℕ, zero, suc, ◌+◌, ◌≤◌, ◌≡◌, refl, ap, ap₂, subst, sym, ◌∙◌, List, [], ◌∷◌, ◌≢◌, ◌++◌,
  append_assoc, append-nil, length, arith, drop, drop-append, get_or-append_right, ◌⊎◌, inl, inr,
  length-append, map,
}
use espshell.Cmd.Tokenizer.{
  until_zero, string_at, at, skip_space, read_argument, argument_start, tokenize_loop, tokenize,
}
use espshell.Cmd.Tokenizer.Words.{drop_space, first_word, behind, words_from}
use espshell.Cmd.Tokenizer.InPlace.{IsText, skip_space_lem}
use espshell.Cmd.Tokenizer.Argument.{read_argument_lem, IsText-append}
use espshell.Cmd.Tokenizer.Texts.{
  until_zero_lem, IsText-first, IsText-behind, loop_end, loop_step, words_end, words_step,
}

-- The loop has split `s`, which stands behind `pre`: the pointers reach the words of `s`, and it has
-- written over the bytes of `s` only.
abbrev Splits : ℕ → List ℕ → List ℕ → List ℕ → List ℕ × List ℕ → Type 0
Splits room pre s junk r =
    (left : List ℕ) × (length left ≡ length s)
    × (r.1 ≡ pre ++ (left ++ (0 ∷ junk)))
    × (map (string_at r.1) r.0 ≡ words_from room s)

split_end :
    (fuel room : ℕ) (pre s junk : List ℕ)
    → drop_space s ≡ []
    → at (pre ++ (s ++ (0 ∷ junk))) (skip_space fuel (pre ++ (s ++ (0 ∷ junk))) (length pre)) ≡ 0
    → Splits
        (suc room)
        pre
        s
        junk
        (tokenize_loop fuel (suc room) (pre ++ (s ++ (0 ∷ junk))) (length pre))
split_end fuel room pre s junk empty h =
    subst (Splits (suc room) pre s junk) (sym (loop_end fuel room _ (length pre) h))
      (s, refl, refl, sym (words_end room s empty))

zero_moves :
    (gap left rest junk : List ℕ)
    → length left ≡ length rest
    → IsText rest
    → at (gap ++ (rest ++ (0 ∷ junk))) 0 ≡ 0
    → at (gap ++ (left ++ (0 ∷ junk))) 0 ≡ 0
zero_moves (g ∷ gap) left rest junk size t h = h
zero_moves [] [] rest junk size t h = refl
zero_moves [] (c ∷ left) [] junk size t h = absurd (omega arith)
zero_moves [] (c ∷ left) (d ∷ rest) junk size (pos, t) h = absurd (omega arith)

-- One argument in front of what the rest of the loop does.
split_step :
    (room : ℕ) (pre opening text gap rest junk : List ℕ) (q : ℕ) (r : List ℕ × List ℕ)
    → q ≡ length (pre ++ opening)
    → IsText text
    → at (gap ++ (rest ++ (0 ∷ junk))) 0 ≡ 0
    → IsText rest
    → Splits room ((pre ++ opening) ++ (text ++ gap)) rest junk r
    → (left : List ℕ) × (length left ≡ length opening + length text + length gap + length rest)
      × (r.1 ≡ pre ++ (left ++ (0 ∷ junk)))
      × (map (string_at r.1) (q ∷ r.0) ≡ text ∷ words_from room rest)
split_step room pre opening text gap rest junk q r eq t zero_behind u (left, size, line, words) =
    let z = 0 ∷ junk in
    let flat : r.1 ≡ (pre ++ opening) ++ (text ++ (gap ++ (left ++ z))) =
      line
      ∙ (append_assoc (pre ++ opening) (text ++ gap) (left ++ z)
          ∙ ap (λ l. (pre ++ opening) ++ l) (append_assoc text gap (left ++ z))) in
    let here : drop q r.1 ≡ text ++ (gap ++ (left ++ z)) =
      ap₂ drop eq flat ∙ drop-append (pre ++ opening) (text ++ (gap ++ (left ++ z))) in
    (
      opening ++ (text ++ (gap ++ left)),
      omega (
        arith,
        length-append opening (text ++ (gap ++ left)),
        length-append text (gap ++ left),
        length-append gap left,
      ),
      flat ∙ simp append_assoc,
      ap₂ (λ x xs. x ∷ xs)
          (ap until_zero here
            ∙ until_zero_lem text (gap ++ (left ++ z)) t
                (zero_moves gap left rest junk size u zero_behind))
          words,
    )

-- What is left to show of the loop, with the room for one argument less.
abbrev Rest : ℕ → ℕ → List ℕ → Type 0
Rest fuel room junk =
    (pre s : List ℕ)
    → IsText s
    → length s ≤ fuel
    → Splits room pre s junk (tokenize_loop fuel room (pre ++ (s ++ (0 ∷ junk))) (length pre))

abbrev after : ℕ → ℕ → List ℕ → ℕ → List ℕ × List ℕ
after fuel room line q =
    tokenize_loop fuel room (read_argument fuel line q).0 (read_argument fuel line q).1

split_argument :
    (fuel room : ℕ) (front : List ℕ) (c : ℕ) (t junk : List ℕ)
    → IsText (c ∷ t)
    → length (c ∷ t) ≤ fuel
    → Rest fuel room junk
    → (left : List ℕ) × (length left ≡ length (c ∷ t))
      × ((after fuel room (front ++ (c ∷ (t ++ (0 ∷ junk)))) (length front)).1
          ≡ front ++ (left ++ (0 ∷ junk)))
      × (map (string_at (after fuel room (front ++ (c ∷ (t ++ (0 ∷ junk)))) (length front)).1) (
            argument_start (front ++ (c ∷ (t ++ (0 ∷ junk)))) (length front)
            ∷ (after fuel room (front ++ (c ∷ (t ++ (0 ∷ junk)))) (length front)).0)
          ≡ (first_word c t).0 ∷ words_from room (behind (first_word c t).1))
split_argument fuel room front c t junk h f ih =
    let (opening, size, all, start, (gap, line, next, zero_behind, parts)) =
      read_argument_lem fuel front c t junk h f in
    let (text, end) = IsText-first c t h in
    let word = (first_word c t).0 in
    let rest = behind (first_word c t).1 in
    let u : IsText rest = IsText-behind (first_word c t).1 end in
    let whole = (front ++ opening) ++ (word ++ gap) in
    let line' : (read_argument fuel (front ++ (c ∷ (t ++ (0 ∷ junk)))) (length front)).0
        ≡ whole ++ (rest ++ (0 ∷ junk)) =
      line ∙ simp append_assoc in
    let next' : (read_argument fuel (front ++ (c ∷ (t ++ (0 ∷ junk)))) (length front)).1
        ≡ length whole =
      omega (arith, length-append (front ++ opening) (word ++ gap), length-append word gap) in
    let tail = ih whole rest u (omega arith) in
    let (left, n, last, words) =
      split_step room front opening word gap rest junk
        (argument_start (front ++ (c ∷ (t ++ (0 ∷ junk)))) (length front))
        (after fuel room (front ++ (c ∷ (t ++ (0 ∷ junk)))) (length front)) start text zero_behind u
        (subst (Splits room whole rest junk) (ap₂ (tokenize_loop fuel room) (sym line') (sym next'))
          tail) in
    (left, omega arith, last, words)

List-cases : (s : List ℕ) → (s ≡ []) ⊎ ((c : ℕ) × (t : List ℕ) × (s ≡ c ∷ t))
List-cases [] = inl refl
List-cases (c ∷ t) = inr (c, t, refl)

starts :
    (blank t s junk : List ℕ) (c : ℕ) → s ≡ blank ++ (c ∷ t) → IsText s → at (s ++ (0 ∷ junk)) 0 ≢ 0
starts [] t [] junk c e h = absurd (omega (arith, ap length e))
starts (b ∷ blank) t [] junk c e h = absurd (omega (arith, ap length e))
starts blank t (d ∷ s) junk c e (pos, h) = omega arith

all_space :
    (pre blank s junk : List ℕ) (q : ℕ)
    → s ≡ blank
    → q ≡ length pre + length blank
    → at (pre ++ (s ++ (0 ∷ junk))) q ≡ 0
all_space pre blank s junk q e eq =
    get_or-append_right pre (s ++ (0 ∷ junk)) q (length blank) 0 eq
    ∙ get_or-append_right s (0 ∷ junk) (length blank) 0 0 (omega (arith, ap length e))

tokenize_loop_lem : (fuel room : ℕ) (junk : List ℕ) → Rest fuel room junk
unfolding tokenize_loop words_from
tokenize_loop_lem fuel zero junk pre s h f = (s, refl, refl, refl)
tokenize_loop_lem fuel (suc room) junk pre s h f =
    let z = 0 ∷ junk in
    let line = pre ++ (s ++ z) in
    let (blank, split, skipped) =
      skip_space_lem fuel line (length pre) s junk h f (drop-append pre (s ++ z)) in
    elim (List-cases (drop_space s)) [
      | inl empty ↦ split_end fuel room pre s junk empty (
          all_space pre blank s junk _ (split ∙ (ap (λ d. blank ++ d) empty ∙ append-nil blank))
            skipped)
      | inr (c, t, found) ↦
          let front = pre ++ blank in
          let parts : s ≡ blank ++ (c ∷ t) = split ∙ ap (λ d. blank ++ d) found in
          let shape : line ≡ front ++ (c ∷ (t ++ z)) =
            ap (λ l. pre ++ (l ++ z)) parts ∙ simp append_assoc in
          let q : skip_space fuel line (length pre) ≡ length front =
            skipped ∙ sym (length-append pre blank) in
          let text : IsText (c ∷ t) = IsText-append blank (c ∷ t) (subst IsText parts h) in
          let (left, size, last, words) =
            split_argument fuel room front c t junk text
              (omega (arith, ap length parts, length-append blank (c ∷ t)))
              (tokenize_loop_lem fuel room junk) in
          let here : at line (skip_space fuel line (length pre)) ≡ c =
            ap₂ at shape q
            ∙ get_or-append_right front (c ∷ (t ++ z)) (length front) 0 0 (omega arith) in
          let start : at line (length pre) ≢ 0 =
            subst (λ b. b ≢ 0)
              (sym (get_or-append_right pre (s ++ z) (length pre) 0 0 (omega arith)))
              (starts blank t s junk c parts h) in
          let step =
            loop_step fuel room line (length pre) start (omega (arith, text.0, here))
            ∙ ap₂ (λ l i. (argument_start l i ∷ (after fuel room l i).0, (after fuel room l i).1))
                shape q in
          subst (Splits (suc room) pre s junk) (sym step) (
            blank ++ left,
            omega (arith, ap length parts, length-append blank (c ∷ t), length-append blank left),
            last ∙ simp append_assoc,
            words ∙ sym (words_step room s c t found),
          )
    ]

-- On a line that holds a text without a zero byte, then a terminator, `tokenize` finds the words that
-- the syntax gives the text, the first `max_argv` of them when there are more: the strings its pointers
-- reach, in their final memory, are those words, whatever their quotes and escapes are. It has written
-- over the bytes of the text only: the terminator and what lies behind it are as before.
pub tokenize_words :
    (s junk : List ℕ) (max_argv : ℕ)
    → IsText s
    → (left : List ℕ) × (length left ≡ length s)
      × ((tokenize (s ++ (0 ∷ junk)) max_argv).1 ≡ left ++ (0 ∷ junk))
      × (map
            (string_at (tokenize (s ++ (0 ∷ junk)) max_argv).1)
            (tokenize (s ++ (0 ∷ junk)) max_argv).0
          ≡ words_from max_argv s)
unfolding tokenize
tokenize_words s junk max_argv h =
    tokenize_loop_lem (length (s ++ (0 ∷ junk))) max_argv junk [] s h
      (omega (arith, length-append s (0 ∷ junk)))
