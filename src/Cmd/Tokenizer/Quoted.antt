-- ===== src/Cmd/Tokenizer/Quoted.antt =====
-- The quoted branch of `tokenize` in components/core/src/cmd.c, over a whole argument.
use espshell.Prelude.{
  ℕ, zero, suc, ◌+◌, ◌≤◌, ◌<◌, ◌≡◌, refl, ◌≢◌, ap, subst, sym, ◌∙◌, Bool, true, false, ◌&&◌, ◌||◌,
  List, [], ◌∷◌, ◌++◌, append_assoc, ◌==◌, length, arith, Bool-cases, ◌⊎◌, inl, inr, length-append,
  append-nil,
}
use espshell.Cmd.Tokenizer.{quote, backslash, at, unescape, copy_quoted}
use espshell.Cmd.Tokenizer.Words.{span_quoted}
use espshell.Cmd.Tokenizer.InPlace.{IsText}
use espshell.Cmd.Tokenizer.Buffer.{copy_stop, buffer, read_buffer, Copies, one_byte}

abbrev escapes : ℕ → ℕ → Bool
escapes c d = c == backslash && (d == quote || d == backslash)

copy_stops :
    (fuel : ℕ) (done gap s junk : List ℕ) (p w : ℕ)
    → w ≡ length done
    → p ≡ length done + length gap
    → (at (s ++ (0 ∷ junk)) 0 ≡ 0) ⊎ (at (s ++ (0 ∷ junk)) 0 ≡ quote)
    → Copies fuel (buffer done gap s junk) p w done (gap ++ s) [] s junk
copy_stops fuel done gap s junk p w ew ep h =
    let line = buffer done gap s junk in
    let read = read_buffer done gap s junk p 0 (omega arith) in
    (
      gap,
      copy_stop fuel line p w (ground arith) ∙ ground (arith, append-nil done),
      omega (arith, length-append gap s),
    )

-- A round over an escape: the backslash `c` joins the gap, and `d` is the byte that is written.
one_escape :
    (fuel : ℕ) (done gap : List ℕ) (c d : ℕ) (s text rest junk : List ℕ) (p w : ℕ)
    → w ≡ length done
    → p ≡ length done + length gap
    → 0 < at (buffer done gap (c ∷ d ∷ s) junk) p
    → at (buffer done gap (c ∷ d ∷ s) junk) p ≢ quote
    → unescape (buffer done gap (c ∷ d ∷ s) junk) p ≡ p + 1
    → ((g : List ℕ)
        → length g ≡ length (gap ++ c ∷ [])
        → Copies fuel
            (buffer (done ++ d ∷ []) g s junk)
            (p + 2)
            (w + 1)
            (done ++ d ∷ [])
            (g ++ s)
            text
            rest
            junk)
    → Copies
        (suc fuel)
        (buffer done gap (c ∷ d ∷ s) junk)
        p
        w
        done
        (gap ++ (c ∷ d ∷ s))
        (d ∷ text)
        rest
        junk
one_escape fuel done gap c d s text rest junk p w ew ep pos other escaped rec =
    let wide = gap ++ c ∷ [] in
    let shift : buffer done gap (c ∷ d ∷ s) junk ≡ buffer done wide (d ∷ s) junk =
      ap (λ t. done ++ t) (sym (append_assoc gap (c ∷ []) (d ∷ (s ++ (0 ∷ junk))))) in
    let two : p + 1 + 1 ≡ p + 2 = omega arith in
    let (g, copied, size) =
      one_byte fuel done wide d s text rest junk p w (p + 1) ew
        (omega (arith, length-append gap (c ∷ []))) (subst (λ l. 0 < at l p) shift pos)
        (subst (λ l. at l p ≢ quote) shift other) (subst (λ l. unescape l p ≡ p + 1) shift escaped)
        (λ g lg. rw two (rec g lg)) in
    (
      g,
      ap (λ l. copy_quoted (suc fuel) l p w) shift ∙ copied,
      omega (
        arith,
        length-append wide (d ∷ s),
        length-append gap (c ∷ []),
        length-append gap (c ∷ d ∷ s),
      ),
    )

span_nil : ◌≡◌ {A = List ℕ × List ℕ} ([], []) (span_quoted [])
unfolding span_quoted
span_nil = refl

span_stop : (c : ℕ) (s : List ℕ) → (c == quote) ≡ true → span_quoted (c ∷ s) ≡ ([], c ∷ s)
unfolding span_quoted
span_stop c [] e = rw e
span_stop c (d ∷ s) e = rw e

span_one : (c : ℕ) → (c == quote) ≡ false → span_quoted (c ∷ []) ≡ (c ∷ [], [])
unfolding span_quoted
span_one c e = rw e

span_escape :
    (c d : ℕ) (s : List ℕ)
    → (c == quote) ≡ false
    → escapes c d ≡ true
    → span_quoted (c ∷ d ∷ s) ≡ (d ∷ (span_quoted s).0, (span_quoted s).1)
unfolding span_quoted
span_escape c d s e h = rw (e, h)

span_plain :
    (c d : ℕ) (s : List ℕ)
    → (c == quote) ≡ false
    → escapes c d ≡ false
    → span_quoted (c ∷ d ∷ s) ≡ (c ∷ (span_quoted (d ∷ s)).0, (span_quoted (d ∷ s)).1)
unfolding span_quoted
span_plain c d s e h = rw (e, h)

abbrev pub CopiesSpan : ℕ → List ℕ → List ℕ → List ℕ → List ℕ → ℕ → ℕ → List ℕ × List ℕ → Type 0
CopiesSpan fuel done gap s junk p w r =
    Copies fuel (buffer done gap s junk) p w done (gap ++ s) r.0 r.1 junk

pub copy_lem :
    (fuel : ℕ) (done gap s junk : List ℕ) (p w : ℕ)
    → IsText s
    → length s ≤ fuel
    → w ≡ length done
    → p ≡ length done + length gap
    → CopiesSpan fuel done gap s junk p w (span_quoted s)
copy_lem fuel done gap [] junk p w t f ew ep =
    subst (CopiesSpan fuel done gap [] junk p w) span_nil
      (copy_stops fuel done gap [] junk p w ew ep (inl refl))
copy_lem zero done gap (c ∷ s) junk p w t f ew ep = absurd (omega arith)
copy_lem (suc fuel) done gap (c ∷ []) junk p w (pos, t) f ew ep =
    let here : at (buffer done gap (c ∷ []) junk) p ≡ c =
      read_buffer done gap (c ∷ []) junk p 0 (omega arith) in
    let next : at (buffer done gap (c ∷ []) junk) (p + 1) ≡ 0 =
      read_buffer done gap (c ∷ []) junk (p + 1) 1 (omega arith) in
    elim (Bool-cases (c == quote)) [
      | inl stop ↦
          subst (CopiesSpan (suc fuel) done gap (c ∷ []) junk p w) (sym (span_stop c [] stop))
            (copy_stops (suc fuel) done gap (c ∷ []) junk p w ew ep (inr (ground arith)))
      | inr go ↦ subst (CopiesSpan (suc fuel) done gap (c ∷ []) junk p w) (sym (span_one c go)) (
          one_byte fuel done gap c [] [] [] junk p w p ew ep (ground arith) (ground arith)
            (ground arith)
            (λ g lg.
              copy_stops fuel (done ++ c ∷ []) g [] junk (p + 1) (w + 1)
                (omega (arith, length-append done (c ∷ [])))
                (omega (arith, length-append done (c ∷ []))) (inl refl)))
    ]
copy_lem (suc fuel) done gap (c ∷ d ∷ s) junk p w (pos, (posd, t)) f ew ep =
    let here : at (buffer done gap (c ∷ d ∷ s) junk) p ≡ c =
      read_buffer done gap (c ∷ d ∷ s) junk p 0 (omega arith) in
    let next : at (buffer done gap (c ∷ d ∷ s) junk) (p + 1) ≡ d =
      read_buffer done gap (c ∷ d ∷ s) junk (p + 1) 1 (omega arith) in
    elim (Bool-cases (c == quote)) [
      | inl stop ↦
          subst (CopiesSpan (suc fuel) done gap (c ∷ d ∷ s) junk p w)
            (sym (span_stop c (d ∷ s) stop))
            (copy_stops (suc fuel) done gap (c ∷ d ∷ s) junk p w ew ep (inr (ground arith)))
      | inr go ↦ elim (Bool-cases (escapes c d)) [
        | inl esc ↦
            subst (CopiesSpan (suc fuel) done gap (c ∷ d ∷ s) junk p w)
              (sym (span_escape c d s go esc))
              (one_escape fuel done gap c d s _ _ junk p w ew ep (ground arith) (ground arith)
                (ground arith)
                (λ g lg.
                  copy_lem fuel (done ++ d ∷ []) g s junk (p + 2) (w + 1) t (omega arith)
                    (omega (arith, length-append done (d ∷ [])))
                    (omega (arith, length-append done (d ∷ []), length-append gap (c ∷ [])))))
        | inr plain ↦
            subst (CopiesSpan (suc fuel) done gap (c ∷ d ∷ s) junk p w)
              (sym (span_plain c d s go plain))
              (one_byte fuel done gap c (d ∷ s) _ _ junk p w p ew ep (ground arith) (ground arith)
                (ground arith)
                (λ g lg.
                  copy_lem fuel (done ++ c ∷ []) g (d ∷ s) junk (p + 1) (w + 1) (posd, t)
                    (omega arith) (omega (arith, length-append done (c ∷ [])))
                    (omega (arith, length-append done (c ∷ [])))))
      ]
    ]
