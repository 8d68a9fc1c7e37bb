-- ===== src/Cmd/Tokenizer/Buffer.antt =====
-- The buffer of the quoted branch of `tokenize` in components/core/src/cmd.c: one round of its loop.
use espshell.Prelude.{
  ℕ, zero, suc, ◌+◌, ◌<◌, ◌≡◌, refl, ◌≢◌, ap, sym, ◌∙◌, List, [], ◌∷◌, ◌++◌, append_assoc, length,
  set, arith, get_or-append_right, set-append, ◌⊎◌, length-append,
}
use espshell.Cmd.Tokenizer.{quote, at, unescape, copy_quoted}

-- A write at the end of `done` takes one cell of the gap behind it, or the byte just read.
pub write_lem :
    (done gap : List ℕ) (x : ℕ) (rest : List ℕ) (v : ℕ)
    → (gap' : List ℕ) × (length gap' ≡ length gap)
      × (set (done ++ (gap ++ (x ∷ rest))) (length done) v ≡ (done ++ v ∷ []) ++ (gap' ++ rest))
write_lem done [] x rest v =
    ([], refl, set-append done x rest v ∙ sym (append_assoc done (v ∷ []) rest))
write_lem done (g ∷ gap) x rest v = (
  gap ++ x ∷ [],
  omega (arith, length-append gap (x ∷ [])),
  set-append done g (gap ++ (x ∷ rest)) v
      ∙ (ap (λ t. done ++ (v ∷ t)) (sym (append_assoc gap (x ∷ []) rest))
          ∙ sym (append_assoc done (v ∷ []) ((gap ++ x ∷ []) ++ rest))),
)

pub copy_stop :
    (fuel : ℕ) (line : List ℕ) (p w : ℕ)
    → (at line p ≡ 0) ⊎ (at line p ≡ quote)
    → copy_quoted fuel line p w ≡ (line, p, w)
unfolding copy_quoted
copy_stop zero line p w h = refl
copy_stop (suc fuel) line p w h = ground arith

copy_go :
    (fuel : ℕ) (line : List ℕ) (p w q v : ℕ)
    → 0 < at line p
    → at line p ≢ quote
    → unescape line p ≡ q
    → at line q ≡ v
    → copy_quoted (suc fuel) line p w ≡ copy_quoted fuel (set line w v) (q + 1) (w + 1)
unfolding copy_quoted
copy_go fuel line p w q v h n eq ev = ground (
  arith,
  ap (λ i. copy_quoted fuel (set line w (at line i)) (i + 1) (w + 1)) eq,
  ap (λ i. copy_quoted fuel (set line w i) (q + 1) (w + 1)) ev,
)

-- The state of the copying loop: `done` in front of the write index, `gap` between it and the read
-- index, then the unread text.
abbrev pub buffer : List ℕ → List ℕ → List ℕ → List ℕ → List ℕ
buffer done gap s junk = done ++ (gap ++ (s ++ (0 ∷ junk)))

pub read_buffer :
    (done gap s junk : List ℕ) (p k : ℕ)
    → p ≡ length done + length gap + k
    → at (buffer done gap s junk) p ≡ at (s ++ (0 ∷ junk)) k
read_buffer done gap s junk p k e =
    get_or-append_right done (gap ++ (s ++ (0 ∷ junk))) p (length gap + k) 0 (omega arith)
    ∙ get_or-append_right gap (s ++ (0 ∷ junk)) (length gap + k) k 0 refl

-- The loop has put `text` behind `done` and stands in front of `rest`, over a new gap.
abbrev pub Copies : ℕ → List ℕ → ℕ → ℕ → List ℕ → List ℕ → List ℕ → List ℕ → List ℕ → Type 0
Copies fuel line p w done before text rest junk =
    (gap : List ℕ) × (copy_quoted fuel line p w ≡ (
      buffer (done ++ text) gap rest junk,
      length done + length text + length gap,
      length done + length text,
    ))
    × (length gap + length text + length rest ≡ length before)

copied_shape :
    (done text gap tail : List ℕ) (x : ℕ)
    → ◌≡◌ {A = List ℕ × ℕ × ℕ}
        (
          ((done ++ x ∷ []) ++ text) ++ (gap ++ tail),
          length (done ++ x ∷ []) + length text + length gap,
          length (done ++ x ∷ []) + length text,
        )
        (
          (done ++ (x ∷ text)) ++ (gap ++ tail),
          length done + length (x ∷ text) + length gap,
          length done + length (x ∷ text),
        )
copied_shape done text gap tail x =
    let one : length (done ++ x ∷ []) ≡ length done + 1 = length-append done (x ∷ []) in
    let all : length done + 1 + length text ≡ length done + length (x ∷ text) = omega arith in
    rw (append_assoc done (x ∷ []) text, one, all)

-- One round that writes `x`, read at `q`.
pub one_byte :
    (fuel : ℕ) (done gap : List ℕ) (x : ℕ) (s text rest junk : List ℕ) (p w q : ℕ)
    → w ≡ length done
    → q ≡ length done + length gap
    → 0 < at (buffer done gap (x ∷ s) junk) p
    → at (buffer done gap (x ∷ s) junk) p ≢ quote
    → unescape (buffer done gap (x ∷ s) junk) p ≡ q
    → ((g : List ℕ)
        → length g ≡ length gap
        → Copies fuel
            (buffer (done ++ x ∷ []) g s junk)
            (q + 1)
            (w + 1)
            (done ++ x ∷ [])
            (g ++ s)
            text
            rest
            junk)
    → Copies
        (suc fuel)
        (buffer done gap (x ∷ s) junk)
        p
        w
        done
        (gap ++ (x ∷ s))
        (x ∷ text)
        rest
        junk
one_byte fuel done gap x s text rest junk p w q ew eq pos other escaped rec =
    let line = buffer done gap (x ∷ s) junk in
    let (g, lg, written) = write_lem done gap x (s ++ (0 ∷ junk)) x in
    let (g', copied, size) = rec g lg in
    let read : at line q ≡ x = read_buffer done gap (x ∷ s) junk q 0 (omega arith) in
    let start : set line w x ≡ buffer (done ++ x ∷ []) g s junk = rw ew written in
    let one : length (done ++ x ∷ []) ≡ length done + 1 = length-append done (x ∷ []) in
    (
      g',
      copy_go fuel line p w q x pos other escaped read
          ∙ (ap (λ l. copy_quoted fuel l (q + 1) (w + 1)) start
              ∙ (copied ∙ copied_shape done text g' (rest ++ (0 ∷ junk)) x)),
      omega (arith, length-append gap (x ∷ s), length-append g s, one),
    )
