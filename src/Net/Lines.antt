-- ===== src/Net/Lines.antt =====
-- `recv_line` of components/core/src/net.c, which reads a byte at a time.
use espshell.Prelude.{
  ℕ, zero, suc, ◌-◌, ◌<◌, ◌≡◌, ◌≢◌, refl, ap, sym, ◌∙◌, true, false, List, [], ◌∷◌, ◌++◌,
  append_assoc, append-nil, some, ◌==◌, if◌then◌else◌, length, get_or, drop, arith, All, Bool-cases,
  inl, inr,
}
use espshell.Net.{Event, recv, push, strip_cr, line_loop, recv_line}
use espshell.Net.Reads.{flat, flat-push}

-- Only bytes come: `recv_line` takes an interruption for a failure.
abbrev pub Steady : List Event → Type 0
Steady [] = Unit
Steady (Event.bytes b bs ∷ es) = Steady es
Steady (Event.interrupted ∷ es) = ⊥
Steady (Event.failed ∷ es) = ⊥

pub push-Steady : (bs : List ℕ) (es : List Event) → Steady es → Steady (push bs es)
push-Steady [] es h = h
push-Steady (b ∷ bs) es h = h

pub line_loop_lem :
    (text : List ℕ) (room : ℕ) (out : List ℕ) (es : List Event) (rest : List ℕ)
    → Steady es
    → flat es ≡ text ++ (b'\n' ∷ rest)
    → All (λ c. c ≢ b'\n') text
    → length text < room
    → (es' : List Event) × (line_loop room out es ≡ (some (strip_cr (out ++ text)), es'))
      × (flat es' ≡ rest)
unfolding line_loop recv
line_loop_lem text zero out es rest ok e plain h = absurd (omega arith)
line_loop_lem [] (suc room) out [] rest ok e plain h = absurd (omega (arith, ap length e))
line_loop_lem (c ∷ text) (suc room) out [] rest ok e plain h = absurd (omega (arith, ap length e))
line_loop_lem [] (suc room) out (Event.bytes b bs ∷ es) rest ok e plain h =
    let newline : b ≡ b'\n' = ap (λ l. get_or l 0 0) e in
    let last : (b == b'\n') ≡ true = ground arith in
    (push bs es, rw (last, append-nil out) refl, flat-push bs es ∙ ap (drop 1) e)
line_loop_lem (c ∷ text) (suc room) out (Event.bytes b bs ∷ es) rest ok e (here, plain) h =
    let byte : b ≡ c = ap (λ l. get_or l 0 0) e in
    let more : (b == b'\n') ≡ false = ground arith in
    let (es', read, left) =
      line_loop_lem text room (out ++ b ∷ []) (push bs es) rest (push-Steady bs es ok)
        (flat-push bs es ∙ ap (drop 1) e) plain (omega arith) in
    (
      es',
      rw more (
          read
          ∙ ap (λ o. (some (strip_cr o), es'))
              (append_assoc out (b ∷ []) text ∙ ap (λ x. out ++ (x ∷ text)) byte)),
      left,
    )
line_loop_lem text (suc room) out (Event.interrupted ∷ es) rest ok e plain h = absurd ok
line_loop_lem text (suc room) out (Event.failed ∷ es) rest ok e plain h = absurd ok

pub line_loop-Steady :
    (room : ℕ) (out : List ℕ) (es : List Event) → Steady es → Steady (line_loop room out es).1
unfolding line_loop recv
line_loop-Steady zero out es ok = ok
line_loop-Steady (suc room) out [] ok = tt
line_loop-Steady (suc room) out (Event.bytes b bs ∷ es) ok = elim (Bool-cases (b == b'\n')) [
  | inl last ↦ rw last (push-Steady bs es ok)
  | inr more ↦ rw more (line_loop-Steady room (out ++ b ∷ []) (push bs es) (push-Steady bs es ok))
]
line_loop-Steady (suc room) out (Event.interrupted ∷ es) ok = absurd ok
line_loop-Steady (suc room) out (Event.failed ∷ es) ok = absurd ok

-- When only bytes come, and they start with a text without a newline, shorter than `cap - 1`, and a
-- newline, `recv_line` answers the text, without a carriage return at its end, and leaves the bytes
-- behind the newline, however they are cut up.
pub recv_line_lem :
    (es : List Event) (text rest : List ℕ) (cap : ℕ)
    → Steady es
    → flat es ≡ text ++ (b'\n' ∷ rest)
    → All (λ c. c ≢ b'\n') text
    → length text < cap - 1
    → (es' : List Event) × (recv_line es cap ≡ (some (strip_cr text), es')) × (flat es' ≡ rest)
unfolding recv_line
recv_line_lem es text rest cap ok e plain h = line_loop_lem text (cap - 1) [] es rest ok e plain h

line_loop_took :
    (room : ℕ) (out : List ℕ) (es es' : List Event) (line : List ℕ)
    → line_loop room out es ≡ (some line, es')
    → (text : List ℕ) × (line ≡ strip_cr (out ++ text)) × (flat es ≡ text ++ (b'\n' ∷ flat es'))
unfolding line_loop recv
line_loop_took zero out es es' line e = absurd (cc e)
line_loop_took (suc room) out [] es' line e = absurd (cc e)
line_loop_took (suc room) out (Event.bytes b bs ∷ es) es' line e = elim (Bool-cases (b == b'\n')) [
  | inl last ↦
      let ended : (some (strip_cr out), push bs es) ≡ (some line, es') =
        ap
          (λ x.
            if x
            then (some (strip_cr out), push bs es)
            else line_loop room (out ++ b ∷ []) (push bs es))
          (sym last)
        ∙ e in
      let byte : b ≡ b'\n' = ground arith in
      (
        [],
        cc (ended, append-nil out),
        ap (λ x. x ∷ (bs ++ flat es)) byte
            ∙ ap (λ l. b'\n' ∷ l) (sym (flat-push bs es) ∙ ap (λ r. flat r.1) ended),
      )
  | inr more ↦
      let goes : line_loop room (out ++ b ∷ []) (push bs es) ≡ (some line, es') =
        ap
          (λ x.
            if x
            then (some (strip_cr out), push bs es)
            else line_loop room (out ++ b ∷ []) (push bs es))
          (sym more)
        ∙ e in
      let (text, read, left) = line_loop_took room (out ++ b ∷ []) (push bs es) es' line goes in
      (
        b ∷ text,
        read ∙ ap strip_cr (append_assoc out (b ∷ []) text),
        ap (λ l. b ∷ l) (sym (flat-push bs es) ∙ left),
      )
]
line_loop_took (suc room) out (Event.interrupted ∷ es) es' line e = absurd (cc e)
line_loop_took (suc room) out (Event.failed ∷ es) es' line e = absurd (cc e)

-- Whatever comes, a line that `recv_line` answers is the bytes that come up to a newline, without a
-- carriage return at the end, and the bytes behind the newline are left.
pub recv_line_took :
    (es es' : List Event) (cap : ℕ) (line : List ℕ)
    → recv_line es cap ≡ (some line, es')
    → (text : List ℕ) × (line ≡ strip_cr text) × (flat es ≡ text ++ (b'\n' ∷ flat es'))
unfolding recv_line
recv_line_took es es' cap line e = line_loop_took (cap - 1) [] es es' line e
