-- ===== src/Logger/Queue.antt =====
-- What the queue of components/core/src/logger.c holds.
use espshell.Prelude.{
  ℕ, ◌≤◌, ◌<◌, ◌≡◌, ◌≢◌, refl, Bool, true, false, ◌||◌, List, [], ◌∷◌, ◌++◌, Option, none, some,
  ltb, leb, ◌==◌, if◌then◌else◌, length, length-append, All, All-append, arith, Bool-cases, inl,
  inr, ltb→lt, tests, take_all, subst, sym, ap, ◌⊎◌,
}
use espshell.Logger.{
  Logger, init_queue, logger_init, log_header, log_line, enqueue, submit, format_line, logger_log,
  receive, logger_drain,
}
use espshell.Logger.Lines.{IsLine, Plain, log_line-IsLine}

abbrev Queued : Option (List (List ℕ)) → Type 0
Queued none = Unit
Queued (some q) = All IsLine q × (length q ≤ 32)

pub record IsLogger (l : Logger) : Type 0 where
  pub queued : Queued l.q
  pub shown : All IsLine l.printed

enqueue-Queued :
    (line : List ℕ) (q : Option (List (List ℕ))) → IsLine line → Queued q → Queued (enqueue line q)
unfolding enqueue
enqueue-Queued line none new h = tt
enqueue-Queued line (some q) new (lines, small) = elim (Bool-cases (ltb (length q) 32)) [
  | inl room ↦ rw room (
    All-append IsLine q (line ∷ []) lines (new, tt),
    omega (tests, length-append q (line ∷ []), ltb→lt (length q) 32 room),
  )
  | inr full ↦ rw full (lines, small)
]

either-Queued :
    (b : Bool) (x y : Option (List (List ℕ))) → Queued x → Queued y → Queued (if b then x else y)
either-Queued true x y hx hy = hx
either-Queued false x y hx hy = hy

submit-IsLogger : (l : Logger) (line : List ℕ) → IsLine line → IsLogger l → IsLogger (submit l line)
unfolding submit
submit-IsLogger l line new h = record {
  queued =
      either-Queued (Logger.stream l) (enqueue line (Logger.q l)) (Logger.q l)
        (enqueue-Queued line (Logger.q l) new h.queued) h.queued;
  shown = All-append IsLine (Logger.printed l) (line ∷ []) h.shown (new, tt);
}

format_line-IsLogger :
    (l : Logger) (lvl : ℕ) (tag text : Option (List ℕ))
    → ((t : List ℕ) → tag ≡ some t → All Plain t)
    → length (log_header lvl tag) < 256
    → IsLogger l
    → IsLogger (format_line l (log_header lvl tag) text)
unfolding format_line
format_line-IsLogger l lvl tag none plain room h = h
format_line-IsLogger l lvl tag (some text) plain room h =
    submit-IsLogger l (log_line (log_header lvl tag) text) (log_line-IsLine lvl tag text plain room)
      h

init_queue-Queued : (q : Option (List (List ℕ))) → Queued q → Queued (init_queue q)
unfolding init_queue
init_queue-Queued none h = (tt, omega arith)
init_queue-Queued (some q) h = h

logger_init-IsLogger : (l : Logger) → IsLogger l → IsLogger (logger_init l)
unfolding logger_init
logger_init-IsLogger l h = record { queued = init_queue-Queued l.q h.queued; shown = h.shown }

logger_log-IsLogger :
    (l : Logger) (lvl : ℕ) (tag text : Option (List ℕ))
    → ((t : List ℕ) → tag ≡ some t → All Plain t)
    → IsLogger l
    → IsLogger (logger_log l lvl tag text)
unfolding logger_log
logger_log-IsLogger l lvl tag text plain h = elim (Bool-cases (lvl == 0 || ltb l.level lvl)) [
  | inl quiet ↦ rw quiet h
  | inr loud ↦ elim (Bool-cases (leb 256 (length (log_header lvl tag)))) [
    | inl long ↦ rw (loud, long) h
    | inr fits ↦ rw (loud, fits) (format_line-IsLogger l lvl tag text plain (ground arith) h)
  ]
]

-- What `logger_drain` gives of a queue: the oldest message, as it was put in, which leaves the queue.
abbrev pub Drained : Option (List (List ℕ)) → Option (List ℕ) × Logger → Type 0
Drained none r = (r.0 ≡ none) × (Logger.q r.1 ≡ none)
Drained (some []) r = (r.0 ≡ none) × (Logger.q r.1 ≡ some [])
Drained (some (m ∷ q)) r = (r.0 ≡ some m) × (Logger.q r.1 ≡ some q) × IsLine m

-- What is logged comes behind the messages that wait, or is dropped.
abbrev pub Queues : Option (List (List ℕ)) → Option (List (List ℕ)) → Type 0
Queues before after =
    (after ≡ before)
    ⊎ ((q : List (List ℕ)) × (line : List ℕ) × (before ≡ some q)
        × (after ≡ some (q ++ (line ∷ []))))

receive-Drained :
    (l : Logger) (q : Option (List (List ℕ)))
    → l.q ≡ q
    → All IsLine l.printed
    → Queued q
    → IsLogger (receive l 256 q).1 × Drained q (receive l 256 q)
unfolding receive
receive-Drained l none same shown hq =
    (record { queued = subst Queued (sym same) hq; shown = shown }, (refl, same))
receive-Drained l (some []) same shown hq =
    (record { queued = subst Queued (sym same) hq; shown = shown }, (refl, same))
receive-Drained l (some (m ∷ q)) same shown ((first, rest), small) = (
  record { queued = (rest, omega arith); shown = shown },
  (ap some (take_all 255 m first.fits), refl, first),
)

enqueue-Queues : (line : List ℕ) (q : Option (List (List ℕ))) → Queues q (enqueue line q)
unfolding enqueue
enqueue-Queues line none = inl refl
enqueue-Queues line (some q) = elim (Bool-cases (ltb (length q) 32)) [
  | inl room ↦ rw room (inr (q, line, refl, refl))
  | inr full ↦ rw full (inl refl)
]

submit-Queues : (l : Logger) (line : List ℕ) → Queues l.q (Logger.q (submit l line))
unfolding submit
submit-Queues l line = elim (Bool-cases (Logger.stream l)) [
  | inl on ↦ rw on (enqueue-Queues line (Logger.q l))
  | inr off ↦ rw off (inl refl)
]

format_line-Queues :
    (l : Logger) (hdr : List ℕ) (text : Option (List ℕ))
    → Queues l.q (Logger.q (format_line l hdr text))
unfolding format_line
format_line-Queues l hdr none = inl refl
format_line-Queues l hdr (some text) = submit-Queues l (log_line hdr text)

logger_log-Queues :
    (l : Logger) (lvl : ℕ) (tag text : Option (List ℕ))
    → Queues l.q (Logger.q (logger_log l lvl tag text))
unfolding logger_log
logger_log-Queues l lvl tag text = elim (Bool-cases (lvl == 0 || ltb l.level lvl)) [
  | inl quiet ↦ rw quiet (inl refl)
  | inr loud ↦ elim (Bool-cases (leb 256 (length (log_header lvl tag)))) [
    | inl long ↦ rw (loud, long) (inl refl)
    | inr fits ↦ rw (loud, fits) (format_line-Queues l (log_header lvl tag) text)
  ]
]

-- The queue of at most 32 messages and all that is printed stay lines of at most 255 bytes that start
-- with `EVT LOG ` and hold no line end, whatever is logged under a tag without one and whatever is taken
-- out. What is logged comes behind the messages that wait, or is dropped; `logger_drain` into a buffer of
-- 256 bytes takes out the oldest message, whole, and leaves the others.
pub logger-IsLogger :
    (l : Logger) (lvl : ℕ) (tag text : Option (List ℕ))
    → ((t : List ℕ) → tag ≡ some t → All (λ c. (c ≢ b'\n') × (c ≢ b'\r')) t)
    → IsLogger l
    → IsLogger (logger_init l)
      × IsLogger (logger_log l lvl tag text)
      × Queues l.q (Logger.q (logger_log l lvl tag text))
      × IsLogger (logger_drain l 256).1
      × Drained l.q (logger_drain l 256)
unfolding logger_drain
logger-IsLogger l lvl tag text plain h =
    let (left, taken) = receive-Drained l l.q refl h.shown h.queued in
    (
      logger_init-IsLogger l h,
      logger_log-IsLogger l lvl tag text plain h,
      logger_log-Queues l lvl tag text,
      left,
      taken,
    )
