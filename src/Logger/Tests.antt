-- ===== src/Logger/Tests.antt =====
-- Messages through the queue of components/core/src/logger.c.
use espshell.Prelude.{
  ℕ, ◌≡◌, ◌≢◌, refl, Bool, true, ◌&&◌, leb, [], ◌∷◌, List, none, some, codes, All, arith, subst,
}
use espshell.Logger.{
  Logger, boot_logger, logger_init, logger_log, logger_drain, log_header, log_line, level_str,
  enqueue,
}
use espshell.Logger.Queue.{IsLogger, Queues, Drained, logger-IsLogger}

abbrev plain_bytes : List ℕ → Bool
plain_bytes [] = true
plain_bytes (c ∷ s) = leb 32 c && plain_bytes s

log_run :
    (logger_drain
      (logger_log (logger_init boot_logger) 2 (some (codes "net")) (some (codes "a\nb")))
      256).0
    ≡ some (codes "EVT LOG WARN net a b")
unfolding logger_log logger_drain logger_init log_header log_line level_str enqueue
log_run = refl

debug_run : logger_log boot_logger 4 none (some (codes "x")) ≡ boot_logger
unfolding logger_log
debug_run = refl

-- A logger with a message that waits.
abbrev waiting : Logger
waiting = record {
  q = some (codes "EVT LOG INFO net up" ∷ []);
  level = 3;
  stream = true;
  printed = [];
}

waiting_plain : (s : List ℕ) → plain_bytes s ≡ true → All (λ c. (c ≢ b'\n') × (c ≢ b'\r')) s
waiting_plain [] e = tt
waiting_plain (c ∷ s) e = ((λ n. ground arith, λ n. ground arith), waiting_plain s (ground arith))

waiting-IsLogger : IsLogger waiting
waiting-IsLogger = record {
  queued = (
    (
      record {
        plain = waiting_plain (codes "EVT LOG INFO net up") refl;
        fits = omega arith;
        event = refl;
      },
      tt,
    ),
    omega arith,
  );
  shown = tt;
}

net_plain : (t : List ℕ) → some (codes "net") ≡ some t → All (λ c. (c ≢ b'\n') × (c ≢ b'\r')) t
net_plain t e =
    let same : codes "net" ≡ t = cc in
    subst (All (λ c. (c ≢ b'\n') × (c ≢ b'\r'))) same (
      (λ e. omega arith, λ e. omega arith),
      ((λ e. omega arith, λ e. omega arith), ((λ e. omega arith, λ e. omega arith), tt)),
    )

logger-IsLogger_example :
    IsLogger (logger_init waiting)
    × IsLogger (logger_log waiting 2 (some (codes "net")) (some (codes "up")))
    × Queues waiting.q (Logger.q (logger_log waiting 2 (some (codes "net")) (some (codes "up"))))
    × IsLogger (logger_drain waiting 256).1
    × Drained waiting.q (logger_drain waiting 256)
logger-IsLogger_example =
    logger-IsLogger waiting 2 (some (codes "net")) (some (codes "up")) net_plain waiting-IsLogger
