-- ===== src/Logger.antt =====
-- components/core/src/logger.c. A level is its number, `LOG_NONE` 0 to `LOG_VERBOSE` 5. The queue is
-- the list of its messages, and `none` before `logger_init`; a receive that waits on an empty queue
-- fails. `vsnprintf` is a parameter by its result: the formatted text, `none` for an error.
pub mod Lines
pub mod Queue
mod Tests
use espshell.Prelude.{
  ℕ, zero, suc, ◌+◌, ◌-◌, Bool, true, false, ◌&&◌, ◌||◌, not, List, [], ◌∷◌, ◌++◌, Option, none,
  some, ltb, leb, ◌==◌, if◌then◌else◌, length, take, map, codes,
}

abbrev pub queue_len : ℕ
queue_len = 32

abbrev pub line_max : ℕ
line_max = 256

-- `printed` is what went to the UART.
pub record Logger : Type 0 where
  pub q : Option (List (List ℕ))
  pub level : ℕ
  pub stream : Bool
  pub printed : List (List ℕ)

abbrev pub boot_logger : Logger
boot_logger = record { q = none; level = 3; stream = true; printed = [] }

unfoldable pub level_str : ℕ → List ℕ
level_str l =
    if l == 1
    then codes "ERR"
    else if l == 2
    then codes "WARN"
    else if l == 3
    then codes "INFO"
    else if l == 4
    then codes "DEBUG"
    else if l == 5
    then codes "VERB"
    else codes "?"

unfoldable pub init_queue : Option (List (List ℕ)) → Option (List (List ℕ))
init_queue none = some []
init_queue (some q) = some q

unfoldable pub logger_init : Logger → Logger
unfolding init_queue
logger_init l = record l { q = init_queue (Logger.q l) }

abbrev pub logger_set_level : Logger → ℕ → Logger
logger_set_level l lvl = record l { level = lvl }

abbrev pub logger_set_stream : Logger → Bool → Logger
logger_set_stream l en = record l { stream = en }

abbrev pub or_dash : Option (List ℕ) → List ℕ
or_dash none = codes "-"
or_dash (some tag) = tag

unfoldable pub log_header : ℕ → Option (List ℕ) → List ℕ
unfolding level_str
log_header lvl tag =
    codes "EVT LOG " ++ (level_str lvl ++ (codes " " ++ (or_dash tag ++ codes " ")))

abbrev pub one_line : ℕ → ℕ
one_line c = if c == b'\n' || c == b'\r' then b' ' else c

-- `m.line`: what fits behind the header, without line ends.
unfoldable pub log_line : List ℕ → List ℕ → List ℕ
log_line hdr text = hdr ++ map one_line (take (line_max - length hdr - 1) text)

-- `xQueueSend` without a wait: a full queue drops the message.
unfoldable pub enqueue : List ℕ → Option (List (List ℕ)) → Option (List (List ℕ))
enqueue line none = none
enqueue line (some q) = if ltb (length q) queue_len then some (q ++ (line ∷ [])) else some q

unfoldable pub submit : Logger → List ℕ → Logger
unfolding enqueue
submit l line = record l {
  q = (if Logger.stream l then enqueue line (Logger.q l) else Logger.q l);
  printed = Logger.printed l ++ (line ∷ []);
}

unfoldable pub format_line : Logger → List ℕ → Option (List ℕ) → Logger
unfolding submit log_line
format_line l hdr none = l
format_line l hdr (some text) = submit l (log_line hdr text)

unfoldable pub logger_log : Logger → ℕ → Option (List ℕ) → Option (List ℕ) → Logger
unfolding format_line log_header
logger_log l lvl tag text =
    if lvl == 0 || ltb (Logger.level l) lvl
    then l
    else if leb line_max (length (log_header lvl tag))
    then l
    else format_line l (log_header lvl tag) text

unfoldable pub receive : Logger → ℕ → Option (List (List ℕ)) → Option (List ℕ) × Logger
receive l out_sz none = (none, l)
receive l out_sz (some []) = (none, l)
receive l out_sz (some (m ∷ q)) = (some (take (out_sz - 1) m), record l { q = some q })

unfoldable pub logger_drain : Logger → ℕ → Option (List ℕ) × Logger
unfolding receive
logger_drain l out_sz = if out_sz == 0 then (none, l) else receive l out_sz (Logger.q l)
