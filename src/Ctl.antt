-- ===== src/Ctl.antt =====
-- tools/esp-ctl/src/esp-ctl.c behind the handshake: a command and its reply. The terminal is whether
-- stdout is one, whether it is coloured, the time that `strftime` prints, and the lines that have been
-- printed; what goes to stderr is left out. The buffers of replies have 8192 bytes.
pub mod Events
pub mod Upload
pub mod Main
pub mod Send
mod Tests
mod Talk
use espshell.Prelude.{
  ℕ, zero, suc, ◌+◌, ◌-◌, Bool, true, false, List, [], ◌∷◌, ◌++◌, Option, none, some, ltb, ◌==◌,
  drop, if◌then◌else◌, length, replicate, bytes_eq, codes,
}
use espshell.Clib.{c_string, starts_with, skip_spaces, is_space, format}
use espshell.Crypto.{Evp}
use espshell.Net.{Event, Read, read_loop, frame_rest}
use espshell.Net.Reads.{flat}
use espshell.Proto.{Session}
use espshell.Proto.Client.{frame_encrypt, frame_decrypt}
use espshell.Session.{max_line, max_resp}
use espshell.Handshake.{Link, write_link}

pub record Console : Type 0 where
  pub g_tty : Bool
  pub g_color : Bool
  pub now : List ℕ
  pub out : List (List ℕ)

abbrev pub puts : Console → List ℕ → Console
puts con line = record con { out = con.out ++ (line ∷ []) }

unfoldable pub level_color : List ℕ → List ℕ
level_color lvl =
    if bytes_eq lvl (codes "ERR")
    then 27 ∷ codes "[31m"
    else if bytes_eq lvl (codes "WARN")
    then 27 ∷ codes "[33m"
    else if bytes_eq lvl (codes "DEBUG")
    then 27 ∷ codes "[2m"
    else if bytes_eq lvl (codes "VERBOSE")
    then 27 ∷ codes "[2m"
    else []

-- `%15s` and `%31s`, behind white space: at most `room` bytes, and what is left.
unfoldable pub scan_word : ℕ → List ℕ → List ℕ × List ℕ
scan_word zero s = ([], s)
scan_word (suc room) [] = ([], [])
scan_word (suc room) (c ∷ s) =
    let (word, rest) = scan_word room s in if is_space c then ([], c ∷ s) else (c ∷ word, rest)

abbrev tag_and_text : List ℕ → List ℕ × List ℕ → Option (List ℕ × List ℕ × List ℕ)
tag_and_text lvl ([], rest) = none
tag_and_text lvl (c ∷ tag, rest) = some (lvl, c ∷ tag, skip_spaces rest)

abbrev level_and_rest : List ℕ × List ℕ → Option (List ℕ × List ℕ × List ℕ)
level_and_rest ([], rest) = none
level_and_rest (c ∷ lvl, rest) = tag_and_text (c ∷ lvl) (scan_word 31 (skip_spaces rest))

abbrev after_evt : List ℕ → Option (List ℕ × List ℕ × List ℕ)
after_evt s =
    if starts_with (codes "LOG") s
    then level_and_rest (scan_word 15 (skip_spaces (drop 3 s)))
    else none

-- `sscanf(line, "EVT LOG %15s %31s %n", ...)`: the level, the tag and the text from the offset on.
unfoldable pub scan_log : List ℕ → Option (List ℕ × List ℕ × List ℕ)
unfolding scan_word skip_spaces
scan_log line =
    if starts_with (codes "EVT") line then after_evt (skip_spaces (drop 3 line)) else none

-- `%-7s` and `%-12s`.
abbrev pub pad : ℕ → List ℕ → List ℕ
pad width s = s ++ replicate (width - length s) b' '

unfoldable pub decorated : Console → List ℕ → Option (List ℕ × List ℕ × List ℕ) → List ℕ
unfolding level_color
decorated con line scanned =
    let escape : List ℕ → List ℕ = λ s. if con.g_color then 27 ∷ s else [] in
    let dim = escape (codes "[2m") in
    let rst = escape (codes "[0m") in
    elim scanned [
      | none ↦ format (dim ∷ con.now ∷ rst ∷ codes " " ∷ line ∷ [])
      | some (lvl, tag, msg) ↦ format (
          dim
          ∷ con.now
          ∷ rst
          ∷ codes " "
          ∷ (if con.g_color then level_color lvl else [])
          ∷ pad 7 lvl
          ∷ rst
          ∷ codes " "
          ∷ escape (codes "[36m")
          ∷ pad 12 tag
          ∷ rst
          ∷ codes " "
          ∷ msg
          ∷ [])
    ]

unfoldable pub emit_evt : Console → List ℕ → Console
unfolding decorated scan_log
emit_evt con line = puts con (if con.g_tty then decorated con line (scan_log line) else line)

abbrev or_ok : List ℕ → List ℕ
or_ok [] = codes "OK"
or_ok (c ∷ rest) = c ∷ rest

-- `while (*rest == ' ') rest++`.
unfoldable pub skip_blanks : List ℕ → List ℕ
skip_blanks [] = []
skip_blanks (c ∷ s) = let rest = skip_blanks s in if c == b' ' then rest else c ∷ s

unfoldable pub print_reply : Console → List ℕ → ℕ × Console
unfolding emit_evt skip_blanks
print_reply con reply =
    if starts_with (codes "OK") reply
    then (0, puts con (or_ok (skip_blanks (drop 2 reply))))
    else if starts_with (codes "ERR ") reply
    then (4, con)
    else if starts_with (codes "EVT ") reply
    then (0, emit_evt con reply)
    else (0, puts con reply)

pub record Peer : Type 0 where
  pub link : Link
  pub sess : Session
  pub console : Console

unfoldable pub read_full : List Event → ℕ → Option (Read × List Event)
unfolding read_loop
read_full es n = read_loop (suc (n + length es)) n es

-- The frame of `recv_reply`; the inner `none` is -1.
unfoldable pub reply_frame : List Event → Option (Option (List ℕ) × List Event)
unfolding read_full frame_rest
reply_frame es = frame_rest (12 + max_resp + 16) (read_full es 2)

module _ (evp : Evp) where
  unfoldable pub write_cmd : Peer → Option (List ℕ × Session) → Bool × Peer
  unfolding write_link
  write_cmd p none = (false, p)
  write_cmd p (some (frame, sess)) =
      let (ok, l) = write_link p.link frame in (ok, record p { link = l; sess = sess })

  unfoldable pub send_cmd : Peer → List ℕ → Bool × Peer
  unfolding write_cmd
  send_cmd p cmd =
      if ltb max_line (length cmd)
      then (false, p)
      else write_cmd p (frame_encrypt evp p.sess cmd (12 + max_line + 16))

  unfoldable pub open_text : Peer → Option (List ℕ × Session) → Option (List ℕ) × Peer
  open_text p none = (none, p)
  open_text p (some (text, sess)) = (some (c_string text), record p { sess = sess })

  unfoldable pub open_reply :
      Peer → ℕ → Option (Option (List ℕ) × List Event) → Option (List ℕ) × Peer
  unfolding open_text
  open_reply p out_cap none = (none, p)
  open_reply p out_cap (some (none, es)) = (none, record p { link = record p.link { events = es } })
  open_reply p out_cap (some (some frame, es)) =
      open_text (record p { link = record p.link { events = es } })
        (frame_decrypt evp p.sess frame (out_cap - 1))

  -- The reply as a C string, or `none` for -1.
  unfoldable pub recv_reply : Peer → ℕ → Option (List ℕ) × Peer
  unfolding open_reply reply_frame
  recv_reply p out_cap = open_reply p out_cap (reply_frame (Link.events p.link))

  unfoldable pub reply_or_event :
      (Peer → Option (Option (List ℕ) × Peer))
      → Option (List ℕ) × Peer
      → Option (Option (List ℕ) × Peer)
  unfolding emit_evt
  reply_or_event again (none, p) = some (none, p)
  reply_or_event again (some out, p) =
      if starts_with (codes "EVT ") out
      then again (record p { console = emit_evt p.console out })
      else some (some out, p)

  -- `for (;;)`, with a round for each byte that still comes and one more; `none` is out of rounds.
  unfoldable pub reply_loop : ℕ → Peer → ℕ → Option (Option (List ℕ) × Peer)
  unfolding recv_reply reply_or_event
  reply_loop zero p out_cap = none
  reply_loop (suc rounds) p out_cap =
      reply_or_event (λ p'. reply_loop rounds p' out_cap) (recv_reply p out_cap)

  unfoldable pub recv_cmd_reply : Peer → ℕ → Option (Option (List ℕ) × Peer)
  unfolding reply_loop
  recv_cmd_reply p out_cap = reply_loop (suc (length (flat (Link.events p.link)))) p out_cap

  unfoldable pub show_reply : Option (Option (List ℕ) × Peer) → Option (ℕ × Peer)
  unfolding print_reply
  show_reply none = none
  show_reply (some (none, p)) = some (3, p)
  show_reply (some (some reply, p)) =
      let (code, con) = print_reply p.console reply in some (code, record p { console = con })

  unfoldable pub replied : Bool × Peer → Option (ℕ × Peer)
  unfolding show_reply recv_cmd_reply
  replied (false, p) = some (3, p)
  replied (true, p) = show_reply (recv_cmd_reply p 8192)

  -- Answers the exit code.
  unfoldable pub do_one_shot : Peer → List ℕ → Option (ℕ × Peer)
  unfolding replied send_cmd
  do_one_shot p cmd = replied (send_cmd p cmd)
