-- ===== src/Ctl/Main.antt =====
-- The rest of tools/esp-ctl/src/esp-ctl.c behind the handshake: the token file, the log stream, the shell
-- and the choice of the subcommand. A file is what `fgets` gives of its first line, stdin the lines that
-- `fgets` gives; the signal of Ctrl-C is a function of the lines that have been read.
use espshell.Prelude.{
  ℕ, zero, suc, ◌+◌, ◌-◌, Bool, true, false, ◌&&◌, ◌||◌, not, List, [], ◌∷◌, ◌++◌, Option, none,
  some, leb, ◌==◌, if◌then◌else◌, length, bytes_eq, codes,
}
use espshell.Clib.{c_string}
use espshell.Crypto.{Evp}
use espshell.Proto.Client.{session_wipe}
use espshell.Session.{max_line}
use espshell.Ctl.{Peer, puts, emit_evt, send_cmd, recv_reply, recv_cmd_reply, do_one_shot}
use espshell.Ctl.Upload.{connection, do_ota_upload}

-- The bytes in front of the last run of those that `end` holds of.
unfoldable pub strip_end : (ℕ → Bool) → List ℕ → List ℕ
strip_end end [] = []
strip_end end (c ∷ s) = elim (strip_end end s) [
  | [] ↦ if end c then [] else c ∷ []
  | d ∷ t ↦ c ∷ d ∷ t
]

abbrev line_end : ℕ → Bool
line_end c = c == b'\n' || c == b'\r'

unfoldable pub load_token_file : Option (Option (List ℕ)) → Option (List ℕ)
unfolding strip_end
load_token_file none = none
load_token_file (some none) = none
load_token_file (some (some buf)) = some (strip_end (λ c. line_end c || c == b' ') (c_string buf))

-- `send`: the arguments with a space between them, while they fit in the buffer.
unfoldable pub join_args : Bool → List ℕ → List (List ℕ) → Option (List ℕ)
join_args first buf [] = some buf
join_args first buf (arg ∷ args) =
    let piece = (if first then [] else codes " ") ++ arg in
    let rest = join_args false (buf ++ piece) args in
    if leb (max_line - length buf) (length piece) then none else rest

module _ (evp : Evp) where
  -- The loop of `do_logs`: `rounds` frames at most, `none` when they are used up.
  unfoldable pub follow_logs : ℕ → (ℕ → Bool) → ℕ → Peer → Option (ℕ × Peer)
  unfolding recv_reply emit_evt
  follow_logs zero g_stop i p = none
  follow_logs (suc rounds) g_stop i p =
      let (line, p') = recv_reply evp p 8192 in
      let next : List ℕ → Option (ℕ × Peer) = λ text.
        follow_logs rounds g_stop (i + 1)
          (record p' { console = emit_evt (Peer.console p') text }) in
      if g_stop i then some (0, p) else elim line [ none ↦ some (3, p') | some text ↦ next text ]

  unfoldable pub do_logs : ℕ → (ℕ → Bool) → Peer → Option (ℕ × Peer)
  unfolding follow_logs send_cmd recv_reply
  do_logs rounds g_stop p =
      let (ok, p1) = send_cmd evp p (codes "LOG_STREAM ON") in
      let (ack, p2) = recv_reply evp p1 256 in
      if ok
      then (elim ack [ none ↦ some (3, p2) | some text ↦ follow_logs rounds g_stop 0 p2 ])
      else some (3, p1)

  -- A line of the shell that goes to the device.
  unfoldable pub shell_ask : (Peer → Option (ℕ × Peer)) → Bool × Peer → Option (ℕ × Peer)
  unfolding recv_cmd_reply
  shell_ask next (false, p) = some (3, p)
  shell_ask next (true, p) = elim (recv_cmd_reply evp p 8192) [
    | none ↦ none
    | some answer ↦ elim answer.0 [
      | none ↦ some (3, answer.1)
      | some reply ↦ next (record answer.1 { console = puts (Peer.console answer.1) reply })
    ]
  ]

  -- The prompt is left out.
  unfoldable pub do_shell : List (List ℕ) → Peer → Option (ℕ × Peer)
  unfolding shell_ask send_cmd strip_end
  do_shell [] p = some (0, p)
  do_shell (input ∷ stdin) p =
      let line = strip_end line_end (c_string input) in
      let again : Peer → Option (ℕ × Peer) = λ p'. do_shell stdin p' in
      if length line == 0
      then again p
      else if bytes_eq line (codes "exit") || bytes_eq line (codes "quit")
      then some (0, p)
      else shell_ask again (send_cmd evp p line)

  unfoldable pub do_send : List (List ℕ) → Peer → Option (ℕ × Peer)
  unfolding join_args do_one_shot
  do_send args p = elim (join_args true [] args) [
    | none ↦ some (1, p)
    | some cmd ↦ do_one_shot evp p cmd
  ]

  -- What `main` does with a subcommand on an open session; `rounds`, `g_stop`, `stdin` and `read_file`
  -- are for the subcommands that need them.
  unfoldable pub run_subcommand :
      ℕ
      → (ℕ → Bool)
      → List (List ℕ)
      → (List ℕ → Option (List ℕ))
      → (List ℕ → Option (List ℕ))
      → List ℕ
      → List (List ℕ)
      → Peer
      → Option (ℕ × Peer)
  unfolding do_one_shot do_logs do_shell do_send do_ota_upload
  run_subcommand rounds g_stop stdin read_file digest sub args p =
      let upload : List (List ℕ) → Option (ℕ × Peer) = λ words. elim words [
        | [] ↦ some (1, p)
        | word ∷ more ↦ elim more [
          | [] ↦ some (1, p)
          | path ∷ rest ↦
              if bytes_eq word (codes "upload")
              then do_ota_upload (connection evp) digest (read_file path) p
              else some (1, p)
        ]
      ] in
      if bytes_eq sub (codes "ping")
      then do_one_shot evp p (codes "PING")
      else if bytes_eq sub (codes "info")
      then do_one_shot evp p (codes "INFO")
      else if bytes_eq sub (codes "stats")
      then do_one_shot evp p (codes "STATS")
      else if bytes_eq sub (codes "cmds")
      then do_one_shot evp p (codes "CMDS")
      else if bytes_eq sub (codes "logs")
      then do_logs rounds g_stop p
      else if bytes_eq sub (codes "shell")
      then do_shell stdin p
      else if bytes_eq sub (codes "ota")
      then upload args
      else if bytes_eq sub (codes "send") && not (length args == 0)
      then do_send args p
      else some (1, p)

  -- `done:`.
  unfoldable pub run_session :
      ℕ
      → (ℕ → Bool)
      → List (List ℕ)
      → (List ℕ → Option (List ℕ))
      → (List ℕ → Option (List ℕ))
      → List ℕ
      → List (List ℕ)
      → Peer
      → Option (ℕ × Peer)
  unfolding run_subcommand session_wipe
  run_session rounds g_stop stdin read_file digest sub args p =
      elim (run_subcommand rounds g_stop stdin read_file digest sub args p) [
        | none ↦ none
        | some r ↦ some (r.0, record r.1 { sess = session_wipe (Peer.sess r.1) })
      ]
