-- ===== src/Ctl/Upload.antt =====
-- `do_ota_upload` of tools/esp-ctl/src/esp-ctl.c, over a channel that takes a command and gives its
-- reply. The file is what `fopen` and `fread` give of it, and its SHA-256 what OpenSSL computes. What
-- goes to stderr is left out.
pub mod Chunks
pub mod Device
pub mod Runs
pub mod Reaches
use espshell.Prelude.{
  ℕ, zero, suc, ◌+◌, ◌-◌, ◌*◌, ◌/◌, ◌%◌, ◌^◌, Bool, true, false, List, [], ◌∷◌, ◌++◌, Option, none,
  some, ltb, ◌==◌, if◌then◌else◌, length, take, drop, codes,
}
use espshell.Clib.{starts_with, print_int}
use espshell.Hex.{hex_char}
use espshell.Hex.Client.{hex_encode}
use espshell.Crypto.{Evp}
use espshell.Session.{max_line}
use espshell.Cmd.Dispatch.{snprintf}
use espshell.Ctl.{Peer, send_cmd, recv_cmd_reply, print_reply}

-- `ask` answers `none` when `send_cmd` or `recv_cmd_reply` fails.
pub record Channel : Type 1 where
  pub State : Type 0
  pub ask : State → List ℕ → Option (List ℕ) × State
  pub print : State → List ℕ → ℕ × State

module _ (evp : Evp) where
  unfoldable pub reply_to : Bool × Peer → Option (List ℕ) × Peer
  unfolding recv_cmd_reply
  reply_to (false, p) = (none, p)
  reply_to (true, p) = elim (recv_cmd_reply evp p 8192) [ none ↦ (none, p) | some answer ↦ answer ]

  -- The encrypted connection.
  abbrev pub connection : Channel
  connection = record {
    State = Peer;
    ask = λ p cmd. reply_to (send_cmd evp p cmd);
    print = λ p reply.
        let (code, con) = print_reply (Peer.console p) reply in (code, record p { console = con });
  }

-- `max_hex / 2`, with `max_hex` an even number.
abbrev pub chunk_size : ℕ
chunk_size = (max_line - 16) / 2 * 2 / 2

-- The digits of a chunk from offset `off` of the line on, as far as they fit.
unfoldable pub chunk_hex : ℕ → List ℕ → List ℕ
chunk_hex off [] = []
chunk_hex off (b ∷ chunk) =
    let rest = chunk_hex (off + 2) chunk in
    if ltb (off + 2) max_line then hex_char (b / 2 ^ 4) ∷ hex_char (b % 2 ^ 4) ∷ rest else []

unfoldable pub data_line : List ℕ → List ℕ
unfolding chunk_hex
data_line chunk = codes "OTA_DATA " ++ chunk_hex 9 chunk

unfoldable pub begin_line : ℕ → List ℕ → List ℕ
begin_line size sha =
    (snprintf max_line (codes "OTA_BEGIN " ++ (print_int size ++ (codes " " ++ hex_encode sha)))).1

module _ (C : Channel) where
  -- The exit code, unless the reply says OK.
  unfoldable pub reply_code : Option (List ℕ) → Option ℕ
  reply_code none = some 3
  reply_code (some reply) = if starts_with (codes "OK") reply then none else some 4

  -- `left` is what is still to send of the file; `none` is out of rounds.
  unfoldable pub upload_loop : ℕ → List ℕ → C.State → Option (Option ℕ × C.State)
  unfolding reply_code data_line
  upload_loop rounds [] s = some (none, s)
  upload_loop zero (b ∷ left) s = none
  upload_loop (suc rounds) (b ∷ left) s =
      let (reply, s') = C.ask s (data_line (take chunk_size (b ∷ left))) in
      let next = upload_loop rounds (drop chunk_size (b ∷ left)) s' in
      elim (reply_code reply) [ some code ↦ some (some code, s') | none ↦ next ]

  unfoldable pub end_upload : Option (Option ℕ × C.State) → Option (ℕ × C.State)
  end_upload none = none
  end_upload (some (some code, s)) = some (code, s)
  end_upload (some (none, s)) =
      let (reply, s') = C.ask s (codes "OTA_END") in
      elim reply [ none ↦ some (3, s') | some text ↦ some (C.print s' text) ]

  -- A round takes a byte or more of the file.
  unfoldable pub send_file : List ℕ → List ℕ → C.State → Option (ℕ × C.State)
  unfolding upload_loop end_upload begin_line
  send_file file sha s =
      let (reply, s') = C.ask s (begin_line (length file) sha) in
      elim (reply_code reply) [
        | some code ↦ some (code, s')
        | none ↦ end_upload (upload_loop (length file) file s')
      ]

  unfoldable pub with_digest : List ℕ → Option (List ℕ) → C.State → Option (ℕ × C.State)
  unfolding send_file
  with_digest file none s = some (3, s)
  with_digest file (some sha) s = if length sha == 32 then send_file file sha s else some (3, s)

  -- Answers the exit code; `digest` is the SHA-256 of OpenSSL, `none` where a call of it fails.
  unfoldable pub do_ota_upload :
      (List ℕ → Option (List ℕ)) → Option (List ℕ) → C.State → Option (ℕ × C.State)
  unfolding with_digest
  do_ota_upload digest none s = some (3, s)
  do_ota_upload digest (some []) s = some (3, s)
  do_ota_upload digest (some (b ∷ file)) s = with_digest (b ∷ file) (digest (b ∷ file)) s
