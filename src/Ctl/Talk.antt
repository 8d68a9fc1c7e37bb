-- ===== src/Ctl/Talk.antt =====
-- Replies and commands of tools/esp-ctl/src/esp-ctl.c on the toy cipher.
use espshell.Prelude.{
  ℕ, ◌<◌, ◌≡◌, refl, ◌∙◌, true, false, List, [], ◌∷◌, ◌++◌, append-nil, some, length, replicate,
  map, codes, arith,
}
use espshell.Clib.{c_string, starts_with, skip_spaces}
use espshell.Crypto.Toy.{toy, toy-IsAead, toy_evp, toy_evp-works}
use espshell.Net.{push}
use espshell.Net.Reads.{flat, flat-push, push-Healthy, Healthy}
use espshell.Proto.{Session, proto_session_init}
use espshell.Proto.Client.{session_init}
use espshell.Proto.Sealed.{Linked}
use espshell.Handshake.{Link}
use espshell.Cmd.Tokenizer.{tokenize, string_at}
use espshell.Ctl.{Peer, recv_cmd_reply, scan_log, scan_word}
use espshell.Ctl.Events.{stream, sent_all, emitted, recv_cmd_reply_lem}
use espshell.Ctl.Main.{join_args}
use espshell.Ctl.Send.{send_words}

abbrev key32 : List ℕ
key32 = replicate 32 7

abbrev device_session : Session
device_session = proto_session_init key32

linked : Linked device_session (session_init key32)
unfolding session_init proto_session_init
linked = record {
  same_key = refl;
  key_size = refl;
  in_step = refl;
  in_range = omega arith;
  same_dir = refl;
  a_up = refl;
  b_up = refl;
}

abbrev events : List (List ℕ)
events = codes "EVT HEALTH up" ∷ codes "EVT LOG INFO net ready" ∷ []

abbrev pong : List ℕ
pong = codes "OK PONG"

abbrev wire : List ℕ
wire = stream toy device_session events pong []

abbrev peer : Peer
peer = record {
  link = record { sends = []; events = push wire []; sent = [] };
  sess = session_init key32;
  console = record { g_tty = false; g_color = false; now = []; out = [] };
}

event_kinds :
    (starts_with (codes "EVT ") (c_string (codes "EVT HEALTH up")) ≡ true)
    × (starts_with (codes "EVT ") (c_string (codes "EVT LOG INFO net ready")) ≡ true)
    × (starts_with (codes "EVT ") (c_string pong) ≡ false)
unfolding starts_with c_string
event_kinds = (refl, refl, refl)

recv_cmd_reply_lem_example :
    (p' : Peer) × (recv_cmd_reply toy_evp peer 8192 ≡ some (some (c_string pong), p'))
    × (Peer.console p' ≡ emitted (Peer.console peer) events)
    × (flat (Link.events (Peer.link p')) ≡ [])
    × Healthy (Link.events (Peer.link p'))
    × Linked (sent_all device_session events) (Peer.sess p')
recv_cmd_reply_lem_example =
    recv_cmd_reply_lem toy-IsAead toy_evp-works events device_session peer pong [] linked
      ((omega arith, event_kinds.0), ((omega arith, event_kinds.1), tt)) (omega arith) event_kinds.2
      (push-Healthy wire [] tt) (flat-push wire [] ∙ append-nil wire)

scanned :
    scan_log (codes "EVT LOG INFO net ready now")
    ≡ some (codes "INFO", codes "net", codes "ready now")
unfolding scan_log scan_word starts_with skip_spaces
scanned = refl

joined_args :
    join_args true [] (codes "GPIO_SET" ∷ codes "4" ∷ codes "1" ∷ []) ≡ some (codes "GPIO_SET 4 1")
unfolding join_args
joined_args = refl

send_words_example :
    (length (codes "GPIO_SET 4 1") < 1024)
    × (map
          (string_at (tokenize (codes "GPIO_SET 4 1" ++ (0 ∷ [])) 16).1)
          (tokenize (codes "GPIO_SET 4 1" ++ (0 ∷ [])) 16).0
        ≡ codes "GPIO_SET" ∷ codes "4" ∷ codes "1" ∷ [])
send_words_example =
    send_words (codes "GPIO_SET") (codes "4" ∷ codes "1" ∷ []) (codes "GPIO_SET 4 1") []
      (omega arith) (omega arith) (omega arith) joined_args
