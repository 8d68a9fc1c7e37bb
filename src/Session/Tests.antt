-- ===== src/Session/Tests.antt =====
-- Rounds of the session loop of components/core/src/net.c on the toy cipher.
use espshell.Prelude.{
  length, ◌^◌, ◌<◌, ◌⊎◌, ℕ, suc, ◌≡◌, refl, arith, true, List, [], ◌∷◌, ◌++◌, some,
  length-replicate, replicate, codes,
}
use espshell.Crypto.Toy.{toy, toy-IsAead, toy_evp, toy_evp-works}
use espshell.Cmd.Registry.{Entry, Handler}
use espshell.Cmd.Dispatch.{cmd_dispatch}
use espshell.Net.{Event, push}
use espshell.Net.Reads.{flat, flat-push, push-Healthy}
use espshell.Proto.{Session, proto_session_init}
use espshell.Proto.Client.{session_init, frame_encrypt, frame_decrypt}
use espshell.Proto.Spec.{sealed_frame}
use espshell.Proto.Sealed.{Linked}
use espshell.Proto.Toy.{toy_psa, toy_psa-works}
use espshell.Proto.Wire.{after_send}
use espshell.Session.{Sent, write_full, Client, session_round}
use espshell.Session.Rounds.{replicate-Willing}
use espshell.Session.Authentic.{Silent, Runs, only_authentic_frames}
use espshell.Session.Answers.{command_answered}

write_run :
    write_full (Sent.took 2 ∷ Sent.interrupted ∷ Sent.took 5 ∷ []) (1 ∷ 2 ∷ 3 ∷ [])
    ≡ (true, 1 ∷ 2 ∷ 3 ∷ [], [])
unfolding write_full
write_run = refl

abbrev key32 : List ℕ
key32 = replicate 32 7

abbrev server : Client
server = record { connected = true; authed = true; sess = proto_session_init key32 }

to_server : Linked (session_init key32) server.sess
unfolding session_init proto_session_init
to_server = record {
  same_key = refl;
  key_size = refl;
  in_step = refl;
  in_range = omega arith;
  same_dir = refl;
  a_up = refl;
  b_up = refl;
}

from_server : Linked server.sess (session_init key32)
unfolding session_init proto_session_init
from_server = record {
  same_key = refl;
  key_size = refl;
  in_step = refl;
  in_range = omega arith;
  same_dir = refl;
  a_up = refl;
  b_up = refl;
}

abbrev count : Handler ℕ
count args err n = (true, codes "counted", err, suc n)

abbrev table : List (Entry ℕ)
table = record { name = codes "count"; help = []; fn = count } ∷ []

abbrev line : List ℕ
line = codes "count"

abbrev frame : List ℕ
frame = sealed_frame toy (session_init key32) line

abbrev socket : List Event
socket = push frame []

abbrev sends : List Sent
sends = replicate 4124 (Sent.took 1)

command_answered_example :
    (frame_encrypt toy_evp (session_init key32) line 1052
      ≡ some (frame, after_send (session_init key32)))
    × ((session_round toy_psa table [] server sends socket 0 5).go_on ≡ true)
    × ((session_round toy_psa table [] server sends socket 0 5).last_err
        ≡ (cmd_dispatch table (line ++ (0 ∷ [])) 4096 0 5).2)
    × ((session_round toy_psa table [] server sends socket 0 5).world
        ≡ (cmd_dispatch table (line ++ (0 ∷ [])) 4096 0 5).3)
    × (b : Session) × (frame_decrypt toy_evp
          (after_send (session_init key32))
          (session_round toy_psa table [] server sends socket 0 5).sent
          8191
        ≡ some ((cmd_dispatch table (line ++ (0 ∷ [])) 4096 0 5).0.1, b))
    × Linked b (session_round toy_psa table [] server sends socket 0 5).client.sess
    × Linked (session_round toy_psa table [] server sends socket 0 5).client.sess b
command_answered_example =
    command_answered toy-IsAead toy_psa-works toy_evp-works table [] server (session_init key32)
      sends socket line [] 0 5 to_server from_server refl refl (omega arith)
      (replicate-Willing 4124 0) (omega (arith, length-replicate 4124 (Sent.took 1)))
      (push-Healthy frame [] tt) (flat-push frame [])

-- A frame with a sequence number that is not the next.
abbrev stray : List ℕ
stray = 0 ∷ 28 ∷ 1 ∷ 0 ∷ replicate 24 9

server_key : length (Session.key server.sess) ≡ 32
unfolding proto_session_init
server_key = refl

server_seq : Session.rx_seq server.sess < 2 ^ 64
unfolding proto_session_init
server_seq = omega arith

only_authentic_frames_example :
    Silent server sends 0 5 (session_round toy_psa table [] server sends (push stray []) 0 5)
    ⊎ Runs toy table []
        (flat (push stray []))
        server
        0
        5
        (session_round toy_psa table [] server sends (push stray []) 0 5)
only_authentic_frames_example =
    only_authentic_frames toy-IsAead toy_psa-works table [] (push stray []) server sends 0 5
      server_key server_seq (omega arith)
