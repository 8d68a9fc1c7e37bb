-- ===== src/Proto/Tests.antt =====
-- Runs of the frame functions on the toy cipher, and the theorems at concrete inputs.
use espshell.Prelude.{
  ℕ, ◌≡◌, ◌≢◌, refl, true, List, [], ◌∷◌, ◌++◌, none, some, arith, replicate, codes, bytes_eq,
}
use espshell.Crypto.Toy.{toy, toy-IsAead, tag_of, toy_evp, toy_evp-works}
use espshell.Proto.{
  Session, proto_session_init, proto_frame_encrypt, proto_frame_decrypt, build_nonce, be64, be_loop,
  frame_header, be16, rd16, rd64, rd_loop,
}
use espshell.Proto.Client.{session_init, frame_encrypt, frame_decrypt}
use espshell.Proto.Agreement.{codecs_agree}
use espshell.Proto.Sealed.{Linked}
use espshell.Proto.Wire.{each, server_to_client, client_to_server}
use espshell.Proto.Replay.{accepted_once}
use espshell.Proto.Document.{doc_nonce, doc_frame, doc_encrypt, doc_decrypt}
use espshell.Proto.Document.Follows.{device_follows_document}
use espshell.Proto.Nonces.{nonces_fresh}
use espshell.Proto.Toy.{toy_psa, toy_psa-works}

abbrev key32 : List ℕ
key32 = replicate 32 7

abbrev server : Session
server = record { key = key32; rx_seq = 0; tx_seq = 0; rx_dir = 1; tx_dir = 0; established = true }

init_run : proto_session_init key32 ≡ server
unfolding proto_session_init
init_run = refl

-- 5 bytes of text make a frame of 33 bytes.
seal_run :
    proto_frame_encrypt toy_psa server (codes "OK hi") 64
    ≡ some (
      0 ∷ 33 ∷ 1 ∷ 0 ∷ replicate 8 0 ++ (codes "OK hi" ++ replicate 16 0),
      record server { tx_seq = 1 },
    )
unfolding proto_frame_encrypt frame_header be16 be64 be_loop build_nonce tag_of
seal_run = refl

-- What the client sends first: the frame of "PING".
abbrev ping_frame : List ℕ
ping_frame = 0 ∷ 32 ∷ 1 ∷ 0 ∷ replicate 8 0 ++ (codes "PING" ++ (1 ∷ replicate 15 0))

device_follows_document_example :
    (proto_frame_encrypt toy_psa server (codes "OK") 64 ≡ doc_encrypt toy server (codes "OK") 64)
    × (proto_frame_decrypt toy_psa server ping_frame 64 ≡ doc_decrypt toy server ping_frame 64)
device_follows_document_example =
    device_follows_document toy-IsAead toy_psa-works server (codes "OK") ping_frame 64 refl
      (omega arith) (omega arith)

codecs_agree_example :
    (proto_frame_encrypt toy_psa server (codes "OK") 64
      ≡ frame_encrypt toy_evp server (codes "OK") 64)
    × (proto_frame_decrypt toy_psa server (codes "OK") 64
        ≡ frame_decrypt toy_evp server (codes "OK") 64)
codecs_agree_example =
    codecs_agree toy-IsAead toy_psa-works toy_evp-works server (codes "OK") 64 refl

abbrev two_texts : List (List ℕ)
two_texts = codes "OK PONG" ∷ codes "EVT LOG" ∷ []

server_to_client_example :
    (frames : List (List ℕ)) × (s : Session) × (c : Session) × (each
        (λ x t. proto_frame_encrypt toy_psa x t 4124)
        (proto_session_init key32)
        two_texts
      ≡ some (frames, s))
    × (each (λ x f. frame_decrypt toy_evp x f 8191) (session_init key32) frames
        ≡ some (two_texts, c))
    × Linked s c
server_to_client_example =
    server_to_client toy-IsAead toy_psa-works toy_evp-works key32 refl two_texts (omega arith)

client_to_server_example :
    (frames : List (List ℕ)) × (c : Session) × (s : Session) × (each
        (λ x t. frame_encrypt toy_evp x t 1052)
        (session_init key32)
        two_texts
      ≡ some (frames, c))
    × (each (λ x f. proto_frame_decrypt toy_psa x f 1024) (proto_session_init key32) frames
        ≡ some (two_texts, s))
    × Linked c s
client_to_server_example =
    client_to_server toy-IsAead toy_psa-works toy_evp-works key32 refl two_texts (omega arith)

open_run :
    proto_frame_decrypt toy_psa server ping_frame 1024
    ≡ some (codes "PING", record server { rx_seq = 1 })
unfolding proto_frame_decrypt rd16 rd64 rd_loop be64 be_loop build_nonce tag_of bytes_eq
open_run = refl

each_run :
    each (λ x f. proto_frame_decrypt toy_psa x f 1024) server (ping_frame ∷ [])
    ≡ some (codes "PING" ∷ [], record server { rx_seq = 1 })
unfolding each
each_run = rw open_run

accepted_once_example :
    proto_frame_decrypt toy_psa (record server { rx_seq = 1 }) ping_frame 2048 ≡ none
accepted_once_example =
    accepted_once toy_psa server (record server { rx_seq = 1 }) ping_frame [] (codes "PING" ∷ [])
      1024 2048 (omega arith) (omega arith) each_run

send_run :
    each (λ x t. proto_frame_encrypt toy_psa x t 64) server (codes "OK hi" ∷ [])
    ≡ some (
      (0 ∷ 33 ∷ 1 ∷ 0 ∷ replicate 8 0 ++ (codes "OK hi" ++ replicate 16 0)) ∷ [],
      record server { tx_seq = 1 },
    )
unfolding each
send_run = rw seal_run

next_run :
    proto_frame_encrypt toy_psa (record server { tx_seq = 1 }) (codes "OK hi") 64
    ≡ some (
      0 ∷ 33 ∷ 1 ∷ 0 ∷ replicate 7 0
          ++ (1 ∷ (codes "OK hi" ++ (replicate 8 0 ++ (1 ∷ replicate 7 0)))),
      record server { tx_seq = 2 },
    )
unfolding proto_frame_encrypt frame_header be16 be64 be_loop build_nonce tag_of
next_run = refl

nonces_fresh_example :
    (0 ∷ 33 ∷ 1 ∷ 0 ∷ replicate 8 0 ++ (codes "OK hi" ++ replicate 16 0)
      ≡ doc_frame toy server (codes "OK hi"))
    × (0 ∷ 33 ∷ 1 ∷ 0 ∷ replicate 7 0
          ++ (1 ∷ (codes "OK hi" ++ (replicate 8 0 ++ (1 ∷ replicate 7 0))))
        ≡ doc_frame toy (record server { tx_seq = 1 }) (codes "OK hi"))
    × (key32 ≡ key32)
    × (doc_nonce 0 1 ≢ doc_nonce 0 0)
nonces_fresh_example =
    nonces_fresh toy-IsAead toy_psa-works 64 server (record server { tx_seq = 1 })
      (record server { tx_seq = 2 }) (codes "OK hi") (codes "OK hi") _ _ [] [] refl (omega arith)
      (omega arith) send_run next_run
