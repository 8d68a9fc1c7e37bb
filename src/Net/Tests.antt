-- ===== src/Net/Tests.antt =====
-- Reads from small sockets with the functions of components/core/src/net.c.
use espshell.Prelude.{ℕ, ◌≡◌, refl, arith, List, [], ◌∷◌, ◌++◌, some, replicate}
use espshell.Proto.{rd16}
use espshell.Net.{Event, Read, recv, read_loop, read_full, recv_frame}
use espshell.Net.Reads.{flat, Healthy}
use espshell.Net.Frames.{recv_frame_lem}

-- The bytes 1 to 5 in two parts, with an interruption between them.
abbrev socket : List Event
socket = Event.bytes 1 (2 ∷ []) ∷ Event.interrupted ∷ Event.bytes 3 (4 ∷ 5 ∷ []) ∷ []

read_run : read_full socket 4 ≡ some (Read.full (1 ∷ 2 ∷ 3 ∷ 4 ∷ []), Event.bytes 5 [] ∷ [])
unfolding read_full read_loop recv
read_run = refl

short_run : read_full socket 6 ≡ some (Read.eof, [])
unfolding read_full read_loop recv
short_run = refl

abbrev frame : List ℕ
frame = 0 ∷ 28 ∷ replicate 26 7

abbrev frame_socket : List Event
frame_socket = Event.bytes 0 [] ∷ Event.bytes 28 (replicate 26 7 ++ (9 ∷ [])) ∷ []

frame_length : rd16 frame ≡ 28
unfolding rd16
frame_length = refl

recv_frame_lem_example :
    (es' : List Event) × (recv_frame frame_socket 1052 ≡ some (some frame, es'))
    × (flat es' ≡ 9 ∷ [])
    × Healthy es'
recv_frame_lem_example =
    recv_frame_lem frame_socket frame (9 ∷ []) 1052 tt refl frame_length (omega arith) (omega arith)

abbrev line_socket : List Event
line_socket = Event.bytes b'O' [] ∷ Event.bytes b'K' (b'\r' ∷ b'\n' ∷ 1 ∷ []) ∷ []
