-- ===== src/Net.antt =====
-- Reading from a socket in components/core/src/net.c: `read_full`, `recv_frame` and `recv_line`. A
-- socket is the sequence of what its calls of `recv` meet: bytes that have come together, of which a
-- call takes as many as it asks for and fit, an interruption, or a failure; at its end the peer has
-- closed. The loops have fuel, and answer `none` when that runs out.
pub mod Reads
pub mod Frames
pub mod Lines
pub mod Shrinks
pub mod Takes
mod Tests
use espshell.Prelude.{
  ℕ, zero, suc, ◌+◌, ◌-◌, Bool, true, false, ◌&&◌, ◌||◌, not, List, [], ◌∷◌, ◌++◌, Option, none,
  some, ltb, leb, ◌==◌, if◌then◌else◌, length, get_or, take, drop,
}
use espshell.Proto.{rd16, frame_header_len, frame_tag_len}

-- `bytes b bs` is one byte or more.
pub data Event : Type 0 where
  bytes : ℕ → List ℕ → Event
  interrupted : Event
  failed : Event

-- The result of `recv`: bytes, 0, or -1 with `EINTR` or another error.
pub data Received : Type 0 where
  got : List ℕ → Received
  closed : Received
  eintr : Received
  error : Received

abbrev pub push : List ℕ → List Event → List Event
push [] es = es
push (b ∷ bs) es = Event.bytes b bs ∷ es

unfoldable pub recv : List Event → ℕ → Received × List Event
recv [] n = (Received.closed, [])
recv (Event.bytes b bs ∷ es) n = (Received.got (take n (b ∷ bs)), push (drop n (b ∷ bs)) es)
recv (Event.interrupted ∷ es) n = (Received.eintr, es)
recv (Event.failed ∷ es) n = (Received.error, es)

-- `read_full` answers `n` with the bytes, 0 or -1.
pub data Read : Type 0 where
  full : List ℕ → Read
  eof : Read
  err : Read

abbrev pub prepend : List ℕ → Option (Read × List Event) → Option (Read × List Event)
prepend bs none = none
prepend bs (some (Read.full cs, es)) = some (Read.full (bs ++ cs), es)
prepend bs (some (Read.eof, es)) = some (Read.eof, es)
prepend bs (some (Read.err, es)) = some (Read.err, es)

-- `n` is what is still wanted.
unfoldable pub read_loop : ℕ → ℕ → List Event → Option (Read × List Event)
unfolding recv
read_loop zero n es = none
read_loop (suc fuel) zero es = some (Read.full [], es)
read_loop (suc fuel) (suc n) es = elim (recv es (suc n)).0 [
  | Received.got bs ↦ prepend bs (read_loop fuel (suc n - length bs) (recv es (suc n)).1)
  | Received.closed ↦ some (Read.eof, (recv es (suc n)).1)
  | Received.eintr ↦ read_loop fuel (suc n) (recv es (suc n)).1
  | Received.error ↦ some (Read.err, (recv es (suc n)).1)
]

unfoldable pub read_full : List Event → ℕ → Option (Read × List Event)
unfolding read_loop
read_full es n = read_loop (suc (n + length es)) n es

abbrev pub min_frame : ℕ
min_frame = frame_header_len + frame_tag_len

-- The inner `none` is -1.
abbrev pub frame_body : List ℕ → Option (Read × List Event) → Option (Option (List ℕ) × List Event)
frame_body hdr none = none
frame_body hdr (some (Read.full [], es)) = some (none, es)
frame_body hdr (some (Read.full (b ∷ bs), es)) = some (some (hdr ++ (b ∷ bs)), es)
frame_body hdr (some (Read.eof, es)) = some (none, es)
frame_body hdr (some (Read.err, es)) = some (none, es)

unfoldable pub frame_rest : ℕ → Option (Read × List Event) → Option (Option (List ℕ) × List Event)
unfolding read_full
frame_rest out_cap none = none
frame_rest out_cap (some (Read.full hdr, es)) =
    let flen = rd16 hdr in
    if ltb flen min_frame
    then some (none, es)
    else if ltb out_cap flen
    then some (none, es)
    else frame_body hdr (read_full es (flen - 2))
frame_rest out_cap (some (Read.eof, es)) = some (none, es)
frame_rest out_cap (some (Read.err, es)) = some (none, es)

unfoldable pub recv_frame : List Event → ℕ → Option (Option (List ℕ) × List Event)
unfolding read_full frame_rest
recv_frame es out_cap = frame_rest out_cap (read_full es 2)

-- `if (i && out[i - 1] == '\r') i--`.
unfoldable pub strip_cr : List ℕ → List ℕ
strip_cr [] = []
strip_cr (c ∷ []) = if c == b'\r' then [] else c ∷ []
strip_cr (c ∷ d ∷ s) = c ∷ strip_cr (d ∷ s)

-- The loop over at most `room` bytes, with `out` read so far; an interruption fails here.
unfoldable pub line_loop : ℕ → List ℕ → List Event → Option (List ℕ) × List Event
unfolding recv
line_loop zero out es = (none, es)
line_loop (suc room) out es = elim (recv es 1).0 [
  | Received.got bs ↦
      let more = line_loop room (out ++ bs) (recv es 1).1 in
      if get_or bs 0 0 == b'\n' then (some (strip_cr out), (recv es 1).1) else more
  | Received.closed ↦ (none, (recv es 1).1)
  | Received.eintr ↦ (none, (recv es 1).1)
  | Received.error ↦ (none, (recv es 1).1)
]

unfoldable pub recv_line : List Event → ℕ → Option (List ℕ) × List Event
unfolding line_loop
recv_line es cap = line_loop (cap - 1) [] es
