-- ===== src/Net/Shrinks.antt =====
-- `read_full` and `recv_frame` of components/core/src/net.c use bytes of the socket up.
use espshell.Prelude.{
  ℕ, zero, suc, ◌+◌, ◌-◌, ◌<◌, ◌≡◌, ap, subst, List, [], ◌∷◌, ◌++◌, Option, none, some, length,
  length-append, length-take, length-drop, take, drop, arith, Bool-cases, inl, inr, ltb,
}
use espshell.Net.{
  Event, Read, push, recv, prepend, read_loop, read_full, frame_body, frame_rest, recv_frame,
}
use espshell.Net.Reads.{flat, flat-push}
use espshell.Proto.{rd16}

-- A read that is filled leaves fewer bytes, as many as it took.
abbrev Took : ℕ → ℕ → Option (Read × List Event) → Type 0
Took n m none = Unit
Took n m (some (Read.full bs, es)) = length (flat es) + n ≡ m
Took n m (some (Read.eof, es)) = Unit
Took n m (some (Read.err, es)) = Unit

prepend-Took :
    (bs : List ℕ) (k n m p : ℕ) (r : Option (Read × List Event))
    → Took k p r
    → n + p ≡ m + k
    → Took n m (prepend bs r)
prepend-Took bs k n m p none t e = tt
prepend-Took bs k n m p (some (Read.full cs, es)) t e = omega arith
prepend-Took bs k n m p (some (Read.eof, es)) t e = tt
prepend-Took bs k n m p (some (Read.err, es)) t e = tt

read_loop-Took : (fuel n : ℕ) (es : List Event) → Took n (length (flat es)) (read_loop fuel n es)
unfolding read_loop recv
read_loop-Took zero n es = tt
read_loop-Took (suc fuel) zero es = omega arith
read_loop-Took (suc fuel) (suc n) [] = tt
read_loop-Took (suc fuel) (suc n) (Event.bytes b bs ∷ es) =
    let chunk = b ∷ bs in
    let taken = take (suc n) chunk in
    let left = drop (suc n) chunk in
    prepend-Took taken (suc n - length taken) (suc n) (length (chunk ++ flat es))
      (length (flat (push left es))) (read_loop fuel (suc n - length taken) (push left es))
      (read_loop-Took fuel (suc n - length taken) (push left es))
      (omega (
        arith,
        ap length (flat-push left es),
        length-append left (flat es),
        length-append chunk (flat es),
        length-take (suc n) chunk,
        length-drop (suc n) chunk,
      ))
read_loop-Took (suc fuel) (suc n) (Event.interrupted ∷ es) = read_loop-Took fuel (suc n) es
read_loop-Took (suc fuel) (suc n) (Event.failed ∷ es) = tt

-- A frame that is received leaves fewer bytes.
abbrev Fewer : ℕ → Option (Option (List ℕ) × List Event) → Type 0
Fewer m none = Unit
Fewer m (some (none, es)) = Unit
Fewer m (some (some frame, es)) = length (flat es) < m

frame_body-Fewer :
    (hdr : List ℕ) (n m p : ℕ) (r : Option (Read × List Event))
    → Took n p r
    → p < m
    → Fewer m (frame_body hdr r)
frame_body-Fewer hdr n m p none t h = tt
frame_body-Fewer hdr n m p (some (Read.full [], es)) t h = tt
frame_body-Fewer hdr n m p (some (Read.full (b ∷ bs), es)) t h = omega arith
frame_body-Fewer hdr n m p (some (Read.eof, es)) t h = tt
frame_body-Fewer hdr n m p (some (Read.err, es)) t h = tt

frame_rest-Fewer :
    (cap m : ℕ) (r : Option (Read × List Event)) → Took 2 m r → Fewer m (frame_rest cap r)
unfolding frame_rest read_full
frame_rest-Fewer cap m none t = tt
frame_rest-Fewer cap m (some (Read.full hdr, es)) t =
    let n = rd16 hdr - 2 in
    let body = read_loop (suc (n + length es)) n es in
    let fewer : Fewer m (frame_body hdr body) =
      frame_body-Fewer hdr n m (length (flat es)) body (read_loop-Took (suc (n + length es)) n es)
        (omega arith) in
    elim (Bool-cases (ltb (rd16 hdr) 28)) [
      | inl short ↦ rw short tt
      | inr whole ↦ elim (Bool-cases (ltb cap (rd16 hdr))) [
        | inl big ↦ rw (whole, big) tt
        | inr fits ↦ rw (whole, fits) fewer
      ]
    ]
frame_rest-Fewer cap m (some (Read.eof, es)) t = tt
frame_rest-Fewer cap m (some (Read.err, es)) t = tt

pub recv_frame_shrinks :
    (es es' : List Event) (cap : ℕ) (frame : List ℕ)
    → recv_frame es cap ≡ some (some frame, es')
    → length (flat es') < length (flat es)
unfolding recv_frame read_full
recv_frame_shrinks es es' cap frame e = subst (Fewer (length (flat es))) e (
    frame_rest-Fewer cap (length (flat es)) (read_full es 2)
      (read_loop-Took (suc (2 + length es)) 2 es))
