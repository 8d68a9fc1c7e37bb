-- ===== src/Net/Takes.antt =====
-- The bytes that `read_full` and `recv_frame` of components/core/src/net.c take off a socket, whatever its
-- calls of `recv` meet.
use espshell.Prelude.{
  ℕ, zero, suc, ◌+◌, ◌-◌, ◌≡◌, refl, ap, sym, ◌∙◌, List, [], ◌∷◌, ◌++◌, append_assoc, Option, none,
  some, length, take, drop, take-append-drop, Bool-cases, inl, inr, ltb,
}
use espshell.Net.{
  Event, Read, push, recv, prepend, read_loop, read_full, frame_body, frame_rest, recv_frame,
}
use espshell.Net.Reads.{flat, flat-push}
use espshell.Proto.{rd16}

-- What a read has filled stands in front of what is left.
abbrev Reads : List ℕ → Option (Read × List Event) → Type 0
Reads bytes none = Unit
Reads bytes (some (Read.full bs, es)) = bytes ≡ bs ++ flat es
Reads bytes (some (Read.eof, es)) = Unit
Reads bytes (some (Read.err, es)) = Unit

prepend-Reads :
    (bs bytes more : List ℕ) (r : Option (Read × List Event))
    → Reads more r
    → bytes ≡ bs ++ more
    → Reads bytes (prepend bs r)
prepend-Reads bs bytes more none t e = tt
prepend-Reads bs bytes more (some (Read.full cs, es)) t e =
    e ∙ (ap (λ x. bs ++ x) t ∙ sym (append_assoc bs cs (flat es)))
prepend-Reads bs bytes more (some (Read.eof, es)) t e = tt
prepend-Reads bs bytes more (some (Read.err, es)) t e = tt

read_loop-Reads : (fuel n : ℕ) (es : List Event) → Reads (flat es) (read_loop fuel n es)
unfolding read_loop recv
read_loop-Reads zero n es = tt
read_loop-Reads (suc fuel) zero es = refl
read_loop-Reads (suc fuel) (suc n) [] = tt
read_loop-Reads (suc fuel) (suc n) (Event.bytes b bs ∷ es) =
    let chunk = b ∷ bs in
    let taken = take (suc n) chunk in
    let left = drop (suc n) chunk in
    prepend-Reads taken (chunk ++ flat es) (flat (push left es))
      (read_loop fuel (suc n - length taken) (push left es))
      (read_loop-Reads fuel (suc n - length taken) (push left es))
      (ap (λ x. x ++ flat es) (sym (take-append-drop (suc n) chunk))
        ∙ (append_assoc taken left (flat es) ∙ ap (λ x. taken ++ x) (sym (flat-push left es))))
read_loop-Reads (suc fuel) (suc n) (Event.interrupted ∷ es) = read_loop-Reads fuel (suc n) es
read_loop-Reads (suc fuel) (suc n) (Event.failed ∷ es) = tt

-- A frame that was received stands in front of what is left.
abbrev pub Takes : List ℕ → Option (Option (List ℕ) × List Event) → Type 0
Takes bytes none = Unit
Takes bytes (some (none, es)) = Unit
Takes bytes (some (some frame, es)) = bytes ≡ frame ++ flat es

frame_body-Takes :
    (hdr bytes more : List ℕ) (r : Option (Read × List Event))
    → Reads more r
    → bytes ≡ hdr ++ more
    → Takes bytes (frame_body hdr r)
frame_body-Takes hdr bytes more none t e = tt
frame_body-Takes hdr bytes more (some (Read.full [], es)) t e = tt
frame_body-Takes hdr bytes more (some (Read.full (b ∷ bs), es)) t e =
    e ∙ (ap (λ x. hdr ++ x) t ∙ sym (append_assoc hdr (b ∷ bs) (flat es)))
frame_body-Takes hdr bytes more (some (Read.eof, es)) t e = tt
frame_body-Takes hdr bytes more (some (Read.err, es)) t e = tt

frame_rest-Takes :
    (cap : ℕ) (bytes : List ℕ) (r : Option (Read × List Event))
    → Reads bytes r
    → Takes bytes (frame_rest cap r)
unfolding frame_rest read_full
frame_rest-Takes cap bytes none t = tt
frame_rest-Takes cap bytes (some (Read.full hdr, es)) t =
    let n = rd16 hdr - 2 in
    let body = read_loop (suc (n + length es)) n es in
    let whole_frame : Takes bytes (frame_body hdr body) =
      frame_body-Takes hdr bytes (flat es) body (read_loop-Reads (suc (n + length es)) n es) t in
    elim (Bool-cases (ltb (rd16 hdr) 28)) [
      | inl short ↦ rw short tt
      | inr whole ↦ elim (Bool-cases (ltb cap (rd16 hdr))) [
        | inl big ↦ rw (whole, big) tt
        | inr fits ↦ rw (whole, fits) whole_frame
      ]
    ]
frame_rest-Takes cap bytes (some (Read.eof, es)) t = tt
frame_rest-Takes cap bytes (some (Read.err, es)) t = tt

-- Whatever comes, a frame that `recv_frame` answers is the bytes that come first.
pub recv_frame-Takes : (es : List Event) (cap : ℕ) → Takes (flat es) (recv_frame es cap)
unfolding recv_frame read_full
recv_frame-Takes es cap =
    frame_rest-Takes cap (flat es) (read_full es 2) (read_loop-Reads (suc (2 + length es)) 2 es)
