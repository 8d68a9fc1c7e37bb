-- ===== src/Net/Frames.antt =====
-- `recv_frame` of components/core/src/net.c on the frames of components/core/src/proto.c.
use espshell.Prelude.{
  ℕ, ◌-◌, ◌≤◌, ◌<◌, ◌≡◌, refl, ap, sym, ◌∙◌, false, List, [], ◌∷◌, ◌++◌, append_assoc, some, ltb,
  length, length-take, length-drop, take, drop, take-append-drop, arith,
}
use espshell.Proto.{rd16}
use espshell.Net.{Event, Read, read_full, frame_body, frame_rest, recv_frame}
use espshell.Net.Reads.{flat, Healthy, read_full_bytes}

rd16-append : (hdr body : List ℕ) → length hdr ≡ 2 → rd16 (hdr ++ body) ≡ rd16 hdr
unfolding rd16
rd16-append [] body h = absurd (omega arith)
rd16-append (a ∷ []) body h = absurd (omega arith)
rd16-append (a ∷ b ∷ []) body h = refl
rd16-append (a ∷ b ∷ c ∷ s) body h = absurd (omega arith)

body-full :
    (hdr body : List ℕ) (es : List Event)
    → 0 < length body
    → frame_body hdr (some (Read.full body, es)) ≡ some (some (hdr ++ body), es)
body-full hdr [] es h = absurd (omega arith)
body-full hdr (b ∷ body) es h = refl

-- On a socket without failures whose bytes start with a frame, one of 28 bytes or more that gives its
-- own length and fits the buffer, `recv_frame` answers the frame, however its bytes are cut up, and
-- leaves the bytes behind it.
pub recv_frame_lem :
    (es : List Event) (frame rest : List ℕ) (out_cap : ℕ)
    → Healthy es
    → flat es ≡ frame ++ rest
    → rd16 frame ≡ length frame
    → 28 ≤ length frame
    → length frame ≤ out_cap
    → (es' : List Event) × (recv_frame es out_cap ≡ some (some frame, es'))
      × (flat es' ≡ rest)
      × Healthy es'
unfolding recv_frame frame_rest
recv_frame_lem es frame rest out_cap ok e own big fits =
    let hdr = take 2 frame in
    let body = drop 2 frame in
    let parts : hdr ++ body ≡ frame = take-append-drop 2 frame in
    let two : length hdr ≡ 2 = omega (arith, length-take 2 frame) in
    let others : length body ≡ length frame - 2 = length-drop 2 frame in
    let stream : flat es ≡ hdr ++ (body ++ rest) =
      e ∙ (ap (λ f. f ++ rest) (sym parts) ∙ append_assoc hdr body rest) in
    let (es1, read1, left1, ok1) = read_full_bytes es hdr (body ++ rest) ok stream in
    let (es2, read2, left2, ok2) = read_full_bytes es1 body rest ok1 left1 in
    let flen : rd16 hdr ≡ length frame = sym (rd16-append hdr body two) ∙ (ap rd16 parts ∙ own) in
    let first : read_full es 2 ≡ some (Read.full hdr, es1) = ap (read_full es) (sym two) ∙ read1 in
    let wanted : rd16 hdr - 2 ≡ length body = omega arith in
    let second : read_full es1 (rd16 hdr - 2) ≡ some (Read.full body, es2) =
      ap (read_full es1) wanted ∙ read2 in
    let low : ltb (rd16 hdr) 28 ≡ false = ground arith in
    let high : ltb out_cap (rd16 hdr) ≡ false = ground arith in
    (
      es2,
      ap (frame_rest out_cap) first
          ∙ rw (low, high)
              (ap (frame_body hdr) second
                ∙ (body-full hdr body es2 (omega arith) ∙ ap (λ f. some (some f, es2)) parts)),
      left2,
      ok2,
    )
