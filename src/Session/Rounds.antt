-- ===== src/Session/Rounds.antt =====
-- What `write_full` of components/core/src/net.c sends, when the calls of `send` are ready and in general.
use espshell.Prelude.{
  ℕ, zero, suc, replicate, ◌+◌, ◌≤◌, ◌≡◌, refl, ap, ◌∙◌, true, List, [], ◌∷◌, ◌++◌, length,
  length-drop, take, drop, take-append-drop, arith,
}
use espshell.Session.{Sent, write_full}

-- Each call of `send` takes a byte or more.
abbrev pub Willing : List Sent → Type 0
Willing [] = Unit
Willing (Sent.took zero ∷ rs) = ⊥
Willing (Sent.took (suc k) ∷ rs) = Willing rs
Willing (Sent.interrupted ∷ rs) = ⊥
Willing (Sent.failed ∷ rs) = ⊥

pub replicate-Willing : (n k : ℕ) → Willing (replicate n (Sent.took (suc k)))
replicate-Willing zero k = tt
replicate-Willing (suc n) k = replicate-Willing n k

-- Everything is sent, by one call for each byte at most.
pub write_full-Willing :
    (rs : List Sent) (bytes : List ℕ)
    → Willing rs
    → length bytes ≤ length rs
    → (rs' : List Sent) × (write_full rs bytes ≡ (true, bytes, rs'))
      × Willing rs'
      × (length rs ≤ length rs' + length bytes)
unfolding write_full
write_full-Willing rs [] w h = (rs, refl, w, omega arith)
write_full-Willing [] (b ∷ bytes) w h = absurd (omega arith)
write_full-Willing (Sent.took zero ∷ rs) (b ∷ bytes) w h = absurd w
write_full-Willing (Sent.took (suc k) ∷ rs) (b ∷ bytes) w h =
    let (rs', rest, left, used) =
      write_full-Willing rs (drop k bytes) w (omega (arith, length-drop k bytes)) in
    (
      rs',
      ap (λ r. (r.0, take (suc k) (b ∷ bytes) ++ r.1, r.2)) rest
          ∙ ap (λ l. (true, l, rs')) (take-append-drop (suc k) (b ∷ bytes)),
      left,
      omega (arith, length-drop k bytes),
    )
write_full-Willing (Sent.interrupted ∷ rs) (b ∷ bytes) w h = absurd w
write_full-Willing (Sent.failed ∷ rs) (b ∷ bytes) w h = absurd w

-- `write_full` answers true only when the bytes were sent, all and in order, whatever `send` does.
pub write_full_sends :
    (rs : List Sent) (bytes : List ℕ)
    → (write_full rs bytes).0 ≡ true
    → (write_full rs bytes).1 ≡ bytes
unfolding write_full
write_full_sends rs [] e = refl
write_full_sends [] (b ∷ bytes) e = absurd (cc e)
write_full_sends (Sent.took k ∷ rs) (b ∷ bytes) e =
    ap (λ l. take k (b ∷ bytes) ++ l) (write_full_sends rs (drop k (b ∷ bytes)) e)
    ∙ take-append-drop k (b ∷ bytes)
write_full_sends (Sent.interrupted ∷ rs) (b ∷ bytes) e = write_full_sends rs (b ∷ bytes) e
write_full_sends (Sent.failed ∷ rs) (b ∷ bytes) e = absurd (cc e)
