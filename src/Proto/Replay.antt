-- ===== src/Proto/Replay.antt =====
-- Anti-replay of `proto_frame_decrypt` and freshness of the nonces of `proto_frame_encrypt` in
-- components/core/src/proto.c, whatever the crypto library answers.
use espshell.Prelude.{
  ℕ, ◌+◌, ◌-◌, ◌≤◌, ◌<◌, ◌%◌, ◌^◌, ◌≡◌, true, ◌&&◌, List, [], ◌∷◌, ◌++◌, ap, none, some, leb, ◌==◌,
  length, get_or, drop, guard, arith, inl, inr, >>=-eq-some, Option-cases, length-append,
}
use espshell.Proto.{
  Session, Psa, rd16, rd64, build_nonce, next_seq, frame_header, proto_frame_encrypt,
  proto_frame_decrypt,
}
use espshell.Proto.Wire.{each, each-cons}
use espshell.Proto.Spec.{length-frame_header}

guard_eq : (a b : ℕ) → guard (a == b) ≡ some tt → a ≡ b
guard_eq a b e = ground arith

guard_le : (a b : ℕ) → guard (leb a b && leb a 0xffff) ≡ some tt → a ≤ b
guard_le a b e = ground arith

module _ (psa : Psa) where
  -- A frame that `proto_frame_decrypt` accepts has its length in its first two bytes, type 1, flags 0
  -- and the sequence number that the session expects; its text is 28 bytes shorter and fits the
  -- buffer; and of the session only the receive counter moves, by one. This is so whatever PSA does.
  pub proto_frame_decrypt_accepts :
      (s t : Session) (frame pt : List ℕ) (room : ℕ)
      → proto_frame_decrypt psa s frame room ≡ some (pt, t)
      → (rd16 frame ≡ length frame)
        × (get_or frame 2 0 ≡ 1)
        × (get_or frame 3 0 ≡ 0)
        × (rd64 (drop 4 frame) ≡ s.rx_seq)
        × (length frame ≡ length pt + 28)
        × (length pt ≤ room)
        × (t ≡ record s { rx_seq = next_seq s.rx_seq })
  unfolding proto_frame_decrypt
  proto_frame_decrypt_accepts s t frame pt room e = ground arith

  -- What is sealed has the right length, and only the send counter moves, by one.
  pub proto_frame_encrypt_seals :
      (s t : Session) (frame pt : List ℕ) (room : ℕ)
      → proto_frame_encrypt psa s pt room ≡ some (frame, t)
      → (length frame ≡ length pt + 28)
        × (length frame ≤ room)
        × (t ≡ record s { tx_seq = next_seq s.tx_seq })
  unfolding proto_frame_encrypt
  proto_frame_encrypt_seals s t frame pt room e =
      let fl = 12 + length pt + 16 in
      let header = frame_header fl s.tx_seq in
      let (_, _, e1) = >>=-eq-some (guard s.established) _ e in
      let (_, _, e2) = >>=-eq-some (guard (leb (length pt) 0xffff)) _ e1 in
      let (_, fits, e3) = >>=-eq-some (guard (leb fl room && leb fl 0xffff)) _ e2 in
      let (kid, _, e4) = >>=-eq-some (psa.import_key true s.key) _ e3 in
      let (sealed, _, e5) =
        >>=-eq-some
          (psa.aead_encrypt kid (build_nonce s.tx_dir s.tx_seq) header pt (length pt + 16)) _ e4 in
      let (_, size, e6) = >>=-eq-some (guard (length sealed == length pt + 16)) _ e5 in
      let same : frame ≡ header ++ sealed = cc in
      let n : length frame ≡ length pt + 28 = omega (
        arith,
        ap length same,
        length-append header sealed,
        length-frame_header fl s.tx_seq,
        guard_eq (length sealed) (length pt + 16) size,
      ) in
      (n, omega (arith, guard_le fl room fits), ground arith)

  -- A run of accepted frames moves the receive counter by their number.
  rx_seq-each :
      (s t : Session) (fs ps : List (List ℕ)) (room : ℕ)
      → s.rx_seq < 2 ^ 64
      → each (λ x f. proto_frame_decrypt psa x f room) s fs ≡ some (ps, t)
      → t.rx_seq ≡ (s.rx_seq + length fs) % 2 ^ 64
  unfolding each
  rx_seq-each s t [] ps room h e = ground arith
  rx_seq-each s t (f ∷ fs) ps room h e =
      let (p, u, qs, first, rest) =
        each-cons (λ x f. proto_frame_decrypt psa x f room) s t f fs ps e in
      let (_, _, _, _, _, _, moved) = proto_frame_decrypt_accepts s u f p room first in
      let seq : u.rx_seq ≡ next_seq s.rx_seq = ap (λ (x : Session). x.rx_seq) moved in
      omega (arith, rx_seq-each u t fs qs room (omega arith) rest)

  -- A session whose receive counter is a 64-bit number accepts a frame and then fewer than 2^64 - 1
  -- further ones, all with one buffer size: it refuses that frame from then on, at whatever buffer
  -- size, whatever PSA does.
  pub accepted_once :
      (s t : Session) (f : List ℕ) (fs ps : List (List ℕ)) (room again : ℕ)
      → s.rx_seq < 2 ^ 64
      → length fs < 2 ^ 64 - 1
      → each (λ x f. proto_frame_decrypt psa x f room) s (f ∷ fs) ≡ some (ps, t)
      → proto_frame_decrypt psa t f again ≡ none
  accepted_once s t f fs ps room again h few e =
      let seq = rx_seq-each s t (f ∷ fs) ps room h e in
      elim (Option-cases (proto_frame_decrypt psa t f again)) [
        | inl refused ↦ refused
        | inr ((q, v), taken) ↦
            let (_, _, _, at_t, _, _, _) = proto_frame_decrypt_accepts t v f q again taken in
            let (p, u, _, first, _) =
              each-cons (λ x f. proto_frame_decrypt psa x f room) s t f fs ps e in
            let (_, _, _, at_s, _, _, _) = proto_frame_decrypt_accepts s u f p room first in
            absurd (omega arith)
      ]
