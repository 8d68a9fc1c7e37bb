-- ===== src/Proto/Spec.antt =====
-- docs/protocol.md, phase B: what one frame is, and that both proto.c files implement it.
use espshell.Prelude.{
  ℕ, ◌+◌, ◌-◌, ◌≤◌, ◌≡◌, true, false, ◌&&◌, List, [], ◌∷◌, ◌++◌, Option, none, some, leb, ◌==◌,
  length, get_or, take, drop, ◌>>=◌, if◌then◌else◌, arith, length-append, take-append-drop,
  length-take, length-drop, Bool, Bool-cases, inl, inr, Option-cases,
}
use espshell.Crypto.Ideal.{Aead, IsAead}
use espshell.Proto.{
  Session, Psa, be16, be64, rd16, rd64, build_nonce, frame_header, next_seq, proto_frame_encrypt,
  proto_frame_decrypt,
}
use espshell.Proto.Words.{length-be64}

-- PSA has memory for a key, accepts 32 bytes of it, and computes `aead` where the output fits.
pub record PsaWorks (psa : Psa) (aead : Aead) : Type 0 where
  pub encrypting :
      (k : List ℕ)
      → length k ≡ 32
      → (h : psa.Handle) × (psa.import_key true k ≡ some h)
        × ((n a p : List ℕ) (room : ℕ)
            → length n ≡ 12
            → length p + 16 ≤ room
            → psa.aead_encrypt h n a p room ≡ some ((aead.seal k n a p).0 ++ (aead.seal k n a p).1))
  pub decrypting :
      (k : List ℕ)
      → length k ≡ 32
      → (h : psa.Handle) × (psa.import_key false k ≡ some h)
        × ((n a s t : List ℕ) (room : ℕ)
            → length n ≡ 12
            → length t ≡ 16
            → length s ≤ room
            → psa.aead_decrypt h n a (s ++ t) room ≡ aead.unseal k n a s t)

pub length-build_nonce : (dir seq : ℕ) → length (build_nonce dir seq) ≡ 12
unfolding build_nonce
length-build_nonce dir seq =
    omega (arith, length-append (be64 seq) (0 ∷ 0 ∷ 0 ∷ []), length-be64 seq)

pub length-frame_header : (n seq : ℕ) → length (frame_header n seq) ≡ 12
unfolding frame_header be16
length-frame_header n seq = omega (arith, length-be64 seq)

-- The frame of a text: header, ciphertext, tag.
unfoldable pub sealed_frame : Aead → Session → List ℕ → List ℕ
sealed_frame aead s pt =
    let header = frame_header (28 + length pt) s.tx_seq in
    let (ct, tag) = aead.seal s.key (build_nonce s.tx_dir s.tx_seq) header pt in
    header ++ (ct ++ tag)

unfoldable pub spec_encrypt : Aead → Session → List ℕ → ℕ → Option (List ℕ × Session)
spec_encrypt aead s pt cap =
    if s.established && (leb (28 + length pt) cap && leb (28 + length pt) 0xffff)
    then some (sealed_frame aead s pt, record s { tx_seq = next_seq s.tx_seq })
    else none

-- The checks of a receiver that is ready for `cap` bytes of text.
unfoldable pub accepts : Session → List ℕ → ℕ → Bool
accepts s frame cap =
    s.established
    && (leb 28 (length frame)
        && (rd16 frame == length frame
            && (get_or frame 2 0 == 1
                && (get_or frame 3 0 == 0
                    && (rd64 (drop 4 frame) == s.rx_seq && leb (length frame - 28) cap)))))

unfoldable pub opened : Aead → Session → List ℕ → Option (List ℕ)
opened aead s frame =
    let n = length frame - 28 in
    aead.unseal s.key (build_nonce s.rx_dir s.rx_seq) (take 12 frame) (take n (drop 12 frame))
      (drop n (drop 12 frame))

unfoldable pub spec_decrypt : Aead → Session → List ℕ → ℕ → Option (List ℕ × Session)
spec_decrypt aead s frame cap =
    if accepts s frame cap
    then (opened aead s frame >>= λ pt. some (pt, record s { rx_seq = next_seq s.rx_seq }))
    else none

module _ {psa : Psa} {aead : Aead} (ideal : IsAead aead) (works : PsaWorks psa aead) where
  pub proto_frame_encrypt-eq-spec :
      (s : Session) (pt : List ℕ) (cap : ℕ)
      → length s.key ≡ 32
      → proto_frame_encrypt psa s pt cap ≡ spec_encrypt aead s pt cap
  unfolding proto_frame_encrypt spec_encrypt sealed_frame
  proto_frame_encrypt-eq-spec s pt cap hk =
      let header = frame_header (28 + length pt) s.tx_seq in
      let nonce = build_nonce s.tx_dir s.tx_seq in
      let (h, imported, run) = works.encrypting s.key hk in
      let ran = run nonce header pt (length pt + 16) (length-build_nonce _ _) (omega arith) in
      let sealed = aead.seal s.key nonce header pt in
      ground (
        arith,
        imported,
        ran,
        length-append sealed.0 sealed.1,
        ideal.length_text s.key nonce header pt,
        ideal.length_tag s.key nonce header pt,
      )

  proto_frame_decrypt_refused :
      (s : Session) (frame : List ℕ) (cap : ℕ)
      → accepts s frame cap ≡ false
      → proto_frame_decrypt psa s frame cap ≡ none
  unfolding proto_frame_decrypt accepts
  proto_frame_decrypt_refused s frame cap e = ground arith

  proto_frame_decrypt_accepted :
      (s : Session) (frame : List ℕ) (cap : ℕ)
      → length s.key ≡ 32
      → accepts s frame cap ≡ true
      → proto_frame_decrypt psa s frame cap
        ≡ (opened aead s frame >>= λ pt. some (pt, record s { rx_seq = next_seq s.rx_seq }))
  unfolding proto_frame_decrypt accepts opened
  proto_frame_decrypt_accepted s frame cap hk e =
      let n = length frame - 28 in
      let nonce = build_nonce s.rx_dir s.rx_seq in
      let (h, imported, run) = works.decrypting s.key hk in
      let body = take n (drop 12 frame) in
      let tag = drop n (drop 12 frame) in
      let size : length frame ≡ n + 28 = ground arith in
      let fits : n ≤ cap = ground arith in
      let seq : rd64 (drop 4 frame) ≡ s.rx_seq = ground arith in
      let body_size : length body ≡ n =
        omega (arith, length-take n (drop 12 frame), length-drop 12 frame) in
      let tag_size : length tag ≡ 16 =
        omega (arith, length-drop n (drop 12 frame), length-drop 12 frame) in
      let ran =
        run nonce (take 12 frame) body tag cap (length-build_nonce _ _) tag_size (omega arith) in
      let whole = take-append-drop n (drop 12 frame) in
      elim (Option-cases (aead.unseal s.key nonce (take 12 frame) body tag)) [
        | inl bad ↦ ground (arith, imported, ran, whole, seq, bad)
        | inr (pt, good) ↦
            ground (arith, imported, ran, whole, seq, good, ideal.length_unseal _ _ _ _ _ pt good)
      ]

  pub proto_frame_decrypt-eq-spec :
      (s : Session) (frame : List ℕ) (cap : ℕ)
      → length s.key ≡ 32
      → proto_frame_decrypt psa s frame cap ≡ spec_decrypt aead s frame cap
  unfolding spec_decrypt
  proto_frame_decrypt-eq-spec s frame cap hk = elim (Bool-cases (accepts s frame cap)) [
    | inl good ↦ rw good (proto_frame_decrypt_accepted s frame cap hk good)
    | inr bad ↦ rw bad (proto_frame_decrypt_refused s frame cap bad)
  ]
