-- ===== src/Proto/Agreement.antt =====
-- The frame functions of the client, tools/esp-ctl/src/proto.c, and those of the device,
-- components/core/src/proto.c, against the specification and each other.
use espshell.Prelude.{
  ℕ, zero, suc, ◌*◌, ◌++◌, bit_or, ◌+◌, ◌-◌, ◌≤◌, ◌≡◌, refl, true, false, List, [], ◌∷◌, ◌∙◌, sym,
  none, some, length, take, drop, ◌>>=◌, arith, length-drop, take_all, Bool-cases, inl, inr, ◌/◌,
  ◌%◌, ◌^◌,
}
use espshell.Crypto.{Evp}
use espshell.Crypto.Ideal.{Aead, IsAead, EvpWorks, ec_chacha20_seal_lem, ec_chacha20_open_lem}
use espshell.Proto.{
  Session, Psa, be16, be_loop, be64, rd_loop, rd16, rd64, build_nonce, frame_header, next_seq,
  proto_frame_encrypt, proto_frame_decrypt,
}
use espshell.Proto.Client.{nonce_for, frame_encrypt, frame_decrypt}
use espshell.Proto.Client as Client
use espshell.Proto.Spec.{
  PsaWorks, length-build_nonce, sealed_frame, spec_encrypt, accepts, opened, spec_decrypt,
  proto_frame_encrypt-eq-spec, proto_frame_decrypt-eq-spec,
}

be16_same : (v : ℕ) → Client.be16 v ≡ be16 v
unfolding Client.be16 be16
be16_same v = refl

rd16_same : (p : List ℕ) → Client.rd16 p ≡ rd16 p
unfolding Client.rd16 rd16
rd16_same p = refl

be64_loop_same : (n v : ℕ) (p : List ℕ) → Client.be64_loop n v p ≡ be_loop n v p
unfolding Client.be64_loop be_loop
be64_loop_same zero v p = refl
be64_loop_same (suc n) v p = be64_loop_same n (v / 2 ^ 8) (v % 2 ^ 8 ∷ p)

be64_same : (v : ℕ) → Client.be64 v ≡ be64 v
unfolding Client.be64 be64
be64_same v = be64_loop_same 8 v []

rd64_loop_same : (n v : ℕ) (p : List ℕ) → Client.rd64_loop n v p ≡ rd_loop n v p
unfolding Client.rd64_loop rd_loop
rd64_loop_same zero v p = refl
rd64_loop_same (suc n) v [] = refl
rd64_loop_same (suc n) v (b ∷ p) = rd64_loop_same n (bit_or (v * 2 ^ 8 % 2 ^ 64) b) p

rd64_same : (p : List ℕ) → Client.rd64 p ≡ rd64 p
unfolding Client.rd64 rd64
rd64_same p = rd64_loop_same 8 0 p

nonce_for_same : (dir seq : ℕ) → nonce_for dir seq ≡ build_nonce dir seq
unfolding nonce_for build_nonce
nonce_for_same dir seq = rw (be64_same seq) refl

header_same : (n seq : ℕ) → Client.be16 n ++ (1 ∷ 0 ∷ Client.be64 seq) ≡ frame_header n seq
unfolding frame_header
header_same n seq = rw (be16_same n, be64_same seq) refl

-- The header is not empty, so the client authenticates it.
frame_header_cons :
    (n seq : ℕ) → (rest : List ℕ) × (frame_header n seq ≡ (n / 2 ^ 8) % 2 ^ 8 ∷ rest)
unfolding frame_header be16
frame_header_cons n seq = (_, refl)

take_12_cons :
    (frame : List ℕ) → 28 ≤ length frame → (b : ℕ) × (rest : List ℕ) × (take 12 frame ≡ b ∷ rest)
take_12_cons [] h = absurd (omega arith)
take_12_cons (b ∷ frame) h = (b, take 11 frame, refl)

module _ {evp : Evp} {aead : Aead} (works : EvpWorks evp aead) where
  pub frame_encrypt-eq-spec :
      (s : Session) (pt : List ℕ) (cap : ℕ)
      → length s.key ≡ 32
      → frame_encrypt evp s pt cap ≡ spec_encrypt aead s pt cap
  unfolding frame_encrypt spec_encrypt sealed_frame
  frame_encrypt-eq-spec s pt cap hk =
      let header = frame_header (28 + length pt) s.tx_seq in
      let nonce = build_nonce s.tx_dir s.tx_seq in
      let (rest, shape) = frame_header_cons (28 + length pt) s.tx_seq in
      let ran =
        ec_chacha20_seal_lem works s.key nonce ((28 + length pt) / 2 ^ 8 % 2 ^ 8) rest pt hk
          (length-build_nonce _ _) in
      ground
        (arith, ran, shape, nonce_for_same s.tx_dir s.tx_seq, header_same (28 + length pt) s.tx_seq)

  frame_decrypt_refused :
      (s : Session) (frame : List ℕ) (cap : ℕ)
      → accepts s frame cap ≡ false
      → frame_decrypt evp s frame cap ≡ none
  unfolding frame_decrypt accepts
  frame_decrypt_refused s frame cap e = ground (arith, rd16_same frame, rd64_same (drop 4 frame))

  frame_decrypt_accepted :
      (s : Session) (frame : List ℕ) (cap : ℕ)
      → length s.key ≡ 32
      → accepts s frame cap ≡ true
      → frame_decrypt evp s frame cap
        ≡ (opened aead s frame >>= λ pt. some (pt, record s { rx_seq = next_seq s.rx_seq }))
  unfolding frame_decrypt accepts opened
  frame_decrypt_accepted s frame cap hk e =
      let n = length frame - 28 in
      let nonce = build_nonce s.rx_dir s.rx_seq in
      let tag = drop n (drop 12 frame) in
      let size : 28 ≤ length frame = ground arith in
      let seq : rd64 (drop 4 frame) ≡ s.rx_seq = ground arith in
      let tag_size : length tag ≡ 16 =
        omega (arith, length-drop n (drop 12 frame), length-drop 12 frame) in
      let (b, rest, shape) = take_12_cons frame size in
      let ran =
        ec_chacha20_open_lem works s.key nonce b rest (take n (drop 12 frame)) tag hk
          (length-build_nonce _ _) in
      ground (
        arith,
        ran,
        shape,
        seq,
        take_all 16 tag (omega arith),
        nonce_for_same s.rx_dir s.rx_seq,
        rd16_same frame,
        rd64_same (drop 4 frame),
      )

  pub frame_decrypt-eq-spec :
      (s : Session) (frame : List ℕ) (cap : ℕ)
      → length s.key ≡ 32
      → frame_decrypt evp s frame cap ≡ spec_decrypt aead s frame cap
  unfolding spec_decrypt
  frame_decrypt-eq-spec s frame cap hk = elim (Bool-cases (accepts s frame cap)) [
    | inl good ↦ rw good (frame_decrypt_accepted s frame cap hk good)
    | inr bad ↦ rw bad (frame_decrypt_refused s frame cap bad)
  ]

-- When PSA and OpenSSL compute one ideal AEAD, the frame functions of the device and of the client
-- agree, failures included: on any session with a 32-byte key, any bytes and any room.
pub codecs_agree :
    {psa : Psa} {evp : Evp} {aead : Aead} (ideal : IsAead aead) (device : PsaWorks psa aead)
    (client : EvpWorks evp aead) (s : Session) (bytes : List ℕ) (room : ℕ)
    → length s.key ≡ 32
    → (proto_frame_encrypt psa s bytes room ≡ frame_encrypt evp s bytes room)
      × (proto_frame_decrypt psa s bytes room ≡ frame_decrypt evp s bytes room)
codecs_agree ideal device client s bytes room hk = (
  proto_frame_encrypt-eq-spec ideal device s bytes room hk
      ∙ sym (frame_encrypt-eq-spec client s bytes room hk),
  proto_frame_decrypt-eq-spec ideal device s bytes room hk
      ∙ sym (frame_decrypt-eq-spec client s bytes room hk),
)
