-- ===== src/Proto/Document/Follows.antt =====
-- components/core/src/proto.c against the frame of docs/protocol.md.
use espshell.Prelude.{
  ℕ, zero, suc, ◌+◌, ◌-◌, ◌*◌, ◌/◌, ◌%◌, ◌^◌, ◌≤◌, ◌<◌, ◌≡◌, refl, ap, ap₂, sym, ◌∙◌, subst, Bool,
  true, false, ◌&&◌, List, [], ◌∷◌, ◌++◌, none, some, leb, length, get_or, take, drop, ◌>>=◌,
  if◌then◌else◌, arith, append_assoc, append-nil, take-append-drop, bit_or, bit_or_low, length-take,
  IsByte, All, bytes_eq, bytes_eq→eq, bytes_eq_refl,
}
use espshell.Crypto.Ideal.{Aead, IsAead}
use espshell.Proto.{
  Session, Psa, be64, rd16, rd_loop, rd64, proto_frame_encrypt, proto_frame_decrypt,
}
use espshell.Proto.Words.{rd64-be64}
use espshell.Proto.Spec.{
  PsaWorks, sealed_frame, spec_encrypt, accepts, opened, spec_decrypt, proto_frame_encrypt-eq-spec,
  proto_frame_decrypt-eq-spec,
}
use espshell.Proto.Document.{
  word, doc_header, doc_encrypt, doc_accepts, doc_decrypt, be64-word, frame_header-doc,
  build_nonce-doc,
}

-- What fits in front of `n` bytes of a 64-bit word.
abbrev limit : ℕ → ℕ
limit zero = 2 ^ 64
limit (suc n) = limit n / 256

limit_le : (n : ℕ) → limit n ≤ 2 ^ 64
limit_le zero = omega arith
limit_le (suc n) = omega (arith, limit_le n)

word-rd_loop :
    (k n v : ℕ) (p rest : List ℕ)
    → All IsByte p
    → length p ≡ n
    → v < limit n
    → word (n + k) (rd_loop n v (p ++ rest)) ≡ word k v ++ p
unfolding rd_loop
word-rd_loop k zero v [] rest bytes size small =
    let none_more : 0 + k ≡ k = omega arith in
    ap (λ m. word m v) none_more ∙ sym (append-nil (word k v))
word-rd_loop k zero v (b ∷ p) rest bytes size small = absurd (omega arith)
word-rd_loop k (suc n) v [] rest bytes size small = absurd (omega arith)
word-rd_loop k (suc n) v (b ∷ p) rest (byte, bytes) size small =
    let wide : v * 2 ^ 8 % 2 ^ 64 ≡ v * 256 = omega (arith, limit_le n) in
    let next : bit_or (v * 2 ^ 8 % 2 ^ 64) b ≡ v * 256 + b =
      ap (λ x. bit_or x b) wide ∙ bit_or_low 8 v b byte in
    let high : (v * 256 + b) / 256 ≡ v = omega arith in
    let low : (v * 256 + b) % 256 ≡ b = omega arith in
    let order : suc n + k ≡ n + suc k = omega arith in
    ap (λ x. word (suc n + k) (rd_loop n x (p ++ rest))) next
    ∙ (ap (λ m. word m (rd_loop n (v * 256 + b) (p ++ rest))) order
        ∙ (word-rd_loop (suc k) n (v * 256 + b) p rest bytes (omega arith) (omega arith)
            ∙ (ap₂ (λ h l. (word k h ++ (l ∷ [])) ++ p) high low
                ∙ append_assoc (word k v) (b ∷ []) p)))

-- Eight bytes are the word of the number that `rd64` reads.
word-rd64 : (p rest : List ℕ) → All IsByte p → length p ≡ 8 → word 8 (rd64 (p ++ rest)) ≡ p
unfolding rd64
word-rd64 p rest bytes size = word-rd_loop 0 8 0 p rest bytes size (omega arith)

take-All : (n : ℕ) (xs : List ℕ) → All IsByte xs → All IsByte (take n xs)
take-All zero xs h = tt
take-All (suc n) [] h = tt
take-All (suc n) (x ∷ xs) (b, h) = (b, take-All n xs h)

-- The numbers that the code reads are the header's bytes, and the other way round.
header_read :
    (a b t f : ℕ) (body : List ℕ) (len seq : ℕ)
    → All IsByte (a ∷ b ∷ t ∷ f ∷ body)
    → 8 ≤ length body
    → rd16 (a ∷ b ∷ t ∷ f ∷ body) ≡ len
    → t ≡ 1
    → f ≡ 0
    → rd64 body ≡ seq
    → a ∷ b ∷ t ∷ f ∷ take 8 body ≡ doc_header len seq
unfolding rd16
header_read a b t f body len seq (ba, (bb, (bt, (bf, bytes)))) room own one zero_ expected =
    let value : a * 256 + b ≡ len = sym (bit_or_low 8 a b bb) ∙ own in
    let high : a ≡ len / 256 % 256 = omega arith in
    let low : b ≡ len % 256 = omega arith in
    let eight : length (take 8 body) ≡ 8 = omega (arith, length-take 8 body) in
    let tail : take 8 body ≡ word 8 seq =
      sym (word-rd64 (take 8 body) (drop 8 body) (take-All 8 body bytes) eight)
      ∙ ap (word 8) (ap rd64 (take-append-drop 8 body) ∙ expected) in
    ap₂ (λ x y. x ∷ y ∷ t ∷ f ∷ take 8 body) high low
    ∙ (ap₂ (λ x y. len / 256 % 256 ∷ len % 256 ∷ x ∷ y ∷ take 8 body) one zero_
        ∙ ap (λ w. len / 256 % 256 ∷ len % 256 ∷ 1 ∷ 0 ∷ w) tail)

header_written :
    (a b t f : ℕ) (body : List ℕ) (len seq : ℕ)
    → len < 2 ^ 16
    → seq < 2 ^ 64
    → a ∷ b ∷ t ∷ f ∷ take 8 body ≡ doc_header len seq
    → (rd16 (a ∷ b ∷ t ∷ f ∷ body) ≡ len) × (t ≡ 1) × (f ≡ 0) × (rd64 body ≡ seq)
unfolding rd16
header_written a b t f body len seq short range e =
    let high : a ≡ len / 256 % 256 = ap (λ l. get_or l 0 0) e in
    let low : b ≡ len % 256 = ap (λ l. get_or l 1 0) e in
    let tail : take 8 body ≡ be64 seq = ap (drop 4) e ∙ sym (be64-word seq) in
    (
      bit_or_low 8 a b (omega arith) ∙ omega arith,
      ap (λ l. get_or l 2 0) e,
      ap (λ l. get_or l 3 0) e,
      ap rd64 (sym (take-append-drop 8 body) ∙ ap (λ w. w ++ drop 8 body) tail)
          ∙ rd64-be64 seq (drop 8 body) range,
    )

same_test : (a b : Bool) → (a ≡ true → b ≡ true) → (b ≡ true → a ≡ true) → a ≡ b
same_test true b f g = sym (f refl)
same_test false true f g = g refl
same_test false false f g = refl

rd16_small : (a b : ℕ) (rest : List ℕ) → IsByte a → IsByte b → rd16 (a ∷ b ∷ rest) ≤ 65535
unfolding rd16
rd16_small a b rest ba bb = omega (arith, bit_or_low 8 a b bb)

-- The five tests of the receiver.
five_tests :
    (p q r t u : Bool)
    → p ≡ true
    → q ≡ true
    → r ≡ true
    → t ≡ true
    → u ≡ true
    → (p && (q && (r && (t && u)))) ≡ true
five_tests p q r t u e1 e2 e3 e4 e5 = rw (e1, e2, e3, e4) e5

accepts-doc :
    (s : Session) (frame : List ℕ) (cap : ℕ)
    → All IsByte frame
    → s.rx_seq < 2 ^ 64
    → accepts s frame cap ≡ doc_accepts s frame cap
unfolding accepts
accepts-doc s [] cap bytes range = ground arith
accepts-doc s (a ∷ []) cap bytes range = ground arith
accepts-doc s (a ∷ b ∷ []) cap bytes range = ground arith
accepts-doc s (a ∷ b ∷ t ∷ []) cap bytes range = ground arith
accepts-doc s (a ∷ b ∷ t ∷ f ∷ body) cap bytes range =
    same_test (accepts s frame cap) (doc_accepts s frame cap) forth back
  where
    frame : List ℕ
    frame = a ∷ b ∷ t ∷ f ∷ body

    forth : accepts s frame cap ≡ true → doc_accepts s frame cap ≡ true
    forth e =
        let own : rd16 frame ≡ length frame = ground arith in
        let shape =
          header_read a b t f body (length frame) s.rx_seq bytes (ground arith) own (ground arith)
            (ground arith) (ground arith) in
        let first : bytes_eq (take 12 frame) (doc_header (length frame) s.rx_seq) ≡ true =
          ap (bytes_eq (take 12 frame)) (sym shape) ∙ bytes_eq_refl (take 12 frame) in
        let small : length frame ≤ 65535 =
          subst (λ n. n ≤ 65535) own (rd16_small a b (t ∷ f ∷ body) bytes.0 bytes.1.0) in
        five_tests s.established (leb 28 (length frame)) (leb (length frame) 65535)
          (bytes_eq (take 12 frame) (doc_header (length frame) s.rx_seq))
          (leb (length frame - 28) cap) (ground arith) (ground arith) (ground arith) first
          (ground arith)

    back : doc_accepts s frame cap ≡ true → accepts s frame cap ≡ true
    back e =
        let first : bytes_eq (take 12 frame) (doc_header (length frame) s.rx_seq) ≡ true =
          ground arith in
        let small : length frame ≤ 65535 = ground arith in
        let (own, one, none_set, expected) =
          header_written a b t f body (length frame) s.rx_seq (omega arith) range
            (bytes_eq→eq (take 12 frame) (doc_header (length frame) s.rx_seq) first) in
        ground (arith, own, one, none_set, expected)

module _ {psa : Psa} {aead : Aead} (ideal : IsAead aead) (works : PsaWorks psa aead) where
  spec_encrypt-doc :
      (s : Session) (pt : List ℕ) (cap : ℕ) → spec_encrypt aead s pt cap ≡ doc_encrypt aead s pt cap
  unfolding spec_encrypt sealed_frame
  spec_encrypt-doc s pt cap =
      ap₂
        (λ header nonce.
          if s.established && (leb (28 + length pt) cap && leb (28 + length pt) 65535)
          then some (
            header ++ ((aead.seal s.key nonce header pt).0 ++ (aead.seal s.key nonce header pt).1),
            record s { tx_seq = (s.tx_seq + 1) % 2 ^ 64 },
          )
          else none)
        (frame_header-doc (28 + length pt) s.tx_seq) (build_nonce-doc s.tx_dir s.tx_seq)

  spec_decrypt-doc :
      (s : Session) (frame : List ℕ) (cap : ℕ)
      → All IsByte frame
      → s.rx_seq < 2 ^ 64
      → spec_decrypt aead s frame cap ≡ doc_decrypt aead s frame cap
  unfolding spec_decrypt opened
  spec_decrypt-doc s frame cap bytes range =
      let n = length frame - 28 in
      ap₂
        (λ good nonce.
          if good
          then (aead.unseal s.key nonce (take 12 frame) (take n (drop 12 frame))
                (drop n (drop 12 frame))
              >>= λ pt. some (pt, record s { rx_seq = (s.rx_seq + 1) % 2 ^ 64 }))
          else none)
        (accepts-doc s frame cap bytes range) (build_nonce-doc s.rx_dir s.rx_seq)

  pub proto_frame_encrypt-doc :
      (s : Session) (pt : List ℕ) (cap : ℕ)
      → length s.key ≡ 32
      → proto_frame_encrypt psa s pt cap ≡ doc_encrypt aead s pt cap
  proto_frame_encrypt-doc s pt cap hk =
      proto_frame_encrypt-eq-spec ideal works s pt cap hk ∙ spec_encrypt-doc s pt cap

  pub proto_frame_decrypt-doc :
      (s : Session) (frame : List ℕ) (cap : ℕ)
      → length s.key ≡ 32
      → All IsByte frame
      → s.rx_seq < 2 ^ 64
      → proto_frame_decrypt psa s frame cap ≡ doc_decrypt aead s frame cap
  proto_frame_decrypt-doc s frame cap hk bytes range =
      proto_frame_decrypt-eq-spec ideal works s frame cap hk
      ∙ spec_decrypt-doc s frame cap bytes range

  -- When PSA computes an ideal AEAD, on a session with a 32-byte key and a 64-bit receive counter: the
  -- device seals just the texts whose frame has at most 65535 bytes and fits the room, as the frame that
  -- docs/protocol.md draws (length, type 1, flags 0, sequence number, ciphertext and tag, with the header
  -- authenticated and the nonce of direction, sequence number and three zero bytes), and counts it; and
  -- of all strings of bytes it opens just those that start with the header of their own length and the
  -- expected sequence number, whose text fits and whose tag is right, and counts it.
  pub device_follows_document :
      (s : Session) (text frame : List ℕ) (room : ℕ)
      → length s.key ≡ 32
      → s.rx_seq < 2 ^ 64
      → All IsByte frame
      → (proto_frame_encrypt psa s text room ≡ doc_encrypt aead s text room)
        × (proto_frame_decrypt psa s frame room ≡ doc_decrypt aead s frame room)
  device_follows_document s text frame room hk range bytes =
      (proto_frame_encrypt-doc s text room hk, proto_frame_decrypt-doc s frame room hk bytes range)
