-- ===== src/Proto/Document.antt =====
-- The frame of docs/protocol.md, phase B, written out: what a sender of the document sends, and what its
-- receiver takes.
pub mod Follows
use espshell.Prelude.{
  ℕ, zero, suc, ◌+◌, ◌-◌, ◌*◌, ◌/◌, ◌%◌, ◌^◌, ◌≤◌, ◌<◌, ◌≡◌, refl, ap, ap₂, sym, ◌∙◌, subst, Bool,
  true, false, ◌&&◌, List, [], ◌∷◌, ◌++◌, Option, none, some, leb, ◌==◌, length, get_or, take, drop,
  ◌>>=◌, if◌then◌else◌, arith, append_assoc, append-nil, take-append-drop, bit_or, bit_or_low,
  length-take, length-drop, Bool-cases, inl, inr, IsByte, All, bytes_eq, bytes_eq→eq, bytes_eq_refl,
}
use espshell.Crypto.Ideal.{Aead, IsAead}
use espshell.Proto.{
  Session, Psa, be16, be_loop, be64, rd16, rd_loop, rd64, build_nonce, frame_header,
  proto_frame_encrypt, proto_frame_decrypt,
}
use espshell.Proto.Words.{rd64-be64}
use espshell.Proto.Spec.{
  PsaWorks, sealed_frame, spec_encrypt, accepts, opened, spec_decrypt, proto_frame_encrypt-eq-spec,
  proto_frame_decrypt-eq-spec,
}

-- The number `v` as `n` bytes, the highest first.
abbrev pub word : ℕ → ℕ → List ℕ
word zero v = []
word (suc n) v = word n (v / 256) ++ (v % 256 ∷ [])

-- length(u16), type 1, flags 0, seq(u64).
abbrev pub doc_header : ℕ → ℕ → List ℕ
doc_header len seq = word 2 len ++ (1 ∷ 0 ∷ word 8 seq)

-- dir_byte, seq_be, three zero bytes.
abbrev pub doc_nonce : ℕ → ℕ → List ℕ
doc_nonce dir seq = dir ∷ (word 8 seq ++ (0 ∷ 0 ∷ 0 ∷ []))

-- Header, ciphertext and tag, with the header authenticated.
abbrev pub doc_frame : Aead → Session → List ℕ → List ℕ
doc_frame aead s pt =
    let header = doc_header (28 + length pt) s.tx_seq in
    let (ct, tag) = aead.seal s.key (doc_nonce s.tx_dir s.tx_seq) header pt in header ++ (ct ++ tag)

abbrev pub doc_encrypt : Aead → Session → List ℕ → ℕ → Option (List ℕ × Session)
doc_encrypt aead s pt cap =
    if s.established && (leb (28 + length pt) cap && leb (28 + length pt) 65535)
    then some (doc_frame aead s pt, record s { tx_seq = (s.tx_seq + 1) % 2 ^ 64 })
    else none

-- The receiver's rules before the decryption: the frame starts with the header of its own length and of
-- the expected sequence number, and its text fits.
abbrev pub doc_accepts : Session → List ℕ → ℕ → Bool
doc_accepts s frame cap =
    s.established
    && (leb 28 (length frame)
        && (leb (length frame) 65535
            && (bytes_eq (take 12 frame) (doc_header (length frame) s.rx_seq)
                && leb (length frame - 28) cap)))

abbrev pub doc_decrypt : Aead → Session → List ℕ → ℕ → Option (List ℕ × Session)
doc_decrypt aead s frame cap =
    let n = length frame - 28 in
    let text =
      aead.unseal s.key (doc_nonce s.rx_dir s.rx_seq) (take 12 frame) (take n (drop 12 frame))
        (drop n (drop 12 frame)) in
    if doc_accepts s frame cap
    then (text >>= λ pt. some (pt, record s { rx_seq = (s.rx_seq + 1) % 2 ^ 64 }))
    else none

be_loop-word : (n v : ℕ) (p : List ℕ) → be_loop n v p ≡ word n v ++ p
unfolding be_loop
be_loop-word zero v p = refl
be_loop-word (suc n) v p =
    be_loop-word n (v / 256) (v % 256 ∷ p) ∙ sym (append_assoc (word n (v / 256)) (v % 256 ∷ []) p)

pub be64-word : (v : ℕ) → be64 v ≡ word 8 v
unfolding be64
be64-word v = be_loop-word 8 v [] ∙ append-nil (word 8 v)

pub frame_header-doc : (len seq : ℕ) → frame_header len seq ≡ doc_header len seq
unfolding frame_header be16
frame_header-doc len seq = ap (λ w. (len / 256) % 256 ∷ len % 256 ∷ 1 ∷ 0 ∷ w) (be64-word seq)

pub build_nonce-doc : (dir seq : ℕ) → build_nonce dir seq ≡ doc_nonce dir seq
unfolding build_nonce
build_nonce-doc dir seq = ap (λ w. dir ∷ (w ++ (0 ∷ 0 ∷ 0 ∷ []))) (be64-word seq)
