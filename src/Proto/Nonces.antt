-- ===== src/Proto/Nonces.antt =====
-- Nonces of components/core/src/proto.c: two frames of one session are sealed under one key with two
-- nonces.
use espshell.Prelude.{
  ℕ, ◌+◌, ◌<◌, ◌%◌, ◌^◌, ◌≡◌, ◌≢◌, List, [], ◌∷◌, ◌++◌, ap, ◌∙◌, sym, Option, some, length, get_or,
  drop, arith, leb, ◌&&◌, if◌then◌else◌, >>=-eq-some, Bool, none, true, false,
}
use espshell.Crypto.Ideal.{Aead, IsAead}
use espshell.Proto.{Session, Psa, rd64, next_seq, proto_frame_encrypt}
use espshell.Proto.Wire.{each, each-cons}
use espshell.Proto.Words.{rd64-be64}
use espshell.Proto.Replay.{proto_frame_encrypt_seals}
use espshell.Proto.Spec.{PsaWorks}
use espshell.Proto.Document.{doc_nonce, doc_frame, be64-word}
use espshell.Proto.Document.Follows.{proto_frame_encrypt-doc}

-- Nonces of two 64-bit sequence numbers that are the same bytes have the same sequence number.
doc_nonce-injective :
    (d e q r : ℕ) → q < 2 ^ 64 → r < 2 ^ 64 → doc_nonce d q ≡ doc_nonce e r → q ≡ r
doc_nonce-injective d e q r hq hr h =
    let zeros : List ℕ = 0 ∷ 0 ∷ 0 ∷ [] in
    sym (ap (λ w. rd64 (w ++ zeros)) (sym (be64-word q)) ∙ rd64-be64 q zeros hq)
    ∙ ap (λ n. rd64 (drop 1 n)) h
    ∙ (ap (λ w. rd64 (w ++ zeros)) (sym (be64-word r)) ∙ rd64-be64 r zeros hr)

when_true {ℓ} : {A : Type ℓ} (b : Bool) (x y : A) → (if b then some x else none) ≡ some y → x ≡ y
when_true true x y e = cc e
when_true false x y e = absurd (cc e)

module _ (psa : Psa) (room : ℕ) where
  abbrev send_all : Session → List (List ℕ) → Option (List (List ℕ) × Session)
  send_all = each (λ x t. proto_frame_encrypt psa x t room)

  -- The key of the session stays, and the counter is that of the frames.
  tx-each :
      (s t : Session) (ps fs : List (List ℕ))
      → s.tx_seq < 2 ^ 64
      → send_all s ps ≡ some (fs, t)
      → (t.tx_seq ≡ (s.tx_seq + length ps) % 2 ^ 64) × (t.key ≡ s.key)
  tx-each s t [] fs h e = unfold each in ground arith
  tx-each s t (p ∷ ps) fs h e =
      let (f, u, gs, first, rest) =
        each-cons (λ x t. proto_frame_encrypt psa x t room) s t p ps fs e in
      let (_, _, moved) = proto_frame_encrypt_seals psa s u f p room first in
      let seq : u.tx_seq ≡ next_seq s.tx_seq = ap (λ (x : Session). x.tx_seq) moved in
      let key : u.key ≡ s.key = ap (λ (x : Session). x.key) moved in
      let (last, last_key) = tx-each u t ps gs (omega arith) rest in (omega arith, last_key ∙ key)

  first_sent :
      (s t : Session) (p f : List ℕ) (ps fs : List (List ℕ))
      → send_all s (p ∷ ps) ≡ some (f ∷ fs, t)
      → (u : Session) × (proto_frame_encrypt psa s p room ≡ some (f, u))
  unfolding each
  first_sent s t p f ps fs e =
      let ((y, u), first, e1) = >>=-eq-some (proto_frame_encrypt psa s p room) _ e in
      let ((zs, v), rest, e2) = >>=-eq-some (send_all u ps) _ e1 in
      let same : y ≡ f =
        ap (λ o. elim o as (λ _. List ℕ) [ none ↦ y | some r ↦ get_or r.0 0 y ]) e2 in
      (u, first ∙ ap (λ x. some (x, u)) same)

module _ {psa : Psa} {aead : Aead} (ideal : IsAead aead) (works : PsaWorks psa aead)
    (room : ℕ) where
  sealed-doc :
      (s u : Session) (p f : List ℕ)
      → length s.key ≡ 32
      → proto_frame_encrypt psa s p room ≡ some (f, u)
      → f ≡ doc_frame aead s p
  sealed-doc s u p f hk e = sym (
      ap (λ r. r.0)
        (when_true (s.established && (leb (28 + length p) room && leb (28 + length p) 65535)) _ _
          (sym (proto_frame_encrypt-doc ideal works s p room hk) ∙ e)))

  -- When PSA computes an ideal AEAD: a session with a 32-byte key, whose send counter is a 64-bit number,
  -- seals at least one and fewer than 2^64 frames, and then one more. The first and the last of these
  -- frames are the protocol's, of the session at that time: the header, and the text sealed under the
  -- session's key, the same for both, with the nonce of its direction and counter; and these two nonces
  -- differ.
  pub nonces_fresh :
      (s t u : Session) (p p' f f' : List ℕ) (ps fs : List (List ℕ))
      → length s.key ≡ 32
      → s.tx_seq < 2 ^ 64
      → length (p ∷ ps) < 2 ^ 64
      → send_all psa room s (p ∷ ps) ≡ some (f ∷ fs, t)
      → proto_frame_encrypt psa t p' room ≡ some (f', u)
      → (f ≡ doc_frame aead s p)
        × (f' ≡ doc_frame aead t p')
        × (t.key ≡ s.key)
        × (doc_nonce t.tx_dir t.tx_seq ≢ doc_nonce s.tx_dir s.tx_seq)
  nonces_fresh s t u p p' f f' ps fs hk h few e next =
      let (last, key) = tx-each psa room s t (p ∷ ps) (f ∷ fs) h e in
      let (v, first) = first_sent psa room s t p f ps fs e in
      (
        sealed-doc s v p f hk first,
        sealed-doc t u p' f' (ap length key ∙ hk) next,
        key,
        λ same.
            let seq =
              doc_nonce-injective t.tx_dir s.tx_dir t.tx_seq s.tx_seq (omega arith) h same in
            absurd (omega arith),
      )
