-- ===== src/Crypto/Ideal.antt =====
-- The algorithm that both crypto libraries implement, ChaCha20-Poly1305 as a pair of functions, and
-- what the library documentation promises of OpenSSL's calls.
use espshell.Prelude.{
  ◌>>=◌, ℕ, ◌≡◌, List, [], ◌∷◌, append-nil, Option, none, some, length, Option-cases, inl, inr,
  arith,
}
use espshell.Crypto.{Evp, ec_chacha20_seal, ec_chacha20_open}

-- `seal` and `unseal` of key, nonce, associated data and text; the tag stands apart.
pub record Aead : Type 0 where
  pub seal : List ℕ → List ℕ → List ℕ → List ℕ → List ℕ × List ℕ
  pub unseal : List ℕ → List ℕ → List ℕ → List ℕ → List ℕ → Option (List ℕ)

pub record IsAead (aead : Aead) : Type 0 where
  pub length_text : (k n a p : List ℕ) → length (aead.seal k n a p).0 ≡ length p
  pub length_tag : (k n a p : List ℕ) → length (aead.seal k n a p).1 ≡ 16
  pub length_unseal :
      (k n a c t : List ℕ) (p : List ℕ) → aead.unseal k n a c t ≡ some p → length p ≡ length c
  pub unseal-seal :
      (k n a p : List ℕ) → aead.unseal k n a (aead.seal k n a p).0 (aead.seal k n a p).1 ≡ some p

-- OpenSSL has memory for a context, accepts a 32-byte key and a 12-byte nonce, and its calls, in the
-- order that it documents, compute `aead`. A wrong tag shows in `decrypt_final` alone.
pub record EvpWorks (evp : Evp) (aead : Aead) : Type 0 where
  pub encrypting :
      (k n : List ℕ)
      → length k ≡ 32
      → length n ≡ 12
      → (c : evp.Ctx) × ((evp.ctx_new
            >>= evp.encrypt_init
            >>= evp.set_ivlen 12
            >>= evp.encrypt_key k n)
          ≡ some c)
        × ((a p : List ℕ)
            → (d : evp.Ctx) × (e : evp.Ctx) × (evp.encrypt_aad a c ≡ some d)
              × (evp.encrypt_update p d ≡ some (e, (aead.seal k n a p).0))
              × (evp.encrypt_final e ≡ some (e, []))
              × (evp.get_tag 16 e ≡ some (aead.seal k n a p).1))
  pub decrypting :
      (k n : List ℕ)
      → length k ≡ 32
      → length n ≡ 12
      → (c : evp.Ctx) × ((evp.ctx_new
            >>= evp.decrypt_init
            >>= evp.set_ivlen 12
            >>= evp.decrypt_key k n)
          ≡ some c)
        × ((a s t : List ℕ)
            → (d : evp.Ctx) × (e : evp.Ctx) × (f : evp.Ctx) × (text : List ℕ) × (evp.decrypt_aad a c
                ≡ some d)
              × (evp.decrypt_update s d ≡ some (e, text))
              × (evp.set_tag t e ≡ some f)
              × ((aead.unseal k n a s t ≡ none) → evp.decrypt_final f ≡ none)
              × ((p : List ℕ)
                  → aead.unseal k n a s t ≡ some p
                  → (text ≡ p) × (evp.decrypt_final f ≡ some (f, []))))

module _ {evp : Evp} {aead : Aead} (works : EvpWorks evp aead) where
  -- With data to authenticate, the wrapper computes `seal`.
  pub ec_chacha20_seal_lem :
      (k n : List ℕ) (b : ℕ) (a p : List ℕ)
      → length k ≡ 32
      → length n ≡ 12
      → ec_chacha20_seal evp k n (b ∷ a) p ≡ some (aead.seal k n (b ∷ a) p)
  unfolding ec_chacha20_seal
  ec_chacha20_seal_lem k n b a p hk hn =
      let (c, ready, rest) = works.encrypting k n hk hn in
      let (d, e, aad, body, last, tag) = rest (b ∷ a) p in
      ground (arith, ready, aad, body, last, tag, append-nil (aead.seal k n (b ∷ a) p).0)

  pub ec_chacha20_open_lem :
      (k n : List ℕ) (b : ℕ) (a s t : List ℕ)
      → length k ≡ 32
      → length n ≡ 12
      → ec_chacha20_open evp k n (b ∷ a) s t ≡ aead.unseal k n (b ∷ a) s t
  unfolding ec_chacha20_open
  ec_chacha20_open_lem k n b a s t hk hn =
      let (c, ready, rest) = works.decrypting k n hk hn in
      let (d, e, f, text, aad, body, tag, bad, good) = rest (b ∷ a) s t in
      elim (Option-cases (aead.unseal k n (b ∷ a) s t)) [
        | inl none_left ↦ ground (arith, ready, aad, body, tag, bad none_left)
        | inr (p, opened) ↦
            let (same, last) = good p opened in
            ground (arith, ready, aad, body, tag, same, last, append-nil p)
      ]
