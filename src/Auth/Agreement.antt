-- ===== src/Auth/Agreement.antt =====
-- Client and device in the handshake of components/core/src/auth.c and tools/esp-ctl/src/esp-ctl.c: the
-- answer that passes the check, and the key that both derive.
use espshell.Prelude.{
  ℕ, zero, suc, ◌<◌, ◌≡◌, ◌↔◌, refl, ap, ap₂, subst, sym, ◌∙◌, true, false, List, [], ◌∷◌, ◌++◌,
  append_assoc, some, ◌==◌, length, bit_or, bit_xor, bit_or-zero, bit_xor-zero, bit_xor_self, arith,
}
use espshell.Crypto.{Hmac, update_parts, ec_hmac_sha256}
use espshell.Auth.{
  PsaMac, diff_loop, expected_hmac, compare_hmac, auth_verify, client_hmac, auth_info,
}

-- PSA computes `hmac` of a key that is not empty and the bytes that an operation has been given.
pub record MacWorks (mac : PsaMac) (hmac : List ℕ → List ℕ → List ℕ) : Type 0 where
  pub key_of : mac.Op → List ℕ
  pub given : mac.Op → List ℕ
  pub starts :
      (token : List ℕ)
      → 0 < length token
      → (kid : mac.Key) × (op : mac.Op) × (mac.import_key token ≡ some kid)
        × (mac.sign_setup kid ≡ some op)
        × (key_of op ≡ token)
        × (given op ≡ [])
  pub updates :
      (op : mac.Op) (bytes : List ℕ)
      → (op' : mac.Op) × (mac.update op bytes ≡ some op')
        × (key_of op' ≡ key_of op)
        × (given op' ≡ given op ++ bytes)
  pub finishes : (op : mac.Op) → mac.sign_finish op ≡ some (hmac (key_of op) (given op))
  pub size : (key bytes : List ℕ) → length (hmac key bytes) ≡ 32

-- OpenSSL computes the same, of any key.
pub record HmacWorks (h : Hmac) (hmac : List ℕ → List ℕ → List ℕ) : Type 0 where
  pub key_of : h.Ctx → List ℕ
  pub given : h.Ctx → List ℕ
  pub news : (c : h.Ctx) × (h.ctx_new ≡ some c)
  pub inits :
      (key : List ℕ) (c : h.Ctx)
      → (c' : h.Ctx) × (h.init key c ≡ some c') × (key_of c' ≡ key) × (given c' ≡ [])
  pub updates :
      (bytes : List ℕ) (c : h.Ctx)
      → (c' : h.Ctx) × (h.update bytes c ≡ some c')
        × (key_of c' ≡ key_of c)
        × (given c' ≡ given c ++ bytes)
  pub finals : (c : h.Ctx) → h.final c ≡ some (hmac (key_of c) (given c))
  pub size : (key bytes : List ℕ) → length (hmac key bytes) ≡ 32

-- The loop over two lists of `n` bytes ends with zero just when it starts with zero and they agree.
diff_loop-zero :
    (n : ℕ) (xs ys : List ℕ) (diff : ℕ)
    → length xs ≡ n
    → length ys ≡ n
    → diff_loop n xs ys diff ≡ 0
    → (diff ≡ 0) × (xs ≡ ys)
unfolding diff_loop
diff_loop-zero zero [] [] diff p q e = (e, refl)
diff_loop-zero zero (x ∷ xs) ys diff p q e = absurd (omega arith)
diff_loop-zero zero [] (y ∷ ys) diff p q e = absurd (omega arith)
diff_loop-zero (suc n) [] ys diff p q e = absurd (omega arith)
diff_loop-zero (suc n) (x ∷ xs) [] diff p q e = absurd (omega arith)
diff_loop-zero (suc n) (x ∷ xs) (y ∷ ys) diff p q e =
    let (both, rest) =
      diff_loop-zero n xs ys (bit_or diff (bit_xor x y)) (omega arith) (omega arith) e in
    let (old, here) = bit_or-zero diff (bit_xor x y) both in
    (old, ap₂ (λ a b. a ∷ b) (bit_xor-zero x y here) rest)

diff_loop_self : (n : ℕ) (xs : List ℕ) → length xs ≡ n → diff_loop n xs xs 0 ≡ 0
unfolding diff_loop
diff_loop_self zero xs p = refl
diff_loop_self (suc n) [] p = absurd (omega arith)
diff_loop_self (suc n) (x ∷ xs) p =
    ap (λ d. diff_loop n xs xs (bit_or 0 d)) (bit_xor_self x) ∙ diff_loop_self n xs (omega arith)

module _ {mac : PsaMac} {hmac : List ℕ → List ℕ → List ℕ} (device : MacWorks mac hmac) where
  expected_hmac_lem :
      (token snonce cnonce : List ℕ)
      → 0 < length token
      → expected_hmac mac token snonce cnonce ≡ some (hmac token (auth_info ++ (snonce ++ cnonce)))
  unfolding expected_hmac
  expected_hmac_lem token snonce cnonce pos =
      let (kid, op, imported, setup, k0, g0) = device.starts token pos in
      let (op1, u1, k1, g1) = device.updates op auth_info in
      let (op2, u2, k2, g2) = device.updates op1 snonce in
      let (op3, u3, k3, g3) = device.updates op2 cnonce in
      let data_is : device.given op3 ≡ auth_info ++ (snonce ++ cnonce) =
        g3
        ∙ ap (λ d. d ++ cnonce) (g2 ∙ ap (λ d. d ++ snonce) (g1 ∙ ap (λ d. d ++ auth_info) g0))
        ∙ append_assoc auth_info snonce cnonce in
      let key_is : device.key_of op3 ≡ token = k3 ∙ (k2 ∙ (k1 ∙ k0)) in
      let result : mac.sign_finish op3 ≡ some (hmac token (auth_info ++ (snonce ++ cnonce))) =
        device.finishes op3 ∙ ap₂ (λ k d. some (hmac k d)) key_is data_is in
      let full = device.size token (auth_info ++ (snonce ++ cnonce)) in
      rw (imported, setup, u1, u2, u3, result, full) refl

  -- When PSA computes HMAC, `auth_verify` of a device that has a token accepts an answer of 32 bytes
  -- just when it is the HMAC, under the token, of the protocol's text and the two nonces.
  pub auth_verify_iff :
      (token snonce cnonce answer : List ℕ)
      → 0 < length token
      → length answer ≡ 32
      → (auth_verify mac token snonce cnonce answer ≡ true)
        ↔ (answer ≡ hmac token (auth_info ++ (snonce ++ cnonce)))
  unfolding auth_verify compare_hmac
  auth_verify_iff token snonce cnonce answer pos size =
      let right = hmac token (auth_info ++ (snonce ++ cnonce)) in
      let expected = expected_hmac_lem token snonce cnonce pos in
      let full : length right ≡ 32 = device.size token (auth_info ++ (snonce ++ cnonce)) in
      let some_token : (length token == 0) ≡ false = ground arith in
      rw (some_token, expected)
        (
          λ e. sym (diff_loop-zero 32 right answer 0 full size (ground arith)).1,
          λ e.
              subst (λ a. (diff_loop 32 right a 0 == 0) ≡ true) (sym e)
                (ap (λ d. d == 0) (diff_loop_self 32 right full)),
        )

module _ {h : Hmac} {hmac : List ℕ → List ℕ → List ℕ} (client : HmacWorks h hmac) where
  pub client_hmac_lem :
      (token snonce cnonce : List ℕ)
      → client_hmac h token snonce cnonce ≡ some (hmac token (auth_info ++ (snonce ++ cnonce)))
  unfolding client_hmac ec_hmac_sha256 update_parts
  client_hmac_lem token snonce cnonce =
      let (c, new) = client.news in
      let (c0, init, k0, g0) = client.inits token c in
      let (c1, u1, k1, g1) = client.updates auth_info c0 in
      let (c2, u2, k2, g2) = client.updates snonce c1 in
      let (c3, u3, k3, g3) = client.updates cnonce c2 in
      let data_is : client.given c3 ≡ auth_info ++ (snonce ++ cnonce) =
        g3
        ∙ ap (λ d. d ++ cnonce) (g2 ∙ ap (λ d. d ++ snonce) (g1 ∙ ap (λ d. d ++ auth_info) g0))
        ∙ append_assoc auth_info snonce cnonce in
      let key_is : client.key_of c3 ≡ token = k3 ∙ (k2 ∙ (k1 ∙ k0)) in
      let result : h.final c3 ≡ some (hmac token (auth_info ++ (snonce ++ cnonce))) =
        client.finals c3 ∙ ap₂ (λ k d. some (hmac k d)) key_is data_is in
      let full = client.size token (auth_info ++ (snonce ++ cnonce)) in
      rw (new, init, u1, u2, u3, result, full) refl

-- When PSA and OpenSSL compute the same HMAC, a client with the device's token, not an empty one,
-- computes an answer, and the device accepts it.
pub answer_accepted :
    {mac : PsaMac} {h : Hmac} {hmac : List ℕ → List ℕ → List ℕ} (device : MacWorks mac hmac)
    (client : HmacWorks h hmac) (token snonce cnonce : List ℕ)
    → 0 < length token
    → (answer : List ℕ) × (client_hmac h token snonce cnonce ≡ some answer)
      × (auth_verify mac token snonce cnonce answer ≡ true)
answer_accepted {hmac = hmac} device client token snonce cnonce pos =
    let answer = hmac token (auth_info ++ (snonce ++ cnonce)) in
    (
      answer,
      client_hmac_lem client token snonce cnonce,
      (auth_verify_iff device token snonce cnonce answer pos
            (device.size token (auth_info ++ (snonce ++ cnonce)))).1
          refl,
    )
