-- ===== src/Crypto.antt =====
-- tools/esp-ctl/src/crypto.c: the client's wrappers around OpenSSL. OpenSSL itself is the parameter
-- `Evp`: each call takes the context and gives the next one, and `none` is a failing status.
-- Freeing a context has no effect that the code can see.
pub mod Ideal
pub mod Toy
use espshell.Prelude.{
  ◌>>=◌, ◌>>◌, guard, ℕ, ◌+◌, Bool, true, false, List, [], ◌∷◌, ◌++◌, Option, none, some, ◌==◌,
  if◌then◌else◌, length,
}

-- EVP_EncryptInit_ex with the cipher, EVP_CTRL_AEAD_SET_IVLEN, EVP_EncryptInit_ex with key and
-- nonce, EVP_EncryptUpdate without and with output, EVP_EncryptFinal_ex, EVP_CTRL_AEAD_GET_TAG, and
-- the same for decryption. `update` and `final` give the bytes that they write.
pub record Evp : Type 1 where
  pub Ctx : Type 0
  pub ctx_new : Option Ctx
  pub set_ivlen : ℕ → Ctx → Option Ctx
  pub encrypt_init : Ctx → Option Ctx
  pub encrypt_key : List ℕ → List ℕ → Ctx → Option Ctx
  pub encrypt_aad : List ℕ → Ctx → Option Ctx
  pub encrypt_update : List ℕ → Ctx → Option (Ctx × List ℕ)
  pub encrypt_final : Ctx → Option (Ctx × List ℕ)
  pub get_tag : ℕ → Ctx → Option (List ℕ)
  pub decrypt_init : Ctx → Option Ctx
  pub decrypt_key : List ℕ → List ℕ → Ctx → Option Ctx
  pub decrypt_aad : List ℕ → Ctx → Option Ctx
  pub decrypt_update : List ℕ → Ctx → Option (Ctx × List ℕ)
  pub set_tag : List ℕ → Ctx → Option Ctx
  pub decrypt_final : Ctx → Option (Ctx × List ℕ)

module _ (evp : Evp) where
  open evp use {
    Ctx, ctx_new, set_ivlen, encrypt_init, encrypt_key, encrypt_aad, encrypt_update, encrypt_final,
    get_tag, decrypt_init, decrypt_key, decrypt_aad, decrypt_update, set_tag, decrypt_final,
  }

  unfoldable pub ec_chacha20_seal : List ℕ → List ℕ → List ℕ → List ℕ → Option (List ℕ × List ℕ)
  ec_chacha20_seal key nonce aad pt = do
    c0 ← ctx_new
    c1 ← encrypt_init c0
    c2 ← set_ivlen 12 c1
    c3 ← encrypt_key key nonce c2
    c4 ← if length aad == 0 then some c3 else encrypt_aad aad c3
    (c5, body) ← encrypt_update pt c4
    (c6, last) ← encrypt_final c5
    tag ← get_tag 16 c6
    some (body ++ last, tag)

  unfoldable pub ec_chacha20_open : List ℕ → List ℕ → List ℕ → List ℕ → List ℕ → Option (List ℕ)
  ec_chacha20_open key nonce aad ct tag = do
    c0 ← ctx_new
    c1 ← decrypt_init c0
    c2 ← set_ivlen 12 c1
    c3 ← decrypt_key key nonce c2
    c4 ← if length aad == 0 then some c3 else decrypt_aad aad c3
    (c5, body) ← decrypt_update ct c4
    c6 ← set_tag tag c5
    (c7, last) ← decrypt_final c6
    some (body ++ last)

-- HMAC_Init_ex, HMAC_Update and HMAC_Final with SHA-256.
pub record Hmac : Type 1 where
  pub Ctx : Type 0
  pub ctx_new : Option Ctx
  pub init : List ℕ → Ctx → Option Ctx
  pub update : List ℕ → Ctx → Option Ctx
  pub final : Ctx → Option (List ℕ)

module _ (hmac : Hmac) where
  open hmac use {Ctx, ctx_new, init, update, final}

  unfoldable pub update_parts : List (List ℕ) → Ctx → Option Ctx
  update_parts [] c = some c
  update_parts (part ∷ parts) c = update part c >>= update_parts parts

  unfoldable pub ec_hmac_sha256 : List ℕ → List (List ℕ) → Option (List ℕ)
  unfolding update_parts
  ec_hmac_sha256 key parts = do
    c0 ← ctx_new
    c1 ← init key c0
    c2 ← update_parts parts c1
    out ← final c2
    guard (length out == 32)
    some out

-- EVP_PKEY_derive and the calls that prepare it. The last number is the length wanted.
pub record Hkdf : Type 1 where
  pub Ctx : Type 0
  pub ctx_new : Option Ctx
  pub derive_init : Ctx → Option Ctx
  pub set_md : Ctx → Option Ctx
  pub set_salt : List ℕ → Ctx → Option Ctx
  pub set_key : List ℕ → Ctx → Option Ctx
  pub add_info : List ℕ → Ctx → Option Ctx
  pub derive : ℕ → Ctx → Option (List ℕ)

module _ (hkdf : Hkdf) where
  open hkdf use {ctx_new, derive_init, set_md, set_salt, set_key, add_info, derive}

  unfoldable pub ec_hkdf_sha256 : List ℕ → List ℕ → List ℕ → ℕ → Option (List ℕ)
  ec_hkdf_sha256 ikm salt info out_len = do
    c0 ← ctx_new
    c1 ← derive_init c0
    c2 ← set_md c1
    c3 ← set_salt salt c2
    c4 ← set_key ikm c3
    c5 ← add_info info c4
    out ← derive out_len c5
    guard (length out == out_len)
    some out
