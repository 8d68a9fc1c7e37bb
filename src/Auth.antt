-- ===== src/Auth.antt =====
-- components/core/src/auth.c: the token of the device, the check of a client's answer and the session
-- key; and the same two computations of `do_handshake` in tools/esp-ctl/src/esp-ctl.c. `s_token` is the
-- list of its bytes in use. PSA is a parameter, and so is NVS.
pub mod Agreement
pub mod Keys
pub mod Boot
pub mod Toy
mod Tests
use espshell.Prelude.{
  ℕ, zero, suc, ◌+◌, Bool, true, false, List, [], ◌∷◌, ◌++◌, Option, none, some, ltb, ◌==◌,
  if◌then◌else◌, length, take, bit_or, bit_xor, guard, ◌>>=◌, ◌>>◌, codes,
}
use espshell.Hex.{hex_encode}
use espshell.Cfg.{Nvs, Cfg, cfg_get_str, cfg_set_str}
use espshell.Crypto.{Hmac, Hkdf, ec_hmac_sha256, ec_hkdf_sha256}

abbrev pub nonce_len : ℕ
nonce_len = 32

abbrev pub hmac_len : ℕ
hmac_len = 32

abbrev pub session_key_len : ℕ
session_key_len = 32

abbrev pub max_token : ℕ
max_token = 128

abbrev pub auth_info : List ℕ
auth_info = codes "espshell-auth-v1"

abbrev pub sess_info : List ℕ
sess_info = codes "espshell-session-v1"

-- `psa_import_key` of an HMAC key, then `psa_mac_sign_setup`, `psa_mac_update` and `psa_mac_sign_finish`.
pub record PsaMac : Type 1 where
  pub Key : Type 0
  pub Op : Type 0
  pub import_key : List ℕ → Option Key
  pub sign_setup : Key → Option Op
  pub update : Op → List ℕ → Option Op
  pub sign_finish : Op → Option (List ℕ)

pub data Input : Type 0 where
  salt : Input
  secret : Input
  info : Input

-- `psa_key_derivation_setup` with HKDF, `psa_key_derivation_input_bytes` and `..._output_bytes`.
pub record PsaKdf : Type 1 where
  pub Op : Type 0
  pub setup : Option Op
  pub input_bytes : Op → Input → List ℕ → Option Op
  pub output_bytes : Op → ℕ → Option (List ℕ)

-- `diff |= expected[i] ^ client_hmac[i]`, over the first `n` bytes; a read behind a list is zero.
unfoldable pub diff_loop : ℕ → List ℕ → List ℕ → ℕ → ℕ
diff_loop zero xs ys diff = diff
diff_loop (suc n) (x ∷ xs) (y ∷ ys) diff = diff_loop n xs ys (bit_or diff (bit_xor x y))
diff_loop (suc n) [] (y ∷ ys) diff = diff_loop n [] ys (bit_or diff y)
diff_loop (suc n) (x ∷ xs) [] diff = diff_loop n xs [] (bit_or diff x)
diff_loop (suc n) [] [] diff = diff_loop n [] [] diff

module _ (mac : PsaMac) where
  unfoldable pub expected_hmac : List ℕ → List ℕ → List ℕ → Option (List ℕ)
  expected_hmac token snonce cnonce = do
    kid ← mac.import_key token
    op ← mac.sign_setup kid
    op1 ← mac.update op auth_info
    op2 ← mac.update op1 snonce
    op3 ← mac.update op2 cnonce
    expected ← mac.sign_finish op3
    guard (length expected == hmac_len)
    some expected

  unfoldable pub compare_hmac : List ℕ → Option (List ℕ) → Bool
  unfolding diff_loop
  compare_hmac client_hmac none = false
  compare_hmac client_hmac (some expected) = diff_loop hmac_len expected client_hmac 0 == 0

  unfoldable pub auth_verify : List ℕ → List ℕ → List ℕ → List ℕ → Bool
  unfolding expected_hmac compare_hmac
  auth_verify token snonce cnonce client_hmac =
      if length token == 0
      then false
      else compare_hmac client_hmac (expected_hmac token snonce cnonce)

unfoldable pub auth_derive_session_key : PsaKdf → List ℕ → List ℕ → List ℕ → Option (List ℕ)
auth_derive_session_key kdf token snonce cnonce =
    if length token == 0
    then none
    else (kdf.setup >>= λ op0. kdf.input_bytes op0 Input.salt (snonce ++ cnonce) >>= λ op1.
        kdf.input_bytes op1 Input.secret token >>= λ op2.
        kdf.input_bytes op2 Input.info sess_info >>= λ op3. kdf.output_bytes op3 session_key_len)

-- The test of what `cfg_get_str` answers.
unfoldable pub load_token : Option (List ℕ) → Option (List ℕ)
load_token none = none
load_token (some []) = none
load_token (some (c ∷ s)) = some (c ∷ s)

-- `s_token`, and the value that is stored. `k_token` is the default of the build, empty for none, and
-- `raw` is what `esp_fill_random` gives.
unfoldable pub first_token : List ℕ → List ℕ → List ℕ × List ℕ
first_token [] raw = (hex_encode raw, hex_encode raw)
first_token (c ∷ k_token) raw = (take max_token (c ∷ k_token), c ∷ k_token)

abbrev pub key_token : List ℕ
key_token = codes "auth_token"

module _ (N : Nvs) where
  -- Answers `s_token` and the settings; the result of `cfg_set_str` is not read.
  unfoldable pub boot_with : Cfg N → List ℕ → List ℕ → Option (List ℕ) → List ℕ × Cfg N
  unfolding first_token
  boot_with c k_token raw none =
      let (token, value) = first_token k_token raw in
      (token, (cfg_set_str N c (some key_token) (some value)).1)
  boot_with c k_token raw (some token) = (token, c)

  unfoldable pub auth_init : Cfg N → List ℕ → List ℕ → List ℕ × Cfg N
  unfolding load_token boot_with
  auth_init c k_token raw =
      boot_with c k_token raw (load_token (cfg_get_str N c (some key_token) (max_token + 1)))

-- The computations of the client.
unfoldable pub client_hmac : Hmac → List ℕ → List ℕ → List ℕ → Option (List ℕ)
client_hmac hmac token snonce cnonce = ec_hmac_sha256 hmac token (auth_info ∷ snonce ∷ cnonce ∷ [])

unfoldable pub client_key : Hkdf → List ℕ → List ℕ → List ℕ → Option (List ℕ)
client_key hkdf token snonce cnonce =
    ec_hkdf_sha256 hkdf token (snonce ++ cnonce) sess_info session_key_len
