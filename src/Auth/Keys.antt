-- ===== src/Auth/Keys.antt =====
-- The session key that components/core/src/auth.c and tools/esp-ctl/src/esp-ctl.c derive.
use espshell.Prelude.{ℕ, ◌<◌, ◌≡◌, refl, false, List, [], ◌∷◌, ◌++◌, some, ◌==◌, length, arith}
use espshell.Crypto.{Hkdf, ec_hkdf_sha256}
use espshell.Auth.{PsaKdf, Input, auth_derive_session_key, client_key, sess_info}
use espshell.Proto.{proto_session_init}
use espshell.Proto.Client.{session_init}
use espshell.Proto.Sealed.{Linked}

-- PSA computes `hkdf` of the salt, the secret and the info that an operation was given in this order,
-- a secret that is not empty.
pub record KdfWorks (kdf : PsaKdf) (hkdf : List ℕ → List ℕ → List ℕ → ℕ → List ℕ) : Type 0 where
  pub given : kdf.Op → List (List ℕ)
  pub setups : (op : kdf.Op) × (kdf.setup ≡ some op) × (given op ≡ [])
  pub salts :
      (op : kdf.Op) (salt : List ℕ)
      → given op ≡ []
      → (op' : kdf.Op) × (kdf.input_bytes op Input.salt salt ≡ some op') × (given op' ≡ salt ∷ [])
  pub secrets :
      (op : kdf.Op) (salt secret : List ℕ)
      → given op ≡ salt ∷ []
      → 0 < length secret
      → (op' : kdf.Op) × (kdf.input_bytes op Input.secret secret ≡ some op')
        × (given op' ≡ salt ∷ secret ∷ [])
  pub infos :
      (op : kdf.Op) (salt secret info : List ℕ)
      → given op ≡ salt ∷ secret ∷ []
      → (op' : kdf.Op) × (kdf.input_bytes op Input.info info ≡ some op')
        × (given op' ≡ salt ∷ secret ∷ info ∷ [])
  pub outputs :
      (op : kdf.Op) (salt secret info : List ℕ) (n : ℕ)
      → given op ≡ salt ∷ secret ∷ info ∷ []
      → kdf.output_bytes op n ≡ some (hkdf salt secret info n)

-- OpenSSL computes the same.
pub record HkdfWorks (h : Hkdf) (hkdf : List ℕ → List ℕ → List ℕ → ℕ → List ℕ) : Type 0 where
  pub runs :
      (salt secret info : List ℕ) (n : ℕ)
      → 0 < length secret
      → (c0 c1 c2 c3 c4 c5 : h.Ctx) × (h.ctx_new ≡ some c0)
        × (h.derive_init c0 ≡ some c1)
        × (h.set_md c1 ≡ some c2)
        × (h.set_salt salt c2 ≡ some c3)
        × (h.set_key secret c3 ≡ some c4)
        × (h.add_info info c4 ≡ some c5)
        × (h.derive n c5 ≡ some (hkdf salt secret info n))
  pub size : (salt secret info : List ℕ) (n : ℕ) → length (hkdf salt secret info n) ≡ n

device_key_lem :
    {kdf : PsaKdf} {hkdf : List ℕ → List ℕ → List ℕ → ℕ → List ℕ} (device : KdfWorks kdf hkdf)
    (token snonce cnonce : List ℕ)
    → 0 < length token
    → auth_derive_session_key kdf token snonce cnonce
      ≡ some (hkdf (snonce ++ cnonce) token sess_info 32)
unfolding auth_derive_session_key
device_key_lem {kdf = kdf} device token snonce cnonce pos =
    let salt = snonce ++ cnonce in
    let (op0, setup, g0) = device.setups in
    let (op1, salted, g1) = device.salts op0 salt g0 in
    let (op2, keyed, g2) = device.secrets op1 salt token g1 pos in
    let (op3, told, g3) = device.infos op2 salt token sess_info g2 in
    let result = device.outputs op3 salt token sess_info 32 g3 in
    let some_token : (length token == 0) ≡ false = ground arith in
    rw (some_token, setup, salted, keyed, told) result

client_key_lem :
    {h : Hkdf} {hkdf : List ℕ → List ℕ → List ℕ → ℕ → List ℕ} (client : HkdfWorks h hkdf)
    (token snonce cnonce : List ℕ)
    → 0 < length token
    → client_key h token snonce cnonce ≡ some (hkdf (snonce ++ cnonce) token sess_info 32)
unfolding client_key ec_hkdf_sha256
client_key_lem client token snonce cnonce pos =
    let salt = snonce ++ cnonce in
    let (c0, c1, c2, c3, c4, c5, new, init, md, salted, keyed, told, result) =
      client.runs salt token sess_info 32 pos in
    let full = client.size salt token sess_info 32 in
    rw (new, init, md, salted, keyed, told, result, full) refl

-- When PSA and OpenSSL compute the same HKDF, device and client with one token, not an empty one,
-- derive the same 32-byte key from the nonces, and the sessions that they start with it are in step in
-- both directions.
pub keys_agree :
    {kdf : PsaKdf} {h : Hkdf} {hkdf : List ℕ → List ℕ → List ℕ → ℕ → List ℕ}
    (device : KdfWorks kdf hkdf) (client : HkdfWorks h hkdf) (token snonce cnonce : List ℕ)
    → 0 < length token
    → (key : List ℕ) × (auth_derive_session_key kdf token snonce cnonce ≡ some key)
      × (client_key h token snonce cnonce ≡ some key)
      × Linked (proto_session_init key) (session_init key)
      × Linked (session_init key) (proto_session_init key)
unfolding proto_session_init session_init
keys_agree {hkdf = hkdf} device client token snonce cnonce pos =
    let key = hkdf (snonce ++ cnonce) token sess_info 32 in
    let size : length key ≡ 32 = client.size (snonce ++ cnonce) token sess_info 32 in
    (
      key,
      device_key_lem device token snonce cnonce pos,
      client_key_lem client token snonce cnonce pos,
      record {
        same_key = refl;
        key_size = size;
        in_step = refl;
        in_range = omega arith;
        same_dir = refl;
        a_up = refl;
        b_up = refl;
      },
      record {
        same_key = refl;
        key_size = size;
        in_step = refl;
        in_range = omega arith;
        same_dir = refl;
        a_up = refl;
        b_up = refl;
      },
    )
