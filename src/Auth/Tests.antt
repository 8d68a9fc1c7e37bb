-- ===== src/Auth/Tests.antt =====
-- The theorems on components/core/src/auth.c at toy functions in place of HMAC and HKDF.
use espshell.Prelude.{
  [], some, List, ℕ, ◌≡◌, ◌↔◌, refl, arith, true, List, ◌++◌, some, replicate, codes,
}
use espshell.Proto.{proto_session_init}
use espshell.Proto.Client.{session_init}
use espshell.Proto.Sealed.{Linked}
use espshell.Auth.{
  auth_verify, auth_derive_session_key, client_key, auth_info, auth_init, key_token,
}
use espshell.Auth.Agreement.{auth_verify_iff}
use espshell.Auth.Keys.{keys_agree}
use espshell.Auth.Toy.{
  toy_hmac, toy_mac, toy_mac-works, toy_kdf, toy_kdf-works, toy_pkey, toy_pkey-works,
}
use espshell.Auth.Boot.{new_token, boot_token, auth_init_again}
use espshell.Cfg.{Cfg, cfg_get_str, cfg_set_str, then_commit}
use espshell.Cfg.Toy.{toy_nvs, toy_nvs-works}
use espshell.Hex.{hex_encode}

abbrev token : List ℕ
token = codes "secret"

auth_verify_iff_example :
    (auth_verify toy_mac token (replicate 32 1) (replicate 32 2) (replicate 32 3) ≡ true)
    ↔ (replicate 32 3 ≡ toy_hmac token (auth_info ++ (replicate 32 1 ++ replicate 32 2)))
auth_verify_iff_example =
    auth_verify_iff toy_mac-works token (replicate 32 1) (replicate 32 2) (replicate 32 3)
      (omega arith) refl

keys_agree_example :
    (key : List ℕ) × (auth_derive_session_key toy_kdf token (replicate 32 1) (replicate 32 2)
      ≡ some key)
    × (client_key toy_pkey token (replicate 32 1) (replicate 32 2) ≡ some key)
    × Linked (proto_session_init key) (session_init key)
    × Linked (session_init key) (proto_session_init key)
keys_agree_example =
    keys_agree toy_kdf-works toy_pkey-works token (replicate 32 1) (replicate 32 2) (omega arith)

abbrev empty_store : Cfg toy_nvs
empty_store = record { open_ = true; store = [] }

first_saved :
    (cfg_set_str toy_nvs empty_store (some key_token) (some (new_token [] (replicate 32 5)))).0
    ≡ true
unfolding cfg_set_str then_commit hex_encode
first_saved = refl

auth_init_again_example :
    ((auth_init toy_nvs empty_store [] (replicate 32 5)).0
      ≡ boot_token (cfg_get_str toy_nvs empty_store (some key_token) 129) [] (replicate 32 5))
    × (auth_init toy_nvs
          (auth_init toy_nvs empty_store [] (replicate 32 5)).1
          (codes "new")
          (replicate 32 6)
        ≡ auth_init toy_nvs empty_store [] (replicate 32 5))
auth_init_again_example =
    auth_init_again toy_nvs-works empty_store [] (replicate 32 5) (codes "new") (replicate 32 6)
      (omega arith) refl first_saved
