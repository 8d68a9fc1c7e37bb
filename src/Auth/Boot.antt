-- ===== src/Auth/Boot.antt =====
-- The token that `auth_init` of components/core/src/auth.c starts with, and the settings it leaves.
use espshell.Prelude.{
  ℕ, suc, ◌≤◌, ◌<◌, ◌≡◌, refl, ap, sym, ◌∙◌, true, false, List, [], ◌∷◌, Option, none, some, length,
  take, length-take, ltb, ◌==◌, if◌then◌else◌, arith, take_all,
}
use espshell.Hex.{hex_encode}
use espshell.Hex.RoundTrip.{length-hex_encode}
use espshell.Cfg.{Nvs, Cfg, cfg_get_str, cfg_set_str}
use espshell.Cfg.Stores.{NvsWorks, cfg_set_get_at}
use espshell.Auth.{load_token, first_token, key_token, boot_with, auth_init}

-- The token of a device without one that it can read: the build's default, as far as it fits, or the
-- random bytes in hex.
abbrev pub new_token : List ℕ → List ℕ → List ℕ
new_token k_token raw = if length k_token == 0 then hex_encode raw else take 128 k_token

-- The token, by what can be read of the stored one.
abbrev pub boot_token : Option (List ℕ) → List ℕ → List ℕ → List ℕ
boot_token none k_token raw = new_token k_token raw
boot_token (some []) k_token raw = new_token k_token raw
boot_token (some (c ∷ s)) k_token raw = c ∷ s

first_token-new : (k_token raw : List ℕ) → (first_token k_token raw).0 ≡ new_token k_token raw
unfolding first_token
first_token-new [] raw = refl
first_token-new (c ∷ k) raw =
    let some_default : (suc (length k) == 0) ≡ false = ground arith in rw some_default refl

-- A default of at most 128 bytes, or the random one, is stored as it is used.
first_token-short :
    (k_token raw : List ℕ)
    → length k_token ≤ 128
    → length raw ≡ 32
    → ((first_token k_token raw).1 ≡ (first_token k_token raw).0)
      × (length (first_token k_token raw).0 ≤ 128)
      × (0 < length (first_token k_token raw).0)
unfolding first_token
first_token-short [] raw small n =
    (refl, omega (arith, length-hex_encode raw), omega (arith, length-hex_encode raw))
first_token-short (c ∷ k) raw small n = (
  sym (take_all 128 (c ∷ k) small),
  omega (arith, length-take 128 (c ∷ k)),
  omega (arith, length-take 128 (c ∷ k)),
)

module _ {N : Nvs} (works : NvsWorks N) where
  boot_with-token :
      (c : Cfg N) (k_token raw : List ℕ) (got : Option (List ℕ))
      → (boot_with N c k_token raw (load_token got)).0 ≡ boot_token got k_token raw
  unfolding boot_with load_token
  boot_with-token c k_token raw none = first_token-new k_token raw
  boot_with-token c k_token raw (some []) = first_token-new k_token raw
  boot_with-token c k_token raw (some (b ∷ s)) = refl

  auth_init-token :
      (c : Cfg N) (k_token raw : List ℕ)
      → (auth_init N c k_token raw).0
        ≡ boot_token (cfg_get_str N c (some key_token) 129) k_token raw
  unfolding auth_init
  auth_init-token c k_token raw =
      boot_with-token c k_token raw (cfg_get_str N c (some key_token) 129)

  -- A token that can be read is kept.
  kept :
      (c : Cfg N) (token k_token raw : List ℕ)
      → cfg_get_str N c (some key_token) 129 ≡ some token
      → 0 < length token
      → auth_init N c k_token raw ≡ (token, c)
  unfolding auth_init boot_with load_token
  kept c [] k_token raw got pos = absurd (omega arith)
  kept c (b ∷ s) k_token raw got pos = ap (λ o. boot_with N c k_token raw (load_token o)) got

  first_kept :
      (c : Cfg N) (k_token raw k_token' raw' : List ℕ)
      → length k_token ≤ 128
      → length raw ≡ 32
      → (cfg_set_str N c (some key_token) (some (first_token k_token raw).1)).0 ≡ true
      → auth_init N
          (cfg_set_str N c (some key_token) (some (first_token k_token raw).1)).1
          k_token'
          raw'
        ≡ (
          (first_token k_token raw).0,
          (cfg_set_str N c (some key_token) (some (first_token k_token raw).1)).1,
        )
  first_kept c k_token raw k_token' raw' small n saved =
      let value = (first_token k_token raw).1 in
      let (same, fits, pos) = first_token-short k_token raw small n in
      let (_, got) = cfg_set_get_at works c key_token value 128 saved in
      let room : ltb (length value) 129 ≡ true = ground (arith, ap length same) in
      kept (cfg_set_str N c (some key_token) (some value)).1 value k_token' raw'
        (got ∙ ap (λ b. if b then some value else none) room) (omega (arith, ap length same))
      ∙ ap (λ t. (t, (cfg_set_str N c (some key_token) (some value)).1)) same

  again :
      (c : Cfg N) (k_token raw k_token' raw' : List ℕ) (got : Option (List ℕ))
      → cfg_get_str N c (some key_token) 129 ≡ got
      → length k_token ≤ 128
      → length raw ≡ 32
      → (cfg_set_str N c (some key_token) (some (first_token k_token raw).1)).0 ≡ true
      → auth_init N (boot_with N c k_token raw (load_token got)).1 k_token' raw'
        ≡ boot_with N c k_token raw (load_token got)
  unfolding boot_with load_token
  again c k_token raw k_token' raw' (some (b ∷ s)) got small n saved =
      kept c (b ∷ s) k_token' raw' got (omega arith)
  again c k_token raw k_token' raw' none got small n saved =
      first_kept c k_token raw k_token' raw' small n saved
  again c k_token raw k_token' raw' (some []) got small n saved =
      first_kept c k_token raw k_token' raw' small n saved

  -- When NVS keeps what it is given, the build's default has at most 128 bytes, and storing a new token
  -- would succeed: the device starts with the stored token when it can read one, of 1 to 128 bytes, with
  -- the build's default or the random bytes in hex otherwise; and after a restart, whatever the default of
  -- the build and the random bytes are then, it starts with just this token again and changes nothing.
  pub auth_init_again :
      (c : Cfg N) (k_token raw k_token' raw' : List ℕ)
      → length k_token ≤ 128
      → length raw ≡ 32
      → (cfg_set_str N c (some key_token) (some (new_token k_token raw))).0 ≡ true
      → ((auth_init N c k_token raw).0
          ≡ boot_token (cfg_get_str N c (some key_token) 129) k_token raw)
        × (auth_init N (auth_init N c k_token raw).1 k_token' raw' ≡ auth_init N c k_token raw)
  auth_init_again c k_token raw k_token' raw' small n saved =
      let (same, _, _) = first_token-short k_token raw small n in
      let value : (first_token k_token raw).1 ≡ new_token k_token raw =
        same ∙ first_token-new k_token raw in
      (
        auth_init-token c k_token raw,
        unfold auth_init in
            again c k_token raw k_token' raw' (cfg_get_str N c (some key_token) 129) refl small n
              (ap (λ v. (cfg_set_str N c (some key_token) (some v)).0) value ∙ saved),
      )
