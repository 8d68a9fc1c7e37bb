-- ===== src/Builtin/Secrets.antt =====
-- What the commands of components/core/src/cmd_builtin.c that read the settings give away.
use espshell.Prelude.{
  ℕ, ◌≡◌, ◌≢◌, bytes_eq_iff, arith, refl, ap, ◌∙◌, Bool, true, false, not, ◌||◌, List, [], Option,
  none, some, ◌==◌, length, get_or, if◌then◌else◌, Bool-cases, inl, inr, codes,
}
use espshell.Cfg.{Nvs, Cfg, cfg_get_str, cfg_iterate, iterate}
use espshell.Ota.Handlers.{Timers}
use espshell.Builtin.{
  Core, Reply, key_is_secret, need_argc, value_with, c_cfg_get, c_cfg_list, list_cb, say,
  e_not_auth,
}

-- Two stores with one set of keys, and one value under each key but the token's and the password's.
pub record SameButSecrets {N : Nvs} (c c' : Cfg N) : Type 0 where
  pub both_open : Cfg.open_ c ≡ Cfg.open_ c'
  pub same_keys : N.nvs_entries (Cfg.store c) ≡ N.nvs_entries (Cfg.store c')
  pub same_values :
      (key : List ℕ) (sz : ℕ)
      → key ≢ codes "auth_token"
      → key ≢ codes "wifi_pass"
      → N.nvs_get_str (Cfg.store c) key sz ≡ N.nvs_get_str (Cfg.store c') key sz

not_secret :
    (key : List ℕ)
    → key_is_secret key ≡ false
    → (key ≢ codes "auth_token") × (key ≢ codes "wifi_pass")
unfolding key_is_secret
not_secret key plain = (
  λ token. absurd (ground (arith, (bytes_eq_iff key (codes "auth_token")).1 token)),
  λ pass. absurd (ground (arith, (bytes_eq_iff key (codes "wifi_pass")).1 pass)),
)

module _ {N : Nvs} (T : Timers) where
  get_str-same :
      (c c' : Cfg N) (key : List ℕ)
      → SameButSecrets c c'
      → key_is_secret key ≡ false
      → cfg_get_str N c (some key) 256 ≡ cfg_get_str N c' (some key) 256
  unfolding cfg_get_str
  get_str-same c c' key same plain =
      ap (λ b. if not b || 256 == 0 then none else N.nvs_get_str (Cfg.store c) key 256)
        same.both_open
      ∙ ap (λ v. if not (Cfg.open_ c') || 256 == 0 then none else v)
          (same.same_values key 256 (not_secret key plain).0 (not_secret key plain).1)

  iterate-same :
      (c c' : Cfg N) (prefix : List ℕ)
      → SameButSecrets c c'
      → cfg_iterate N c prefix (list_cb N T) ([], true)
        ≡ cfg_iterate N c' prefix (list_cb N T) ([], true)
  unfolding cfg_iterate
  iterate-same c c' prefix same =
      ap
        (λ b.
          if not b
          then ([], true)
          else iterate N (N.nvs_entries (Cfg.store c)) prefix (list_cb N T) ([], true))
        same.both_open
      ∙ ap
          (λ keys.
            if not (Cfg.open_ c')
            then ([], true)
            else iterate N keys prefix (list_cb N T) ([], true))
          same.same_keys

module _ {N : Nvs} {T : Timers} where
  -- What a client gets to see: the Boolean, the text and the code.
  abbrev pub seen : Reply N T → Bool × List ℕ × ℕ
  seen (ok, text, code, w) = (ok, text, code)

  need_argc-seen :
      (got want err : ℕ) (w w' : Core N T) (r r' : Reply N T)
      → seen r ≡ seen r'
      → seen (need_argc N T got want err w r) ≡ seen (need_argc N T got want err w' r')
  unfolding need_argc
  need_argc-seen got want err w w' r r' e = elim (Bool-cases (got == want)) [
    | inl right ↦ rw right e
    | inr wrong ↦ rw wrong refl
  ]

  value_with-seen :
      (err : ℕ) (w w' : Core N T) (v v' : Option (List ℕ))
      → v ≡ v'
      → seen (value_with N T err w v) ≡ seen (value_with N T err w' v')
  unfolding value_with
  value_with-seen err w w' none none e = refl
  value_with-seen err w w' none (some v') e = absurd (cc e)
  value_with-seen err w w' (some v) none e = absurd (cc e)
  value_with-seen err w w' (some v) (some v') e =
      let same : v ≡ v' = cc e in ap (λ t. (true, say t, err)) same

  guarded-seen :
      (secret : Bool) (err : ℕ) (w w' : Core N T) (v v' : Option (List ℕ))
      → (secret ≡ false → v ≡ v')
      → seen (
          if secret then (false, say (codes "redacted"), e_not_auth, w) else value_with N T err w v)
        ≡ seen (
            if secret
            then (false, say (codes "redacted"), e_not_auth, w')
            else value_with N T err w' v')
  guarded-seen true err w w' v v' e = refl
  guarded-seen false err w w' v v' e = value_with-seen err w w' v v' (e refl)

  -- `CFG_GET` and `CFG_LIST`, with any arguments, answer the same on two devices whose settings differ
  -- in the values of `auth_token` and `wifi_pass` only: no reply depends on a secret.
  pub secrets_stay :
      (v : List (List ℕ)) (err : ℕ) (w w' : Core N T)
      → SameButSecrets (Core.cfg w) (Core.cfg w')
      → (seen (c_cfg_get N T v err w) ≡ seen (c_cfg_get N T v err w'))
        × (seen (c_cfg_list N T v err w) ≡ seen (c_cfg_list N T v err w'))
  unfolding c_cfg_get c_cfg_list
  secrets_stay v err w w' same =
      let key = get_or v 0 [] in
      (
        need_argc-seen (length v) 1 err w w' _ _ (
            guarded-seen (key_is_secret key) err w w' (cfg_get_str N (Core.cfg w) (some key) 256)
              (cfg_get_str N (Core.cfg w') (some key) 256)
              (get_str-same T (Core.cfg w) (Core.cfg w') key same)),
        ap (λ r. (true, r.0, err)) (iterate-same T (Core.cfg w) (Core.cfg w') key same),
      )
