-- ===== src/Builtin/Settings.antt =====
-- `CFG_SET` and `CFG_GET` of components/core/src/cmd_builtin.c, one after the other.
use espshell.Prelude.{
  ℕ, ◌≤◌, ◌≡◌, ◌≢◌, refl, ap, ◌∙◌, Bool, true, false, ◌&&◌, List, [], ◌∷◌, some, ltb, if◌then◌else◌,
  length, bytes_eq, bytes_eq_iff, codes, arith, take_all,
}
use espshell.Cfg.{Nvs, Cfg, cfg_get_str, cfg_set_str}
use espshell.Cfg.Stores.{NvsWorks, cfg_set_str-ok, cfg_set_get}
use espshell.Ota.Handlers.{Timers}
use espshell.Builtin.{
  Core, key_is_secret, need_argc, value_with, written, c_cfg_get, c_cfg_set, say,
}

token_size :
    (named : Bool) (value : List ℕ)
    → (named && ltb (length value) 16) ≡ false
    → named ≡ true
    → 16 ≤ length value
token_size named value e n = ground arith

module _ {N : Nvs} {T : Timers} (works : NvsWorks N) where
  written-ok :
      (err : ℕ) (w : Core N T) (r : Bool × Cfg N)
      → (written N T err w r).0 ≡ true
      → (r.0 ≡ true) × (Core.cfg (written N T err w r).3 ≡ r.1)
  unfolding written
  written-ok err w (false, c) e = absurd (cc e)
  written-ok err w (true, c) e = (refl, refl)

  written_unless :
      (weak : Bool) (text : List ℕ) (code err : ℕ) (w : Core N T) (r : Bool × Cfg N)
      → (if weak then (false, text, code, w) else written N T err w r).0 ≡ true
      → (weak ≡ false)
        × (r.0 ≡ true)
        × (Core.cfg (if weak then (false, text, code, w) else written N T err w r).3 ≡ r.1)
  written_unless true text code err w r e = absurd (cc e)
  written_unless false text code err w r e =
      let (ok, kept) = written-ok err w r e in (refl, ok, kept)

  -- What a successful `CFG_SET` has done.
  c_cfg_set-ok :
      (key value : List ℕ) (err : ℕ) (w : Core N T)
      → (c_cfg_set N T (key ∷ value ∷ []) err w).0 ≡ true
      → ((bytes_eq key (codes "auth_token") && ltb (length value) 16) ≡ false)
        × ((cfg_set_str N (Core.cfg w) (some key) (some value)).0 ≡ true)
        × (Core.cfg (c_cfg_set N T (key ∷ value ∷ []) err w).3
            ≡ (cfg_set_str N (Core.cfg w) (some key) (some value)).1)
  unfolding c_cfg_set need_argc
  c_cfg_set-ok key value err w e =
      written_unless (bytes_eq key (codes "auth_token") && ltb (length value) 16)
        (say (codes "auth_token must be at least 16 characters")) 2 err w
        (cfg_set_str N (Core.cfg w) (some key) (some value)) e

  -- `CFG_GET` of a key that is not secret.
  c_cfg_get-plain :
      (key : List ℕ) (err : ℕ) (w : Core N T)
      → key_is_secret key ≡ false
      → c_cfg_get N T (key ∷ []) err w
        ≡ value_with N T err w (cfg_get_str N (Core.cfg w) (some key) 256)
  unfolding c_cfg_get need_argc
  c_cfg_get-plain key err w plain = rw plain refl

  -- When NVS keeps what it is given, a `CFG_SET` that answers OK has stored a value of at most 255 bytes,
  -- of 16 or more for `auth_token`; then `CFG_GET` of the key, if it is not secret, answers just the
  -- value, and every other key reads as before.
  pub cfg_set_then_get :
      (key value : List ℕ) (err err' : ℕ) (w : Core N T)
      → (c_cfg_set N T (key ∷ value ∷ []) err w).0 ≡ true
      → (length value ≤ 255)
        × (key ≡ codes "auth_token" → 16 ≤ length value)
        × (key_is_secret key ≡ false
            → c_cfg_get N T (key ∷ []) err' (c_cfg_set N T (key ∷ value ∷ []) err w).3
              ≡ (true, value, err', (c_cfg_set N T (key ∷ value ∷ []) err w).3))
        × ((other : List ℕ)
            → key ≢ other
            → cfg_get_str N (Core.cfg (c_cfg_set N T (key ∷ value ∷ []) err w).3) (some other) 256
              ≡ cfg_get_str N (Core.cfg w) (some other) 256)
  cfg_set_then_get key value err err' w e =
      let w' = (c_cfg_set N T (key ∷ value ∷ []) err w).3 in
      let (strong, done, cfg) = c_cfg_set-ok key value err w e in
      let (_, short, _) = cfg_set_str-ok works (Core.cfg w) key value done in
      let (back, others) = cfg_set_get works (Core.cfg w) key value done in
      (
        omega arith,
        λ is_token.
            token_size (bytes_eq key (codes "auth_token")) value strong
              ((bytes_eq_iff key (codes "auth_token")).1 is_token),
        λ plain.
            c_cfg_get-plain key err' w' plain
            ∙ (ap (λ c. value_with N T err' w' (cfg_get_str N c (some key) 256)) cfg
                ∙ (ap (value_with N T err' w') back
                    ∙ unfold value_with in
                      ap (λ t. (true, t, err', w')) (take_all 4095 value (omega arith)))),
        λ other apart. ap (λ c. cfg_get_str N c (some other) 256) cfg ∙ others other apart,
      )
