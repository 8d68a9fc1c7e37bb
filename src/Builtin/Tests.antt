-- ===== src/Builtin/Tests.antt =====
-- Built-in commands of components/core/src/cmd_builtin.c on a toy store, an association list.
use espshell.Prelude.{
  ℕ, ◌≤◌, ◌≡◌, ◌≢◌, refl, sym, true, false, List, [], ◌∷◌, none, some, length, bytes_eq,
  bytes_eq_iff, codes, Bool-cases, inl, inr,
}
use espshell.Cfg.{Cfg, cfg_get_str, then_commit, cfg_set_str}
use espshell.Cfg.Toy.{ToyStore, find, toy_nvs, toy_nvs-works}
use espshell.Logger.{boot_logger}
use espshell.Ota.Toy.{toy_timers}
use espshell.Builtin.{Core, key_is_secret, need_argc, written, c_cfg_get, c_cfg_set, c_cfg_list}
use espshell.Builtin.Secrets.{SameButSecrets, seen, secrets_stay}
use espshell.Builtin.Settings.{cfg_set_then_get}

abbrev core_with : ToyStore → Core toy_nvs toy_timers
core_with st = record {
  cfg = record { open_ = true; store = st };
  log = boot_logger;
  reboot_timer = none;
  factory_timer = none;
  clock = 0;
}

abbrev named : List (List ℕ)
named = codes "hostname" ∷ codes "bench" ∷ []

set_ok : (c_cfg_set toy_nvs toy_timers named 0 (core_with [])).0 ≡ true
unfolding c_cfg_set need_argc written cfg_set_str then_commit bytes_eq
set_ok = refl

cfg_set_then_get_example :
    (length (codes "bench") ≤ 255)
    × (codes "hostname" ≡ codes "auth_token" → 16 ≤ length (codes "bench"))
    × (key_is_secret (codes "hostname") ≡ false
        → c_cfg_get toy_nvs toy_timers
            (codes "hostname" ∷ [])
            3
            (c_cfg_set toy_nvs toy_timers named 0 (core_with [])).3
          ≡ (true, codes "bench", 3, (c_cfg_set toy_nvs toy_timers named 0 (core_with [])).3))
    × ((other : List ℕ)
        → codes "hostname" ≢ other
        → cfg_get_str toy_nvs
            (Core.cfg (c_cfg_set toy_nvs toy_timers named 0 (core_with [])).3)
            (some other)
            256
          ≡ cfg_get_str toy_nvs (Core.cfg (core_with [])) (some other) 256)
cfg_set_then_get_example =
    cfg_set_then_get toy_nvs-works (codes "hostname") (codes "bench") 0 3 (core_with []) set_ok

abbrev device_a : Core toy_nvs toy_timers
device_a =
    core_with
      ((codes "auth_token", codes "0123456789abcdef") ∷ (codes "hostname", codes "bench") ∷ [])

abbrev device_b : Core toy_nvs toy_timers
device_b =
    core_with
      ((codes "auth_token", codes "fedcba9876543210") ∷ (codes "hostname", codes "bench") ∷ [])

token_differs :
    (key : List ℕ) (sz : ℕ)
    → key ≢ codes "auth_token"
    → key ≢ codes "wifi_pass"
    → find (Cfg.store (Core.cfg device_a)) key sz ≡ find (Cfg.store (Core.cfg device_b)) key sz
token_differs key sz other_than_token other_than_pass =
    elim (Bool-cases (bytes_eq (codes "auth_token") key)) [
      | inl same ↦ absurd (other_than_token (sym ((bytes_eq_iff (codes "auth_token") key).0 same)))
      | inr differ ↦ rw differ refl
    ]

same_but_token : SameButSecrets (Core.cfg device_a) (Core.cfg device_b)
same_but_token = record { both_open = refl; same_keys = refl; same_values = token_differs }

secrets_stay_example :
    (seen (c_cfg_get toy_nvs toy_timers (codes "auth_token" ∷ []) 0 device_a)
      ≡ seen (c_cfg_get toy_nvs toy_timers (codes "auth_token" ∷ []) 0 device_b))
    × (seen (c_cfg_list toy_nvs toy_timers (codes "auth_token" ∷ []) 0 device_a)
        ≡ seen (c_cfg_list toy_nvs toy_timers (codes "auth_token" ∷ []) 0 device_b))
secrets_stay_example = secrets_stay (codes "auth_token" ∷ []) 0 device_a device_b same_but_token
