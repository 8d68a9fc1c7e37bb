-- ===== src/Cfg.antt =====
-- components/core/src/cfg.c: the settings of the device in NVS. The open handle and `s_open` are the
-- state; NVS is a parameter. A null pointer is `none`; an error of a call that reads is `none`, of one
-- that writes `false`. The size of a buffer counts the terminator.
pub mod Stores
pub mod Toy
use espshell.Prelude.{
  ℕ, zero, suc, ◌+◌, ◌-◌, Bool, true, false, ◌&&◌, ◌||◌, not, List, [], ◌∷◌, ◌++◌, Option, none,
  some, ltb, leb, ◌==◌, if◌then◌else◌, length, take,
}
use espshell.Clib.{starts_with}

abbrev pub cfg_max_value : ℕ
cfg_max_value = 256

-- `nvs_entry_find` and `nvs_entry_next` give the keys of the namespace in an order of theirs.
pub record Nvs : Type 1 where
  pub Store : Type 0
  pub nvs_get_str : Store → List ℕ → ℕ → Option (List ℕ)
  pub nvs_set_str : Store → List ℕ → List ℕ → Bool × Store
  pub nvs_get_u32 : Store → List ℕ → Option ℕ
  pub nvs_set_u32 : Store → List ℕ → ℕ → Bool × Store
  pub nvs_get_blob : Store → List ℕ → ℕ → Option (List ℕ)
  pub nvs_set_blob : Store → List ℕ → List ℕ → Bool × Store
  pub nvs_erase_key : Store → List ℕ → Bool × Store
  pub nvs_commit : Store → Bool × Store
  pub nvs_entries : Store → List (List ℕ)

pub record Cfg (N : Nvs) : Type 0 where
  pub open_ : Bool
  pub store : N.Store

module _ (N : Nvs) where
  abbrev kept : Cfg N → Bool × N.Store → Bool × Cfg N
  kept c (ok, st) = (ok, record c { store = st })

  -- `… == ESP_OK && nvs_commit(s_h) == ESP_OK`.
  unfoldable pub then_commit : Cfg N → Bool × N.Store → Bool × Cfg N
  then_commit c (false, st) = (false, record c { store = st })
  then_commit c (true, st) = kept c (N.nvs_commit st)

  unfoldable pub cfg_get_str : Cfg N → Option (List ℕ) → ℕ → Option (List ℕ)
  cfg_get_str c none out_sz = none
  cfg_get_str c (some key) out_sz =
      if not (Cfg.open_ c) || out_sz == 0 then none else N.nvs_get_str (Cfg.store c) key out_sz

  unfoldable pub cfg_set_str : Cfg N → Option (List ℕ) → Option (List ℕ) → Bool × Cfg N
  unfolding then_commit
  cfg_set_str c (some key) (some value) =
      if not (Cfg.open_ c)
      then (false, c)
      else if leb cfg_max_value (length value)
      then (false, c)
      else then_commit c (N.nvs_set_str (Cfg.store c) key value)
  cfg_set_str c _ _ = (false, c)

  unfoldable pub cfg_get_u32 : Cfg N → Option (List ℕ) → Option ℕ
  cfg_get_u32 c none = none
  cfg_get_u32 c (some key) = if not (Cfg.open_ c) then none else N.nvs_get_u32 (Cfg.store c) key

  unfoldable pub cfg_set_u32 : Cfg N → Option (List ℕ) → ℕ → Bool × Cfg N
  unfolding then_commit
  cfg_set_u32 c none value = (false, c)
  cfg_set_u32 c (some key) value =
      if not (Cfg.open_ c)
      then (false, c)
      else then_commit c (N.nvs_set_u32 (Cfg.store c) key value)

  unfoldable pub cfg_get_blob : Cfg N → Option (List ℕ) → ℕ → Option (List ℕ)
  cfg_get_blob c none sz = none
  cfg_get_blob c (some key) sz =
      if not (Cfg.open_ c) then none else N.nvs_get_blob (Cfg.store c) key sz

  unfoldable pub cfg_set_blob : Cfg N → Option (List ℕ) → Option (List ℕ) → Bool × Cfg N
  unfolding then_commit
  cfg_set_blob c (some key) (some bytes) =
      if not (Cfg.open_ c)
      then (false, c)
      else then_commit c (N.nvs_set_blob (Cfg.store c) key bytes)
  cfg_set_blob c _ _ = (false, c)

  -- The result of the commit is not read.
  unfoldable pub erased : Cfg N → Bool × N.Store → Bool × Cfg N
  erased c (false, st) = (false, record c { store = st })
  erased c (true, st) = (true, record c { store = (N.nvs_commit st).1 })

  unfoldable pub cfg_del : Cfg N → Option (List ℕ) → Bool × Cfg N
  unfolding erased
  cfg_del c none = (false, c)
  cfg_del c (some key) =
      if not (Cfg.open_ c) then (false, c) else erased c (N.nvs_erase_key (Cfg.store c) key)

  abbrev or_empty : Option (List ℕ) → List ℕ
  or_empty none = []
  or_empty (some dflt) = dflt

  -- The test of `out[0]`, and the copy of the default.
  unfoldable pub or_default : ℕ → Option (List ℕ) → Option (List ℕ) → Bool × List ℕ
  or_default out_sz dflt none = (false, take (out_sz - 1) (or_empty dflt))
  or_default out_sz dflt (some []) = (false, take (out_sz - 1) (or_empty dflt))
  or_default out_sz dflt (some (c ∷ s)) = (true, c ∷ s)

  unfoldable pub cfg_get_str_or_default :
      Cfg N → Option (List ℕ) → ℕ → Option (List ℕ) → Bool × List ℕ
  unfolding or_default cfg_get_str
  cfg_get_str_or_default c key out_sz dflt = or_default out_sz dflt (cfg_get_str c key out_sz)

  -- The loop over the entries: the callback answers whether to go on, and changes `ud`.
  unfoldable pub iterate : {A : Type 0} → List (List ℕ) → List ℕ → (List ℕ → A → Bool × A) → A → A
  iterate [] prefix fn ud = ud
  iterate (key ∷ keys) prefix fn ud =
      let (go_on, ud') = fn key ud in
      let skip = iterate keys prefix fn ud in
      let next = iterate keys prefix fn ud' in
      if starts_with prefix key then (if go_on then next else ud') else skip

  unfoldable pub cfg_iterate : {A : Type 0} → Cfg N → List ℕ → (List ℕ → A → Bool × A) → A → A
  unfolding iterate
  cfg_iterate c prefix fn ud =
      if not (Cfg.open_ c) then ud else iterate (N.nvs_entries (Cfg.store c)) prefix fn ud

  unfoldable pub cfg_commit : Cfg N → Cfg N
  cfg_commit c = if Cfg.open_ c then record c { store = (N.nvs_commit (Cfg.store c)).1 } else c
