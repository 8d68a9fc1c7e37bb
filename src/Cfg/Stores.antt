-- ===== src/Cfg/Stores.antt =====
-- What NVS is taken to do, and what cfg.c of components/core/src stores and reads back with it.
use espshell.Prelude.{
  ℕ, suc, ◌<◌, ◌==◌, ap₂, ◌≡◌, ◌≢◌, refl, ap, sym, ◌∙◌, Bool, true, false, ◌||◌, not, List, none,
  some, ltb, leb, if◌then◌else◌, length, arith, Bool-cases, inl, inr,
}
use espshell.Cfg.{Nvs, Cfg, then_commit, cfg_get_str, cfg_set_str}

-- A string that is set is read back into any buffer that it fits, other keys keep theirs, and a commit
-- changes none.
pub record NvsWorks (N : Nvs) : Type 0 where
  pub sets :
      (st st' : N.Store) (key value : List ℕ)
      → N.nvs_set_str st key value ≡ (true, st')
      → (sz : ℕ) → N.nvs_get_str st' key sz ≡ (if ltb (length value) sz then some value else none)
  pub keeps :
      (st : N.Store) (key value other : List ℕ)
      → key ≢ other
      → (sz : ℕ) → N.nvs_get_str (N.nvs_set_str st key value).1 other sz ≡ N.nvs_get_str st other sz
  pub commits :
      (st : N.Store) (key : List ℕ) (sz : ℕ)
      → N.nvs_get_str (N.nvs_commit st).1 key sz ≡ N.nvs_get_str st key sz

module _ {N : Nvs} (works : NvsWorks N) where
  -- A write that succeeds was into an open store, and short enough.
  pub cfg_set_str-ok :
      (c : Cfg N) (key value : List ℕ)
      → (cfg_set_str N c (some key) (some value)).0 ≡ true
      → (Cfg.open_ c ≡ true)
        × (length value < 256)
        × (cfg_set_str N c (some key) (some value)
            ≡ then_commit N c (N.nvs_set_str (Cfg.store c) key value))
  unfolding cfg_set_str
  cfg_set_str-ok c key value e = elim (Bool-cases (Cfg.open_ c)) [
    | inr shut ↦ absurd (cc e)
    | inl up ↦ elim (Bool-cases (leb 256 (length value))) [
      | inl long ↦ absurd (cc e)
      | inr short ↦ (
        up,
        ground arith,
        ap (λ b. tests b (leb 256 (length value))) up ∙ ap (λ b. tests true b) short,
      )
    ]
  ]
    where
      tests : Bool → Bool → Bool × Cfg N
      tests up long =
          if not up
          then (false, c)
          else if long
          then (false, c)
          else then_commit N c (N.nvs_set_str (Cfg.store c) key value)

  then_commit-open :
      (c : Cfg N) (r : Bool × N.Store) → Cfg.open_ (then_commit N c r).1 ≡ Cfg.open_ c
  unfolding then_commit
  then_commit-open c (false, st) = refl
  then_commit-open c (true, st) = refl

  then_commit-get :
      (c : Cfg N) (key value : List ℕ) (sz : ℕ) (r : Bool × N.Store)
      → N.nvs_set_str (Cfg.store c) key value ≡ r
      → (then_commit N c r).0 ≡ true
      → N.nvs_get_str (Cfg.store (then_commit N c r).1) key sz
        ≡ (if ltb (length value) sz then some value else none)
  unfolding then_commit
  then_commit-get c key value sz (false, st) set e = absurd (cc e)
  then_commit-get c key value sz (true, st) set e =
      works.commits st key sz ∙ works.sets (Cfg.store c) st key value set sz

  then_commit-other :
      (c : Cfg N) (other : List ℕ) (sz : ℕ) (r : Bool × N.Store)
      → N.nvs_get_str (Cfg.store (then_commit N c r).1) other sz ≡ N.nvs_get_str r.1 other sz
  unfolding then_commit
  then_commit-other c other sz (false, st) = refl
  then_commit-other c other sz (true, st) = works.commits st other sz

  -- A value that was set is read back into a buffer that it fits with its terminator, and into no other.
  pub cfg_set_get_at :
      (c : Cfg N) (key value : List ℕ) (k : ℕ)
      → (cfg_set_str N c (some key) (some value)).0 ≡ true
      → (Cfg.open_ (cfg_set_str N c (some key) (some value)).1 ≡ true)
        × (cfg_get_str N (cfg_set_str N c (some key) (some value)).1 (some key) (suc k)
            ≡ (if ltb (length value) (suc k) then some value else none))
  unfolding cfg_get_str
  cfg_set_get_at c key value k e =
      let (up, short, shape) = cfg_set_str-ok c key value e in
      let r = N.nvs_set_str (Cfg.store c) key value in
      let up' : Cfg.open_ (cfg_set_str N c (some key) (some value)).1 ≡ true =
        ap (λ x. Cfg.open_ x.1) shape ∙ (then_commit-open c r ∙ up) in
      let room : (suc k == 0) ≡ false = ground arith in
      (
        up',
        ap₂
              (λ b z.
                if not b || z
                then none
                else N.nvs_get_str (Cfg.store (cfg_set_str N c (some key) (some value)).1) key
                    (suc k))
              up' room
            ∙ (ap (λ x. N.nvs_get_str (Cfg.store x.1) key (suc k)) shape
                ∙ then_commit-get c key value (suc k) r refl (ap (λ x. x.0) (sym shape) ∙ e)),
      )

  -- A value that was set is read back into the buffer of `ESPSHELL_CFG_MAX_VALUE`, and any other key
  -- reads as before.
  pub cfg_set_get :
      (c : Cfg N) (key value : List ℕ)
      → (cfg_set_str N c (some key) (some value)).0 ≡ true
      → (cfg_get_str N (cfg_set_str N c (some key) (some value)).1 (some key) 256 ≡ some value)
        × ((other : List ℕ)
            → key ≢ other
            → cfg_get_str N (cfg_set_str N c (some key) (some value)).1 (some other) 256
              ≡ cfg_get_str N c (some other) 256)
  unfolding cfg_get_str
  cfg_set_get c key value e =
      let (up, short, shape) = cfg_set_str-ok c key value e in
      let r = N.nvs_set_str (Cfg.store c) key value in
      let up' : Cfg.open_ (cfg_set_str N c (some key) (some value)).1 ≡ true =
        ap (λ x. Cfg.open_ x.1) shape ∙ (then_commit-open c r ∙ up) in
      let fits : ltb (length value) 256 ≡ true = ground arith in
      (
        ap
              (λ b.
                if not b || false
                then none
                else N.nvs_get_str (Cfg.store (cfg_set_str N c (some key) (some value)).1) key 256)
              up'
            ∙ (ap (λ x. N.nvs_get_str (Cfg.store x.1) key 256) shape
                ∙ (then_commit-get c key value 256 r refl (ap (λ x. x.0) (sym shape) ∙ e)
                    ∙ ap (λ b. if b then some value else none) fits)),
        λ other apart.
            ap
              (λ b.
                if not b || false
                then none
                else N.nvs_get_str (Cfg.store (cfg_set_str N c (some key) (some value)).1) other
                    256)
              up'
            ∙ (ap (λ x. N.nvs_get_str (Cfg.store x.1) other 256) shape
                ∙ (then_commit-other c other 256 r
                    ∙ (works.keeps (Cfg.store c) key value other apart 256
                        ∙ ap
                            (λ b.
                              if not b || false
                              then none
                              else N.nvs_get_str (Cfg.store c) other 256)
                            (sym up)))),
      )
