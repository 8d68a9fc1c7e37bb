-- ===== src/Cmd/Registry/Lookup.antt =====
-- What `cmd_register` of components/core/src/cmd.c does to the lookups `cmd_count`, `cmd_get` and
-- `cmd_help_for`.
use espshell.Prelude.{
  ℕ, zero, suc, ◌≤◌, ◌<◌, ◌≡◌, ◌↔◌, refl, ap, ◌∙◌, true, false, List, [], ◌∷◌, ◌++◌, Option, none,
  some, ◌==◌, if◌then◌else◌, length, length-append, bytes_eq, bytes_eq_flip, Bool-cases, inl, inr,
  arith,
}
use espshell.Cmd.Registry.{
  Entry, Handler, registered, cmd_register, cmd_count, cmd_get, cmd_help_for, text_or_empty,
}

module _ {W : Type 0} where
  registered_iff :
      (tbl : List (Entry W)) (name : List ℕ)
      → (registered tbl name ≡ false) ↔ (cmd_help_for tbl name ≡ none)
  unfolding registered cmd_help_for
  registered_iff [] name = (λ h. refl, λ h. refl)
  registered_iff (e ∷ tbl) name =
      let ih = registered_iff tbl name in
      elim (Bool-cases (bytes_eq (Entry.name e) name)) [
        | inl same ↦ (λ h. ground arith, λ h. ground arith)
        | inr other ↦ (λ h. ground (arith, ih.0), λ h. ground (arith, ih.1))
      ]

  -- `cmd_register`, given a name and a function, answers true just when the name has 1 to 31 bytes,
  -- an entry is free and no command has the name.
  pub cmd_register_iff :
      (tbl : List (Entry W)) (name : List ℕ) (fn : Handler W) (help : Option (List ℕ))
      → ((cmd_register tbl (some name) (some fn) help).0 ≡ true) ↔ (
          (0 < length name)
          × (length name ≤ 31)
          × (cmd_count tbl < 128)
          × (cmd_help_for tbl name ≡ none))
  unfolding cmd_register cmd_count
  cmd_register_iff tbl name fn help =
      let r = registered_iff tbl name in
      (
        λ h. (ground arith, ground arith, ground arith, r.0 (ground arith)),
        λ (l, m, n, o). ground (arith, r.1 o),
      )

  abbrev pub entry : List ℕ → Handler W → Option (List ℕ) → Entry W
  entry name fn help = record { name = name; help = text_or_empty help; fn = fn }

  pub appended :
      (tbl : List (Entry W)) (name : List ℕ) (fn : Handler W) (help : Option (List ℕ))
      → (cmd_register tbl (some name) (some fn) help).0 ≡ true
      → (cmd_register tbl (some name) (some fn) help).1 ≡ tbl ++ (entry name fn help ∷ [])
  unfolding cmd_register
  appended tbl name fn help h = ground arith

  cmd_get-append :
      (tbl : List (Entry W)) (e : Entry W) (idx : ℕ)
      → cmd_get (tbl ++ (e ∷ [])) idx
        ≡ (if idx == length tbl then some (Entry.name e, Entry.help e) else cmd_get tbl idx)
  unfolding cmd_get
  cmd_get-append [] e zero = refl
  cmd_get-append [] e (suc idx) = ground arith
  cmd_get-append (x ∷ tbl) e zero = ground arith
  cmd_get-append (x ∷ tbl) e (suc idx) = ground (arith, cmd_get-append tbl e idx)

  cmd_help_for-append :
      (tbl : List (Entry W)) (e : Entry W) (other : List ℕ)
      → cmd_help_for tbl (Entry.name e) ≡ none
      → cmd_help_for (tbl ++ (e ∷ [])) other
        ≡ (if bytes_eq (Entry.name e) other then some (Entry.help e) else cmd_help_for tbl other)
  unfolding cmd_help_for
  cmd_help_for-append [] e other h = refl
  cmd_help_for-append (x ∷ tbl) e other h =
      let free = cmd_help_for-append tbl e other in
      elim (Bool-cases (bytes_eq (Entry.name x) (Entry.name e))) [
        | inl same ↦ absurd (ground arith)
        | inr different ↦ elim (Bool-cases (bytes_eq (Entry.name x) other)) [
          | inl found ↦
              let named : bytes_eq (Entry.name e) other ≡ false =
                bytes_eq_flip (Entry.name x) (Entry.name e) other found different in
              ground arith
          | inr next ↦ ground (arith, free)
        ]
      ]

  -- A command that `cmd_register` has taken, with a name and a function: `cmd_count` is one more,
  -- `cmd_get` answers the new view at the old count and what it answered at each other index, and
  -- `cmd_help_for` answers the new help for the name and what it answered for each other name.
  pub cmd_register_lookup :
      (tbl : List (Entry W)) (name : List ℕ) (fn : Handler W) (help : Option (List ℕ)) (idx : ℕ)
      (other : List ℕ)
      → (cmd_register tbl (some name) (some fn) help).0 ≡ true
      → (cmd_count (cmd_register tbl (some name) (some fn) help).1 ≡ suc (cmd_count tbl))
        × (cmd_get (cmd_register tbl (some name) (some fn) help).1 idx
            ≡ (if idx == cmd_count tbl then some (name, text_or_empty help) else cmd_get tbl idx))
        × (cmd_help_for (cmd_register tbl (some name) (some fn) help).1 other
            ≡ (if bytes_eq name other then some (text_or_empty help) else cmd_help_for tbl other))
  unfolding cmd_count
  cmd_register_lookup tbl name fn help idx other h =
      let e = entry name fn help in
      let table = appended tbl name fn help h in
      let (_, _, _, free) = (cmd_register_iff tbl name fn help).0 h in
      (
        ap length table ∙ omega (arith, length-append tbl (e ∷ [])),
        ap (λ t. cmd_get t idx) table ∙ cmd_get-append tbl e idx,
        ap (λ t. cmd_help_for t other) table ∙ cmd_help_for-append tbl e other free,
      )
