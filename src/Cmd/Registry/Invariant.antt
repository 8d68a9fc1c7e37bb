-- ===== src/Cmd/Registry/Invariant.antt =====
-- Well-formed tables of components/core/src/cmd.c, and the two lookups on them.
use espshell.Prelude.{
  ℕ, zero, suc, ◌≤◌, ◌<◌, ◌≡◌, subst, sym, false, List, [], ◌∷◌, ◌++◌, Option, none, some, length,
  length-append, bytes_eq, bytes_eq_refl, Bool-cases, inl, inr, arith, All, All-append,
}
use espshell.Cmd.Registry.{Entry, Handler, cmd_register, cmd_count, cmd_get, cmd_help_for}
use espshell.Cmd.Registry.Lookup.{entry, appended, cmd_register_iff}

module _ {W : Type 0} where
  abbrev NamedOk : Entry W → Type 0
  NamedOk e = (0 < length (Entry.name e)) × (length (Entry.name e) ≤ 31)

  -- No name stands twice.
  abbrev Unique : List (Entry W) → Type 0
  Unique [] = Unit
  Unique (e ∷ tbl) = All (λ x. bytes_eq (Entry.name e) (Entry.name x) ≡ false) tbl × Unique tbl

  abbrev pub IsRegistry : List (Entry W) → Type 0
  IsRegistry tbl = (length tbl ≤ 128) × (All NamedOk tbl × Unique tbl)

  Unique-append :
      (tbl : List (Entry W)) (e : Entry W)
      → Unique tbl
      → cmd_help_for tbl (Entry.name e) ≡ none
      → Unique (tbl ++ (e ∷ []))
  unfolding cmd_help_for
  Unique-append [] e u h = (tt, tt)
  Unique-append (x ∷ tbl) e (far, u) h =
      elim (Bool-cases (bytes_eq (Entry.name x) (Entry.name e))) [
        | inl same ↦ absurd (ground arith)
        | inr different ↦
            (All-append _ tbl (e ∷ []) far (different, tt), Unique-append tbl e u (ground arith))
      ]

  unchanged :
      (tbl : List (Entry W)) (name : List ℕ) (fn : Handler W) (help : Option (List ℕ))
      → (cmd_register tbl (some name) (some fn) help).0 ≡ false
      → (cmd_register tbl (some name) (some fn) help).1 ≡ tbl
  unfolding cmd_register
  unchanged tbl name fn help h = ground arith

  far_view :
      (x : List ℕ) (tbl : List (Entry W)) (idx : ℕ) (name help : List ℕ)
      → All (λ e. bytes_eq x (Entry.name e) ≡ false) tbl
      → cmd_get tbl idx ≡ some (name, help)
      → bytes_eq x name ≡ false
  unfolding cmd_get
  far_view x [] idx name help far h = cc
  far_view x (e ∷ tbl) zero name help (here, far) h = ground arith
  far_view x (e ∷ tbl) (suc idx) name help (here, far) h = far_view x tbl idx name help far h

  help_of_view :
      (tbl : List (Entry W)) (idx : ℕ) (name help : List ℕ)
      → Unique tbl
      → cmd_get tbl idx ≡ some (name, help)
      → cmd_help_for tbl name ≡ some help
  unfolding cmd_get cmd_help_for
  help_of_view [] idx name help u h = cc
  help_of_view (x ∷ tbl) zero name help u h = ground (arith, bytes_eq_refl name)
  help_of_view (x ∷ tbl) (suc idx) name help (far, u) h =
      let other = far_view (Entry.name x) tbl idx name help far h in
      ground (arith, help_of_view tbl idx name help u h)

  -- Whatever it is called with, `cmd_register` keeps the table well formed: at most 128 entries, each
  -- with a name of 1 to 31 bytes, no two with the same name.
  pub cmd_register-IsRegistry :
      (tbl : List (Entry W)) (name : Option (List ℕ)) (fn : Option (Handler W))
      (help : Option (List ℕ))
      → IsRegistry tbl
      → IsRegistry (cmd_register tbl name fn help).1
  unfolding cmd_register cmd_count
  cmd_register-IsRegistry tbl none fn help h = h
  cmd_register-IsRegistry tbl (some name) none help h = h
  cmd_register-IsRegistry tbl (some name) (some fn) help (room, (named, unique)) =
      elim (Bool-cases (cmd_register tbl (some name) (some fn) help).0) [
        | inl taken ↦
            let (pos, short, slot, free) = (cmd_register_iff tbl name fn help).0 taken in
            let e = entry name fn help in
            subst IsRegistry (sym (appended tbl name fn help taken)) (
              omega (arith, length-append tbl (e ∷ [])),
              (
                All-append NamedOk tbl (e ∷ []) named ((pos, short), tt),
                Unique-append tbl e unique free,
              ),
            )
        | inr refused ↦
            subst IsRegistry (sym (unchanged tbl name fn help refused)) (room, (named, unique))
      ]

  -- In a well-formed table, the help that `cmd_help_for` answers for the name of a view that `cmd_get`
  -- gives is the help of that view.
  pub cmd_help_for-cmd_get :
      (tbl : List (Entry W)) (idx : ℕ) (name help : List ℕ)
      → IsRegistry tbl
      → cmd_get tbl idx ≡ some (name, help)
      → cmd_help_for tbl name ≡ some help
  cmd_help_for-cmd_get tbl idx name help (_, (_, unique)) h =
      help_of_view tbl idx name help unique h
