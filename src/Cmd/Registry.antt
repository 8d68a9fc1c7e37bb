-- ===== src/Cmd/Registry.antt =====
-- The table of components/core/src/cmd.c. `s_tbl` and `s_n` are one list, the entries in use. A null
-- pointer is `none`. A handler takes the arguments after the command's name, the error code that
-- `cmd_set_err` keeps and the world the firmware's other parts share; it answers its Boolean, the
-- string it left in `resp`, the code and the world.
pub mod Invariant
pub mod Lookup
use espshell.Prelude.{
  ℕ, zero, suc, ◌+◌, Bool, true, false, ◌&&◌, ◌||◌, not, List, [], ◌∷◌, ◌++◌, Option, none, some,
  ltb, leb, ◌==◌, if◌then◌else◌, length, get_elem?, bytes_eq, bytes_eq_refl,
}

abbrev pub max_name : ℕ
max_name = 31

abbrev pub max_registered_cmds : ℕ
max_registered_cmds = 128

abbrev pub Handler : Type 0 → Type 0
Handler W = List (List ℕ) → ℕ → W → Bool × List ℕ × ℕ × W

pub record Entry (W : Type 0) : Type 0 where
  pub name : List ℕ
  pub help : List ℕ
  pub fn : Handler W

abbrev pub text_or_empty : Option (List ℕ) → List ℕ
text_or_empty none = []
text_or_empty (some s) = s

module _ {W : Type 0} where
  unfoldable pub registered : List (Entry W) → List ℕ → Bool
  registered [] name = false
  registered (e ∷ tbl) name = bytes_eq (Entry.name e) name || registered tbl name

  unfoldable pub cmd_register :
      List (Entry W)
      → Option (List ℕ)
      → Option (Handler W)
      → Option (List ℕ)
      → Bool × List (Entry W)
  cmd_register tbl (some name) (some fn) help =
      if length name == 0 || ltb max_name (length name)
      then (false, tbl)
      else if leb max_registered_cmds (length tbl)
      then (false, tbl)
      else if registered tbl name
      then (false, tbl)
      else (true, tbl ++ (record { name = name; help = text_or_empty help; fn = fn } ∷ []))
  cmd_register tbl _ _ help = (false, tbl)

  unfoldable pub cmd_count : List (Entry W) → ℕ
  cmd_count tbl = length tbl

  -- The view is the name and the help.
  unfoldable pub cmd_get : List (Entry W) → ℕ → Option (List ℕ × List ℕ)
  cmd_get tbl idx = elim (get_elem? tbl idx) [
    | none ↦ none
    | some e ↦ some (Entry.name e, Entry.help e)
  ]

  unfoldable pub cmd_help_for : List (Entry W) → List ℕ → Option (List ℕ)
  cmd_help_for [] name = none
  cmd_help_for (e ∷ tbl) name =
      if bytes_eq (Entry.name e) name then some (Entry.help e) else cmd_help_for tbl name
