-- ===== src/Cmd/Dispatch.antt =====
-- `cmd_dispatch` of components/core/src/cmd.c, and what it uses of `snprintf`. The state it changes is
-- the line, the code `s_last_err` and the world of the handlers.
pub mod Replies
use espshell.Prelude.{
  ℕ, zero, suc, ◌+◌, ◌-◌, ◌/◌, ◌%◌, Bool, true, false, List, [], ◌∷◌, ◌++◌, Option, none, some, ltb,
  ◌==◌, if◌then◌else◌, length, take, map, bytes_eq, codes,
}
use espshell.Clib.{print_int}
use espshell.Cmd.Tokenizer.{tokenize, string_at}
use espshell.Cmd.Registry.{Entry, Handler}

abbrev pub max_argv : ℕ
max_argv = 16

abbrev pub e_unknown_cmd : ℕ
e_unknown_cmd = 1

abbrev pub e_internal : ℕ
e_internal = 9

-- `snprintf` answers the length of the whole text; the buffer takes what fits with a terminator.
abbrev pub snprintf : ℕ → List ℕ → Option ℕ × List ℕ
snprintf out_sz text = (some (length text), take (out_sz - 1) text)

abbrev pub or_text : List ℕ → List ℕ → List ℕ
or_text [] s = s
or_text (c ∷ payload) s = c ∷ payload

-- What a handler's result is printed as.
unfoldable pub reply_text : Bool → List ℕ → ℕ → List ℕ
reply_text true [] code = codes "OK"
reply_text true (c ∷ payload) code = codes "OK " ++ (c ∷ payload)
reply_text false payload code =
    codes "ERR "
    ++ (print_int (if code == 0 then e_internal else code)
        ++ (codes " " ++ or_text payload (codes "handler failed")))

module _ {W : Type 0} where
  -- The reply's text, `s_last_err` and the world.
  unfoldable pub run_handler : Handler W → List (List ℕ) → W → List ℕ × ℕ × W
  unfolding reply_text
  run_handler fn args world =
      let (ok, payload, code, world') = fn args 0 world in
      (reply_text ok payload code, code, world')

  -- The loop over the table.
  unfoldable pub call_command : List (Entry W) → List ℕ → List (List ℕ) → ℕ → W → List ℕ × ℕ × W
  call_command [] name args err world = (
    codes "ERR " ++ (print_int e_unknown_cmd ++ (codes " unknown command: " ++ name)),
    err,
    world,
  )
  call_command (e ∷ tbl) name args err world =
      if bytes_eq (Entry.name e) name
      then run_handler (Entry.fn e) args world
      else call_command tbl name args err world

  unfoldable pub dispatch_words : List (Entry W) → List (List ℕ) → ℕ → W → List ℕ × ℕ × W
  dispatch_words tbl [] err world = (codes "OK", err, world)
  dispatch_words tbl (name ∷ args) err world = call_command tbl name args err world

  -- Answers the result (`none` for -1) with what `out` holds, then the line, `s_last_err` and the world.
  unfoldable pub cmd_dispatch :
      List (Entry W) → List ℕ → ℕ → ℕ → W → (Option ℕ × List ℕ) × List ℕ × ℕ × W
  unfolding tokenize
  cmd_dispatch tbl line out_sz err world =
      let (argv, line') = tokenize line max_argv in
      let (text, err', world') = dispatch_words tbl (map (string_at line') argv) err world in
      if ltb out_sz 8
      then ((none, []), line, err, world)
      else (snprintf out_sz text, line', err', world')
