-- ===== src/Builtin.antt =====
-- components/core/src/cmd_builtin.c: the handlers of the built-in commands on the settings, the logger,
-- the restart timers and the table. Their world is what cfg.c and logger.c keep, the two static timers
-- and the clock; the table of commands, which `CMDS` and `HELP` read, is an argument.
pub mod System
pub mod Secrets
pub mod Settings
mod Tests
use espshell.Prelude.{
  ℕ, zero, suc, ◌+◌, ◌-◌, ◌*◌, ◌/◌, ◌%◌, ◌^◌, Bool, true, false, ◌&&◌, ◌||◌, not, List, [], ◌∷◌,
  ◌++◌, Option, none, some, ltb, leb, ◌==◌, if◌then◌else◌, length, take, get_or, bytes_eq, codes,
}
use espshell.Clib.{format, strtoul, atoi, strcaseeq, is_negative, print_int, print_signed}
use espshell.Hex.{hex_encode}
use espshell.Cmd.Registry.{Entry, Handler, cmd_register, cmd_count, cmd_get, cmd_help_for}
use espshell.Cmd.Dispatch.{snprintf, e_internal}
use espshell.Cfg.{
  Nvs, Cfg, cfg_get_str, cfg_set_str, cfg_del, cfg_iterate, cfg_commit, cfg_max_value,
}
use espshell.Logger.{Logger, logger_set_level, logger_set_stream}
use espshell.Ota.Handlers.{Timers, e_bad_args, e_not_found}

abbrev pub e_not_auth : ℕ
e_not_auth = 3

pub record Core (N : Nvs) (T : Timers) : Type 0 where
  pub cfg : Cfg N
  pub log : Logger
  pub reboot_timer : Option T.Timer
  pub factory_timer : Option T.Timer
  pub clock : T.Clock

-- What `snprintf` leaves in `r`.
abbrev pub say : List ℕ → List ℕ
say text = (snprintf 4096 text).1

unfoldable pub key_is_secret : List ℕ → Bool
key_is_secret k = bytes_eq k (codes "auth_token") || bytes_eq k (codes "wifi_pass")

module _ (N : Nvs) (T : Timers) where
  abbrev pub Reply : Type 0
  Reply = Bool × List ℕ × ℕ × Core N T

  -- The test of the number of arguments, before a handler of one argument.
  unfoldable pub need_argc : ℕ → ℕ → ℕ → Core N T → Reply → Reply
  need_argc got want err w rest = if got == want then rest else (
    false,
    say (codes "expected " ++ (print_int want ++ (codes " args, got " ++ print_int got))),
    e_bad_args,
    w,
  )

  -- `CMDS`, from entry `i` on; `rounds` bounds the entries that are left.
  unfoldable pub cmds_loop : {W : Type 0} → ℕ → List (Entry W) → ℕ → List ℕ → List ℕ
  unfolding cmd_count cmd_get
  cmds_loop zero tbl i text = text
  cmds_loop (suc rounds) tbl i text =
      let listed : List ℕ = elim (cmd_get tbl i) [
        | none ↦ text
        | some (name, help) ↦ text ++ ((if i == 0 then [] else codes " ") ++ name)
      ] in
      let next = cmds_loop rounds tbl (i + 1) listed in
      if ltb i (cmd_count tbl) && ltb (length text) (4096 - 40) then next else text

  unfoldable pub c_cmds : {W : Type 0} → List (Entry W) → Handler (Core N T)
  unfolding cmds_loop
  c_cmds tbl v err w = (true, cmds_loop (cmd_count tbl) tbl 0 [], err, w)

  unfoldable pub help_with : List ℕ → ℕ → Core N T → Option (List ℕ) → Reply
  help_with name err w none = (false, say (codes "no such command: " ++ name), e_not_found, w)
  help_with name err w (some help) = (true, say help, err, w)

  unfoldable pub c_help : {W : Type 0} → List (Entry W) → Handler (Core N T)
  unfolding need_argc help_with cmd_help_for
  c_help tbl v err w =
      need_argc (length v) 1 err w
        (help_with (get_or v 0 []) err w (cmd_help_for tbl (get_or v 0 [])))

  unfoldable pub value_with : ℕ → Core N T → Option (List ℕ) → Reply
  value_with err w none = (false, say (codes "no such key"), e_not_found, w)
  value_with err w (some value) = (true, say value, err, w)

  unfoldable pub c_cfg_get : Handler (Core N T)
  unfolding need_argc key_is_secret value_with cfg_get_str
  c_cfg_get v err w =
      let key = get_or v 0 [] in
      need_argc (length v) 1 err w (
        if key_is_secret key
        then (false, say (codes "redacted"), e_not_auth, w)
        else value_with err w (cfg_get_str N (Core.cfg w) (some key) cfg_max_value))

  unfoldable pub written : ℕ → Core N T → Bool × Cfg N → Reply
  written err w (false, c) = (false, say (codes "write failed"), e_internal, record w { cfg = c })
  written err w (true, c) = (true, [], err, record w { cfg = c })

  unfoldable pub c_cfg_set : Handler (Core N T)
  unfolding need_argc written cfg_set_str
  c_cfg_set v err w =
      let key = get_or v 0 [] in
      let value = get_or v 1 [] in
      need_argc (length v) 2 err w (
        if bytes_eq key (codes "auth_token") && ltb (length value) 16
        then (false, say (codes "auth_token must be at least 16 characters"), e_bad_args, w)
        else written err w (cfg_set_str N (Core.cfg w) (some key) (some value)))

  unfoldable pub deleted : ℕ → Core N T → Bool × Cfg N → Reply
  deleted err w (false, c) = (false, say (codes "no such key"), e_not_found, record w { cfg = c })
  deleted err w (true, c) = (true, [], err, record w { cfg = c })

  unfoldable pub c_cfg_del : Handler (Core N T)
  unfolding need_argc deleted cfg_del
  c_cfg_del v err w =
      need_argc (length v) 1 err w (deleted err w (cfg_del N (Core.cfg w) (some (get_or v 0 []))))

  -- `list_ctx_t` is what is written and `first`; the room is the size of the reply.
  unfoldable pub list_cb : List ℕ → List ℕ × Bool → Bool × (List ℕ × Bool)
  list_cb key (used, first) =
      if leb 4096 (length used + length key + 2)
      then (false, (used, first))
      else (true, (used ++ ((if first then [] else codes " ") ++ key), false))

  unfoldable pub c_cfg_list : Handler (Core N T)
  unfolding list_cb cfg_iterate
  c_cfg_list v err w =
      (true, (cfg_iterate N (Core.cfg w) (get_or v 0 []) list_cb ([], true)).0, err, w)

  unfoldable pub c_cfg_commit : Handler (Core N T)
  unfolding cfg_commit
  c_cfg_commit v err w = (true, [], err, record w { cfg = cfg_commit N (Core.cfg w) })

  unfoldable pub c_log_level : Handler (Core N T)
  unfolding need_argc
  c_log_level v err w =
      let lvl = atoi (get_or v 0 []) in
      need_argc (length v) 1 err w (
        if is_negative lvl || ltb 5 lvl
        then (false, say (codes "level must be 0..5"), e_bad_args, w)
        else (true, [], err, record w { log = logger_set_level (Core.log w) lvl }))

  unfoldable pub c_log_stream : Handler (Core N T)
  unfolding need_argc
  c_log_stream v err w =
      let word = get_or v 0 [] in
      need_argc (length v) 1 err w (
        if strcaseeq word (codes "ON")
        then (true, [], err, record w { log = logger_set_stream (Core.log w) true })
        else if strcaseeq word (codes "OFF")
        then (true, [], err, record w { log = logger_set_stream (Core.log w) false })
        else (false, say (codes "expected ON|OFF"), e_bad_args, w))
