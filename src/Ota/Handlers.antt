-- ===== src/Ota/Handlers.antt =====
-- The command handlers of components/core/src/ota.c, `c_begin` to `c_rollback`, and their registration.
-- A handler's world is the state of the upload, the flash, and the
-- timer of `c_end`.
pub mod Committed
use espshell.Prelude.{
  ℕ, zero, suc, ◌+◌, ◌≡◌, refl, Bool, true, false, not, List, [], ◌∷◌, ◌++◌, Option, none, some,
  ltb, ◌==◌, if◌then◌else◌, length, codes,
}
use espshell.Clib.{strtoul, print_int}
use espshell.Hex.{hex_to_bytes}
use espshell.Cmd.Registry.{Entry, Handler, cmd_register}
use espshell.Ota.{Platform, OtaState, ota_begin, ota_data, ota_end, ota_abort, ota_rollback}

-- `esp_timer_create` of a timer that restarts the device, and `esp_timer_start_once`.
pub record Timers : Type 1 where
  pub Clock : Type 0
  pub Timer : Type 0
  pub esp_timer_create : Clock → Option Timer × Clock
  pub esp_timer_start_once : Clock → Option Timer → ℕ → Clock

pub record World (P : Platform) (T : Timers) : Type 0 where
  pub s : OtaState P
  pub flash : P.Flash
  pub t : Option T.Timer
  pub clock : T.Clock

abbrev pub e_bad_args : ℕ
e_bad_args = 2

abbrev pub e_hw_fail : ℕ
e_hw_fail = 4

abbrev pub e_not_found : ℕ
e_not_found = 7

module _ (P : Platform) (T : Timers) where
  abbrev Reply : Type 0
  Reply = Bool × List ℕ × ℕ × World P T

  -- `cmd_set_err(code)`, the message in `r`, and `return false`.
  abbrev pub refuse : ℕ → List ℕ → World P T → Reply
  refuse code message w = (false, message, code, w)

  unfoldable pub begun : ℕ → World P T → Bool × OtaState P × P.Flash → Reply
  begun err w (false, s, f) =
      refuse e_hw_fail (codes "begin failed") (record w { s = s; flash = f })
  begun err w (true, s, f) =
      (true, codes "ready chunk_max=" ++ print_int 502, err, record w { s = s; flash = f })

  unfoldable pub begin_with : ℕ → World P T → ℕ → Option (List ℕ) → Reply
  unfolding begun
  begin_with err w size none = refuse e_bad_args (codes "sha256") w
  begin_with err w size (some sha) =
      if length sha == 32
      then begun err w (ota_begin P w.s w.flash size sha)
      else refuse e_bad_args (codes "sha256") w

  unfoldable pub c_begin : Handler (World P T)
  unfolding begin_with
  c_begin (size ∷ sha ∷ []) err w = begin_with err w (strtoul size) (hex_to_bytes sha 32)
  c_begin _ err w = refuse e_bad_args (codes "size sha256") w

  unfoldable pub progress : OtaState P → List ℕ
  progress s = print_int (OtaState.received s) ++ (codes "/" ++ print_int (OtaState.total s))

  unfoldable pub received : ℕ → World P T → Bool × OtaState P × P.Flash → Reply
  unfolding progress
  received err w (false, s, f) = refuse e_hw_fail (codes "write") (record w { s = s; flash = f })
  received err w (true, s, f) = (true, progress s, err, record w { s = s; flash = f })

  -- `n <= 0` is an error or an empty chunk.
  unfoldable pub data_with : ℕ → World P T → Option (List ℕ) → Reply
  unfolding received
  data_with err w none = refuse e_bad_args (codes "hex") w
  data_with err w (some []) = refuse e_bad_args (codes "hex") w
  data_with err w (some (b ∷ chunk)) = received err w (ota_data P w.s w.flash (b ∷ chunk))

  unfoldable pub c_data : Handler (World P T)
  unfolding data_with
  c_data (hex ∷ []) err w = data_with err w (hex_to_bytes hex 1024)
  c_data _ err w = refuse e_bad_args [] w

  unfoldable pub created : World P T → Option T.Timer → World P T
  created w none = let (t, c) = T.esp_timer_create w.clock in record w { t = t; clock = c }
  created w (some t) = w

  unfoldable pub ended : ℕ → World P T → Bool × OtaState P × P.Flash → Reply
  unfolding created
  ended err w (false, s, f) =
      refuse e_hw_fail (codes "verify/commit failed") (record w { s = s; flash = f })
  ended err w (true, s, f) =
      let w' = created (record w { s = s; flash = f }) w.t in
      (
        true,
        codes "committed, rebooting",
        err,
        record w' { clock = T.esp_timer_start_once w'.clock w'.t 200000 },
      )

  unfoldable pub c_end : Handler (World P T)
  unfolding ended
  c_end args err w = ended err w (ota_end P w.s w.flash)

  unfoldable pub c_abort : Handler (World P T)
  c_abort args err w =
      let (s, f) = ota_abort P w.s w.flash in (true, [], err, record w { s = s; flash = f })

  unfoldable pub c_rollback : Handler (World P T)
  c_rollback args err w =
      let (ok, f) = ota_rollback P w.flash in
      if ok
      then (true, codes "rolled back, reboot to apply", err, record w { flash = f })
      else refuse e_not_found (codes "no prior partition") (record w { flash = f })

  abbrev Table : Type 0
  Table = List (Entry (World P T))

  abbrev with_command : Table → List ℕ → Handler (World P T) → List ℕ → Table
  with_command tbl name fn help = (cmd_register tbl (some name) (some fn) (some help)).1

  unfoldable pub ota_init : Table → Table
  unfolding c_begin c_data c_end c_abort c_rollback
  ota_init tbl =
      let t1 =
        with_command tbl (codes "OTA_BEGIN") c_begin (codes "OTA_BEGIN <size> <sha256_hex>") in
      let t2 = with_command t1 (codes "OTA_DATA") c_data (codes "OTA_DATA <hex_chunk>") in
      let t3 = with_command t2 (codes "OTA_END") c_end (codes "OTA_END") in
      let t4 = with_command t3 (codes "OTA_ABORT") c_abort (codes "OTA_ABORT") in
      with_command t4 (codes "OTA_ROLLBACK") c_rollback (codes "OTA_ROLLBACK")
