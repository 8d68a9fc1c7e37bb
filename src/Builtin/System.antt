-- ===== src/Builtin/System.antt =====
-- components/core/src/cmd_builtin.c: the handlers that tell of the chip, and those that restart it. What
-- ESP-IDF tells of the chip is a parameter.
use espshell.Prelude.{ℕ, ◌*◌, ◌/◌, true, List, [], ◌∷◌, ◌++◌, Option, none, some, get_or, codes}
use espshell.Clib.{format, strtoul, print_int}
use espshell.Hex.{hex_encode}
use espshell.Cmd.Registry.{Handler}
use espshell.Cfg.{Nvs, Cfg}
use espshell.Ota.Handlers.{Timers}
use espshell.Builtin.{Core, Reply, say}

-- What `esp_chip_info` and its like answer.
pub record Chip : Type 0 where
  pub version : Option (List ℕ)
  pub target_name : List ℕ
  pub cores : ℕ
  pub revision : ℕ
  pub mac : List ℕ
  pub idf_version : List ℕ
  pub reset_reason : ℕ
  pub timer_us : ℕ
  pub heap_total : ℕ
  pub heap_free : ℕ
  pub heap_min_free : ℕ
  pub heap_largest : ℕ

abbrev reset_names : List (List ℕ)
reset_names =
    codes "UNKNOWN"
    ∷ codes "POWERON"
    ∷ codes "EXT"
    ∷ codes "SW"
    ∷ codes "PANIC"
    ∷ codes "INT_WDT"
    ∷ codes "TASK_WDT"
    ∷ codes "WDT"
    ∷ codes "DEEPSLEEP"
    ∷ codes "BROWNOUT"
    ∷ codes "SDIO"
    ∷ codes "USB"
    ∷ codes "JTAG"
    ∷ codes "EFUSE"
    ∷ codes "PWR_GLITCH"
    ∷ codes "CPU_LOCKUP"
    ∷ []

abbrev or_question : Option (List ℕ) → List ℕ
or_question none = codes "?"
or_question (some version) = version

-- `%02x` of a byte of the address.
abbrev mac_byte : Chip → ℕ → List ℕ
mac_byte chip i = hex_encode (get_or (Chip.mac chip) i 0 ∷ [])

module _ (N : Nvs) (T : Timers) where
  unfoldable pub c_ping : Handler (Core N T)
  c_ping v err w = (true, say (codes "PONG"), err, w)

  unfoldable pub c_info : Chip → Handler (Core N T)
  c_info chip v err w = (
    true,
    say (
        format (
          codes "fw="
          ∷ or_question (Chip.version chip)
          ∷ codes " chip="
          ∷ Chip.target_name chip
          ∷ codes " cores="
          ∷ print_int (Chip.cores chip)
          ∷ codes " rev="
          ∷ print_int (Chip.revision chip)
          ∷ codes " mac="
          ∷ mac_byte chip 0
          ∷ codes ":"
          ∷ mac_byte chip 1
          ∷ codes ":"
          ∷ mac_byte chip 2
          ∷ codes ":"
          ∷ mac_byte chip 3
          ∷ codes ":"
          ∷ mac_byte chip 4
          ∷ codes ":"
          ∷ mac_byte chip 5
          ∷ codes " idf="
          ∷ Chip.idf_version chip
          ∷ [])),
    err,
    w,
  )

  unfoldable pub c_uptime : Chip → Handler (Core N T)
  c_uptime chip v err w = (true, say (print_int (Chip.timer_us chip / 1000000)), err, w)

  unfoldable pub c_heap : Chip → Handler (Core N T)
  c_heap chip v err w = (
    true,
    say (
        format (
          codes "total="
          ∷ print_int (Chip.heap_total chip)
          ∷ codes " free="
          ∷ print_int (Chip.heap_free chip)
          ∷ codes " min_free="
          ∷ print_int (Chip.heap_min_free chip)
          ∷ codes " largest="
          ∷ print_int (Chip.heap_largest chip)
          ∷ [])),
    err,
    w,
  )

  unfoldable pub c_reset_reason : Chip → Handler (Core N T)
  c_reset_reason chip v err w =
      (true, say (get_or reset_names (Chip.reset_reason chip) (codes "OTHER")), err, w)

  -- The static timer is created at the first call that can.
  unfoldable pub timer_for : Option T.Timer → T.Clock → Option T.Timer × T.Clock
  timer_for none clock = T.esp_timer_create clock
  timer_for (some t) clock = (some t, clock)

  unfoldable pub reboot_in : ℕ → ℕ → Core N T → Reply N T
  unfolding timer_for
  reboot_in delay err w =
      let (t, clock) = timer_for (Core.reboot_timer w) (Core.clock w) in
      (
        true,
        say (codes "rebooting in " ++ (print_int delay ++ codes "ms")),
        err,
        record w { reboot_timer = t; clock = T.esp_timer_start_once clock t (delay * 1000) },
      )

  unfoldable pub c_reboot : Handler (Core N T)
  unfolding reboot_in
  c_reboot (delay ∷ []) err w = reboot_in (strtoul delay) err w
  c_reboot v err w = reboot_in 100 err w

  -- `erase` is `nvs_flash_erase`.
  unfoldable pub c_factory_reset : (N.Store → N.Store) → Handler (Core N T)
  unfolding timer_for
  c_factory_reset erase v err w =
      let (t, clock) = timer_for (Core.factory_timer w) (Core.clock w) in
      (
        true,
        say (codes "nvs erased, rebooting; reconfigure via UART console"),
        err,
        record w {
          cfg = record (Core.cfg w) { store = erase (Cfg.store (Core.cfg w)) };
          factory_timer = t;
          clock = T.esp_timer_start_once clock t 200000;
        },
      )
