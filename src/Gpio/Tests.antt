-- ===== src/Gpio/Tests.antt =====
-- The GPIO commands of components/core/src/periph_gpio.c on a toy driver, which never fails.
use espshell.Prelude.{ℕ, ◌≡◌, ◌≢◌, refl, true, false, [], ◌∷◌, some, none, length, codes, bytes_eq}
use espshell.Clib.{strtol, strcaseeq}
use espshell.Gpio.{Driver, Gpio, parse_pin}
use espshell.Gpio.Edges.{
  parse_edge, find_slot, c_watch, c_unwatch, watch_edge, watch_slot, added, installed,
  start_watches,
}
use espshell.Gpio.Slots.{edge_of}
use espshell.Gpio.Watches.{watch_unwatch}

abbrev toy : Driver
toy = record {
  Hw = ℕ;
  gpio_config = λ hw g. (true, hw);
  gpio_set_level = λ hw p level. (true, hw);
  gpio_get_level = λ hw p. true;
  gpio_install_isr_service = λ hw. 1;
  gpio_isr_handler_add = λ hw p. (true, hw);
  gpio_isr_handler_remove = λ hw p. hw;
  gpio_set_intr_type = λ hw p i. hw;
}

abbrev board : Gpio toy
board = record { hw = 0; s_watch = start_watches toy; s_isr_svc = false; s_evt_q = [] }

pin_run : parse_pin (codes "21") ≡ some 21
unfolding parse_pin strtol
pin_run = refl

-- An empty argument is pin 0.
empty_run : parse_pin [] ≡ some 0
unfolding parse_pin strtol
empty_run = refl

range_run : parse_pin (codes "49") ≡ none
unfolding parse_pin strtol
range_run = refl

edge_run : parse_edge toy (codes "Falling") ≡ some 2
unfolding parse_edge strcaseeq bytes_eq
edge_run = refl

watch_run : (c_watch toy (codes "21" ∷ codes "Falling" ∷ []) 0 board).0 ≡ true
unfolding c_watch parse_pin strtol parse_edge strcaseeq bytes_eq watch_edge watch_slot find_slot
    added installed
watch_run = refl

watch_unwatch_example :
    let after = (c_watch toy (codes "21" ∷ codes "Falling" ∷ []) 0 board).3 in
    (length (Gpio.s_watch after) ≡ 8)
    × (edge_of (Gpio.s_watch after) 21 ≡ some 2)
    × ((q : ℕ) → q ≢ 21 → edge_of (Gpio.s_watch after) q ≡ edge_of (Gpio.s_watch board) q)
    × ((c_unwatch toy (codes "21" ∷ []) 4 after).0 ≡ true)
    × (edge_of (Gpio.s_watch (c_unwatch toy (codes "21" ∷ []) 4 after).3) 21 ≡ none)
    × ((q : ℕ)
        → q ≢ 21
        → edge_of (Gpio.s_watch (c_unwatch toy (codes "21" ∷ []) 4 after).3) q
          ≡ edge_of (Gpio.s_watch board) q)
watch_unwatch_example =
    watch_unwatch toy (codes "21") (codes "Falling") 21 2 0 4 board pin_run edge_run watch_run
