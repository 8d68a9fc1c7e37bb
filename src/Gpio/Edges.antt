-- ===== src/Gpio/Edges.antt =====
-- components/core/src/periph_gpio.c: GPIO_WATCH and GPIO_UNWATCH, the events of the watched pins, and the
-- start of the module.
use espshell.Prelude.{
  ℕ, ◌+◌, Bool, true, false, List, [], ◌∷◌, ◌++◌, Option, none, some, ltb, ◌==◌, if◌then◌else◌,
  length, set, replicate, codes,
}
use espshell.Clib.{strcaseeq, print_int}
use espshell.Cmd.Registry.{Entry, Handler, cmd_register}
use espshell.Ota.Handlers.{e_bad_args, e_hw_fail}
use espshell.Gpio.{
  e_no_mem, Driver, Slot, Gpio, Reply, fail_with, on_pin, parse_pin, level_text, c_mode, c_set,
  c_get, c_toggle,
}

abbrev pub max_watch : ℕ
max_watch = 8

abbrev pub is_pin : Option ℕ → ℕ → Bool
is_pin none p = false
is_pin (some q) p = q == p

abbrev pub first_free : ℕ → Option ℕ → Option ℕ → Option ℕ
first_free i none none = some i
first_free i none (some slot) = some slot
first_free i (some q) slot = slot

-- The loop that looks for the slot, from slot `i` on.
unfoldable pub find_slot : List Slot → ℕ → Option ℕ → ℕ → Option ℕ
find_slot [] i slot p = slot
find_slot (w ∷ ws) i slot p =
    let rest = find_slot ws (i + 1) (first_free i (Slot.pin w) slot) p in
    if is_pin (Slot.pin w) p then some i else rest

-- The loop of `c_unwatch`.
unfoldable pub clear_pin : List Slot → ℕ → List Slot
clear_pin [] p = []
clear_pin (w ∷ ws) p =
    (if is_pin (Slot.pin w) p then record w { pin = none } else w) ∷ clear_pin ws p

module _ (D : Driver) where
  unfoldable pub parse_edge : List ℕ → Option ℕ
  parse_edge s =
      if strcaseeq s (codes "RISING")
      then some 1
      else if strcaseeq s (codes "FALLING")
      then some 2
      else if strcaseeq s (codes "ANY")
      then some 3
      else none

  unfoldable pub installed : Gpio D → Gpio D
  installed w =
      if w.s_isr_svc then w else record w { hw = D.gpio_install_isr_service w.hw; s_isr_svc = true }

  unfoldable pub added : ℕ → Gpio D → ℕ → Slot → Bool × D.Hw → Reply D
  added err w slot new (false, hw) = fail_with D e_hw_fail (codes "isr add") (record w { hw = hw })
  added err w slot new (true, hw) =
      (true, [], err, record w { hw = hw; s_watch = set w.s_watch slot new })

  unfoldable pub watch_slot : ℕ → Gpio D → ℕ → ℕ → Option ℕ → Reply D
  unfolding installed added
  watch_slot err w p edge none = fail_with D e_no_mem (codes "watch table full") w
  watch_slot err w p edge (some slot) =
      let w1 = installed w in
      let (_, hw1) = D.gpio_config (Gpio.hw w1) (record {
        pin = p;
        mode = 1;
        pull_up_en = false;
        pull_down_en = false;
        intr_type = edge;
      }) in
      added err w1 slot (record { pin = some p; edge = edge })
        (D.gpio_isr_handler_add (D.gpio_isr_handler_remove hw1 p) p)

  unfoldable pub watch_edge : ℕ → Gpio D → ℕ → Option ℕ → Reply D
  unfolding watch_slot find_slot
  watch_edge err w p none = fail_with D e_bad_args (codes "edge") w
  watch_edge err w p (some edge) = watch_slot err w p edge (find_slot (Gpio.s_watch w) 0 none p)

  unfoldable pub c_watch : Handler (Gpio D)
  unfolding parse_pin parse_edge watch_edge
  c_watch (pin ∷ edge ∷ []) err w =
      on_pin D w (parse_pin pin) (λ p. watch_edge err w p (parse_edge edge))
  c_watch _ err w = fail_with D e_bad_args (codes "pin RISING|FALLING|ANY") w

  unfoldable pub unwatch : ℕ → Gpio D → Option ℕ → Reply D
  unfolding clear_pin
  unwatch err w none = fail_with D e_bad_args [] w
  unwatch err w (some p) = (
    true,
    [],
    err,
    record w {
      hw = D.gpio_set_intr_type (D.gpio_isr_handler_remove w.hw p) p 0;
      s_watch = clear_pin w.s_watch p;
    },
  )

  unfoldable pub c_unwatch : Handler (Gpio D)
  unfolding parse_pin unwatch
  c_unwatch (pin ∷ []) err w = unwatch err w (parse_pin pin)
  c_unwatch _ err w = fail_with D e_bad_args (codes "pin") w

  -- The queue of 16 drops an event when it is full.
  unfoldable pub on_gpio_isr : ℕ → Gpio D → Gpio D
  on_gpio_isr pin w =
      if ltb (length w.s_evt_q) 16
      then record w { s_evt_q = w.s_evt_q ++ ((pin, D.gpio_get_level w.hw pin) ∷ []) }
      else w

  -- A round of `watch_task`: the line for `net_send_event`, when there is an event.
  unfoldable pub watch_task : Gpio D → Option (List ℕ × Gpio D)
  watch_task w = elim w.s_evt_q [
    | [] ↦ none
    | e ∷ q ↦ some (
      codes "EVT GPIO " ++ (print_int e.0 ++ (codes " " ++ level_text e.1)),
      record w { s_evt_q = q },
    )
  ]

  abbrev pub start_watches : List Slot
  start_watches = replicate max_watch (record { pin = none; edge = 0 })

  abbrev Table : Type 0
  Table = List (Entry (Gpio D))

  abbrev with_command : Table → List ℕ → Handler (Gpio D) → List ℕ → Table
  with_command tbl name fn help = (cmd_register tbl (some name) (some fn) (some help)).1

  unfoldable pub gpio_module_init : Gpio D → Table → Gpio D × Table
  unfolding c_mode c_set c_get c_toggle c_watch c_unwatch
  gpio_module_init w tbl =
      let t1 =
        with_command tbl (codes "GPIO_MODE") (c_mode D)
          (codes "GPIO_MODE <pin> <INPUT|OUTPUT|INPUT_PULLUP|INPUT_PULLDOWN>") in
      let t2 = with_command t1 (codes "GPIO_SET") (c_set D) (codes "GPIO_SET <pin> <HIGH|LOW>") in
      let t3 = with_command t2 (codes "GPIO_GET") (c_get D) (codes "GPIO_GET <pin>") in
      let t4 = with_command t3 (codes "GPIO_TOGGLE") (c_toggle D) (codes "GPIO_TOGGLE <pin>") in
      let t5 =
        with_command t4 (codes "GPIO_WATCH") c_watch
          (codes "GPIO_WATCH <pin> <RISING|FALLING|ANY>") in
      let t6 = with_command t5 (codes "GPIO_UNWATCH") c_unwatch (codes "GPIO_UNWATCH <pin>") in
      (record w { s_watch = start_watches; s_evt_q = [] }, t6)
