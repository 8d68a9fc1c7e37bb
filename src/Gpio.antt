-- ===== src/Gpio.antt =====
-- components/core/src/periph_gpio.c: the GPIO commands, the table of watched pins and the queue of their
-- events. The driver of ESP-IDF is a parameter. A slot that is empty, with pin -1, has `none`.
pub mod Edges
pub mod Slots
pub mod Watches
mod Tests
use espshell.Prelude.{
  ℕ, zero, suc, ◌+◌, ◌-◌, Bool, true, false, ◌&&◌, ◌||◌, not, List, [], ◌∷◌, ◌++◌, Option, none,
  some, ltb, leb, ◌==◌, if◌then◌else◌, length, set, replicate, codes,
}
use espshell.Clib.{strtol, strcaseeq, is_negative, print_int}
use espshell.Cmd.Registry.{Entry, Handler, cmd_register}
use espshell.Ota.Handlers.{e_bad_args, e_hw_fail}

abbrev pub e_no_mem : ℕ
e_no_mem = 5

-- `gpio_config_t` for one pin; the modes are INPUT 1 and INPUT_OUTPUT 3, the interrupts DISABLE 0,
-- POSEDGE 1, NEGEDGE 2 and ANYEDGE 3.
pub record PinConfig : Type 0 where
  pub pin : ℕ
  pub mode : ℕ
  pub pull_up_en : Bool
  pub pull_down_en : Bool
  pub intr_type : ℕ

-- What the driver does with its state.
pub record Driver : Type 1 where
  pub Hw : Type 0
  pub gpio_config : Hw → PinConfig → Bool × Hw
  pub gpio_set_level : Hw → ℕ → Bool → Bool × Hw
  pub gpio_get_level : Hw → ℕ → Bool
  pub gpio_install_isr_service : Hw → Hw
  pub gpio_isr_handler_add : Hw → ℕ → Bool × Hw
  pub gpio_isr_handler_remove : Hw → ℕ → Hw
  pub gpio_set_intr_type : Hw → ℕ → ℕ → Hw

pub record Slot : Type 0 where
  pub pin : Option ℕ
  pub edge : ℕ

-- The module's statics, with the events in the queue.
pub record Gpio (D : Driver) : Type 0 where
  pub hw : D.Hw
  pub s_watch : List Slot
  pub s_isr_svc : Bool
  pub s_evt_q : List (ℕ × Bool)

unfoldable pub parse_pin : List ℕ → Option ℕ
unfolding strtol
parse_pin s =
    let (v, end) = strtol s in
    if not (length end == 0) || (is_negative v || ltb 48 v) then none else some v

abbrev pub level_text : Bool → List ℕ
level_text true = codes "1"
level_text false = codes "0"

module _ (D : Driver) where
  abbrev pub Reply : Type 0
  Reply = Bool × List ℕ × ℕ × Gpio D

  -- `cmd_set_err(code)`, the message in `r`, and `return false`.
  abbrev pub fail_with : ℕ → List ℕ → Gpio D → Reply
  fail_with code message w = (false, message, code, w)

  abbrev pub on_pin : Gpio D → Option ℕ → (ℕ → Reply) → Reply
  on_pin w none next = fail_with e_bad_args (codes "bad pin") w
  on_pin w (some pin) next = next pin

  unfoldable pub mode_config : ℕ → List ℕ → Option PinConfig
  mode_config pin mode =
      let input : PinConfig = record {
        pin = pin;
        mode = 1;
        pull_up_en = false;
        pull_down_en = false;
        intr_type = 0;
      } in
      if strcaseeq mode (codes "OUTPUT")
      then some (record input { mode = 3 })
      else if strcaseeq mode (codes "INPUT")
      then some input
      else if strcaseeq mode (codes "INPUT_PULLUP")
      then some (record input { pull_up_en = true })
      else if strcaseeq mode (codes "INPUT_PULLDOWN")
      then some (record input { pull_down_en = true })
      else none

  unfoldable pub configured : ℕ → Gpio D → Option PinConfig → Reply
  configured err w none = fail_with e_bad_args (codes "bad mode") w
  configured err w (some g) =
      let (ok, hw) = D.gpio_config w.hw g in
      let w' : Gpio D = record w { hw = hw } in
      if ok then (true, [], err, w') else fail_with e_hw_fail (codes "config failed") w'

  unfoldable pub c_mode : Handler (Gpio D)
  unfolding parse_pin configured mode_config
  c_mode (pin ∷ mode ∷ []) err w =
      on_pin w (parse_pin pin) (λ p. configured err w (mode_config p mode))
  c_mode _ err w = fail_with e_bad_args (codes "pin mode") w

  unfoldable pub set_level : ℕ → Gpio D → ℕ → Bool → Reply
  set_level err w p level =
      let (ok, hw) = D.gpio_set_level w.hw p level in
      let w' : Gpio D = record w { hw = hw } in
      if ok then (true, [], err, w') else fail_with e_hw_fail [] w'

  unfoldable pub c_set : Handler (Gpio D)
  unfolding parse_pin set_level
  c_set (pin ∷ level ∷ []) err w = on_pin w (parse_pin pin) (λ p.
      if strcaseeq level (codes "HIGH")
      then set_level err w p true
      else if strcaseeq level (codes "LOW")
      then set_level err w p false
      else fail_with e_bad_args (codes "level") w)
  c_set _ err w = fail_with e_bad_args (codes "pin HIGH|LOW") w

  unfoldable pub c_get : Handler (Gpio D)
  unfolding parse_pin
  c_get (pin ∷ []) err w =
      on_pin w (parse_pin pin) (λ p. (true, level_text (D.gpio_get_level w.hw p), err, w))
  c_get _ err w = fail_with e_bad_args (codes "pin") w

  -- The result of `gpio_set_level` is not looked at.
  unfoldable pub c_toggle : Handler (Gpio D)
  unfolding parse_pin
  c_toggle (pin ∷ []) err w = on_pin w (parse_pin pin) (λ p. (
    true,
    [],
    err,
    record w { hw = (D.gpio_set_level w.hw p (not (D.gpio_get_level w.hw p))).1 },
  ))
  c_toggle _ err w = fail_with e_bad_args (codes "pin") w
