-- ===== src/Uart.antt =====
-- components/core/src/periph_uart.c: the commands of the secondary UART ports and the tasks that stream
-- what comes in. The driver of ESP-IDF is a parameter, with its state.
pub mod Streams
mod Tests
use espshell.Prelude.{
  ℕ, ◌+◌, ◌-◌, ◌*◌, ◌/◌, ◌%◌, ◌^◌, Bool, true, false, not, ◌||◌, List, [], ◌∷◌, ◌++◌, Option, none,
  some, ltb, leb, ◌==◌, if◌then◌else◌, length, get_or, set, codes,
}
use espshell.Clib.{atoi, is_negative, strcaseeq, print_int, format}
use espshell.Hex.{hex_encode, hex_to_bytes}
use espshell.Cmd.Registry.{Entry, Handler, cmd_register}
use espshell.Ota.Handlers.{e_bad_args, e_hw_fail, e_not_found}
use espshell.Gpio.{e_no_mem}

abbrev pub max_port : ℕ
max_port = 3

abbrev pub max_bytes : ℕ
max_bytes = 256

abbrev pub buf_sz : ℕ
buf_sz = 1024

-- An `int` is its bits. `uart_read_bytes` has its timeout in milliseconds and answers what it has read, or
-- `none` for a negative result; `uart_write_bytes` answers an `int`. `xTaskCreate` answers whether it made
-- the task.
pub record Serial : Type 1 where
  pub Hw : Type 0
  pub uart_driver_delete : Hw → ℕ → Hw
  pub uart_param_config : Hw → ℕ → ℕ → Bool × Hw
  pub uart_set_pin : Hw → ℕ → ℕ → ℕ → Bool × Hw
  pub uart_driver_install : Hw → ℕ → ℕ → ℕ → Bool × Hw
  pub uart_write_bytes : Hw → ℕ → List ℕ → ℕ × Hw
  pub uart_read_bytes : Hw → ℕ → ℕ → ℕ → Option (List ℕ) × Hw
  pub x_task_create : Hw → ℕ → Bool × Hw

-- The statics: a handle in `s_stream_task` is whether it is not null. `tasks` has, for each port, the
-- number of tasks that run `stream_task_fn` on it.
pub record Uart (S : Serial) : Type 0 where
  pub hw : S.Hw
  pub s_inited : List Bool
  pub s_stream_task : List Bool
  pub s_stream_on : List Bool
  pub tasks : List ℕ

-- `port <= 0 || port >= MAX_PORT`.
abbrev pub bad_port : ℕ → Bool
bad_port port = port == 0 || (is_negative port || leb max_port port)

-- `baud < 300 || baud > 5000000`.
abbrev pub bad_baud : ℕ → Bool
bad_baud baud = is_negative baud || (ltb baud 300 || ltb 5000000 baud)

-- `n < 1 || n > MAX_BYTES`.
abbrev pub bad_count : ℕ → Bool
bad_count n = n == 0 || (is_negative n || ltb max_bytes n)

-- The loop that writes the digits, from offset `off` of `line[160]` on.
unfoldable pub event_digits : List ℕ → ℕ → List ℕ
event_digits [] off = []
event_digits (b ∷ bs) off =
    let rest = event_digits bs (off + 2) in
    if ltb (off + 2) 160 then hex_encode (b ∷ []) ++ rest else []

unfoldable pub event_line : ℕ → List ℕ → List ℕ
unfolding event_digits
event_line port bytes =
    let head = format (codes "EVT UART " ∷ print_int port ∷ codes " " ∷ []) in
    head ++ event_digits bytes (length head)

module _ (S : Serial) where
  abbrev pub UartReply : Type 0
  UartReply = Bool × List ℕ × ℕ × Uart S

  abbrev pub uart_error : ℕ → List ℕ → Uart S → UartReply
  uart_error code message w = (false, message, code, w)

  -- The three calls, of which the first that fails is the last.
  unfoldable pub install : S.Hw → ℕ → ℕ → ℕ → ℕ → Bool × S.Hw
  install hw port tx rx baud =
      let (configured, hw1) = S.uart_param_config hw port baud in
      let (pinned, hw2) = S.uart_set_pin hw1 port tx rx in
      let last = S.uart_driver_install hw2 port buf_sz buf_sz in
      if not configured then (false, hw1) else if not pinned then (false, hw2) else last

  unfoldable pub inited : ℕ → Uart S → ℕ → Bool × S.Hw → UartReply
  inited err w port (false, hw) = uart_error e_hw_fail (codes "init") (record w { hw = hw })
  inited err w port (true, hw) =
      (true, [], err, record w { hw = hw; s_inited = set w.s_inited port true })

  unfoldable pub init_port : ℕ → Uart S → ℕ → ℕ → ℕ → ℕ → UartReply
  unfolding install inited
  init_port err w port tx rx baud =
      if bad_port port || bad_baud baud
      then uart_error e_bad_args (codes "port 1..2, baud") w
      else inited err w port (install (S.uart_driver_delete w.hw port) port tx rx baud)

  unfoldable pub c_init : Handler (Uart S)
  unfolding init_port
  c_init (port ∷ tx ∷ rx ∷ baud ∷ []) err w =
      init_port err w (atoi port) (atoi tx) (atoi rx) (atoi baud)
  c_init _ err w = uart_error e_bad_args [] w

  unfoldable pub wrote : ℕ → Uart S → ℕ → ℕ × S.Hw → UartReply
  wrote err w n (k, hw) =
      if k == n
      then (true, [], err, record w { hw = hw })
      else uart_error e_hw_fail [] (record w { hw = hw })

  unfoldable pub write_port : ℕ → Uart S → ℕ → Option (List ℕ) → UartReply
  unfolding wrote
  write_port err w port none = uart_error e_bad_args (codes "hex") w
  write_port err w port (some []) = uart_error e_bad_args (codes "hex") w
  write_port err w port (some (b ∷ bs)) =
      wrote err w (length (b ∷ bs)) (S.uart_write_bytes w.hw port (b ∷ bs))

  unfoldable pub c_write : Handler (Uart S)
  unfolding write_port
  c_write (port ∷ hex ∷ []) err w =
      if bad_port (atoi port) || not (get_or w.s_inited (atoi port) false)
      then uart_error e_not_found (codes "not init") w
      else write_port err w (atoi port) (hex_to_bytes hex max_bytes)
  c_write _ err w = uart_error e_bad_args [] w

  -- The reply's buffer has 4096 bytes.
  unfoldable pub told_bytes : ℕ → Uart S → Option (List ℕ) × S.Hw → UartReply
  told_bytes err w (none, hw) = uart_error e_hw_fail [] (record w { hw = hw })
  told_bytes err w (some buf, hw) =
      if ltb 4096 (length buf * 2 + 1)
      then uart_error e_no_mem [] (record w { hw = hw })
      else (true, hex_encode buf, err, record w { hw = hw })

  unfoldable pub c_read : Handler (Uart S)
  unfolding told_bytes
  c_read (port ∷ n ∷ to ∷ []) err w =
      if bad_port (atoi port) || (not (get_or w.s_inited (atoi port) false) || bad_count (atoi n))
      then uart_error e_bad_args (codes "args") w
      else told_bytes err w (S.uart_read_bytes w.hw (atoi port) (atoi n) (atoi to))
  c_read _ err w = uart_error e_bad_args [] w

  -- `xTaskCreate` writes the handle before the task can run.
  unfoldable pub started : Uart S → ℕ → Bool × S.Hw → Uart S
  started w port (false, hw) = record w { hw = hw }
  started w port (true, hw) = record w {
    hw = hw;
    s_stream_task = set w.s_stream_task port true;
    tasks = set w.tasks port (get_or w.tasks port 0 + 1);
  }

  unfoldable pub switch_on : Uart S → ℕ → Uart S
  unfolding started
  switch_on w port =
      if get_or w.s_stream_task port false
      then w
      else started (record w { s_stream_on = set w.s_stream_on port true }) port
          (S.x_task_create w.hw port)

  unfoldable pub switch : ℕ → Uart S → ℕ → List ℕ → UartReply
  unfolding switch_on
  switch err w port arg =
      if strcaseeq arg (codes "ON")
      then (true, [], err, switch_on w port)
      else if strcaseeq arg (codes "OFF")
      then (true, [], err, record w { s_stream_on = set w.s_stream_on port false })
      else uart_error e_bad_args (codes "ON|OFF") w

  unfoldable pub c_stream : Handler (Uart S)
  unfolding switch
  c_stream (port ∷ arg ∷ []) err w =
      if bad_port (atoi port) || not (get_or w.s_inited (atoi port) false)
      then uart_error e_not_found (codes "not init") w
      else switch err w (atoi port) arg
  c_stream _ err w = uart_error e_bad_args [] w

  -- What `net_send_event` is given, when bytes came in.
  unfoldable pub told_event : ℕ → Option (List ℕ) → Option (List ℕ)
  unfolding event_line
  told_event port none = none
  told_event port (some []) = none
  told_event port (some (b ∷ bs)) = some (event_line port (b ∷ bs))

  -- A round of `while (s_stream_on[port])`, or what stands behind the loop.
  unfoldable pub stream_task_fn : ℕ → Uart S → Option (List ℕ) × Uart S
  unfolding told_event
  stream_task_fn port w =
      let (got, hw) = S.uart_read_bytes w.hw port 64 200 in
      if get_or w.s_stream_on port false then (told_event port got, record w { hw = hw }) else (
        none,
        record w {
          s_stream_task = set w.s_stream_task port false;
          tasks = set w.tasks port (get_or w.tasks port 0 - 1);
        },
      )

  abbrev Table : Type 0
  Table = List (Entry (Uart S))

  unfoldable pub uart_module_init : Table → Table
  unfolding c_init c_write c_read c_stream
  uart_module_init tbl =
      let t1 =
        (cmd_register tbl (some (codes "UART_INIT")) (some c_init)
          (some (codes "UART_INIT <port 1..2> <tx_pin> <rx_pin> <baud>"))).1 in
      let t2 =
        (cmd_register t1 (some (codes "UART_WRITE")) (some c_write)
          (some (codes "UART_WRITE <port> <hex>"))).1 in
      let t3 =
        (cmd_register t2 (some (codes "UART_READ")) (some c_read)
          (some (codes "UART_READ <port> <n_bytes> <timeout_ms>"))).1 in
      (cmd_register t3 (some (codes "UART_STREAM")) (some c_stream)
        (some (codes "UART_STREAM <port> ON|OFF"))).1
