-- ===== src/Uart/Tests.antt =====
-- The UART commands of components/core/src/periph_uart.c on a toy driver, which never fails and on which
-- two bytes come in.
use espshell.Prelude.{
  ℕ, ◌<◌, ◌≡◌, refl, true, false, List, [], ◌∷◌, some, length, get_or, codes, arith, bytes_eq,
}
use espshell.Clib.{atoi, strtol, strcaseeq, print_digits}
use espshell.Hex.{hex_encode, hex_to_bytes, decode_pairs, hex_nibble}
use espshell.Uart.{
  Serial, Uart, install, inited, init_port, c_init, wrote, write_port, c_write, started, switch_on,
  switch, c_stream, event_digits, event_line, told_event, stream_task_fn,
}
use espshell.Uart.Streams.{at_start, UartStep, UartReach, IsUart}
use espshell.Uart.Streams.Switched.{streams-IsUart}

abbrev toy : Serial
toy = record {
  Hw = ℕ;
  uart_driver_delete = λ hw port. hw;
  uart_param_config = λ hw port baud. (true, hw);
  uart_set_pin = λ hw port tx rx. (true, hw);
  uart_driver_install = λ hw port rx tx. (true, hw);
  uart_write_bytes = λ hw port bytes. (length bytes, hw);
  uart_read_bytes = λ hw port n ms. (some (1 ∷ 255 ∷ []), hw);
  x_task_create = λ hw port. (true, hw);
}

abbrev on_one : List (List ℕ)
on_one = codes "1" ∷ codes "ON" ∷ []

abbrev off_one : List (List ℕ)
off_one = codes "1" ∷ codes "OFF" ∷ []

abbrev init_one : List (List ℕ)
init_one = codes "1" ∷ codes "17" ∷ codes "16" ∷ codes "9600" ∷ []

abbrev ready_port : Uart toy
ready_port = (c_init toy init_one 0 (at_start toy 0)).3

abbrev streaming : Uart toy
streaming = (c_stream toy on_one 0 ready_port).3

abbrev stopped : Uart toy
stopped = (c_stream toy off_one 0 streaming).3

init_run : Uart.s_inited ready_port ≡ false ∷ true ∷ false ∷ []
unfolding c_init init_port install inited atoi strtol
init_run = refl

write_run : (c_write toy (codes "1" ∷ codes "00ff" ∷ []) 0 ready_port).0 ≡ true
unfolding c_init init_port install inited atoi strtol c_write write_port wrote hex_to_bytes
    decode_pairs hex_nibble
write_run = refl

event_run : (stream_task_fn toy 1 streaming).0 ≡ some (codes "EVT UART 1 01ff")
unfolding c_init init_port install inited atoi strtol c_stream switch switch_on started strcaseeq
    bytes_eq stream_task_fn told_event event_line event_digits hex_encode print_digits
event_run = refl

-- An ON between an OFF and the end of the task answers OK, and the task ends all the same.
restart_run :
    ((c_stream toy on_one 0 stopped).0 ≡ true)
    × (Uart.tasks (c_stream toy on_one 0 stopped).3 ≡ 0 ∷ 1 ∷ 0 ∷ [])
    × (Uart.tasks (stream_task_fn toy 1 (c_stream toy on_one 0 stopped).3).1 ≡ 0 ∷ 0 ∷ 0 ∷ [])
unfolding c_init init_port install inited atoi strtol c_stream switch switch_on started strcaseeq
    bytes_eq stream_task_fn
restart_run = (refl, refl, refl)

one_runs : 0 < get_or (Uart.tasks stopped) 1 0
unfolding c_init init_port install inited atoi strtol c_stream switch switch_on started strcaseeq
    bytes_eq
one_runs = omega arith

streams-IsUart_example : IsUart toy (stream_task_fn toy 1 stopped).1
streams-IsUart_example = streams-IsUart toy 0 (
    UartReach.later
      (UartReach.later
        (UartReach.later (UartReach.later UartReach.start (UartStep.init_step init_one 0))
          (UartStep.stream_step on_one 0))
        (UartStep.stream_step off_one 0))
      (UartStep.task_step 1 one_runs))
