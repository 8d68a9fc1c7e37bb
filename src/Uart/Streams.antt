-- ===== src/Uart/Streams.antt =====
-- The stream tasks of components/core/src/periph_uart.c: the commands and the rounds of the tasks in any
-- order, as steps, and what holds between them.
pub mod Switched
use espshell.Prelude.{
  ℕ, zero, suc, ◌+◌, ◌*◌, ◌<◌, ◌≡◌, refl, ap, sym, subst, ◌∙◌, Bool, true, false, not, ◌||◌, List,
  [], ◌∷◌, Option, none, some, ◌==◌, ltb, if◌then◌else◌, length, get_or, set, replicate, get_or-set,
  length-set, Bool-cases, inl, inr, arith, codes,
}
use espshell.Clib.{atoi, strcaseeq}
use espshell.Hex.{hex_to_bytes}
use espshell.Uart.{
  Serial, Uart, max_port, max_bytes, bad_port, bad_baud, bad_count, install, inited, init_port,
  c_init, wrote, write_port, c_write, told_bytes, c_read, started, switch_on, switch, c_stream,
  stream_task_fn,
}

pub port_small : (port : ℕ) → bad_port port ≡ false → port < 3
port_small port e = ground arith

module _ (S : Serial) where
  abbrev pub at_start : S.Hw → Uart S
  at_start hw = record {
    hw = hw;
    s_inited = replicate max_port false;
    s_stream_task = replicate max_port false;
    s_stream_on = replicate max_port false;
    tasks = replicate max_port 0;
  }

  -- A command, or a round of a task that runs.
  pub data UartStep (w : Uart S) : Uart S → Type 0 where
    init_step : (args : List (List ℕ)) (err : ℕ) → UartStep w (c_init S args err w).3
    write_step : (args : List (List ℕ)) (err : ℕ) → UartStep w (c_write S args err w).3
    read_step : (args : List (List ℕ)) (err : ℕ) → UartStep w (c_read S args err w).3
    stream_step : (args : List (List ℕ)) (err : ℕ) → UartStep w (c_stream S args err w).3
    task_step : (port : ℕ) → 0 < get_or w.tasks port 0 → UartStep w (stream_task_fn S port w).1

  pub data UartReach (hw : S.Hw) : Uart S → Type 0 where
    start : UartReach hw (at_start hw)
    later : {w w' : Uart S} → UartReach hw w → UartStep w w' → UartReach hw w'

  pub record IsUart (w : Uart S) : Type 0 where
    pub ports : length w.s_inited ≡ 3
    pub handles : length w.s_stream_task ≡ 3
    pub counts : length w.tasks ≡ 3
    -- A port whose handle is not null has one task, another port has none.
    pub one : (p : ℕ) → get_or w.tasks p 0 ≡ (if get_or w.s_stream_task p false then 1 else 0)
    -- A port with a task has been initialised.
    pub ready : (p : ℕ) → (not (get_or w.s_stream_task p false) || get_or w.s_inited p false) ≡ true

  pub start-IsUart : (hw : S.Hw) → IsUart (at_start hw)
  start-IsUart hw = record { ports = refl; handles = refl; counts = refl; one = one; ready = ready }
    where
      one :
          (p : ℕ)
          → get_or (replicate 3 zero) p zero
            ≡ (if get_or (replicate 3 false) p false then suc zero else zero)
      one zero = refl
      one (suc zero) = refl
      one (suc (suc zero)) = refl
      one (suc (suc (suc p))) = refl

      ready :
          (p : ℕ)
          → (not (get_or (replicate 3 false) p false) || get_or (replicate 3 false) p false) ≡ true
      ready zero = refl
      ready (suc zero) = refl
      ready (suc (suc zero)) = refl
      ready (suc (suc (suc p))) = refl

  pub with_hw : (w : Uart S) (hw : S.Hw) → IsUart w → IsUart (record w { hw = hw })
  with_hw w hw i = record {
    ports = IsUart.ports i;
    handles = IsUart.handles i;
    counts = IsUart.counts i;
    one = IsUart.one i;
    ready = IsUart.ready i;
  }

  inited-IsUart :
      (err : ℕ) (w : Uart S) (port : ℕ) (r : Bool × S.Hw)
      → port < 3
      → IsUart w
      → IsUart (inited S err w port r).3
  unfolding inited
  inited-IsUart err w port (false, hw) small i = with_hw w hw i
  inited-IsUart err w port (true, hw) small i = record {
    ports = length-set w.s_inited port true ∙ IsUart.ports i;
    handles = IsUart.handles i;
    counts = IsUart.counts i;
    one = IsUart.one i;
    ready = λ p. rw (get_or-set w.s_inited port p true false (rw (IsUart.ports i) small)) (up p);
  }
    where
      either : (b : Bool) → (not b || true) ≡ true
      either true = refl
      either false = refl

      up :
          (p : ℕ)
          → (not (get_or w.s_stream_task p false)
              || (if port == p then true else get_or w.s_inited p false))
            ≡ true
      up p = elim (Bool-cases (port == p)) [
        | inl same ↦ rw same (either (get_or w.s_stream_task p false))
        | inr differ ↦ rw differ (IsUart.ready i p)
      ]

  pub c_init-IsUart :
      (args : List (List ℕ)) (err : ℕ) (w : Uart S) → IsUart w → IsUart (c_init S args err w).3
  unfolding c_init init_port
  c_init-IsUart [] err w i = i
  c_init-IsUart (a ∷ []) err w i = i
  c_init-IsUart (a ∷ b ∷ []) err w i = i
  c_init-IsUart (a ∷ b ∷ c ∷ []) err w i = i
  c_init-IsUart (a ∷ b ∷ c ∷ d ∷ []) err w i =
      elim (Bool-cases (bad_port (atoi a) || bad_baud (atoi d))) [
        | inl bad ↦ rw bad i
        | inr fine ↦ rw fine (
            inited-IsUart err w (atoi a)
              (install S (S.uart_driver_delete w.hw (atoi a)) (atoi a) (atoi b) (atoi c) (atoi d))
              (port_small (atoi a) (ground arith)) i)
      ]
  c_init-IsUart (a ∷ b ∷ c ∷ d ∷ e ∷ args) err w i = i

  -- The handlers that leave the ports as they are.
  wrote-IsUart :
      (err : ℕ) (w : Uart S) (n : ℕ) (r : ℕ × S.Hw) → IsUart w → IsUart (wrote S err w n r).3
  unfolding wrote
  wrote-IsUart err w n (k, hw) i = elim (Bool-cases (k == n)) [
    | inl full ↦ rw full (with_hw w hw i)
    | inr short ↦ rw short (with_hw w hw i)
  ]

  write_port-IsUart :
      (err : ℕ) (w : Uart S) (port : ℕ) (bytes : Option (List ℕ))
      → IsUart w
      → IsUart (write_port S err w port bytes).3
  unfolding write_port
  write_port-IsUart err w port none i = i
  write_port-IsUart err w port (some []) i = i
  write_port-IsUart err w port (some (b ∷ bs)) i =
      wrote-IsUart err w (length (b ∷ bs)) (S.uart_write_bytes w.hw port (b ∷ bs)) i

  pub c_write-IsUart :
      (args : List (List ℕ)) (err : ℕ) (w : Uart S) → IsUart w → IsUart (c_write S args err w).3
  unfolding c_write
  c_write-IsUart [] err w i = i
  c_write-IsUart (a ∷ []) err w i = i
  c_write-IsUart (a ∷ b ∷ []) err w i =
      elim (Bool-cases (bad_port (atoi a) || not (get_or w.s_inited (atoi a) false))) [
        | inl bad ↦ rw bad i
        | inr fine ↦ rw fine (write_port-IsUart err w (atoi a) (hex_to_bytes b max_bytes) i)
      ]
  c_write-IsUart (a ∷ b ∷ c ∷ args) err w i = i

  told_bytes-IsUart :
      (err : ℕ) (w : Uart S) (r : Option (List ℕ) × S.Hw)
      → IsUart w
      → IsUart (told_bytes S err w r).3
  unfolding told_bytes
  told_bytes-IsUart err w (none, hw) i = with_hw w hw i
  told_bytes-IsUart err w (some buf, hw) i = elim (Bool-cases (ltb 4096 (length buf * 2 + 1))) [
    | inl large ↦ rw large (with_hw w hw i)
    | inr small ↦ rw small (with_hw w hw i)
  ]

  pub c_read-IsUart :
      (args : List (List ℕ)) (err : ℕ) (w : Uart S) → IsUart w → IsUart (c_read S args err w).3
  unfolding c_read
  c_read-IsUart [] err w i = i
  c_read-IsUart (a ∷ []) err w i = i
  c_read-IsUart (a ∷ b ∷ []) err w i = i
  c_read-IsUart (a ∷ b ∷ c ∷ []) err w i =
      elim (Bool-cases
        (bad_port (atoi a) || (not (get_or w.s_inited (atoi a) false) || bad_count (atoi b)))) [
          | inl bad ↦ rw bad i
          | inr fine ↦
              rw fine
                (told_bytes-IsUart err w (S.uart_read_bytes w.hw (atoi a) (atoi b) (atoi c)) i)
        ]
  c_read-IsUart (a ∷ b ∷ c ∷ d ∷ args) err w i = i
