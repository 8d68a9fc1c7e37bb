-- ===== src/Uart/Streams/Switched.antt =====
-- The switch of the stream tasks of components/core/src/periph_uart.c, their rounds, and what every order
-- of steps keeps.
use espshell.Prelude.{
  ℕ, zero, suc, ◌+◌, ◌-◌, ◌<◌, ◌≡◌, refl, ap, subst, ◌∙◌, Bool, true, false, not, ◌||◌, List, [],
  ◌∷◌, ◌==◌, if◌then◌else◌, length, get_or, set, get_or-set, length-set, Bool-cases, inl, inr,
  arith, codes,
}
use espshell.Clib.{atoi, strcaseeq}
use espshell.Uart.{Serial, Uart, bad_port, started, switch_on, switch, c_stream, stream_task_fn}
use espshell.Uart.Streams.{
  port_small, UartStep, UartReach, IsUart, start-IsUart, with_hw, c_init-IsUart, c_write-IsUart,
  c_read-IsUart,
}

module _ (S : Serial) where
  started-IsUart :
      (w : Uart S) (port : ℕ) (r : Bool × S.Hw)
      → port < 3
      → get_or w.s_stream_task port false ≡ false
      → get_or w.s_inited port false ≡ true
      → IsUart S w
      → IsUart S (started S w port r)
  unfolding started
  started-IsUart w port (false, hw) small idle up i = with_hw S w hw i
  started-IsUart w port (true, hw) small idle up i = record {
    ports = IsUart.ports i;
    handles = length-set w.s_stream_task port true ∙ IsUart.handles i;
    counts = length-set w.tasks port _ ∙ IsUart.counts i;
    one = λ p.
        rw
          (
            get_or-set w.tasks port p (get_or w.tasks port 0 + 1) 0 (rw (IsUart.counts i) small),
            get_or-set w.s_stream_task port p true false (rw (IsUart.handles i) small),
          )
          (created p);
    ready = λ p.
        rw (get_or-set w.s_stream_task port p true false (rw (IsUart.handles i) small)) (ready p);
  }
    where
      none_yet : get_or w.tasks port 0 ≡ 0
      none_yet = IsUart.one i port ∙ ap (λ b. if b then 1 else 0) idle

      created :
          (p : ℕ)
          → (if port == p then get_or w.tasks port 0 + 1 else get_or w.tasks p 0)
            ≡ (if (if port == p then true else get_or w.s_stream_task p false) then 1 else 0)
      created p = elim (Bool-cases (port == p)) [
        | inl same ↦ rw (same, none_yet) refl
        | inr differ ↦ rw differ (IsUart.one i p)
      ]

      ready :
          (p : ℕ)
          → (not (if port == p then true else get_or w.s_stream_task p false)
              || get_or w.s_inited p false)
            ≡ true
      ready p = elim (Bool-cases (port == p)) [
        | inl same ↦ rw same (subst (λ q. get_or w.s_inited q false ≡ true) (ground arith) up)
        | inr differ ↦ rw differ (IsUart.ready i p)
      ]

  with_switch :
      (w : Uart S) (on : List Bool) → IsUart S w → IsUart S (record w { s_stream_on = on })
  with_switch w on i = record {
    ports = IsUart.ports i;
    handles = IsUart.handles i;
    counts = IsUart.counts i;
    one = IsUart.one i;
    ready = IsUart.ready i;
  }

  switch_on-IsUart :
      (w : Uart S) (port : ℕ)
      → port < 3
      → get_or w.s_inited port false ≡ true
      → IsUart S w
      → IsUart S (switch_on S w port)
  unfolding switch_on
  switch_on-IsUart w port small up i = elim (Bool-cases (get_or w.s_stream_task port false)) [
    | inl runs ↦ rw runs i
    | inr idle ↦
        let on = set w.s_stream_on port true in
        rw idle (
          started-IsUart (record w { s_stream_on = on }) port (S.x_task_create w.hw port) small idle
            up (with_switch w on i))
  ]

  switch-IsUart :
      (err : ℕ) (w : Uart S) (port : ℕ) (arg : List ℕ)
      → port < 3
      → get_or w.s_inited port false ≡ true
      → IsUart S w
      → IsUart S (switch S err w port arg).3
  unfolding switch
  switch-IsUart err w port arg small up i = elim (Bool-cases (strcaseeq arg (codes "ON"))) [
    | inl on ↦ rw on (switch_on-IsUart w port small up i)
    | inr not_on ↦ elim (Bool-cases (strcaseeq arg (codes "OFF"))) [
      | inl off ↦ rw (not_on, off) (with_switch w (set w.s_stream_on port false) i)
      | inr not_off ↦ rw (not_on, not_off) i
    ]
  ]

  usable :
      (port : ℕ) (up : Bool)
      → (bad_port port || not up) ≡ false
      → (bad_port port ≡ false) × (up ≡ true)
  usable port true e = (ground arith, refl)
  usable port false e = ground arith

  c_stream-IsUart :
      (args : List (List ℕ)) (err : ℕ) (w : Uart S)
      → IsUart S w
      → IsUart S (c_stream S args err w).3
  unfolding c_stream
  c_stream-IsUart [] err w i = i
  c_stream-IsUart (a ∷ []) err w i = i
  c_stream-IsUart (a ∷ b ∷ []) err w i =
      elim (Bool-cases (bad_port (atoi a) || not (get_or w.s_inited (atoi a) false))) [
        | inl bad ↦ rw bad i
        | inr fine ↦
            let (good, up) = usable (atoi a) (get_or w.s_inited (atoi a) false) fine in
            rw fine (switch-IsUart err w (atoi a) b (port_small (atoi a) good) up i)
      ]
  c_stream-IsUart (a ∷ b ∷ c ∷ args) err w i = i

  task_small : (w : Uart S) (port : ℕ) → IsUart S w → 0 < get_or w.tasks port 0 → port < 3
  task_small w port i runs = inside w.tasks port 3 (IsUart.counts i) runs
    where
      inside : (xs : List ℕ) (p n : ℕ) → length xs ≡ n → 0 < get_or xs p 0 → p < n
      inside [] p n e h = absurd (omega arith)
      inside (x ∷ xs) zero n e h = omega arith
      inside (x ∷ xs) (suc p) zero e h = absurd (omega arith)
      inside (x ∷ xs) (suc p) (suc n) e h = let rest = inside xs p n (omega arith) h in omega arith

  ended-IsUart :
      (w : Uart S) (port : ℕ)
      → port < 3
      → IsUart S w
      → IsUart S (record w {
        s_stream_task = set w.s_stream_task port false;
        tasks = set w.tasks port (get_or w.tasks port 0 - 1);
      })
  ended-IsUart w port small i = record {
    ports = IsUart.ports i;
    handles = length-set w.s_stream_task port false ∙ IsUart.handles i;
    counts = length-set w.tasks port _ ∙ IsUart.counts i;
    one = λ p.
        rw
          (
            get_or-set w.tasks port p (get_or w.tasks port 0 - 1) 0 (rw (IsUart.counts i) small),
            get_or-set w.s_stream_task port p false false (rw (IsUart.handles i) small),
          )
          (gone p);
    ready = λ p.
        rw (get_or-set w.s_stream_task port p false false (rw (IsUart.handles i) small)) (ready p);
  }
    where
      no_more : (n : ℕ) (b : Bool) → n ≡ (if b then 1 else 0) → n - 1 ≡ 0
      no_more n true e = omega arith
      no_more n false e = omega arith

      gone :
          (p : ℕ)
          → (if port == p then get_or w.tasks port 0 - 1 else get_or w.tasks p 0)
            ≡ (if (if port == p then false else get_or w.s_stream_task p false) then 1 else 0)
      gone p = elim (Bool-cases (port == p)) [
        | inl same ↦ rw same (no_more _ _ (IsUart.one i port))
        | inr differ ↦ rw differ (IsUart.one i p)
      ]

      ready :
          (p : ℕ)
          → (not (if port == p then false else get_or w.s_stream_task p false)
              || get_or w.s_inited p false)
            ≡ true
      ready p = elim (Bool-cases (port == p)) [
        | inl same ↦ rw same refl
        | inr differ ↦ rw differ (IsUart.ready i p)
      ]

  stream_task_fn-IsUart :
      (w : Uart S) (port : ℕ) → port < 3 → IsUart S w → IsUart S (stream_task_fn S port w).1
  unfolding stream_task_fn
  stream_task_fn-IsUart w port small i = elim (Bool-cases (get_or w.s_stream_on port false)) [
    | inl on ↦ rw on (with_hw S w (S.uart_read_bytes w.hw port 64 200).1 i)
    | inr off ↦ rw off (ended-IsUart w port small i)
  ]

  step-IsUart : {w w' : Uart S} → UartStep S w w' → IsUart S w → IsUart S w'
  step-IsUart (UartStep.init_step args err) i = c_init-IsUart S args err _ i
  step-IsUart (UartStep.write_step args err) i = c_write-IsUart S args err _ i
  step-IsUart (UartStep.read_step args err) i = c_read-IsUart S args err _ i
  step-IsUart (UartStep.stream_step args err) i = c_stream-IsUart args err _ i
  step-IsUart (UartStep.task_step port runs) i =
      stream_task_fn-IsUart _ port (task_small _ port i runs) i

  -- From the start of the module, whatever commands come and in whatever order the rounds of the stream
  -- tasks run between them: a port has one task when its handle is not null and none otherwise, and a port
  -- with a task has been initialised.
  pub streams-IsUart : (hw : S.Hw) {w : Uart S} → UartReach S hw w → IsUart S w
  streams-IsUart hw UartReach.start = start-IsUart S hw
  streams-IsUart hw (UartReach.later before step) = step-IsUart step (streams-IsUart hw before)
