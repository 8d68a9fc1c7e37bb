-- ===== src/Session/Server.antt =====
-- `tcp_server_task` of components/core/src/net.c: the listening socket with its waits, and the loop that
-- accepts one client after the other. What `socket`, `bind`, `listen` and `accept` answer is a sequence
-- of results; the loop ends with it. `net_send_event` and the pump of the logger stand beside it.
pub mod Serves
use espshell.Prelude.{
  ℕ, zero, suc, ◌+◌, ◌*◌, Bool, true, false, List, [], ◌∷◌, ◌++◌, Option, none, some, ltb,
  if◌then◌else◌, codes,
}
use espshell.Cmd.Registry.{Entry}
use espshell.Auth.{PsaMac, PsaKdf}
use espshell.Proto.{Psa, Session}
use espshell.Session.{Sent, write_full, Client, Outcome, send_frame}
use espshell.Session.Loop.{session_loop}
use espshell.Handshake.{Link}

-- How an attempt to listen goes.
pub data Listened : Type 0 where
  socket_failed : Listened
  bind_failed : Listened
  listen_failed : Listened
  listening : Listened

abbrev pub first_backoff : ℕ
first_backoff = 1000

abbrev pub next_backoff : ℕ → ℕ
next_backoff backoff_ms = if ltb backoff_ms 30000 then backoff_ms * 2 else 30000

-- From `restart:` on: the waits, in milliseconds, until the server listens.
unfoldable pub restarts : ℕ → List Listened → List ℕ
restarts backoff_ms [] = []
restarts backoff_ms (Listened.socket_failed ∷ rs) =
    backoff_ms ∷ restarts (next_backoff backoff_ms) rs
restarts backoff_ms (Listened.bind_failed ∷ rs) = backoff_ms ∷ restarts (next_backoff backoff_ms) rs
restarts backoff_ms (Listened.listen_failed ∷ rs) =
    backoff_ms ∷ restarts (next_backoff backoff_ms) rs
restarts backoff_ms (Listened.listening ∷ rs) = []

-- What `accept` answers: -1 with `EINTR` or another error, or a client, with what its socket will do.
pub data Accept : Type 0 where
  interrupted : Accept
  failed : Accept
  client : Link → Accept

-- What the server does with it: nothing, a wait, a refusal or a session.
pub data Served : Type 0 where
  again : Served
  waited : ℕ → Served
  refused : List ℕ → Served
  session : List ℕ → Served

pub record Server (W : Type 0) : Type 0 where
  pub client : Client
  pub last_err : ℕ
  pub world : W

module _ {W : Type 0} (psa : Psa) (tbl : List (Entry W)) (junk : ℕ → List ℕ) (mac : PsaMac)
    (kdf : PsaKdf) (token : List ℕ) (ota_abort : W → W) where
  unfoldable pub served : Server W → Option (Outcome W) → Option (Served × Server W)
  served s none = none
  served s (some o) = some (
    Served.session (Outcome.sent o),
    record { client = Outcome.client o; last_err = Outcome.last_err o; world = Outcome.world o },
  )

  -- A round of `for (;;)`; `nonces` are those of the session.
  unfoldable pub serve : (ℕ → List ℕ) → Server W → Accept → Option (Served × Server W)
  unfolding session_loop served write_full
  serve nonces s Accept.interrupted = some (Served.again, s)
  serve nonces s Accept.failed = some (Served.waited 500, s)
  serve nonces s (Accept.client l) =
      if Client.connected (Server.client s)
      then some (Served.refused (codes "ERR 8 busy\n"), s)
      else served s (
          session_loop psa tbl junk mac kdf token ota_abort nonces l (Client.sess (Server.client s))
            (Server.last_err s) (Server.world s))

  unfoldable pub then_serve :
      (Server W → Option (List Served × Server W))
      → Option (Served × Server W)
      → Option (List Served × Server W)
  then_serve rest none = none
  then_serve rest (some (d, s)) = elim (rest s) [ none ↦ none | some (ds, s') ↦ some (d ∷ ds, s') ]

  unfoldable pub serve_all :
      (ℕ → ℕ → List ℕ) → ℕ → Server W → List Accept → Option (List Served × Server W)
  unfolding serve then_serve
  serve_all nonces i s [] = some ([], s)
  serve_all nonces i s (a ∷ accepts) =
      then_serve (λ s'. serve_all nonces (i + 1) s' accepts) (serve (nonces i) s a)

-- A null pointer is `none`.
unfoldable pub net_send_event :
    Psa → Client → List Sent → Option (List ℕ) → List ℕ × Client × List Sent
unfolding send_frame
net_send_event psa c rs none = ([], c, rs)
net_send_event psa c rs (some line) =
    let (ok, out, c', rs') = send_frame psa c rs line in (out, c', rs')

-- A round of `logger_pump_task`, on what `logger_drain` answers.
unfoldable pub pump : Psa → Client → List Sent → Option (List ℕ) → List ℕ × Client × List Sent
unfolding send_frame
pump psa c rs none = ([], c, rs)
pump psa c rs (some line) =
    if Client.authed c
    then (let (ok, out, c', rs') = send_frame psa c rs line in (out, c', rs'))
    else ([], c, rs)
