-- ===== src/Session/Server/Serves.antt =====
-- The waits of `tcp_server_task` in components/core/src/net.c, and whom it serves.
use espshell.Prelude.{ℕ, ◌+◌, ◌==◌, ◌||◌, ◌≡◌, refl, true, List, [], ◌∷◌, some, All, arith}
use espshell.Cmd.Registry.{Entry}
use espshell.Auth.{PsaMac, PsaKdf}
use espshell.Proto.{Psa}
use espshell.Session.{Client, Outcome}
use espshell.Handshake.{Link}
use espshell.Session.Loop.{session_loop}
use espshell.Session.Server.{
  Listened, first_backoff, next_backoff, restarts, Accept, Served, Server,
}

-- 1, 2, 4, 8, 16 or 32 seconds, or 30.
abbrev pub IsBackoff : ℕ → Type 0
IsBackoff ms =
    (ms == 1000
      || ms == 2000
      || ms == 4000
      || ms == 8000
      || ms == 16000
      || ms == 32000
      || ms == 30000)
    ≡ true

next_backoff-IsBackoff : (ms : ℕ) → IsBackoff ms → IsBackoff (next_backoff ms)
next_backoff-IsBackoff ms h = ground arith

restarts_from :
    (backoff_ms : ℕ) (rs : List Listened)
    → IsBackoff backoff_ms
    → All IsBackoff (restarts backoff_ms rs)
unfolding restarts
restarts_from b [] h = tt
restarts_from b (Listened.socket_failed ∷ rs) h =
    (h, restarts_from (next_backoff b) rs (next_backoff-IsBackoff b h))
restarts_from b (Listened.bind_failed ∷ rs) h =
    (h, restarts_from (next_backoff b) rs (next_backoff-IsBackoff b h))
restarts_from b (Listened.listen_failed ∷ rs) h =
    (h, restarts_from (next_backoff b) rs (next_backoff-IsBackoff b h))
restarts_from b (Listened.listening ∷ rs) h = tt

-- Whatever fails when the server wants to listen, each wait before the next attempt is of 1, 2, 4, 8, 16,
-- 32 or 30 seconds.
pub restarts-IsBackoff : (rs : List Listened) → All IsBackoff (restarts first_backoff rs)
restarts-IsBackoff rs = restarts_from first_backoff rs refl

abbrev pub IsRefused : Served → Type 0
IsRefused Served.again = ⊥
IsRefused (Served.waited ms) = ⊥
IsRefused (Served.refused line) = Unit
IsRefused (Served.session sent) = ⊥

module _ {W : Type 0} (psa : Psa) (tbl : List (Entry W)) (junk : ℕ → List ℕ) (mac : PsaMac)
    (kdf : PsaKdf) (token : List ℕ) (ota_abort : W → W) where
  -- What becomes of the clients, one after the other: an interruption and a failure of `accept` are
  -- waited out, and each client has the session that `session_loop` runs with its socket, on what the
  -- sessions before it have left of the session's memory, the error code and the world.
  pub data Serving (nonces : ℕ → ℕ → List ℕ)
      : ℕ → Server W → List Accept → List Served → Server W → Type 0 where
    closes : {i : ℕ} {s : Server W} → Serving nonces i s [] [] s
    interrupts :
        {i : ℕ} {s s' : Server W} {accepts : List Accept} {ds : List Served}
        → Serving nonces (i + 1) s accepts ds s'
        → Serving nonces i s (Accept.interrupted ∷ accepts) (Served.again ∷ ds) s'
    fails :
        {i : ℕ} {s s' : Server W} {accepts : List Accept} {ds : List Served}
        → Serving nonces (i + 1) s accepts ds s'
        → Serving nonces i s (Accept.failed ∷ accepts) (Served.waited 500 ∷ ds) s'
    runs :
        {i : ℕ} {s s' : Server W} {accepts : List Accept} {ds : List Served} (l : Link)
        (o : Outcome W)
        → session_loop psa tbl junk mac kdf token ota_abort
            (nonces i)
            l
            (Client.sess (Server.client s))
            (Server.last_err s)
            (Server.world s)
          ≡ some o
        → Serving nonces
            (i + 1)
            (record {
              client = Outcome.client o;
              last_err = Outcome.last_err o;
              world = Outcome.world o;
            })
            accepts
            ds
            s'
        → Serving nonces i s (Accept.client l ∷ accepts) (Served.session (Outcome.sent o) ∷ ds) s'
