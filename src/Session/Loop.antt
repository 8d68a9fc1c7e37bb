-- ===== src/Session/Loop.antt =====
-- `session_loop` of components/core/src/net.c, from the handshake to the end of the session. A session
-- keeps what the socket still holds, the command interpreter's state and the world of the handlers;
-- `junk` is what the line's buffer holds behind the line of a round. The loop of rounds has fuel, a round for each
-- byte that still comes and one more.
pub mod Ends
mod Tests
use espshell.Prelude.{
  ℕ, zero, suc, ◌+◌, Bool, true, false, List, [], ◌∷◌, ◌++◌, Option, none, some, length,
  if◌then◌else◌,
}
use espshell.Cmd.Registry.{Entry}
use espshell.Net.{Event}
use espshell.Net.Reads.{flat}
use espshell.Auth.{PsaMac, PsaKdf}
use espshell.Proto.{Psa, Session, proto_session_wipe}
use espshell.Session.{Sent, Client, Outcome, session_round}
use espshell.Handshake.{Link, do_handshake}

module _ {W : Type 0} (psa : Psa) (tbl : List (Entry W)) (junk : ℕ → List ℕ) where
  unfoldable pub next_round :
      (Outcome W → Option (Outcome W)) → List ℕ → Outcome W → Option (Outcome W)
  next_round again sent o =
      let o' = record o { sent = sent ++ Outcome.sent o } in
      if Outcome.go_on o then again o' else some o'

  -- `for (;;)`, with what the session has sent.
  unfoldable pub command_loop : ℕ → ℕ → Outcome W → Option (Outcome W)
  unfolding next_round session_round
  command_loop zero i o = none
  command_loop (suc fuel) i o =
      next_round (λ o'. command_loop fuel (i + 1) o') (Outcome.sent o)
        (session_round psa tbl (junk i) (Outcome.client o) (Outcome.sends o) (Outcome.events o)
          (Outcome.last_err o) (Outcome.world o))

  -- From `out:` on.
  unfoldable pub end_session : (W → W) → Option (Outcome W) → Option (Outcome W)
  end_session ota_abort none = none
  end_session ota_abort (some o) = some (record o {
    go_on = false;
    client = record {
      connected = false;
      authed = false;
      sess = proto_session_wipe (Client.sess (Outcome.client o));
    };
    world = ota_abort (Outcome.world o);
  })

  unfoldable pub after_handshake : ℕ → W → Bool × Link × Session → Option (Outcome W)
  unfolding command_loop
  after_handshake err world (ok, l, sess) =
      let o : Outcome W = record {
        go_on = ok;
        sent = Link.sent l;
        client = record { connected = true; authed = ok; sess = sess };
        sends = Link.sends l;
        events = Link.events l;
        last_err = err;
        world = world;
      } in
      if ok then command_loop (suc (length (flat (Link.events l)))) 0 o else some o

  unfoldable pub session_loop :
      PsaMac
      → PsaKdf
      → List ℕ
      → (W → W)
      → (ℕ → List ℕ)
      → Link
      → Session
      → ℕ
      → W
      → Option (Outcome W)
  unfolding do_handshake after_handshake end_session
  session_loop mac kdf token ota_abort nonces l sess err world =
      end_session ota_abort (after_handshake err world (do_handshake mac kdf token nonces l sess))
