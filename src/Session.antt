-- ===== src/Session.antt =====
-- The command loop of an authenticated session in components/core/src/net.c: `write_full`, `send_frame`
-- and one round of `session_loop`, over the frames, the socket and the dispatcher. What `send` meets is a
-- sequence of results; a call at its end fails.
pub mod Rounds
pub mod Authentic
pub mod Answers
pub mod Loop
pub mod Server
mod Tests
use espshell.Prelude.{
  ℕ, zero, suc, ◌+◌, ◌-◌, Bool, true, false, ◌&&◌, not, List, [], ◌∷◌, ◌++◌, Option, none, some,
  ltb, ◌==◌, if◌then◌else◌, length, take, drop, codes,
}
use espshell.Cmd.Registry.{Entry}
use espshell.Cmd.Dispatch.{cmd_dispatch}
use espshell.Net.{Event, recv_frame}
use espshell.Proto.{Psa, Session, proto_frame_encrypt, proto_frame_decrypt}

pub data Sent : Type 0 where
  took : ℕ → Sent
  interrupted : Sent
  failed : Sent

-- Answers whether all was sent, with the bytes that were, and the results that are left.
unfoldable pub write_full : List Sent → List ℕ → Bool × List ℕ × List Sent
write_full rs [] = (true, [], rs)
write_full [] (b ∷ bs) = (false, [], [])
write_full (Sent.took k ∷ rs) (b ∷ bs) =
    let (ok, sent, rs') = write_full rs (drop k (b ∷ bs)) in (ok, take k (b ∷ bs) ++ sent, rs')
write_full (Sent.interrupted ∷ rs) (b ∷ bs) = write_full rs (b ∷ bs)
write_full (Sent.failed ∷ rs) (b ∷ bs) = (false, [], rs)

abbrev pub max_resp : ℕ
max_resp = 4096

abbrev pub max_line : ℕ
max_line = 1024

-- `s_client_fd >= 0`, `s_authed` and `s_sess`.
pub record Client : Type 0 where
  pub connected : Bool
  pub authed : Bool
  pub sess : Session

-- What a round sends, and what it leaves of the sessions, the results of `send` and of `recv`.
pub record Outcome (W : Type 0) : Type 0 where
  pub go_on : Bool
  pub sent : List ℕ
  pub client : Client
  pub sends : List Sent
  pub events : List Event
  pub last_err : ℕ
  pub world : W

unfoldable pub write_frame :
    Client → List Sent → Option (List ℕ × Session) → Bool × List ℕ × Client × List Sent
unfolding write_full
write_frame c rs none = (false, [], c, rs)
write_frame c rs (some (frame, sess)) =
    let (ok, sent, rs') = write_full rs frame in (ok, sent, record c { sess = sess }, rs')

unfoldable pub send_frame : Psa → Client → List Sent → List ℕ → Bool × List ℕ × Client × List Sent
unfolding write_frame
send_frame psa c rs plaintext =
    if ltb max_resp (length plaintext)
    then (false, [], c, rs)
    else if c.connected && c.authed
    then write_frame c rs (proto_frame_encrypt psa c.sess plaintext (12 + max_resp + 16))
    else (false, [], c, rs)

-- `if (n < 0) snprintf(resp, ...)`.
abbrev pub or_overflow : Option ℕ × List ℕ → List ℕ
or_overflow (none, resp) = codes "ERR 5 response overflow"
or_overflow (some n, resp) = resp

module _ {W : Type 0} (psa : Psa) (tbl : List (Entry W)) (junk : List ℕ) where
  -- The line is in the buffer in front of its terminator; `junk` is what the buffer holds behind it.
  unfoldable pub run_line : Client → List Sent → List Event → ℕ → W → List ℕ → Outcome W
  unfolding send_frame cmd_dispatch
  run_line c rs es err world line =
      let (reply, line', err', world') = cmd_dispatch tbl (line ++ (0 ∷ junk)) max_resp err world in
      let (ok, sent, c', rs') = send_frame psa c rs (or_overflow reply) in
      record {
        go_on = ok;
        sent = sent;
        client = c';
        sends = rs';
        events = es;
        last_err = err';
        world = world';
      }

  abbrev pub stop : Client → List Sent → List Event → ℕ → W → Outcome W
  stop c rs es err world = record {
    go_on = false;
    sent = [];
    client = c;
    sends = rs;
    events = es;
    last_err = err;
    world = world;
  }

  unfoldable pub open_frame :
      Client → List Sent → List Event → ℕ → W → Option (List ℕ × Session) → Outcome W
  unfolding run_line
  open_frame c rs es err world none = stop c rs es err world
  open_frame c rs es err world (some (line, sess)) =
      run_line (record c { sess = sess }) rs es err world line

  unfoldable pub take_frame :
      Client → List Sent → List Event → ℕ → W → Option (Option (List ℕ) × List Event) → Outcome W
  unfolding open_frame
  take_frame c rs es err world none = stop c rs es err world
  take_frame c rs es err world (some (none, es')) = stop c rs es' err world
  take_frame c rs es err world (some (some frame, es')) =
      open_frame c rs es' err world (proto_frame_decrypt psa c.sess frame max_line)

  -- The body of `for (;;)`.
  unfoldable pub session_round : Client → List Sent → List Event → ℕ → W → Outcome W
  unfolding take_frame recv_frame
  session_round c rs es err world =
      take_frame c rs es err world (recv_frame es (12 + max_line + 16))
