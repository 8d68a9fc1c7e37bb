-- ===== src/Session/Loop/Tests.antt =====
-- Sessions and a server on toy functions.
use espshell.Prelude.{ℕ, ◌+◌, ◌/◌, ◌<◌, ◌≡◌, false, List, [], ◌∷◌, some, replicate, codes, All, ◌⊎◌}
use espshell.Auth.Toy.{toy_mac, toy_kdf}
use espshell.Cmd.Registry.{Entry, Handler}
use espshell.Net.{Event}
use espshell.Net.Reads.{flat}
use espshell.Ota.{OtaState}
use espshell.Ota.Handlers.{World}
use espshell.Ota.Toy.{toy, toy_timers, boot_world}
use espshell.Proto.{Session}
use espshell.Proto.Toy.{toy_psa}
use espshell.Handshake.{Link, do_handshake}
use espshell.Handshake.Sound.{Accepted}
use espshell.Session.{Sent, Client, Outcome}
use espshell.Session.Loop.{session_loop}
use espshell.Session.Loop.Ends.{
  session_loop_ends, commands_need_auth, abort_upload, session_ends_upload,
}
use espshell.Session.Server.{Accept, Server}

abbrev count : Handler ℕ
count args err n = (false, codes "counted", err, n + 1)

abbrev table : List (Entry ℕ)
table = record { name = codes "count"; help = []; fn = count } ∷ []

abbrev halve : ℕ → ℕ
halve n = n / 2

abbrev junk : ℕ → List ℕ
junk i = []

abbrev nonces : ℕ → List ℕ
nonces k = replicate 32 k

abbrev token : List ℕ
token = codes "secret"

-- A client that hangs up behind its first line.
abbrev link : Link
link = record {
  sends = replicate 100 (Sent.took 3);
  events = Event.bytes b'A' (codes "UTH\n") ∷ [];
  sent = [];
}

abbrev fresh : Session
fresh = record {
  key = replicate 32 9;
  rx_seq = 0;
  tx_seq = 0;
  rx_dir = 0;
  tx_dir = 0;
  established = false;
}

session_loop_ends_example :
    (o : Outcome ℕ) × (session_loop toy_psa table junk toy_mac toy_kdf token halve nonces link fresh
        0 5
      ≡ some o)
    × (Client.connected (Outcome.client o) ≡ false)
    × (Client.authed (Outcome.client o) ≡ false)
    × (Session.established (Client.sess (Outcome.client o)) ≡ false)
    × All (λ b. b ≡ 0) (Session.key (Client.sess (Outcome.client o)))
    × (w : ℕ) × (Outcome.world o ≡ halve w)
session_loop_ends_example =
    session_loop_ends toy_psa table junk toy_mac toy_kdf token halve nonces link fresh 0 5

commands_need_auth_example :
    (o : Outcome ℕ) × (session_loop toy_psa table junk toy_mac toy_kdf token halve nonces link fresh
        0 5
      ≡ some o)
    × (((Outcome.world o ≡ halve 5) × (Outcome.last_err o ≡ 0))
        ⊎ ((i : ℕ) × (i < 3)
            × Accepted toy_mac toy_kdf token
                (flat (Link.events link))
                (nonces i)
                (do_handshake toy_mac toy_kdf token nonces link fresh).2))
commands_need_auth_example =
    commands_need_auth toy_psa table junk toy_mac toy_kdf token halve nonces link fresh 0 5

session_ends_upload_example :
    (o : Outcome (World toy toy_timers)) × (session_loop toy_psa [] junk toy_mac toy_kdf token
        (abort_upload toy toy_timers)
        nonces
        link
        fresh
        0
        boot_world
      ≡ some o)
    × (OtaState.active (World.s (Outcome.world o)) ≡ false)
session_ends_upload_example =
    session_ends_upload toy toy_timers toy_psa [] junk toy_mac toy_kdf token nonces link fresh 0
      boot_world

abbrev server : Server ℕ
server = record {
  client = record { connected = false; authed = false; sess = fresh };
  last_err = 0;
  world = 5;
}

abbrev arrivals : List Accept
arrivals = Accept.client link ∷ Accept.failed ∷ Accept.client link ∷ []
