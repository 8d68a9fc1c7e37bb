-- ===== src/Session/Authentic.antt =====
-- What it takes for a round of `session_loop` in components/core/src/net.c to do anything.
use espshell.Prelude.{
  ℕ, ◌^◌, ◌<◌, ◌≡◌, refl, sym, subst, false, List, [], ◌∷◌, ◌++◌, Option, none, some, length, ◌⊎◌,
  inl, inr, IsByte, All,
}
use espshell.Crypto.Ideal.{Aead, IsAead}
use espshell.Cmd.Registry.{Entry}
use espshell.Cmd.Dispatch.{cmd_dispatch}
use espshell.Net.{Event, recv_frame}
use espshell.Net.Reads.{flat}
use espshell.Net.Takes.{Takes, recv_frame-Takes}
use espshell.Proto.{Psa, Session, proto_frame_decrypt}
use espshell.Proto.Spec.{PsaWorks}
use espshell.Proto.Document.{doc_decrypt}
use espshell.Proto.Document.Follows.{proto_frame_decrypt-doc}
use espshell.Session.{Sent, Client, Outcome, run_line, open_frame, take_frame, session_round}

front-IsByte : (xs ys : List ℕ) → All IsByte (xs ++ ys) → All IsByte xs
front-IsByte [] ys h = tt
front-IsByte (x ∷ xs) ys (b, h) = (b, front-IsByte xs ys h)

module _ {W : Type 0} where
  -- The loop ends, nothing is sent, and the session, the error code and the world are as before.
  pub record Silent (c : Client) (rs : List Sent) (err : ℕ) (world : W) (o : Outcome W)
      : Type 0 where
    pub ends : Outcome.go_on o ≡ false
    pub sends_none : Outcome.sent o ≡ []
    pub no_send : Outcome.sends o ≡ rs
    pub same_client : Outcome.client o ≡ c
    pub same_err : Outcome.last_err o ≡ err
    pub same_world : Outcome.world o ≡ world

module _ {W : Type 0} (aead : Aead) (tbl : List (Entry W)) (junk : List ℕ) where
  -- The bytes of the peer start with a frame of the protocol that the session opens, and the code and the
  -- world are those that the command of its text leaves.
  pub record Runs (bytes : List ℕ) (c : Client) (err : ℕ) (world : W) (o : Outcome W) : Type 0 where
    pub frame : List ℕ
    pub rest : List ℕ
    pub line : List ℕ
    pub sess : Session
    pub came : bytes ≡ frame ++ rest
    pub authentic : doc_decrypt aead (Client.sess c) frame 1024 ≡ some (line, sess)
    pub code_left : Outcome.last_err o ≡ (cmd_dispatch tbl (line ++ (0 ∷ junk)) 4096 err world).2
    pub world_left : Outcome.world o ≡ (cmd_dispatch tbl (line ++ (0 ∷ junk)) 4096 err world).3

module _ {W : Type 0} {psa : Psa} {aead : Aead} (ideal : IsAead aead) (works : PsaWorks psa aead)
    (tbl : List (Entry W)) (junk : List ℕ) where
  abbrev Either : List ℕ → Client → List Sent → ℕ → W → Outcome W → Type 0
  Either bytes c rs err world o = Silent c rs err world o ⊎ Runs aead tbl junk bytes c err world o

  silent :
      (bytes : List ℕ) (c : Client) (rs : List Sent) (es : List Event) (err : ℕ) (world : W)
      → Either bytes c rs err world (record {
        go_on = false;
        sent = [];
        client = c;
        sends = rs;
        events = es;
        last_err = err;
        world = world;
      })
  silent bytes c rs es err world = inl (record {
    ends = refl;
    sends_none = refl;
    no_send = refl;
    same_client = refl;
    same_err = refl;
    same_world = refl;
  })

  opened :
      (bytes frame rest : List ℕ) (c : Client) (rs : List Sent) (es : List Event) (err : ℕ)
      (world : W) (r : Option (List ℕ × Session))
      → bytes ≡ frame ++ rest
      → doc_decrypt aead (Client.sess c) frame 1024 ≡ r
      → Either bytes c rs err world (open_frame psa tbl junk c rs es err world r)
  unfolding open_frame run_line
  opened bytes frame rest c rs es err world none came e = silent bytes c rs es err world
  opened bytes frame rest c rs es err world (some (line, sess)) came e = inr (record {
    frame = frame;
    rest = rest;
    line = line;
    sess = sess;
    came = came;
    authentic = e;
    code_left = refl;
    world_left = refl;
  })

  taken :
      (es : List Event) (c : Client) (rs : List Sent) (err : ℕ) (world : W)
      (r : Option (Option (List ℕ) × List Event))
      → length (Session.key (Client.sess c)) ≡ 32
      → Session.rx_seq (Client.sess c) < 2 ^ 64
      → All IsByte (flat es)
      → Takes (flat es) r
      → Either (flat es) c rs err world (take_frame psa tbl junk c rs es err world r)
  unfolding take_frame
  taken es c rs err world none hk range bytes t = silent (flat es) c rs es err world
  taken es c rs err world (some (none, es')) hk range bytes t = silent (flat es) c rs es' err world
  taken es c rs err world (some (some frame, es')) hk range bytes t =
      opened (flat es) frame (flat es') c rs es' err world
        (proto_frame_decrypt psa (Client.sess c) frame 1024) t
        (sym (
          proto_frame_decrypt-doc ideal works (Client.sess c) frame 1024 hk
            (front-IsByte frame (flat es') (subst (All IsByte) t bytes)) range))

  -- Whatever comes from the peer, on a session with a 32-byte key and a 64-bit receive counter, and when
  -- PSA computes an ideal AEAD: a round of the command loop ends the loop, sends nothing and leaves the
  -- session, the error code and the world as they are; or the bytes of the peer start with a frame of
  -- docs/protocol.md, with the expected sequence number and a right tag, and the error code and the world
  -- are those that `cmd_dispatch` of its text leaves.
  pub only_authentic_frames :
      (es : List Event) (c : Client) (rs : List Sent) (err : ℕ) (world : W)
      → length (Session.key (Client.sess c)) ≡ 32
      → Session.rx_seq (Client.sess c) < 2 ^ 64
      → All IsByte (flat es)
      → Silent c rs err world (session_round psa tbl junk c rs es err world)
        ⊎ Runs aead tbl junk (flat es) c err world (session_round psa tbl junk c rs es err world)
  unfolding session_round
  only_authentic_frames es c rs err world hk range bytes =
      taken es c rs err world (recv_frame es 1052) hk range bytes (recv_frame-Takes es 1052)
