-- ===== src/Session/Loop/Ends.antt =====
-- How a session of `session_loop` in components/core/src/net.c ends, and what it takes for a command to
-- run in one.
use espshell.Prelude.{
  ℕ, zero, suc, ◌+◌, ◌<◌, ◌≡◌, refl, ap, ◌∙◌, Bool, true, false, List, ◌++◌, Option, none, some,
  length, replicate, ◌⊎◌, inl, inr, Bool-cases, if◌then◌else◌, arith, All,
}
use espshell.Cmd.Registry.{Entry}
use espshell.Net.{Event, recv_frame}
use espshell.Net.Reads.{flat}
use espshell.Net.Shrinks.{recv_frame_shrinks}
use espshell.Auth.{PsaMac, PsaKdf}
use espshell.Proto.{Psa, Session, proto_frame_decrypt, proto_session_wipe}
use espshell.Ota.{Platform, OtaState, ota_abort, abort_locked}
use espshell.Ota.Handlers.{World, Timers}
use espshell.Session.{Sent, Client, Outcome, run_line, open_frame, take_frame, session_round}
use espshell.Session.Loop.{next_round, command_loop, end_session, after_handshake, session_loop}
use espshell.Handshake.{Link, do_handshake}
use espshell.Handshake.Sound.{Accepted, do_handshake-Accepted}

module _ {W : Type 0} (psa : Psa) (tbl : List (Entry W)) (junk : ℕ → List ℕ) where
  open_frame-events :
      (j : List ℕ) (c : Client) (rs : List Sent) (es : List Event) (err : ℕ) (w : W)
      (r : Option (List ℕ × Session))
      → Outcome.events (open_frame psa tbl j c rs es err w r) ≡ es
  unfolding open_frame run_line
  open_frame-events j c rs es err w none = refl
  open_frame-events j c rs es err w (some (line, sess)) = refl

  -- Only a frame that was received lets the loop go on.
  take_frame_shrinks :
      (j : List ℕ) (c : Client) (rs : List Sent) (es : List Event) (err : ℕ) (w : W)
      (r : Option (Option (List ℕ) × List Event))
      → recv_frame es 1052 ≡ r
      → Outcome.go_on (take_frame psa tbl j c rs es err w r) ≡ true
      → length (flat (Outcome.events (take_frame psa tbl j c rs es err w r))) < length (flat es)
  unfolding take_frame
  take_frame_shrinks j c rs es err w none e g = absurd (cc g)
  take_frame_shrinks j c rs es err w (some (none, es')) e g = absurd (cc g)
  take_frame_shrinks j c rs es err w (some (some frame, es')) e g = omega (
    arith,
    recv_frame_shrinks es es' 1052 frame e,
    ap (λ x. length (flat x))
        (open_frame-events j c rs es' err w (proto_frame_decrypt psa (Client.sess c) frame 1024)),
  )

  next_round_returns :
      (again : Outcome W → Option (Outcome W)) (sent : List ℕ) (o : Outcome W)
      → (Outcome.go_on o ≡ true
          → (r : Outcome W) × (again (record o { sent = sent ++ Outcome.sent o }) ≡ some r))
      → (r : Outcome W) × (next_round psa tbl junk again sent o ≡ some r)
  unfolding next_round
  next_round_returns again sent o rec =
      let o' = record o { sent = sent ++ Outcome.sent o } in
      elim (Bool-cases (Outcome.go_on o)) [
        | inl more ↦
            let (r, e) = rec more in (r, ap (λ b. if b then again o' else some o') more ∙ e)
        | inr done ↦ (o', ap (λ b. if b then again o' else some o') done)
      ]

  command_loop_returns :
      (fuel i : ℕ) (o : Outcome W)
      → length (flat (Outcome.events o)) < fuel
      → (r : Outcome W) × (command_loop psa tbl junk fuel i o ≡ some r)
  unfolding command_loop session_round
  command_loop_returns zero i o h = absurd (omega arith)
  command_loop_returns (suc fuel) i o h =
      let round =
        session_round psa tbl (junk i) (Outcome.client o) (Outcome.sends o) (Outcome.events o)
          (Outcome.last_err o) (Outcome.world o) in
      next_round_returns (command_loop psa tbl junk fuel (i + 1)) (Outcome.sent o) round (λ more.
        command_loop_returns fuel (i + 1)
          (record round { sent = Outcome.sent o ++ Outcome.sent round })
          (omega (
            arith,
            take_frame_shrinks (junk i) (Outcome.client o) (Outcome.sends o) (Outcome.events o)
                (Outcome.last_err o) (Outcome.world o) (recv_frame (Outcome.events o) 1052) refl
                more,
          )))

  -- What a session that was refused leaves of the code and the world.
  abbrev Untouched : ℕ → W → Bool → Outcome W → Type 0
  Untouched err world ok o = (ok ≡ true) ⊎ ((Outcome.world o ≡ world) × (Outcome.last_err o ≡ err))

  after_handshake_returns :
      (err : ℕ) (world : W) (r : Bool × Link × Session)
      → (o : Outcome W) × (after_handshake psa tbl junk err world r ≡ some o)
        × Untouched err world r.0 o
  unfolding after_handshake
  after_handshake_returns err world (true, l, sess) =
      let start : Outcome W = record {
        go_on = true;
        sent = Link.sent l;
        client = record { connected = true; authed = true; sess = sess };
        sends = Link.sends l;
        events = Link.events l;
        last_err = err;
        world = world;
      } in
      let (o, e) =
        command_loop_returns (suc (length (flat (Link.events l)))) 0 start (omega arith) in
      (o, e, inl refl)
  after_handshake_returns err world (false, l, sess) = (_, refl, inr (refl, refl))

zeros : (n : ℕ) → All (λ (b : ℕ). b ≡ 0) (replicate n 0)
zeros zero = tt
zeros (suc n) = (refl, zeros n)

module _ {W : Type 0} (psa : Psa) (tbl : List (Entry W)) (junk : ℕ → List ℕ) (mac : PsaMac)
    (kdf : PsaKdf) (token : List ℕ) where
  -- Whatever comes from the peer and whatever the handlers do, `session_loop` returns. Then no client is
  -- connected or authenticated, the session is not established and its key is zero, and the last change
  -- of the world is `ota_abort`.
  pub session_loop_ends :
      (ota_abort : W → W) (nonces : ℕ → List ℕ) (l : Link) (sess : Session) (err : ℕ) (world : W)
      → (o : Outcome W) × (session_loop psa tbl junk mac kdf token ota_abort nonces l sess err world
          ≡ some o)
        × (Client.connected (Outcome.client o) ≡ false)
        × (Client.authed (Outcome.client o) ≡ false)
        × (Session.established (Client.sess (Outcome.client o)) ≡ false)
        × All (λ b. b ≡ 0) (Session.key (Client.sess (Outcome.client o)))
        × (w : W) × (Outcome.world o ≡ ota_abort w)
  unfolding session_loop end_session proto_session_wipe
  session_loop_ends ota_abort nonces l sess err world =
      let r = do_handshake mac kdf token nonces l sess in
      let (o, e, _) = after_handshake_returns psa tbl junk err world r in
      (
        _,
        ap (end_session psa tbl junk ota_abort) e,
        refl,
        refl,
        refl,
        zeros (length (Session.key (Client.sess (Outcome.client o)))),
        Outcome.world o,
        refl,
      )

  -- A session does nothing but `ota_abort` to the world and leaves the code of `cmd_set_err` as it was,
  -- so that no command has run, unless the peer has sent a line whose words are `AUTH` and, among others,
  -- `cnonce=` and `hmac=` with 32 bytes in hex each, and `auth_verify` accepts this HMAC for this nonce and
  -- one of the at most three challenges of the handshake.
  pub commands_need_auth :
      (ota_abort : W → W) (nonces : ℕ → List ℕ) (l : Link) (sess : Session) (err : ℕ) (world : W)
      → (o : Outcome W) × (session_loop psa tbl junk mac kdf token ota_abort nonces l sess err world
          ≡ some o)
        × (((Outcome.world o ≡ ota_abort world) × (Outcome.last_err o ≡ err))
            ⊎ ((i : ℕ) × (i < 3)
                × Accepted mac kdf token
                    (flat (Link.events l))
                    (nonces i)
                    (do_handshake mac kdf token nonces l sess).2))
  unfolding session_loop end_session
  commands_need_auth ota_abort nonces l sess err world =
      let r = do_handshake mac kdf token nonces l sess in
      let (o, e, which) = after_handshake_returns psa tbl junk err world r in
      (
        _,
        ap (end_session psa tbl junk ota_abort) e,
        elim which [
          | inl opened ↦ inr (do_handshake-Accepted mac kdf token nonces l sess opened)
          | inr (same, code) ↦ inl (ap ota_abort same, code)
        ],
      )

module _ (P : Platform) (T : Timers) where
  -- `ota_abort` on the world of the handlers of ota.c.
  abbrev pub abort_upload : World P T → World P T
  abort_upload w = record w {
    s = (ota_abort P (World.s w) (World.flash w)).0;
    flash = (ota_abort P (World.s w) (World.flash w)).1;
  }

  abort_upload-active : (w : World P T) → OtaState.active (World.s (abort_upload w)) ≡ false
  unfolding ota_abort abort_locked
  abort_upload-active w = ground arith

  -- With the handlers of ota.c, no update is in progress when a session has ended, however it went.
  pub session_ends_upload :
      (psa : Psa) (tbl : List (Entry (World P T))) (junk : ℕ → List ℕ) (mac : PsaMac) (kdf : PsaKdf)
      (token : List ℕ) (nonces : ℕ → List ℕ) (l : Link) (sess : Session) (err : ℕ)
      (world : World P T)
      → (o : Outcome (World P T)) × (session_loop psa tbl junk mac kdf token abort_upload nonces l
            sess err world
          ≡ some o)
        × (OtaState.active (World.s (Outcome.world o)) ≡ false)
  session_ends_upload psa tbl junk mac kdf token nonces l sess err world =
      let (o, e, _, _, _, _, w, last) =
        session_loop_ends psa tbl junk mac kdf token abort_upload nonces l sess err world in
      (o, e, ap (λ x. OtaState.active (World.s x)) last ∙ abort_upload-active w)
