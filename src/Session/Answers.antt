-- ===== src/Session/Answers.antt =====
-- A command of the client through a round of `session_loop` in components/core/src/net.c, and its answer
-- back to the client of tools/esp-ctl/src/proto.c.
use espshell.Prelude.{
  ℕ, ◌-◌, ◌≤◌, ◌≡◌, refl, ap, subst, sym, ◌∙◌, true, false, ◌&&◌, List, ◌∷◌, ◌++◌, Option, none,
  some, ltb, if◌then◌else◌, length, arith,
}
use espshell.Crypto.{Evp}
use espshell.Crypto.Ideal.{Aead, IsAead, EvpWorks}
use espshell.Cmd.Registry.{Entry}
use espshell.Cmd.Dispatch.{cmd_dispatch}
use espshell.Cmd.Dispatch.Replies.{cmd_dispatch-length}
use espshell.Net.{Event}
use espshell.Net.Reads.{flat, Healthy}
use espshell.Net.Frames.{recv_frame_lem}
use espshell.Proto.{Psa, Session, proto_frame_encrypt, proto_frame_decrypt}
use espshell.Proto.Client.{frame_encrypt, frame_decrypt}
use espshell.Proto.Spec.{
  PsaWorks, sealed_frame, proto_frame_encrypt-eq-spec, proto_frame_decrypt-eq-spec,
}
use espshell.Proto.Agreement.{frame_encrypt-eq-spec, frame_decrypt-eq-spec}
use espshell.Proto.Sealed.{Linked}
use espshell.Proto.Replay.{proto_frame_decrypt_accepts, proto_frame_encrypt_seals}
use espshell.Proto.Wire.{after_send, after_receive, after_exchange-Linked, enc-sealed, dec-sealed}
use espshell.Session.{
  Sent, Client, Outcome, write_frame, send_frame, or_overflow, run_line, open_frame, take_frame,
  session_round,
}
use espshell.Session.Rounds.{Willing, write_full-Willing}

-- The other direction stays linked.
turn-Linked : (a b : Session) → Linked b a → Linked (after_receive b) (after_send a)
turn-Linked a b l = record {
  same_key = l.same_key;
  key_size = l.key_size;
  in_step = l.in_step;
  in_range = l.in_range;
  same_dir = l.same_dir;
  a_up = l.a_up;
  b_up = l.b_up;
}

send_frame-Willing :
    (psa : Psa) (c : Client) (rs : List Sent) (text frame : List ℕ) (sess : Session)
    → c.connected ≡ true
    → c.authed ≡ true
    → length text ≤ 4096
    → proto_frame_encrypt psa c.sess text 4124 ≡ some (frame, sess)
    → Willing rs
    → length frame ≤ length rs
    → (rs' : List Sent) × (send_frame psa c rs text ≡ (true, frame, record c { sess = sess }, rs'))
unfolding send_frame write_frame
send_frame-Willing psa c rs text frame sess up authed small sealed w enough =
    let (rs', written, _, _) = write_full-Willing rs frame w enough in
    let short : ltb 4096 (length text) ≡ false = ground arith in
    let usable : (c.connected && c.authed) ≡ true = ground arith in
    (
      rs',
      rw (short, usable)
          (ap (write_frame c rs) sealed
            ∙ ap (λ r. (r.0, r.1, record c { sess = sess }, r.2)) written),
    )

module _ {psa : Psa} {evp : Evp} {aead : Aead} (ideal : IsAead aead) (device : PsaWorks psa aead)
    (client : EvpWorks evp aead) where
  to_device :
      (a b : Session) (p : List ℕ)
      → Linked a b
      → length p ≤ 1024
      → (frame_encrypt evp a p 1052 ≡ some (sealed_frame aead a p, after_send a))
        × (proto_frame_decrypt psa b (sealed_frame aead a p) 1024 ≡ some (p, after_receive b))
  to_device a b p l h = (
    enc-sealed ideal 1052 1024 (λ x t. frame_encrypt evp x t 1052)
        (λ x f. proto_frame_decrypt psa x f 1024) (λ s p. frame_encrypt-eq-spec client s p 1052)
        (λ s f. proto_frame_decrypt-eq-spec ideal device s f 1024) a b p l
        (omega arith, omega arith, omega arith),
    dec-sealed ideal 1052 1024 (λ x t. frame_encrypt evp x t 1052)
        (λ x f. proto_frame_decrypt psa x f 1024) (λ s p. frame_encrypt-eq-spec client s p 1052)
        (λ s f. proto_frame_decrypt-eq-spec ideal device s f 1024) a b p l
        (omega arith, omega arith, omega arith),
  )

  to_client :
      (a b : Session) (p : List ℕ)
      → Linked a b
      → length p ≤ 4096
      → (proto_frame_encrypt psa a p 4124 ≡ some (sealed_frame aead a p, after_send a))
        × (frame_decrypt evp b (sealed_frame aead a p) 8191 ≡ some (p, after_receive b))
  to_client a b p l h = (
    enc-sealed ideal 4124 8191 (λ x t. proto_frame_encrypt psa x t 4124)
        (λ x f. frame_decrypt evp x f 8191)
        (λ s p. proto_frame_encrypt-eq-spec ideal device s p 4124)
        (λ s f. frame_decrypt-eq-spec client s f 8191) a b p l
        (omega arith, omega arith, omega arith),
    dec-sealed ideal 4124 8191 (λ x t. proto_frame_encrypt psa x t 4124)
        (λ x f. frame_decrypt evp x f 8191)
        (λ s p. proto_frame_encrypt-eq-spec ideal device s p 4124)
        (λ s f. frame_decrypt-eq-spec client s f 8191) a b p l
        (omega arith, omega arith, omega arith),
  )

or_overflow-some :
    (reply : Option ℕ × List ℕ) (n : ℕ) → reply.0 ≡ some n → or_overflow reply ≡ reply.1
or_overflow-some (none, resp) n e = absurd (cc e)
or_overflow-some (some m, resp) n e = refl

cut_length : (n k : ℕ) → k ≡ (if ltb n 4096 then n else 4096 - 1) → k ≤ 4095
cut_length n k e = ground arith

-- PSA and OpenSSL compute one ideal AEAD, the sessions of client and device are linked in both
-- directions, and the client is connected and authenticated. The client has sealed a line of at most
-- 1024 bytes, its frame comes in over a socket without failures, cut up in any way, and at least 4124
-- calls of `send` are ready to take a byte or more each. Then the round goes on: the device runs
-- `cmd_dispatch` on just the line, its error code and world are what that leaves, the client opens what
-- the round has sent to just the reply, and the sessions are linked again.
pub command_answered :
    {W : Type 0} {psa : Psa} {evp : Evp} {aead : Aead} (ideal : IsAead aead)
    (device : PsaWorks psa aead) (client : EvpWorks evp aead) (tbl : List (Entry W)) (junk : List ℕ)
    (c : Client) (a : Session) (rs : List Sent) (es : List Event) (line rest : List ℕ) (err : ℕ)
    (world : W)
    → Linked a c.sess
    → Linked c.sess a
    → c.connected ≡ true
    → c.authed ≡ true
    → length line ≤ 1024
    → Willing rs
    → 4124 ≤ length rs
    → Healthy es
    → flat es ≡ sealed_frame aead a line ++ rest
    → (frame_encrypt evp a line 1052 ≡ some (sealed_frame aead a line, after_send a))
      × ((session_round psa tbl junk c rs es err world).go_on ≡ true)
      × ((session_round psa tbl junk c rs es err world).last_err
          ≡ (cmd_dispatch tbl (line ++ (0 ∷ junk)) 4096 err world).2)
      × ((session_round psa tbl junk c rs es err world).world
          ≡ (cmd_dispatch tbl (line ++ (0 ∷ junk)) 4096 err world).3)
      × (b : Session) × (frame_decrypt evp
            (after_send a)
            (session_round psa tbl junk c rs es err world).sent
            8191
          ≡ some ((cmd_dispatch tbl (line ++ (0 ∷ junk)) 4096 err world).0.1, b))
      × Linked b (session_round psa tbl junk c rs es err world).client.sess
      × Linked (session_round psa tbl junk c rs es err world).client.sess b
unfolding session_round take_frame open_frame run_line
command_answered {psa = psa} {evp = evp} {aead = aead} ideal device client tbl junk c a rs es line
      rest err world ab ba up authed small w enough ok e =
    let frame = sealed_frame aead a line in
    let (sealed, opened) = to_device ideal device client a c.sess line ab small in
    let (own, _, _, _, size, _, _) =
      proto_frame_decrypt_accepts psa c.sess (after_receive c.sess) frame line 1024 opened in
    let (es', got, _, _) = recv_frame_lem es frame rest 1052 ok e own (omega arith) (omega arith) in
    let c1 : Client = record c { sess = after_receive c.sess } in
    let round : session_round psa tbl junk c rs es err world
        ≡ run_line psa tbl junk c1 rs es' err world line =
      ap (take_frame psa tbl junk c rs es err world) got
      ∙ ap (open_frame psa tbl junk c rs es' err world) opened in
    let dispatched = cmd_dispatch tbl (line ++ (0 ∷ junk)) 4096 err world in
    let reply = dispatched.0.1 in
    let (n, answered, cut) =
      cmd_dispatch-length tbl (line ++ (0 ∷ junk)) 4096 err world (omega arith) in
    let fits : length reply ≤ 4095 = cut_length n (length reply) cut in
    let text : or_overflow dispatched.0 ≡ reply = or_overflow-some dispatched.0 n answered in
    let there = after_exchange-Linked a c.sess ab in
    let back = turn-Linked a c.sess ba in
    let (sealed2, opened2) =
      to_client ideal device client (after_receive c.sess) (after_send a) reply back
        (omega arith) in
    let b1 : Session = after_receive c.sess in
    let frame2 = sealed_frame aead b1 reply in
    let (_, room, _) = proto_frame_encrypt_seals psa b1 (after_send b1) frame2 reply 4124 sealed2 in
    let (rs', sends) =
      send_frame-Willing psa c1 rs reply frame2 (after_send b1) up authed (omega arith) sealed2 w
        (omega arith) in
    let sent = ap (send_frame psa c1 rs) text ∙ sends in
    let a2 : Session = after_receive (after_send a) in
    let out : (session_round psa tbl junk c rs es err world).sent ≡ frame2 =
      ap Outcome.sent round ∙ ap (λ r. r.1) sent in
    let left : (session_round psa tbl junk c rs es err world).client.sess ≡ after_send b1 =
      ap (λ o. Client.sess (Outcome.client o)) round ∙ ap (λ r. Client.sess r.2) sent in
    let forth = turn-Linked b1 (after_send a) there in
    let again = after_exchange-Linked b1 (after_send a) back in
    (
      sealed,
      ap Outcome.go_on round ∙ ap (λ r. r.0) sent,
      ap Outcome.last_err round,
      ap Outcome.world round,
      a2,
      ap (λ f. frame_decrypt evp (after_send a) f 8191) out ∙ opened2,
      subst (Linked a2) (sym left) forth,
      subst (λ s. Linked s a2) (sym left) again,
    )
