-- ===== src/Ctl/Events.antt =====
-- `recv_reply` and `recv_cmd_reply` of tools/esp-ctl/src/esp-ctl.c on what a device seals.
use espshell.Prelude.{
  ℕ, zero, suc, ◌+◌, ◌≤◌, ◌<◌, ◌≡◌, refl, ap, sym, ◌∙◌, true, false, List, [], ◌∷◌, ◌++◌, some,
  length, length-append, codes, All, arith,
}
use espshell.Clib.{c_string, starts_with}
use espshell.Crypto.{Evp}
use espshell.Crypto.Ideal.{Aead, IsAead, EvpWorks}
use espshell.Net
use espshell.Net.{Event, recv_frame}
use espshell.Net.Reads.{flat, Healthy}
use espshell.Net.Frames.{recv_frame_lem}
use espshell.Proto.{Session, rd16}
use espshell.Proto.Client.{frame_decrypt}
use espshell.Proto.Spec.{sealed_frame, accepts, spec_decrypt}
use espshell.Proto.Agreement.{frame_decrypt-eq-spec}
use espshell.Proto.Sealed.{Linked, accepts-sealed, opened-sealed}
use espshell.Proto.Wire.{after_send, after_receive, after_exchange-Linked}
use espshell.Handshake.{Link}
use espshell.Ctl.{
  Console, Peer, emit_evt, read_full, reply_frame, open_reply, open_text, recv_reply,
  reply_or_event, reply_loop, recv_cmd_reply,
}

-- The frames of events, then of a reply, and what follows.
abbrev pub stream : Aead → Session → List (List ℕ) → List ℕ → List ℕ → List ℕ
stream aead a [] reply rest = sealed_frame aead a reply ++ rest
stream aead a (e ∷ evts) reply rest =
    sealed_frame aead a e ++ stream aead (after_send a) evts reply rest

abbrev pub sent_all : Session → List (List ℕ) → Session
sent_all a [] = after_send a
sent_all a (e ∷ evts) = sent_all (after_send a) evts

abbrev pub emitted : Console → List (List ℕ) → Console
emitted con [] = con
emitted con (e ∷ evts) = emitted (emit_evt con (c_string e)) evts

-- An event that a frame can hold.
abbrev pub IsEvent : List ℕ → Type 0
IsEvent e = (length e ≤ 4096) × (starts_with (codes "EVT ") (c_string e) ≡ true)

abbrev taken_in : Peer → List Event → Peer
taken_in p es = record p { link = record p.link { events = es }; sess = after_receive p.sess }

accepted_frame :
    (s : Session) (frame : List ℕ) (cap : ℕ)
    → accepts s frame cap ≡ true
    → (rd16 frame ≡ length frame) × (28 ≤ length frame) × (length frame ≤ cap + 28)
unfolding accepts
accepted_frame s frame cap e = ground arith

reply_frame-eq : (es : List Event) → reply_frame es ≡ recv_frame es 4124
unfolding reply_frame recv_frame read_full Net.read_full
reply_frame-eq es = refl

module _ {aead : Aead} {evp : Evp} (ideal : IsAead aead) (works : EvpWorks evp aead) where
  decrypted :
      (a b : Session) (text : List ℕ)
      → Linked a b
      → length text ≤ 4096
      → frame_decrypt evp b (sealed_frame aead a text) 8191 ≡ some (text, after_receive b)
  decrypted a b text l h =
      frame_decrypt-eq-spec works b (sealed_frame aead a text) 8191
        (ap length (sym l.same_key) ∙ l.key_size)
      ∙ unfold spec_decrypt in
        rw (
          accepts-sealed ideal a b text 8191 l (omega arith) (omega arith),
          opened-sealed ideal a b text l,
        )

  -- One frame of the device's is read, and the next one is in front.
  recv_reply_sealed :
      (a : Session) (p : Peer) (text rest : List ℕ)
      → Linked a p.sess
      → length text ≤ 4096
      → Healthy (Link.events p.link)
      → flat (Link.events p.link) ≡ sealed_frame aead a text ++ rest
      → (es : List Event) × (recv_reply evp p 8192 ≡ (some (c_string text), taken_in p es))
        × Healthy es
        × (flat es ≡ rest)
        × (length rest < length (flat (Link.events p.link)))
  unfolding recv_reply open_reply open_text
  recv_reply_sealed a p text rest l h ok e =
      let frame = sealed_frame aead a text in
      let (own, big, small) =
        accepted_frame p.sess frame 4096
          (accepts-sealed ideal a p.sess text 4096 l (omega arith) (omega arith)) in
      let (es, got, left, ok') =
        recv_frame_lem (Link.events p.link) frame rest 4124 ok e own big (omega arith) in
      let framed = reply_frame-eq (Link.events p.link) ∙ got in
      (
        es,
        ap (open_reply evp p 8192) framed
            ∙ ap (open_text evp (record p { link = record p.link { events = es } }))
                (decrypted a p.sess text l h),
        ok',
        left,
        omega (arith, ap length e, length-append frame rest),
      )

  events_skipped :
      (rounds : ℕ) (evts : List (List ℕ)) (a : Session) (p : Peer) (reply rest : List ℕ)
      → Linked a p.sess
      → All IsEvent evts
      → length reply ≤ 4096
      → starts_with (codes "EVT ") (c_string reply) ≡ false
      → Healthy (Link.events p.link)
      → flat (Link.events p.link) ≡ stream aead a evts reply rest
      → length (flat (Link.events p.link)) < rounds
      → (p' : Peer) × (reply_loop evp rounds p 8192 ≡ some (some (c_string reply), p'))
        × (Peer.console p' ≡ emitted p.console evts)
        × (flat (Link.events (Peer.link p')) ≡ rest)
        × Healthy (Link.events (Peer.link p'))
        × Linked (sent_all a evts) (Peer.sess p')
  unfolding reply_loop reply_or_event
  events_skipped zero evts a p reply rest l each small plain ok e h = absurd (omega arith)
  events_skipped (suc rounds) [] a p reply rest l each small plain ok e h =
      let (es, got, ok', left, _) = recv_reply_sealed a p reply rest l small ok e in
      let again = λ (x : Peer). reply_loop evp rounds x 8192 in
      (
        taken_in p es,
        ap (reply_or_event evp again) got ∙ rw plain refl,
        refl,
        left,
        ok',
        after_exchange-Linked a p.sess l,
      )
  events_skipped (suc rounds) (evt ∷ evts) a p reply rest l ((fits, event), each) small plain ok e
        h =
      let (es, got, ok', left, fewer) =
        recv_reply_sealed a p evt (stream aead (after_send a) evts reply rest) l fits ok e in
      let again = λ (x : Peer). reply_loop evp rounds x 8192 in
      let next : Peer = record (taken_in p es) { console = emit_evt p.console (c_string evt) } in
      let (p', done, shown, rest_left, healthy, linked) =
        events_skipped rounds evts (after_send a) next reply rest (after_exchange-Linked a p.sess l)
          each small plain ok' left (omega (arith, ap length left)) in
      (
        p',
        ap (reply_or_event evp again) got ∙ (rw event refl ∙ done),
        shown,
        rest_left,
        healthy,
        linked,
      )

  -- When the device has sealed any number of events, lines that start with "EVT ", and then a line that
  -- is not one, `recv_cmd_reply` comes back with just this line, as a C string, however the frames are
  -- cut up on a socket without failures. The events are emitted in the order they were sent, what
  -- follows is still to read, and the sessions stay linked.
  pub recv_cmd_reply_lem :
      (evts : List (List ℕ)) (a : Session) (p : Peer) (reply rest : List ℕ)
      → Linked a p.sess
      → All IsEvent evts
      → length reply ≤ 4096
      → starts_with (codes "EVT ") (c_string reply) ≡ false
      → Healthy (Link.events p.link)
      → flat (Link.events p.link) ≡ stream aead a evts reply rest
      → (p' : Peer) × (recv_cmd_reply evp p 8192 ≡ some (some (c_string reply), p'))
        × (Peer.console p' ≡ emitted p.console evts)
        × (flat (Link.events (Peer.link p')) ≡ rest)
        × Healthy (Link.events (Peer.link p'))
        × Linked (sent_all a evts) (Peer.sess p')
  unfolding recv_cmd_reply
  recv_cmd_reply_lem evts a p reply rest l each small plain ok e =
      events_skipped (suc (length (flat (Link.events p.link)))) evts a p reply rest l each small
        plain ok e (omega arith)
