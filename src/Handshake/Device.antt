-- ===== src/Handshake/Device.antt =====
-- The first attempt of `do_handshake` in components/core/src/net.c, with the client's answer in the
-- socket.
use espshell.Prelude.{
  ℕ, ◌+◌, ◌-◌, ◌≤◌, ◌<◌, ◌≡◌, refl, ap, ◌∙◌, subst, true, List, [], ◌∷◌, ◌++◌, append_assoc, some,
  length, codes, All, IsByte, arith, if◌then◌else◌,
}
use espshell.Hex
use espshell.Hex.RoundTrip.{length-hex_encode, hex_decode-hex_encode}
use espshell.Net.{Event, recv_line}
use espshell.Net.Reads.{flat}
use espshell.Net.Lines.{Steady, line_loop_lem, line_loop-Steady}
use espshell.Auth.{PsaMac, PsaKdf, auth_verify, auth_derive_session_key}
use espshell.Proto.{Session, proto_session_init}
use espshell.Session.{Sent}
use espshell.Session.Rounds.{Willing, write_full-Willing}
use espshell.Handshake.{
  Link, Verdict, write_link, newline_after, send_line, hello_line, check_answer, establish,
  answered, read_answer, challenged, attempt_auth, after_attempt, attempts, do_handshake,
}
use espshell.Handshake.Client.{auth_line}
use espshell.Handshake.Texts.{
  IsPrint, auth_words, hex_encode-IsGraph, strip_cr-IsPrint, no_newline, auth_words-IsPrint,
  length-auth_words, auth_line-words, auth_words-fields, hello_line-words,
}

abbrev pub line_of : List ℕ → List ℕ
line_of text = text ++ (b'\n' ∷ [])

-- The line and the newline go out.
pub send_line-Willing :
    (l : Link) (line : List ℕ)
    → Willing l.sends
    → length line < length l.sends
    → (rs' : List Sent) × (send_line l line
        ≡ (true, record l { sends = rs'; sent = l.sent ++ line_of line }))
      × Willing rs'
      × (length l.sends ≤ length rs' + length line + 1)
unfolding send_line newline_after write_link
send_line-Willing l line w enough =
    let (rs1, first, w1, used1) = write_full-Willing l.sends line w (omega arith) in
    let (rs2, second, w2, used2) = write_full-Willing rs1 (b'\n' ∷ []) w1 (omega arith) in
    (
      rs2,
      rw (first, second)
          (ap (λ out. (true, record l { sends = rs2; sent = out }))
            (append_assoc l.sent line (b'\n' ∷ []))),
      w2,
      omega arith,
    )

-- A printing line is read, and only bytes are left.
pub read_printing :
    (es : List Event) (text rest : List ℕ) (cap : ℕ)
    → Steady es
    → flat es ≡ line_of text ++ rest
    → All IsPrint text
    → length text < cap - 1
    → (es' : List Event) × (recv_line es cap ≡ (some text, es')) × (flat es' ≡ rest) × Steady es'
unfolding recv_line
read_printing es text rest cap ok e printing small =
    let (es', read, left) =
      line_loop_lem text (cap - 1) [] es rest ok (e ∙ append_assoc text (b'\n' ∷ []) rest)
        (no_newline text printing) small in
    let steady : Steady es' = subst (λ r. Steady r.1) read (line_loop-Steady (cap - 1) [] es ok) in
    (es', read ∙ ap (λ t. (some t, es')) (strip_cr-IsPrint text printing), left, steady)

pub length-hello_line : (snonce : List ℕ) → length snonce ≡ 32 → length (hello_line snonce) ≡ 87
length-hello_line snonce size =
    omega (arith, ap length (hello_line-words snonce size), length-hex_encode snonce)

-- The device reads the client's line.
read_auth_line :
    (es : List Event) (cnonce chmac rest : List ℕ)
    → All IsByte cnonce
    → All IsByte chmac
    → length cnonce ≡ 32
    → length chmac ≡ 32
    → Steady es
    → flat es ≡ line_of (auth_line cnonce chmac) ++ rest
    → (es' : List Event) × (recv_line es 512
        ≡ (some (auth_words (Hex.hex_encode cnonce) (Hex.hex_encode chmac)), es'))
      × (flat es' ≡ rest)
read_auth_line es cnonce chmac rest bc bh sc sh ok e =
    let c = Hex.hex_encode cnonce in
    let h = Hex.hex_encode chmac in
    let (es', read, left, _) =
      read_printing es (auth_words c h) rest 512 ok
        (e ∙ ap (λ t. line_of t ++ rest) (auth_line-words cnonce chmac sc sh))
        (auth_words-IsPrint c h (hex_encode-IsGraph cnonce bc) (hex_encode-IsGraph chmac bh))
        (omega (arith, length-auth_words c h, length-hex_encode cnonce, length-hex_encode chmac)) in
    (es', read, left)

abbrev pub ok_line : List ℕ
ok_line = codes "OK session established"

module _ (mac : PsaMac) (kdf : PsaKdf) (token : List ℕ) where
  -- The device takes the answer.
  check_answer_lem :
      (snonce cnonce chmac : List ℕ)
      → All IsByte cnonce
      → All IsByte chmac
      → length cnonce ≡ 32
      → length chmac ≡ 32
      → auth_verify mac token snonce cnonce chmac ≡ true
      → check_answer mac kdf token snonce
          (auth_words (Hex.hex_encode cnonce) (Hex.hex_encode chmac))
        ≡ some cnonce
  unfolding check_answer
  check_answer_lem snonce cnonce chmac bc bh sc sh good =
      rw
        (
          auth_words-fields (Hex.hex_encode cnonce) (Hex.hex_encode chmac)
              (hex_encode-IsGraph cnonce bc) (hex_encode-IsGraph chmac bh),
          hex_decode-hex_encode cnonce 32 bc sc,
          hex_decode-hex_encode chmac 32 bh sh,
          good,
        )
        refl

  challenged_opens :
      (sess : Session) (snonce cnonce line key : List ℕ) (l l' : Link) (es : List Event)
      → recv_line l.events 512 ≡ (some line, es)
      → check_answer mac kdf token snonce line ≡ some cnonce
      → auth_derive_session_key kdf token snonce cnonce ≡ some key
      → send_line (record l { events = es }) ok_line ≡ (true, l')
      → challenged mac kdf token sess snonce (true, l)
        ≡ (Verdict.opened, l', proto_session_init key)
  unfolding challenged read_answer answered establish
  challenged_opens sess snonce cnonce line key l l' es read checked derived confirmed =
      ap (read_answer mac kdf token l sess snonce) read
      ∙ (ap (answered mac kdf token (record l { events = es }) sess snonce) checked
          ∙ (ap (establish mac kdf token (record l { events = es }) sess) derived
              ∙ ap
                  (λ r. (
                    if r.0 then Verdict.opened else Verdict.drop_client,
                    r.1,
                    proto_session_init key,
                  ))
                  confirmed))

  -- The first attempt decides.
  first_opens :
      (nonces : ℕ → List ℕ) (l l1 l' : Link) (sess sess' : Session)
      → send_line l (hello_line (nonces 0)) ≡ (true, l1)
      → challenged mac kdf token sess (nonces 0) (true, l1) ≡ (Verdict.opened, l', sess')
      → do_handshake mac kdf token nonces l sess ≡ (true, l', sess')
  unfolding do_handshake attempts attempt_auth after_attempt
  first_opens nonces l l1 l' sess sess' greeted e =
      ap (after_attempt mac kdf token (attempts mac kdf token 2 1 nonces))
        (ap (challenged mac kdf token sess (nonces 0)) greeted ∙ e)

  -- The device, when the client's answer is in its socket.
  pub device_opens :
      (nonces : ℕ → List ℕ) (d : Link) (sess : Session) (cnonce chmac key rest : List ℕ)
      → length (nonces 0) ≡ 32
      → All IsByte cnonce
      → All IsByte chmac
      → length cnonce ≡ 32
      → length chmac ≡ 32
      → auth_verify mac token (nonces 0) cnonce chmac ≡ true
      → auth_derive_session_key kdf token (nonces 0) cnonce ≡ some key
      → Willing d.sends
      → 111 ≤ length d.sends
      → Steady d.events
      → flat d.events ≡ line_of (auth_line cnonce chmac) ++ rest
      → (d' : Link) × (do_handshake mac kdf token nonces d sess
          ≡ (true, d', proto_session_init key))
        × (d'.sent ≡ d.sent ++ (line_of (hello_line (nonces 0)) ++ line_of ok_line))
        × (flat d'.events ≡ rest)
  device_opens nonces d sess cnonce chmac key rest sn bc bh sc sh good derived w enough ok e =
      let snonce = nonces 0 in
      let (rs1, greeted, w1, used1) =
        send_line-Willing d (hello_line snonce) w (omega (arith, length-hello_line snonce sn)) in
      let d1 : Link = record d { sends = rs1; sent = d.sent ++ line_of (hello_line snonce) } in
      let (es', read, left) = read_auth_line d.events cnonce chmac rest bc bh sc sh ok e in
      let (rs2, confirmed, _, _) =
        send_line-Willing (record d1 { events = es' }) ok_line w1
          (omega (arith, length-hello_line snonce sn)) in
      let d3 : Link = record d1 { events = es'; sends = rs2; sent = d1.sent ++ line_of ok_line } in
      (
        d3,
        first_opens nonces d d1 d3 sess (proto_session_init key) greeted (
            challenged_opens sess snonce cnonce
              (auth_words (Hex.hex_encode cnonce) (Hex.hex_encode chmac)) key d1 d3 es' read
              (check_answer_lem snonce cnonce chmac bc bh sc sh good) derived confirmed),
        append_assoc d.sent (line_of (hello_line snonce)) (line_of ok_line),
        left,
      )
