-- ===== src/Handshake/Agreement.antt =====
-- A handshake between `do_handshake` of components/core/src/net.c and that of
-- tools/esp-ctl/src/esp-ctl.c.
use espshell.Prelude.{
  ℕ, ◌≤◌, ◌<◌, ◌≡◌, refl, ap, ◌∙◌, true, List, ◌++◌, Option, some, length, All, IsByte, arith,
}
use espshell.Clib.{c_string, starts_with}
use espshell.Crypto.{Hmac, Hkdf}
use espshell.Hex
use espshell.Hex.RoundTrip.{length-hex_encode}
use espshell.Net.{Event, recv_line}
use espshell.Net.Reads.{flat}
use espshell.Net.Lines.{Steady}
use espshell.Auth.{PsaMac, PsaKdf, client_hmac, client_key, auth_info}
use espshell.Auth.Agreement.{MacWorks, HmacWorks, auth_verify_iff, client_hmac_lem}
use espshell.Auth.Keys.{KdfWorks, HkdfWorks, keys_agree}
use espshell.Proto.{Session, proto_session_init}
use espshell.Proto.Client.{session_init}
use espshell.Proto.Sealed.{Linked}
use espshell.Session.Rounds.{Willing}
use espshell.Handshake.{Link, do_handshake, hello_line, send_line}
use espshell.Handshake.Client
use espshell.Handshake.Client.{auth_line, read_line}
use espshell.Handshake.Device.{line_of, ok_line, send_line-Willing, read_printing, device_opens}
use espshell.Handshake.Texts.{
  hello_words, hello_words-IsPrint, hello_line-words, hex_encode-IsGraph, read_hello-hello_words,
  auth_line-words, length-auth_words,
}

-- The client's reader is the device's.
same_reader : (es : List Event) (cap : ℕ) → read_line es cap ≡ recv_line es cap
unfolding read_line recv_line
same_reader es cap = refl

length-auth_line :
    (cnonce chmac : List ℕ)
    → length cnonce ≡ 32
    → length chmac ≡ 32
    → length (auth_line cnonce chmac) ≡ 146
length-auth_line cnonce chmac sc sh = omega (
  arith,
  ap length (auth_line-words cnonce chmac sc sh),
  length-auth_words (Hex.hex_encode cnonce) (Hex.hex_encode chmac),
  length-hex_encode cnonce,
  length-hex_encode chmac,
)

module _ (h : Hmac) (hk : Hkdf) (token : List ℕ) where
  awaits :
      (snonce cnonce key : List ℕ) (l : Link) (es : List Event)
      → read_line l.events 128 ≡ (some ok_line, es)
      → client_key hk token snonce cnonce ≡ some key
      → Client.await h hk token snonce cnonce (true, l)
        ≡ (some (session_init key), record l { events = es })
  unfolding Client.await Client.confirm Client.keyed c_string starts_with
  awaits snonce cnonce key l es read keyed =
      ap (Client.confirm h hk token l snonce cnonce) read
      ∙ ap (Client.keyed h hk token (record l { events = es })) keyed

  answers :
      (snonce cnonce chmac hello : List ℕ) (l l2 : Link) (es : List Event)
      (r : Option Session × Link)
      → read_line l.events 512 ≡ (some hello, es)
      → Client.read_hello (c_string hello) ≡ some snonce
      → client_hmac h token snonce cnonce ≡ some chmac
      → send_line (record l { events = es }) (auth_line cnonce chmac) ≡ (true, l2)
      → Client.await h hk token snonce cnonce (true, l2) ≡ r
      → Client.do_handshake h hk token (some cnonce) l ≡ r
  unfolding Client.do_handshake Client.greeted Client.answer Client.answer_with Client.send_auth
      Client.send_line send_line
  answers snonce cnonce chmac hello l l2 es r read found hashed sent e =
      let l1 : Link = record l { events = es } in
      ap (Client.greeted h hk token l (some cnonce)) read
      ∙ (ap (Client.answer h hk token l1 (some cnonce)) found
          ∙ (ap (Client.send_auth h hk token l1 snonce cnonce) hashed
              ∙ (ap (Client.await h hk token snonce cnonce) sent ∙ e)))

  -- The client, when the two lines of the device are in its socket.
  client_opens :
      (c : Link) (snonce cnonce chmac key rest : List ℕ)
      → All IsByte snonce
      → length snonce ≡ 32
      → length cnonce ≡ 32
      → length chmac ≡ 32
      → client_hmac h token snonce cnonce ≡ some chmac
      → client_key hk token snonce cnonce ≡ some key
      → Willing c.sends
      → 147 ≤ length c.sends
      → Steady c.events
      → flat c.events ≡ line_of (hello_line snonce) ++ (line_of ok_line ++ rest)
      → (c' : Link) × (Client.do_handshake h hk token (some cnonce) c
          ≡ (some (session_init key), c'))
        × (c'.sent ≡ c.sent ++ line_of (auth_line cnonce chmac))
        × (flat c'.events ≡ rest)
  client_opens c snonce cnonce chmac key rest bs sn sc sh hashed keyed w enough ok e =
      let words = hello_words (Hex.hex_encode snonce) in
      let size : length words ≡ 87 = omega (arith, length-hex_encode snonce) in
      let (es, read, left, steady) =
        read_printing c.events words (line_of ok_line ++ rest) 512 ok
          (e ∙ ap (λ t. line_of t ++ (line_of ok_line ++ rest)) (hello_line-words snonce sn))
          (hello_words-IsPrint (Hex.hex_encode snonce) (hex_encode-IsGraph snonce bs))
          (omega arith) in
      let (rs, sent, _, _) =
        send_line-Willing (record c { events = es }) (auth_line cnonce chmac) w
          (omega (arith, length-auth_line cnonce chmac sc sh)) in
      let c2 : Link = record c {
        events = es;
        sends = rs;
        sent = c.sent ++ line_of (auth_line cnonce chmac);
      } in
      let (es', confirmed, left', _) =
        read_printing es ok_line rest 128 steady left (omega arith) (omega arith) in
      (
        record c2 { events = es' },
        answers snonce cnonce chmac words c c2 es
            (some (session_init key), record c2 { events = es' }) (same_reader c.events 512 ∙ read)
            (read_hello-hello_words snonce bs sn) hashed sent
            (awaits snonce cnonce key c2 es' (same_reader es 128 ∙ confirmed) keyed),
        refl,
        left',
      )

-- PSA and OpenSSL compute one HMAC, of 32 bytes, and one HKDF; device and client have one token, not an
-- empty one, and their nonces are 32 bytes. In front of the other side's bytes each socket holds, cut up
-- in any way, the lines the other side sends, and enough calls of `send` take a byte or more each.
-- Then the handshake succeeds on both sides: the device sends just its challenge and its confirmation,
-- the client just its answer, both leave the bytes behind these lines unread, and the sessions that they
-- open have one key and are in step in both directions.
pub handshake_agrees :
    {mac : PsaMac} {h : Hmac} {hmac : List ℕ → List ℕ → List ℕ} {kdf : PsaKdf} {hk : Hkdf}
    {hkdf : List ℕ → List ℕ → List ℕ → ℕ → List ℕ} (device_mac : MacWorks mac hmac)
    (client_mac : HmacWorks h hmac) (device_kdf : KdfWorks kdf hkdf)
    (client_kdf : HkdfWorks hk hkdf) (nonces : ℕ → List ℕ) (d c : Link) (sess : Session)
    (token cnonce from_client from_device : List ℕ)
    → 0 < length token
    → All IsByte (nonces 0)
    → length (nonces 0) ≡ 32
    → All IsByte cnonce
    → length cnonce ≡ 32
    → All IsByte (hmac token (auth_info ++ (nonces 0 ++ cnonce)))
    → Willing d.sends
    → 111 ≤ length d.sends
    → Willing c.sends
    → 147 ≤ length c.sends
    → Steady d.events
    → Steady c.events
    → flat d.events
      ≡ line_of (auth_line cnonce (hmac token (auth_info ++ (nonces 0 ++ cnonce)))) ++ from_client
    → flat c.events ≡ line_of (hello_line (nonces 0)) ++ (line_of ok_line ++ from_device)
    → (sd sc : Session) × (d' c' : Link) × (do_handshake mac kdf token nonces d sess
        ≡ (true, d', sd))
      × (Client.do_handshake h hk token (some cnonce) c ≡ (some sc, c'))
      × (d'.sent ≡ d.sent ++ (line_of (hello_line (nonces 0)) ++ line_of ok_line))
      × (c'.sent
          ≡ c.sent ++ line_of (auth_line cnonce (hmac token (auth_info ++ (nonces 0 ++ cnonce)))))
      × (flat d'.events ≡ from_client)
      × (flat c'.events ≡ from_device)
      × Linked sd sc
      × Linked sc sd
handshake_agrees {mac = mac} {h = h} {hmac = hmac} {kdf = kdf} {hk = hk} device_mac client_mac
      device_kdf client_kdf nonces d c sess token cnonce from_client from_device pos bs sn bc sc bh
      wd nd wc nc okd okc ed ec =
    let chmac = hmac token (auth_info ++ (nonces 0 ++ cnonce)) in
    let size : length chmac ≡ 32 = device_mac.size token (auth_info ++ (nonces 0 ++ cnonce)) in
    let good = (auth_verify_iff device_mac token (nonces 0) cnonce chmac pos size).1 refl in
    let (key, derived, keyed, ab, ba) =
      keys_agree device_kdf client_kdf token (nonces 0) cnonce pos in
    let (d', opened, sent, left) =
      device_opens mac kdf token nonces d sess cnonce chmac key from_client sn bc bh sc size good
        derived wd nd okd ed in
    let (c', joined, answered, rest) =
      client_opens h hk token c (nonces 0) cnonce chmac key from_device bs sn sc size
        (client_hmac_lem client_mac token (nonces 0) cnonce) keyed wc nc okc ec in
    (
      proto_session_init key,
      session_init key,
      d',
      c',
      opened,
      joined,
      sent,
      answered,
      left,
      rest,
      ab,
      ba,
    )
