-- ===== src/Handshake/Sound.antt =====
-- What an opened session of `do_handshake` in components/core/src/net.c rests on.
use espshell.Prelude.{
  ℕ, zero, suc, ◌+◌, ◌≤◌, ◌<◌, ◌≡◌, refl, ap, sym, ◌∙◌, Bool, true, false, List, [], ◌∷◌, ◌++◌,
  append_assoc, Option, none, some, arith, Bool-cases, inl, inr, codes, guard, ◌>>◌, >>=-eq-some,
  if◌then◌else◌,
}
use espshell.Clib.{c_string, strtok_words}
use espshell.Hex.{hex_decode}
use espshell.Net.{Event, recv_line, strip_cr}
use espshell.Net.Reads.{flat}
use espshell.Net.Lines.{recv_line_took}
use espshell.Auth.{PsaMac, PsaKdf, auth_verify, auth_derive_session_key}
use espshell.Proto.{Session, proto_session_init}
use espshell.Session.{write_full}
use espshell.Handshake.{
  Link, Verdict, drop_client, opened, bad, auth_fields, check_answer, establish, answered,
  read_answer, challenged, attempt_auth, after_attempt, attempts, do_handshake, send_line,
  hello_line, write_link, newline_after,
}
use espshell.Handshake.Fields.{Answer, auth_fields-Answer}

-- What is left of the bytes of the peer.
abbrev Comes : List ℕ → List Event → Type 0
Comes bytes es = (before : List ℕ) × (bytes ≡ before ++ flat es)

send_line-events : (l : Link) (line : List ℕ) → Link.events (send_line l line).1 ≡ Link.events l
unfolding send_line write_link newline_after
send_line-events l line = behind (write_full l.sends line).0
  where
    behind :
        (ok : Bool)
        → Link.events
            (newline_after (
              ok,
              record l {
                sends = (write_full l.sends line).2;
                sent = l.sent ++ (write_full l.sends line).1;
              },
            )).1
          ≡ Link.events l
    behind true = refl
    behind false = refl

module _ (mac : PsaMac) (kdf : PsaKdf) (token : List ℕ) where
  -- Among the bytes of the peer is a line that is an answer, its HMAC is one that `auth_verify` accepts
  -- for the challenge and the nonce of the line, and the session's key is derived from both.
  pub record Accepted (bytes snonce : List ℕ) (sess : Session) : Type 0 where
    pub before : List ℕ
    pub text : List ℕ
    pub after : List ℕ
    pub cnonce : List ℕ
    pub chmac : List ℕ
    pub key : List ℕ
    pub came : bytes ≡ before ++ (text ++ (b'\n' ∷ after))
    pub answer : Answer (strtok_words [] (c_string (strip_cr text))) cnonce chmac
    pub verified : auth_verify mac token snonce cnonce chmac ≡ true
    pub derived : auth_derive_session_key kdf token snonce cnonce ≡ some key
    pub keyed : sess ≡ proto_session_init key

  guard-verified :
      (snonce c chmac cnonce : List ℕ)
      → (guard (auth_verify mac token snonce c chmac) >> some c) ≡ some cnonce
      → (c ≡ cnonce) × (auth_verify mac token snonce cnonce chmac ≡ true)
  guard-verified snonce c chmac cnonce e =
      elim (Bool-cases (auth_verify mac token snonce c chmac)) [
        | inl good ↦
            let same : c ≡ cnonce = cc (ap (λ b. guard b >> some c) good, e) in
            (same, rw (← same) good)
        | inr wrong ↦ absurd (cc (ap (λ b. guard b >> some c) wrong, e))
      ]

  check_answer-verified :
      (snonce line cnonce : List ℕ)
      → check_answer mac kdf token snonce line ≡ some cnonce
      → (chmac : List ℕ) × Answer (strtok_words [] (c_string line)) cnonce chmac
        × (auth_verify mac token snonce cnonce chmac ≡ true)
  unfolding check_answer
  check_answer-verified snonce line cnonce e =
      let words = strtok_words [] (c_string line) in
      let (fields, read, e1) = >>=-eq-some (auth_fields words) _ e in
      let (c, dc, e2) = >>=-eq-some (hex_decode (some fields.0) 32) _ e1 in
      let (h, dh, e3) = >>=-eq-some (hex_decode (some fields.1) 32) _ e2 in
      let (same, good) = guard-verified snonce c h cnonce e3 in
      (h, auth_fields-Answer words fields.0 fields.1 cnonce h read (dc ∙ ap some same) dh, good)

  -- An outcome of an attempt that opens a session rests on an accepted answer.
  Opens : List ℕ → List ℕ → Verdict × Link × Session → Type 0
  Opens bytes snonce (drop_client, l, sess) = Unit
  Opens bytes snonce (opened, l, sess) = Accepted bytes snonce sess
  Opens bytes snonce (bad, l, sess) = Comes bytes l.events

  establish-Opens :
      (bytes before text : List ℕ) (l : Link) (sess : Session) (snonce cnonce chmac : List ℕ)
      (key : Option (List ℕ))
      → bytes ≡ before ++ (text ++ (b'\n' ∷ flat l.events))
      → Answer (strtok_words [] (c_string (strip_cr text))) cnonce chmac
      → auth_verify mac token snonce cnonce chmac ≡ true
      → auth_derive_session_key kdf token snonce cnonce ≡ key
      → Opens bytes snonce (establish mac kdf token l sess key)
  unfolding establish Opens
  establish-Opens bytes before text l sess snonce cnonce chmac none came answer good e = tt
  establish-Opens bytes before text l sess snonce cnonce chmac (some key) came answer good e =
      either (send_line l (codes "OK session established")).0
        (send_line l (codes "OK session established")).1
    where
      either :
          (ok : Bool) (l' : Link)
          → Opens bytes snonce (if ok then opened else drop_client, l', proto_session_init key)
      either false l' = tt
      either true l' = record {
        before = before;
        text = text;
        after = flat l.events;
        cnonce = cnonce;
        chmac = chmac;
        key = key;
        came = came;
        answer = answer;
        verified = good;
        derived = e;
        keyed = refl;
      }

  answered-Opens :
      (bytes before text : List ℕ) (l : Link) (sess : Session) (snonce : List ℕ)
      (c : Option (List ℕ))
      → bytes ≡ before ++ (text ++ (b'\n' ∷ flat l.events))
      → check_answer mac kdf token snonce (strip_cr text) ≡ c
      → Opens bytes snonce (answered mac kdf token l sess snonce c)
  unfolding answered Opens
  answered-Opens bytes before text l sess snonce none came e = (
    before ++ (text ++ (b'\n' ∷ [])),
    came
        ∙ (ap (λ x. before ++ x) (sym (append_assoc text (b'\n' ∷ []) (flat l.events)))
            ∙ sym (append_assoc before (text ++ (b'\n' ∷ [])) (flat l.events))),
  )
  answered-Opens bytes before text l sess snonce (some cnonce) came e =
      let (chmac, answer, good) = check_answer-verified snonce (strip_cr text) cnonce e in
      establish-Opens bytes before text l sess snonce cnonce chmac
        (auth_derive_session_key kdf token snonce cnonce) came answer good refl

  read_answer-Opens :
      (bytes : List ℕ) (l : Link) (sess : Session) (snonce : List ℕ)
      (r : Option (List ℕ) × List Event)
      → Comes bytes l.events
      → recv_line l.events 512 ≡ r
      → Opens bytes snonce (read_answer mac kdf token l sess snonce r)
  unfolding read_answer Opens
  read_answer-Opens bytes l sess snonce (none, es) comes e = tt
  read_answer-Opens bytes l sess snonce (some line, es) (before, comes) e =
      let (text, same, left) = recv_line_took l.events es 512 line e in
      answered-Opens bytes before text (record l { events = es }) sess snonce
        (check_answer mac kdf token snonce line) (comes ∙ ap (λ x. before ++ x) left)
        (ap (check_answer mac kdf token snonce) (sym same))

  challenged-Opens :
      (bytes : List ℕ) (sess : Session) (snonce : List ℕ) (r : Bool × Link)
      → Comes bytes (Link.events r.1)
      → Opens bytes snonce (challenged mac kdf token sess snonce r)
  unfolding challenged Opens
  challenged-Opens bytes sess snonce (false, l) comes = tt
  challenged-Opens bytes sess snonce (true, l) comes =
      read_answer-Opens bytes l sess snonce (recv_line l.events 512) comes refl

  -- Behind `send_line` the same bytes come.
  still :
      (bytes line : List ℕ) (l : Link)
      → Comes bytes l.events
      → Comes bytes (Link.events (send_line l line).1)
  still bytes line l (before, comes) =
      (before, comes ∙ ap (λ es. before ++ flat es) (sym (send_line-events l line)))

  -- A later attempt, or this one.
  after_attempt-Accepted :
      (bytes : List ℕ) (k n : ℕ) (nonces : ℕ → List ℕ)
      (again : Link → Session → Bool × Link × Session) (r : Verdict × Link × Session)
      → k < n
      → Opens bytes (nonces k) r
      → ((l : Link) (sess : Session)
          → Comes bytes l.events
          → (again l sess).0 ≡ true
          → (i : ℕ) × (i < n) × Accepted bytes (nonces i) (again l sess).2)
      → (after_attempt mac kdf token again r).0 ≡ true
      → (i : ℕ) × (i < n) × Accepted bytes (nonces i) (after_attempt mac kdf token again r).2
  unfolding after_attempt Opens
  after_attempt-Accepted bytes k n nonces again (drop_client, l, sess) h o rec e = absurd (cc e)
  after_attempt-Accepted bytes k n nonces again (opened, l, sess) h o rec e = (k, h, o)
  after_attempt-Accepted bytes k n nonces again (bad, l, sess) h o rec e =
      rec (send_line l (codes "ERR 3 invalid auth")).1 sess
        (still bytes (codes "ERR 3 invalid auth") l o) e

  attempts-Accepted :
      (bytes : List ℕ) (left k n : ℕ) (nonces : ℕ → List ℕ) (l : Link) (sess : Session)
      → k + left ≤ n
      → Comes bytes l.events
      → (attempts mac kdf token left k nonces l sess).0 ≡ true
      → (i : ℕ) × (i < n)
        × Accepted bytes (nonces i) (attempts mac kdf token left k nonces l sess).2
  unfolding attempts attempt_auth
  attempts-Accepted bytes zero k n nonces l sess h comes e = absurd (cc e)
  attempts-Accepted bytes (suc left) k n nonces l sess h comes e =
      let hello = hello_line (nonces k) in
      after_attempt-Accepted bytes k n nonces (attempts mac kdf token left (k + 1) nonces)
        (challenged mac kdf token sess (nonces k) (send_line l hello)) (omega arith)
        (challenged-Opens bytes sess (nonces k) (send_line l hello) (still bytes hello l comes))
        (λ l' sess' comes'.
          attempts-Accepted bytes left (k + 1) n nonces l' sess' (omega arith) comes')
        e

  -- Whatever comes from the peer: when `do_handshake` opens a session, the peer has sent a line whose
  -- words are `AUTH` and, among others, `cnonce=` and `hmac=` with 32 bytes in hex each; `auth_verify`
  -- accepts this HMAC for this nonce and one of the at most three challenges; and the session starts with
  -- the key that `auth_derive_session_key` gives for this challenge and nonce.
  pub do_handshake-Accepted :
      (nonces : ℕ → List ℕ) (l : Link) (sess : Session)
      → (do_handshake mac kdf token nonces l sess).0 ≡ true
      → (i : ℕ) × (i < 3)
        × Accepted (flat l.events) (nonces i) (do_handshake mac kdf token nonces l sess).2
  unfolding do_handshake
  do_handshake-Accepted nonces l sess e =
      attempts-Accepted (flat l.events) 3 0 3 nonces l sess (omega arith) ([], refl) e
