-- ===== src/Handshake.antt =====
-- `do_handshake` of components/core/src/net.c: the challenge of the device, the client's answer and the
-- session that opens. A connection is what `send` and `recv` still meet and what has been sent; the
-- nonces that `auth_make_nonce` gives are a function of the attempt.
pub mod Sound
pub mod Client
pub mod Texts
pub mod Fields
pub mod Device
pub mod Agreement
mod Tests
use espshell.Prelude.{
  ℕ, zero, suc, ◌+◌, Bool, true, false, List, [], ◌∷◌, ◌++◌, Option, none, some, if◌then◌else◌,
  drop, bytes_eq, codes, guard, ◌>>=◌, ◌>>◌,
}
use espshell.Clib.{c_string, starts_with, strtok_words}
use espshell.Hex.{hex_encode, hex_decode}
use espshell.Net.{Event, recv_line}
use espshell.Auth.{PsaMac, PsaKdf, auth_verify, auth_derive_session_key, nonce_len, hmac_len}
use espshell.Proto.{Session, proto_session_init}
use espshell.Cmd.Dispatch.{snprintf}
use espshell.Session.{Sent, write_full}

pub record Link : Type 0 where
  pub sends : List Sent
  pub events : List Event
  pub sent : List ℕ

unfoldable pub write_link : Link → List ℕ → Bool × Link
unfolding write_full
write_link l bytes =
    let (ok, out, rs) = write_full l.sends bytes in
    (ok, record l { sends = rs; sent = l.sent ++ out })

unfoldable pub newline_after : Bool × Link → Bool × Link
unfolding write_link
newline_after (true, l) = write_link l (b'\n' ∷ [])
newline_after (false, l) = (false, l)

unfoldable pub send_line : Link → List ℕ → Bool × Link
unfolding write_link newline_after
send_line l line = newline_after (write_link l line)

abbrev pub proto_version : List ℕ
proto_version = codes "espshell/1"

abbrev pub auth_max_attempts : ℕ
auth_max_attempts = 3

unfoldable pub hello_line : List ℕ → List ℕ
hello_line snonce = (snprintf 128 (proto_version ++ (codes " HELLO nonce=" ++ hex_encode snonce))).1

-- `cnonce_hex` and `hmac_hex` after the loop over the tokens: of two tokens the later one counts.
unfoldable pub read_fields :
    List (List ℕ) → Option (List ℕ) → Option (List ℕ) → Option (List ℕ) × Option (List ℕ)
read_fields [] cnonce_hex hmac_hex = (cnonce_hex, hmac_hex)
read_fields (tok ∷ toks) cnonce_hex hmac_hex =
    let named = starts_with (codes "cnonce=") tok in
    read_fields toks (if named then some (drop 7 tok) else cnonce_hex) (
      if named
      then hmac_hex
      else if starts_with (codes "hmac=") tok
      then some (drop 5 tok)
      else hmac_hex)

unfoldable pub auth_fields : List (List ℕ) → Option (List ℕ × List ℕ)
unfolding read_fields
auth_fields [] = none
auth_fields (tok ∷ toks) = do
  guard (bytes_eq tok (codes "AUTH"))
  let fields = read_fields toks none none
  cnonce_hex ← fields.0
  hmac_hex ← fields.1
  some (cnonce_hex, hmac_hex)

-- The result is `return false`, `return true` or `goto bad`.
pub data Verdict : Type 0 where
  drop_client : Verdict
  opened : Verdict
  bad : Verdict

module _ (mac : PsaMac) (kdf : PsaKdf) (token : List ℕ) where
  -- The client's nonce, of an answer that is accepted.
  unfoldable pub check_answer : List ℕ → List ℕ → Option (List ℕ)
  unfolding auth_fields
  check_answer snonce line = do
    (cnonce_hex, hmac_hex) ← auth_fields (strtok_words [] (c_string line))
    cnonce ← hex_decode (some cnonce_hex) nonce_len
    chmac ← hex_decode (some hmac_hex) hmac_len
    guard (auth_verify mac token snonce cnonce chmac)
    some cnonce

  unfoldable pub establish : Link → Session → Option (List ℕ) → Verdict × Link × Session
  unfolding send_line
  establish l sess none =
      let (ok, l') = send_line l (codes "ERR 9 keygen failed") in (drop_client, l', sess)
  establish l sess (some key) =
      let (ok, l') = send_line l (codes "OK session established") in
      (if ok then opened else drop_client, l', proto_session_init key)

  unfoldable pub answered : Link → Session → List ℕ → Option (List ℕ) → Verdict × Link × Session
  unfolding establish
  answered l sess snonce none = (bad, l, sess)
  answered l sess snonce (some cnonce) =
      establish l sess (auth_derive_session_key kdf token snonce cnonce)

  unfoldable pub read_answer :
      Link → Session → List ℕ → Option (List ℕ) × List Event → Verdict × Link × Session
  unfolding answered check_answer
  read_answer l sess snonce (none, es) = (drop_client, record l { events = es }, sess)
  read_answer l sess snonce (some line, es) =
      answered (record l { events = es }) sess snonce (check_answer snonce line)

  unfoldable pub challenged : Session → List ℕ → Bool × Link → Verdict × Link × Session
  unfolding read_answer
  challenged sess snonce (false, l) = (drop_client, l, sess)
  challenged sess snonce (true, l) = read_answer l sess snonce (recv_line l.events 512)

  -- One attempt, up to `bad:`.
  unfoldable pub attempt_auth : Link → Session → List ℕ → Verdict × Link × Session
  unfolding challenged hello_line send_line
  attempt_auth l sess snonce = challenged sess snonce (send_line l (hello_line snonce))

  -- What follows an attempt; `again` is the rest of the loop.
  unfoldable pub after_attempt :
      (Link → Session → Bool × Link × Session) → Verdict × Link × Session → Bool × Link × Session
  unfolding send_line
  after_attempt again (drop_client, l, sess) = (false, l, sess)
  after_attempt again (opened, l, sess) = (true, l, sess)
  after_attempt again (bad, l, sess) =
      let (ok, l') = send_line l (codes "ERR 3 invalid auth") in again l' sess

  -- The loop, by the attempts that are left.
  unfoldable pub attempts : ℕ → ℕ → (ℕ → List ℕ) → Link → Session → Bool × Link × Session
  unfolding attempt_auth after_attempt
  attempts zero attempt nonces l sess = (false, l, sess)
  attempts (suc left) attempt nonces l sess =
      after_attempt (λ l' sess'. attempts left (attempt + 1) nonces l' sess')
        (attempt_auth l sess (nonces attempt))

  unfoldable pub do_handshake : (ℕ → List ℕ) → Link → Session → Bool × Link × Session
  unfolding attempts
  do_handshake nonces l sess = attempts auth_max_attempts 0 nonces l sess
