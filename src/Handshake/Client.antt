-- ===== src/Handshake/Client.antt =====
-- `do_handshake` of tools/esp-ctl/src/esp-ctl.c, and the copies of `read_line` and `send_line` that it
-- uses. What it prints is left out; `none` is a call that answers false. The nonce is what `ec_rand`
-- gives.
use espshell.Prelude.{
  ℕ, ◌-◌, Bool, true, false, List, [], ◌∷◌, ◌++◌, Option, none, some, if◌then◌else◌, drop, codes,
  guard, ◌>>=◌, ◌>>◌,
}
use espshell.Clib.{c_string, starts_with}
use espshell.Hex.Client.{hex_encode, hex_decode}
use espshell.Crypto.{Hmac, Hkdf}
use espshell.Net.{Event, line_loop}
use espshell.Auth.{client_hmac, client_key, nonce_len}
use espshell.Proto.{Session}
use espshell.Proto.Client.{session_init}
use espshell.Cmd.Dispatch.{snprintf}
use espshell.Handshake.{Link, write_link, newline_after, proto_version}

unfoldable pub read_line : List Event → ℕ → Option (List ℕ) × List Event
unfolding line_loop
read_line es cap = line_loop (cap - 1) [] es

unfoldable pub send_line : Link → List ℕ → Bool × Link
unfolding write_link newline_after
send_line l line = newline_after (write_link l line)

-- `strstr`: the string from the needle on.
unfoldable pub strstr : List ℕ → List ℕ → Option (List ℕ)
strstr needle [] = if starts_with needle [] then some [] else none
strstr needle (c ∷ s) =
    let rest = strstr needle s in if starts_with needle (c ∷ s) then some (c ∷ s) else rest

unfoldable pub read_hello : List ℕ → Option (List ℕ)
unfolding strstr
read_hello hello = do
  guard (starts_with (proto_version ++ codes " HELLO ") hello)
  nonce_hex ← strstr (codes "nonce=") hello
  hex_decode (some (drop 6 nonce_hex)) nonce_len

unfoldable pub auth_line : List ℕ → List ℕ → List ℕ
auth_line cnonce hmac =
    (snprintf 256
      (codes "AUTH cnonce=" ++ (hex_encode cnonce ++ (codes " hmac=" ++ hex_encode hmac)))).1

module _ (h : Hmac) (hk : Hkdf) (token : List ℕ) where
  unfoldable pub keyed : Link → Option (List ℕ) → Option Session × Link
  keyed l none = (none, l)
  keyed l (some key) = (some (session_init key), l)

  unfoldable pub confirm :
      Link → List ℕ → List ℕ → Option (List ℕ) × List Event → Option Session × Link
  unfolding keyed
  confirm l snonce cnonce (none, es) = (none, record l { events = es })
  confirm l snonce cnonce (some reply, es) =
      if starts_with (codes "OK") (c_string reply)
      then keyed (record l { events = es }) (client_key hk token snonce cnonce)
      else (none, record l { events = es })

  unfoldable pub await : List ℕ → List ℕ → Bool × Link → Option Session × Link
  unfolding confirm
  await snonce cnonce (false, l) = (none, l)
  await snonce cnonce (true, l) = confirm l snonce cnonce (read_line l.events 128)

  unfoldable pub send_auth : Link → List ℕ → List ℕ → Option (List ℕ) → Option Session × Link
  unfolding await auth_line send_line
  send_auth l snonce cnonce none = (none, l)
  send_auth l snonce cnonce (some hmac) = await snonce cnonce (send_line l (auth_line cnonce hmac))

  unfoldable pub answer_with : Link → List ℕ → Option (List ℕ) → Option Session × Link
  unfolding send_auth
  answer_with l snonce none = (none, l)
  answer_with l snonce (some cnonce) = send_auth l snonce cnonce (client_hmac h token snonce cnonce)

  unfoldable pub answer : Link → Option (List ℕ) → Option (List ℕ) → Option Session × Link
  unfolding answer_with
  answer l rand none = (none, l)
  answer l rand (some snonce) = answer_with l snonce rand

  unfoldable pub greeted :
      Link → Option (List ℕ) → Option (List ℕ) × List Event → Option Session × Link
  unfolding answer read_hello
  greeted l rand (none, es) = (none, record l { events = es })
  greeted l rand (some hello, es) =
      answer (record l { events = es }) rand (read_hello (c_string hello))

  unfoldable pub do_handshake : Option (List ℕ) → Link → Option Session × Link
  unfolding greeted read_line
  do_handshake rand l = greeted l rand (read_line l.events 512)
