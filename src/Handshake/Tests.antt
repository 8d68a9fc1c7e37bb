-- ===== src/Handshake/Tests.antt =====
-- A handshake with toy functions in place of the cryptographic ones.
use espshell.Prelude.{
  ℕ, ◌<◌, ◌≡◌, refl, arith, true, false, List, ◌∷◌, [], ◌++◌, some, append-nil, ◌∙◌, replicate,
  bytes_eq, length-replicate, codes,
}
use espshell.Auth.{auth_info, auth_verify, auth_derive_session_key}
use espshell.Hex
use espshell.Clib.{c_string, strtok_words, starts_with}
use espshell.Auth.Toy.{
  toy_hmac, toy_mac, toy_mac-works, toy_openssl, toy_openssl-works, toy_kdf, toy_kdf-works,
  toy_pkey, toy_pkey-works,
}
use espshell.Net.{push, recv, recv_line, strip_cr}
use espshell.Net.Reads.{flat, flat-push}
use espshell.Net.Lines.{push-Steady}
use espshell.Proto.{Session}
use espshell.Proto.Sealed.{Linked}
use espshell.Session.{Sent, write_full}
use espshell.Session.Rounds.{replicate-Willing}
use espshell.Handshake.{Link, do_handshake, hello_line}
use espshell.Handshake.Client
use espshell.Hex.Client.{hex_encode}
use espshell.Handshake.Client.{auth_line}
use espshell.Handshake.Device.{line_of, ok_line}
use espshell.Handshake.Sound.{Accepted, do_handshake-Accepted}
use espshell.Handshake.Agreement.{handshake_agrees}

abbrev token : List ℕ
token = codes "secret"

abbrev nonces : ℕ → List ℕ
nonces k = replicate 32 k

abbrev cnonce : List ℕ
cnonce = replicate 32 7

abbrev chmac : List ℕ
chmac = toy_hmac token (auth_info ++ (nonces 0 ++ cnonce))

abbrev device : Link
device = record {
  sends = replicate 200 (Sent.took 3);
  events = push (line_of (auth_line cnonce chmac) ++ (1 ∷ [])) [];
  sent = [];
}

abbrev client : Link
client = record {
  sends = replicate 200 (Sent.took 3);
  events = push (line_of (hello_line (nonces 0)) ++ (line_of ok_line ++ [])) [];
  sent = [];
}

abbrev fresh : Session
fresh = record {
  key = replicate 32 0;
  rx_seq = 0;
  tx_seq = 0;
  rx_dir = 0;
  tx_dir = 0;
  established = false;
}

handshake_agrees_example :
    (sd sc : Session) × (d' c' : Link) × (do_handshake toy_mac toy_kdf token nonces device fresh
      ≡ (true, d', sd))
    × (Client.do_handshake toy_openssl toy_pkey token (some cnonce) client ≡ (some sc, c'))
    × (d'.sent ≡ [] ++ (line_of (hello_line (nonces 0)) ++ line_of ok_line))
    × (c'.sent ≡ [] ++ line_of (auth_line cnonce chmac))
    × (flat d'.events ≡ 1 ∷ [])
    × (flat c'.events ≡ [])
    × Linked sd sc
    × Linked sc sd
handshake_agrees_example =
    handshake_agrees toy_mac-works toy_openssl-works toy_kdf-works toy_pkey-works nonces device
      client fresh token cnonce (1 ∷ []) [] (omega arith) (omega arith)
      (length-replicate {A = ℕ} 32 0) (omega arith) (length-replicate {A = ℕ} 32 7) (omega arith)
      (replicate-Willing 200 2) (omega (arith, length-replicate 200 (Sent.took 3)))
      (replicate-Willing 200 2) (omega (arith, length-replicate 200 (Sent.took 3)))
      (push-Steady (line_of (auth_line cnonce chmac) ++ (1 ∷ [])) [] tt)
      (push-Steady (line_of (hello_line (nonces 0)) ++ (line_of ok_line ++ [])) [] tt)
      (flat-push (line_of (auth_line cnonce chmac) ++ (1 ∷ [])) []
        ∙ append-nil (line_of (auth_line cnonce chmac) ++ (1 ∷ [])))
      (flat-push (line_of (hello_line (nonces 0)) ++ (line_of ok_line ++ [])) []
        ∙ append-nil (line_of (hello_line (nonces 0)) ++ (line_of ok_line ++ [])))

opens_run : (do_handshake toy_mac toy_kdf token nonces device fresh).0 ≡ true
unfolding do_handshake hello_line auth_line recv_line hex_encode Hex.hex_encode Hex.hex_decode
    Hex.hex_to_bytes Hex.decode_pairs Hex.hex_nibble auth_verify auth_derive_session_key recv
    bytes_eq c_string strtok_words starts_with strip_cr write_full
opens_run = refl

do_handshake-Accepted_example :
    (i : ℕ) × (i < 3)
    × Accepted toy_mac toy_kdf token
        (flat (Link.events device))
        (nonces i)
        (do_handshake toy_mac toy_kdf token nonces device fresh).2
do_handshake-Accepted_example =
    do_handshake-Accepted toy_mac toy_kdf token nonces device fresh opens_run
