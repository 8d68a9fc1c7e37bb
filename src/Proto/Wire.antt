-- ===== src/Proto/Wire.antt =====
-- What one side of the encrypted phase seals, the other side opens.
use espshell.Prelude.{
  >>=-eq-some, ℕ, ◌+◌, ◌≤◌, ◌≡◌, refl, List, [], ◌∷◌, ap, ◌∙◌, sym, Option, some, length, ◌>>=◌,
  arith, All, All-imp,
}
use espshell.Crypto.{Evp}
use espshell.Crypto.Ideal.{Aead, IsAead, EvpWorks}
use espshell.Proto.{
  Session, Psa, next_seq, proto_frame_encrypt, proto_frame_decrypt, proto_session_init,
}
use espshell.Proto.Client.{frame_encrypt, frame_decrypt, session_init}
use espshell.Proto.Spec.{
  PsaWorks, sealed_frame, spec_encrypt, spec_decrypt, proto_frame_encrypt-eq-spec,
  proto_frame_decrypt-eq-spec,
}
use espshell.Proto.Agreement.{frame_encrypt-eq-spec, frame_decrypt-eq-spec}
use espshell.Proto.Sealed.{Linked, accepts-sealed, opened-sealed}

-- Sealing texts one after the other, and opening frames one after the other.
module _ (step : Session → List ℕ → Option (List ℕ × Session)) where
  unfoldable pub each : Session → List (List ℕ) → Option (List (List ℕ) × Session)
  each s [] = some ([], s)
  each s (x ∷ xs) = do (y, s') ← step s x; (ys, t) ← each s' xs; some (y ∷ ys, t)

  pub each-cons :
      (s t : Session) (x : List ℕ) (xs ys : List (List ℕ))
      → each s (x ∷ xs) ≡ some (ys, t)
      → (y : List ℕ) × (u : Session) × (zs : List (List ℕ)) × (step s x ≡ some (y, u))
        × (each u xs ≡ some (zs, t))
  unfolding each
  each-cons s t x xs ys e =
      let ((y, u), first, e1) = >>=-eq-some (step s x) _ e in
      let ((zs, v), rest, e2) = >>=-eq-some (each u xs) _ e1 in
      let last : each u xs ≡ some (zs, t) = cc in (y, u, zs, first, last)

abbrev pub after_send : Session → Session
after_send s = record s { tx_seq = next_seq s.tx_seq }

abbrev pub after_receive : Session → Session
after_receive s = record s { rx_seq = next_seq s.rx_seq }

pub after_exchange-Linked : (a b : Session) → Linked a b → Linked (after_send a) (after_receive b)
after_exchange-Linked a b l = record {
  same_key = l.same_key;
  key_size = l.key_size;
  in_step = ap next_seq l.in_step;
  in_range = omega arith;
  same_dir = l.same_dir;
  a_up = l.a_up;
  b_up = l.b_up;
}

module _ {aead : Aead} (ideal : IsAead aead) (cap room : ℕ)
    (enc dec : Session → List ℕ → Option (List ℕ × Session))
    (encrypts : (s : Session) (p : List ℕ)
      → length s.key ≡ 32
      → enc s p ≡ spec_encrypt aead s p cap)
    (decrypts : (s : Session) (f : List ℕ)
      → length s.key ≡ 32
      → dec s f ≡ spec_decrypt aead s f room) where
  abbrev pub Fits : List ℕ → Type 0
  Fits p = (28 + length p ≤ cap) × (28 + length p ≤ 0xffff) × (length p ≤ room)

  pub enc-sealed :
      (a b : Session) (p : List ℕ)
      → Linked a b
      → Fits p
      → enc a p ≡ some (sealed_frame aead a p, after_send a)
  enc-sealed a b p l f = encrypts a p l.key_size ∙ unfold spec_encrypt in ground arith

  pub dec-sealed :
      (a b : Session) (p : List ℕ)
      → Linked a b
      → Fits p
      → dec b (sealed_frame aead a p) ≡ some (p, after_receive b)
  dec-sealed a b p l f =
      decrypts b (sealed_frame aead a p) (ap length (sym l.same_key) ∙ l.key_size)
      ∙ unfold spec_decrypt in
        rw (accepts-sealed ideal a b p room l f.1 f.2, opened-sealed ideal a b p l)

  each_delivers :
      (a b : Session) (ps : List (List ℕ))
      → Linked a b
      → All Fits ps
      → (fs : List (List ℕ)) × (a' : Session) × (b' : Session) × (each enc a ps ≡ some (fs, a'))
        × (each dec b fs ≡ some (ps, b'))
        × Linked a' b'
  unfolding each
  each_delivers a b [] l f = ([], a, b, refl, refl, l)
  each_delivers a b (p ∷ ps) l (f, fits) =
      let (fs, a', b', sent, got, l') =
        each_delivers (after_send a) (after_receive b) ps (after_exchange-Linked a b l) fits in
      (
        sealed_frame aead a p ∷ fs,
        a',
        b',
        rw (enc-sealed a b p l f, sent),
        rw (dec-sealed a b p l f, got),
        l',
      )

-- `send_frame` of net.c has a buffer for 4096 bytes of text, `recv_reply` of esp-ctl.c room for 8191;
-- `send_cmd` has a buffer for 1024 and `session_loop` room for 1024.
module _ {psa : Psa} {evp : Evp} {aead : Aead} (ideal : IsAead aead) (device : PsaWorks psa aead)
    (client : EvpWorks evp aead) (key : List ℕ) (key_size : length key ≡ 32) where
  -- PSA and OpenSSL compute one ideal AEAD (`PsaWorks`, `EvpWorks`, `IsAead`). From the same 32-byte
  -- key on, any texts of at most 4096 bytes that the device seals in turn are all sealed, and the
  -- client opens the frames to the same texts; the two sessions are then in step.
  pub server_to_client :
      (texts : List (List ℕ))
      → All (λ t. length t ≤ 4096) texts
      → (frames : List (List ℕ)) × (s : Session) × (c : Session) × (each
            (λ x t. proto_frame_encrypt psa x t 4124)
            (proto_session_init key)
            texts
          ≡ some (frames, s))
        × (each (λ x f. frame_decrypt evp x f 8191) (session_init key) frames ≡ some (texts, c))
        × Linked s c
  unfolding proto_session_init session_init
  server_to_client texts small =
      each_delivers ideal 4124 8191 (λ x t. proto_frame_encrypt psa x t 4124)
        (λ x f. frame_decrypt evp x f 8191)
        (λ s p. proto_frame_encrypt-eq-spec ideal device s p 4124)
        (λ s f. frame_decrypt-eq-spec client s f 8191) (proto_session_init key) (session_init key)
        texts
        (record {
          same_key = refl;
          key_size = key_size;
          in_step = refl;
          in_range = omega arith;
          same_dir = refl;
          a_up = refl;
          b_up = refl;
        })
        (All-imp _ _ texts (λ t h. (omega arith, omega arith, omega arith)) small)

  -- PSA and OpenSSL compute one ideal AEAD (`PsaWorks`, `EvpWorks`, `IsAead`). From the same 32-byte
  -- key on, any command lines of at most 1024 bytes that the client seals in turn are all sealed, and
  -- the device opens the frames to the same lines; the two sessions are then in step.
  pub client_to_server :
      (texts : List (List ℕ))
      → All (λ t. length t ≤ 1024) texts
      → (frames : List (List ℕ)) × (c : Session) × (s : Session) × (each
            (λ x t. frame_encrypt evp x t 1052)
            (session_init key)
            texts
          ≡ some (frames, c))
        × (each (λ x f. proto_frame_decrypt psa x f 1024) (proto_session_init key) frames
            ≡ some (texts, s))
        × Linked c s
  unfolding proto_session_init session_init
  client_to_server texts small =
      each_delivers ideal 1052 1024 (λ x t. frame_encrypt evp x t 1052)
        (λ x f. proto_frame_decrypt psa x f 1024) (λ s p. frame_encrypt-eq-spec client s p 1052)
        (λ s f. proto_frame_decrypt-eq-spec ideal device s f 1024) (session_init key)
        (proto_session_init key) texts
        (record {
          same_key = refl;
          key_size = key_size;
          in_step = refl;
          in_range = omega arith;
          same_dir = refl;
          a_up = refl;
          b_up = refl;
        })
        (All-imp _ _ texts (λ t h. (omega arith, omega arith, omega arith)) small)
