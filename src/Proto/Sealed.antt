-- ===== src/Proto/Sealed.antt =====
-- A frame that one end seals, as the other end reads it: components/core/src/proto.c and
-- tools/esp-ctl/src/proto.c.
use espshell.Prelude.{
  ℕ, ◌+◌, ◌-◌, ◌≤◌, ◌<◌, ◌^◌, ◌≡◌, refl, true, List, ◌∷◌, ◌++◌, some, length, get_or, take, drop,
  arith, length-append, take-append_of_eq, drop-append_of_eq,
}
use espshell.Crypto.Ideal.{Aead, IsAead}
use espshell.Proto.{Session, be16, be64, rd16, rd64, build_nonce, frame_header}
use espshell.Proto.Words.{rd16-be16, rd64-be64}
use espshell.Proto.Spec.{length-frame_header, sealed_frame, accepts, opened}

-- `b` is the other end of `a`, for what `a` sends.
pub record Linked (a b : Session) : Type 0 where
  pub same_key : a.key ≡ b.key
  pub key_size : length a.key ≡ 32
  pub in_step : a.tx_seq ≡ b.rx_seq
  pub in_range : a.tx_seq < 2 ^ 64
  pub same_dir : a.tx_dir ≡ b.rx_dir
  pub a_up : a.established ≡ true
  pub b_up : b.established ≡ true

header_fields :
    (n seq : ℕ) (rest : List ℕ)
    → n < 2 ^ 16
    → seq < 2 ^ 64
    → let f = frame_header n seq ++ rest in
      (rd16 f ≡ n) × (get_or f 2 0 ≡ 1) × (get_or f 3 0 ≡ 0) × (rd64 (drop 4 f) ≡ seq)
unfolding frame_header be16
header_fields n seq rest h hs =
    (unfold be16 in rd16-be16 n (1 ∷ 0 ∷ be64 seq ++ rest) h, refl, refl, rd64-be64 seq rest hs)

module _ {aead : Aead} (ideal : IsAead aead) where
  sealed_parts :
      (s : Session) (pt : List ℕ)
      → let f = sealed_frame aead s pt in
        let sealed =
          aead.seal s.key
            (build_nonce s.tx_dir s.tx_seq)
            (frame_header (28 + length pt) s.tx_seq)
            pt in
        (length f ≡ 28 + length pt)
        × (take 12 f ≡ frame_header (28 + length pt) s.tx_seq)
        × (take (length pt) (drop 12 f) ≡ sealed.0)
        × (drop (length pt) (drop 12 f) ≡ sealed.1)
  unfolding sealed_frame
  sealed_parts s pt =
      let h = frame_header (28 + length pt) s.tx_seq in
      let n = build_nonce s.tx_dir s.tx_seq in
      let sealed = aead.seal s.key n h pt in
      let lh = length-frame_header (28 + length pt) s.tx_seq in
      let lc = ideal.length_text s.key n h pt in
      (
        omega (
          arith,
          length-append h (sealed.0 ++ sealed.1),
          length-append sealed.0 sealed.1,
          lh,
          lc,
          ideal.length_tag s.key n h pt,
        ),
        take-append_of_eq 12 h _ lh,
        rw (drop-append_of_eq 12 h (sealed.0 ++ sealed.1) lh)
            (take-append_of_eq (length pt) sealed.0 sealed.1 lc),
        rw (drop-append_of_eq 12 h (sealed.0 ++ sealed.1) lh)
            (drop-append_of_eq (length pt) sealed.0 sealed.1 lc),
      )

  sealed_fields :
      (s : Session) (pt : List ℕ)
      → 28 + length pt ≤ 0xffff
      → s.tx_seq < 2 ^ 64
      → let f = sealed_frame aead s pt in
        (rd16 f ≡ 28 + length pt)
        × (get_or f 2 0 ≡ 1)
        × (get_or f 3 0 ≡ 0)
        × (rd64 (drop 4 f) ≡ s.tx_seq)
  unfolding sealed_frame
  sealed_fields s pt small hs = header_fields (28 + length pt) s.tx_seq _ (omega arith) hs

  pub accepts-sealed :
      (a b : Session) (pt : List ℕ) (room : ℕ)
      → Linked a b
      → 28 + length pt ≤ 0xffff
      → length pt ≤ room
      → accepts b (sealed_frame aead a pt) room ≡ true
  unfolding accepts
  accepts-sealed a b pt room l small fits =
      let (size, _, _, _) = sealed_parts a pt in
      let (len, kind, flags, seq) = sealed_fields a pt small l.in_range in
      ground (arith, size, len, kind, flags, seq)

  pub opened-sealed :
      (a b : Session) (pt : List ℕ) → Linked a b → opened aead b (sealed_frame aead a pt) ≡ some pt
  unfolding opened
  opened-sealed a b pt l =
      let (size, head, body, tag) = sealed_parts a pt in
      let n : length (sealed_frame aead a pt) - 28 ≡ length pt = omega arith in
      let back =
        ideal.unseal-seal a.key (build_nonce a.tx_dir a.tx_seq)
          (frame_header (28 + length pt) a.tx_seq) pt in
      cc (l.same_key, l.same_dir, l.in_step)
