-- ===== src/Hex/RoundTrip.antt =====
-- `hex_encode` against `hex_to_bytes` of components/core/src/hex.c.
use espshell.Prelude.{
  >>=-eq-some, ℕ, ◌*◌, ◌/◌, ◌%◌, ◌^◌, ◌≤◌, ◌<◌, ◌≡◌, refl, ◌↔◌, List, [], ◌∷◌, map, some, arith,
  length, length-map, IsByte, All, bit_or, ap, ◌∙◌, subst, true, all_below, all_below_sound, ==_iff,
  ◌==◌, sym,
}
use espshell.Hex.{hex_nibble, hex_encode, decode_pairs, hex_to_bytes, hex_char, hex_decode}
use espshell.Hex.Digits.{lower, hex_nibble-some, hex_nibble-of_char, join_nibbles}

pub length-hex_encode : (bs : List ℕ) → length (hex_encode bs) ≡ 2 * length bs
unfolding hex_encode
length-hex_encode [] = omega arith
length-hex_encode (b ∷ bs) = omega (arith, length-hex_encode bs)

-- What a decoded pair of digits is.
pair-IsByte : (hi lo : ℕ) → hi < 16 → lo < 16 → IsByte (bit_or (hi * 2 ^ 4) lo % 2 ^ 8)
pair-IsByte hi lo h l = omega arith

pair_nibbles :
    (hi lo : ℕ)
    → hi < 16
    → lo < 16
    → (bit_or (hi * 2 ^ 4) lo % 2 ^ 8 / 2 ^ 4 ≡ hi) × (bit_or (hi * 2 ^ 4) lo % 2 ^ 8 % 2 ^ 4 ≡ lo)
pair_nibbles hi lo h l = omega (arith, join_nibbles hi lo h l)

abbrev pub Encodes : List ℕ → List ℕ → Type 0
Encodes bs s = All IsByte bs × (hex_encode bs ≡ map lower s)

-- A step of the decoder, taken apart.
decode_pairs_inv :
    (c d : ℕ) (s bs : List ℕ)
    → decode_pairs (c ∷ d ∷ s) ≡ some bs
    → (hi : ℕ) × (lo : ℕ) × (rest : List ℕ) × (hex_nibble c ≡ some hi)
      × (hex_nibble d ≡ some lo)
      × (decode_pairs s ≡ some rest)
      × (bs ≡ bit_or (hi * 2 ^ 4) lo % 2 ^ 8 ∷ rest)
unfolding decode_pairs
decode_pairs_inv c d s bs e =
    let (hi, p, e1) = >>=-eq-some (hex_nibble c) _ e in
    let (lo, q, e2) = >>=-eq-some (hex_nibble d) _ e1 in
    let (rest, r, e3) = >>=-eq-some (decode_pairs s) _ e2 in (hi, lo, rest, p, q, r, cc)

encode_pair :
    (c d hi lo : ℕ) (s rest : List ℕ)
    → hex_nibble c ≡ some hi
    → hex_nibble d ≡ some lo
    → Encodes rest s
    → Encodes (bit_or (hi * 2 ^ 4) lo % 2 ^ 8 ∷ rest) (c ∷ d ∷ s)
unfolding hex_encode
encode_pair c d hi lo s rest p q (bytes, e) =
    let (h, hc) = hex_nibble-some c hi p in
    let (l, lc) = hex_nibble-some d lo q in
    let (up, down) = pair_nibbles hi lo h l in
    ((pair-IsByte hi lo h l, bytes), rw (up, down, hc, lc, e))

decode_pairs_sound : (s bs : List ℕ) → decode_pairs s ≡ some bs → Encodes bs s
decode_pairs_sound [] bs e =
    let empty : [] ≡ bs = unfold decode_pairs in cc in
    subst (λ t. Encodes t []) empty (tt, unfold hex_encode in refl)
decode_pairs_sound (c ∷ []) bs e = unfold decode_pairs in cc
decode_pairs_sound (c ∷ d ∷ s) bs e =
    let (hi, lo, rest, p, q, r, eq) = decode_pairs_inv c d s bs e in
    rw eq (encode_pair c d hi lo s rest p q (decode_pairs_sound s rest r))

decode_pairs_complete :
    (bs s : List ℕ) → All IsByte bs → hex_encode bs ≡ map lower s → decode_pairs s ≡ some bs
unfolding decode_pairs hex_encode
decode_pairs_complete [] [] a e = refl
decode_pairs_complete [] (c ∷ s) a e = cc
decode_pairs_complete (b ∷ bs) [] a e = cc
decode_pairs_complete (b ∷ bs) (c ∷ []) a e = cc
decode_pairs_complete (b ∷ bs) (c ∷ d ∷ s) (fits, a) e =
    rw
      (
        hex_nibble-of_char c (b / 16) (omega arith) cc,
        hex_nibble-of_char d (b % 16) (omega arith) cc,
        decode_pairs_complete bs s a cc,
      )
      (ap (λ x. some (x ∷ bs))
        (join_nibbles (b / 16) (b % 16) (omega arith) (omega arith) ∙ omega arith))

-- Decoding a string of `s` with room for `cap` bytes gives `bs` exactly when `bs` are bytes, their
-- encoding is `s` in lower case, and they fit the room.
pub hex_to_bytes_iff :
    (s bs : List ℕ) (cap : ℕ)
    → (hex_to_bytes s cap ≡ some bs)
      ↔ (All IsByte bs × (hex_encode bs ≡ map lower s) × (length bs ≤ cap))
unfolding hex_to_bytes
hex_to_bytes_iff s bs cap = (sound, complete)
  where
    sizes : hex_encode bs ≡ map lower s → 2 * length bs ≡ length s
    sizes e = omega (arith, length-hex_encode bs, ap length e, length-map s lower)

    sound :
        hex_to_bytes s cap ≡ some bs
        → All IsByte bs × (hex_encode bs ≡ map lower s) × (length bs ≤ cap)
    sound e = let (a, f) = decode_pairs_sound s bs (ground arith) in (a, f, ground (arith, sizes f))

    complete :
        All IsByte bs × (hex_encode bs ≡ map lower s) × (length bs ≤ cap)
        → hex_to_bytes s cap ≡ some bs
    complete (a, f, fits) = ground (arith, sizes f, decode_pairs_complete bs s a f)

pub hex_to_bytes-length :
    (s bs : List ℕ) (cap : ℕ) → hex_to_bytes s cap ≡ some bs → length s ≡ 2 * length bs
hex_to_bytes-length s bs cap e =
    let (_, same, _) = (hex_to_bytes_iff s bs cap).0 e in
    omega (arith, length-hex_encode bs, ap length same, length-map s lower)

lower_table : all_below 16 (λ d. lower (hex_char d) == hex_char d) ≡ true
unfolding all_below
lower_table = refl

lower-hex_char : (d : ℕ) → d < 16 → lower (hex_char d) ≡ hex_char d
lower-hex_char d h =
    (==_iff _ _).0 (all_below_sound 16 (λ d. lower (hex_char d) == hex_char d) lower_table d h)

lower-hex_encode : (bs : List ℕ) → All IsByte bs → map lower (hex_encode bs) ≡ hex_encode bs
unfolding hex_encode
lower-hex_encode [] a = refl
lower-hex_encode (b ∷ bs) (h, a) =
    let tail : map lower (hex_encode bs) ≡ hex_encode bs = lower-hex_encode bs a in
    cc (lower-hex_char (b / 2 ^ 4) (omega arith), lower-hex_char (b % 2 ^ 4) (omega arith), tail)

pub hex_to_bytes-hex_encode :
    (bs : List ℕ) (cap : ℕ)
    → All IsByte bs
    → length bs ≤ cap
    → hex_to_bytes (hex_encode bs) cap ≡ some bs
hex_to_bytes-hex_encode bs cap a fits =
    (hex_to_bytes_iff (hex_encode bs) bs cap).1 (a, sym (lower-hex_encode bs a), fits)

pub hex_decode-hex_encode :
    (bs : List ℕ) (n : ℕ)
    → All IsByte bs
    → length bs ≡ n
    → hex_decode (some (hex_encode bs)) n ≡ some bs
unfolding hex_decode
hex_decode-hex_encode bs n a size =
    let even : (length (hex_encode bs) == n * 2) ≡ true =
      (==_iff _ _).1 (omega (arith, length-hex_encode bs)) in
    let back : hex_to_bytes (hex_encode bs) n ≡ some bs =
      hex_to_bytes-hex_encode bs n a (omega arith) in
    let fits : (length bs == n) ≡ true = (==_iff _ _).1 size in rw (even, back, fits) refl
