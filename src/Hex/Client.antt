-- ===== src/Hex/Client.antt =====
-- The hex functions that tools/esp-ctl/src/esp-ctl.c defines for itself, and that they agree with
-- those of the firmware.
use espshell.Prelude.{
  ◌>>=◌, ℕ, zero, suc, ◌+◌, ◌-◌, ◌*◌, ◌/◌, ◌%◌, ◌^◌, ◌≡◌, refl, ◌&&◌, List, [], ◌∷◌, Option, none,
  some, arith, leb, ◌==◌, not, if◌then◌else◌, length, get_or, codes, bit_or, Option-cases,
  Bool-cases, inl, inr,
}
use espshell.Hex
use espshell.Hex.RoundTrip.{hex_to_bytes-length}

pub hex_nibble : ℕ → Option ℕ
hex_nibble c =
    if leb b'0' c && leb c b'9'
    then some (c - b'0')
    else if leb b'a' c && leb c b'f'
    then some (c - b'a' + 10)
    else if leb b'A' c && leb c b'F'
    then some (c - b'A' + 10)
    else none

-- The loop of `hex_decode`, by the rounds that are left. The caller has seen that the string has two
-- digits for each.
decode_loop : ℕ → List ℕ → Option (List ℕ)
decode_loop (suc n) (c ∷ d ∷ s) = do
  hi ← hex_nibble c
  lo ← hex_nibble d
  out ← decode_loop n s
  some (bit_or (hi * 2 ^ 4) lo % 2 ^ 8 ∷ out)
decode_loop n s = some []

pub hex_decode : Option (List ℕ) → ℕ → Option (List ℕ)
hex_decode none expect = none
hex_decode (some s) expect = if not (length s == expect * 2) then none else decode_loop expect s

unfoldable pub hex_encode : List ℕ → List ℕ
hex_encode [] = []
hex_encode (b ∷ bs) =
    let digits = codes "0123456789abcdef" in
    get_or digits (b / 2 ^ 4) 0 ∷ get_or digits (b % 2 ^ 4) 0 ∷ hex_encode bs

hex_nibble_same : (c : ℕ) → hex_nibble c ≡ Hex.hex_nibble c
unfolding hex_nibble Hex.hex_nibble
hex_nibble_same c = refl

decode_loop_same : (n : ℕ) (s : List ℕ) → length s ≡ n * 2 → decode_loop n s ≡ Hex.decode_pairs s
unfolding decode_loop Hex.decode_pairs
decode_loop_same zero [] e = refl
decode_loop_same zero (c ∷ s) e = absurd (omega arith)
decode_loop_same (suc n) [] e = absurd (omega arith)
decode_loop_same (suc n) (c ∷ []) e = absurd (omega arith)
decode_loop_same (suc n) (c ∷ d ∷ s) e =
    rw (hex_nibble_same c, hex_nibble_same d, decode_loop_same n s (omega arith))

hex_decode_same :
    (s : List ℕ) (expect : ℕ)
    → length s ≡ expect * 2
    → Hex.hex_decode (some s) expect ≡ Hex.decode_pairs s
unfolding Hex.hex_decode
hex_decode_same s expect e = elim (Option-cases (Hex.decode_pairs s)) [
  | inl bad ↦ ground (arith, whole)
  | inr (out, good) ↦ ground (arith, whole, hex_to_bytes-length s out expect)
]
  where
    whole : Hex.hex_to_bytes s expect ≡ Hex.decode_pairs s
    whole = unfold Hex.hex_to_bytes in ground arith

decode_same : (s : Option (List ℕ)) (expect : ℕ) → hex_decode s expect ≡ Hex.hex_decode s expect
unfolding hex_decode
decode_same none expect = unfold Hex.hex_decode in refl
decode_same (some s) expect = elim (Bool-cases (length s == expect * 2)) [
  | inl even ↦
      let size : length s ≡ expect * 2 = ground arith in
      rw (even, hex_decode_same s expect size) (decode_loop_same expect s size)
  | inr odd ↦ rw odd (unfold Hex.hex_decode in rw odd)
]

encode_same : (bs : List ℕ) → hex_encode bs ≡ Hex.hex_encode bs
unfolding hex_encode Hex.hex_encode
encode_same [] = refl
encode_same (b ∷ bs) = rw (encode_same bs)

-- `hex_decode` and `hex_encode` of the client agree with those of the firmware: on any string, a null
-- pointer included, with any expected size, and on any bytes.
pub hex_functions_agree :
    (s : Option (List ℕ)) (expect : ℕ) (bs : List ℕ)
    → (hex_decode s expect ≡ Hex.hex_decode s expect) × (hex_encode bs ≡ Hex.hex_encode bs)
hex_functions_agree s expect bs = (decode_same s expect, encode_same bs)
