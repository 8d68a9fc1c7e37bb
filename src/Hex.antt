-- ===== src/Hex.antt =====
-- components/core/src/hex.c: hex encoding and decoding, shared by all firmware components, and the
-- copies of the three functions in tools/esp-ctl/src/esp-ctl.c.
-- A C string is the list of its bytes before the terminator; -1 and false are `none`. What a
-- failed call leaves in `out` is not modelled: no caller reads it.
pub mod Digits
pub mod RoundTrip
pub mod Client
mod Tests
use espshell.Prelude.{
  ◌>>=◌, ℕ, ◌≡◌, refl, zero, suc, ◌+◌, ◌-◌, ◌*◌, ◌/◌, ◌%◌, ◌^◌, Bool, true, false, ◌&&◌, ◌||◌, not,
  List, [], ◌∷◌, Option, none, some, ltb, leb, ◌==◌, if◌then◌else◌, length, get_or, codes, bit_or,
}

abbrev hex_chars : List ℕ
hex_chars = codes "0123456789abcdef"

unfoldable pub hex_nibble : ℕ → Option ℕ
hex_nibble c =
    if leb b'0' c && leb c b'9'
    then some (c - b'0')
    else if leb b'a' c && leb c b'f'
    then some (c - b'a' + 10)
    else if leb b'A' c && leb c b'F'
    then some (c - b'A' + 10)
    else none

-- `in[i] >> 4` and `in[i] & 0x0f`.
abbrev pub hex_char : ℕ → ℕ
hex_char d = get_or hex_chars d 0

unfoldable pub hex_encode : List ℕ → List ℕ
hex_encode [] = []
hex_encode (b ∷ bs) = hex_char (b / 2 ^ 4) ∷ hex_char (b % 2 ^ 4) ∷ hex_encode bs

-- The loop over digit pairs. The caller has seen that the length is even.
unfoldable pub decode_pairs : List ℕ → Option (List ℕ)
decode_pairs [] = some []
decode_pairs (c ∷ []) = none
decode_pairs (c ∷ d ∷ s) = do
  hi ← hex_nibble c
  lo ← hex_nibble d
  rest ← decode_pairs s
  some (bit_or (hi * 2 ^ 4) lo % 2 ^ 8 ∷ rest)

unfoldable pub hex_to_bytes : List ℕ → ℕ → Option (List ℕ)
hex_to_bytes s cap =
    if not (length s % 2 == 0)
    then none
    else if ltb cap (length s / 2)
    then none
    else decode_pairs s

-- `none` is a null pointer. `hex_to_bytes` answers the number of bytes, which is compared.
unfoldable pub hex_decode : Option (List ℕ) → ℕ → Option (List ℕ)
unfolding hex_to_bytes
hex_decode none expect = none
hex_decode (some s) expect =
    if not (length s == expect * 2)
    then none
    else (hex_to_bytes s expect >>= λ out. if length out == expect then some out else none)
