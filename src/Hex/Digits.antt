-- ===== src/Hex/Digits.antt =====
-- What the decoder of components/core/src/hex.c accepts, digit by digit.
use espshell.Prelude.{
  ℕ, ◌+◌, ◌*◌, ◌%◌, ◌^◌, ◌<◌, ◌≡◌, refl, true, ◌&&◌, some, arith, ltb, leb, ◌==◌, ==_iff,
  if◌then◌else◌, all_below, all_below_sound, bit_or, bit_or_low,
}
use espshell.Hex.{hex_nibble, hex_char}

-- `A` to `F` in lower case; any other byte as it is.
abbrev pub lower : ℕ → ℕ
lower c = if leb b'A' c && leb c b'F' then c + 32 else c

abbrev digit_code : ℕ → ℕ
digit_code d = if ltb d 10 then d + b'0' else d + 87

hex_char_table : all_below 16 (λ d. hex_char d == digit_code d) ≡ true
unfolding all_below
hex_char_table = refl

hex_char_code : (d : ℕ) → d < 16 → hex_char d ≡ digit_code d
hex_char_code d h = (==_iff _ _).0 (all_below_sound 16 _ hex_char_table d h)

pub hex_nibble-some : (c d : ℕ) → hex_nibble c ≡ some d → (d < 16) × (hex_char d ≡ lower c)
unfolding hex_nibble
hex_nibble-some c d e =
    let fits : d < 16 = ground arith in (fits, rw (hex_char_code d fits) (ground arith))

pub hex_nibble-of_char : (c d : ℕ) → d < 16 → hex_char d ≡ lower c → hex_nibble c ≡ some d
unfolding hex_nibble
hex_nibble-of_char c d h e =
    let code : digit_code d ≡ lower c = rw (hex_char_code d h) at e in ground arith

-- The byte of two nibbles, and the nibbles of a byte.
pub join_nibbles : (hi lo : ℕ) → hi < 16 → lo < 16 → bit_or (hi * 2 ^ 4) lo % 2 ^ 8 ≡ hi * 16 + lo
join_nibbles hi lo h l = omega (arith, bit_or_low 4 hi lo l)
