-- ===== src/Hex/Tests.antt =====
-- Runs of the hex functions, and the theorems at concrete inputs.
use espshell.Prelude.{ℕ, ◌≡◌, refl, [], ◌∷◌, none, some, codes, ◌↔◌, All, IsByte, map, length, ◌≤◌}
use espshell.Hex.{hex_encode, decode_pairs, hex_to_bytes, hex_decode, hex_nibble}
use espshell.Hex.Digits.{lower}
use espshell.Hex.RoundTrip.{hex_to_bytes_iff}

encode_run : hex_encode (0 ∷ 255 ∷ 0x5a ∷ []) ≡ codes "00ff5a"
unfolding hex_encode
encode_run = refl

decode_run : hex_to_bytes (codes "00Ff5a") 3 ≡ some (0 ∷ 255 ∷ 0x5a ∷ [])
unfolding hex_to_bytes decode_pairs hex_nibble
decode_run = refl

decode_odd : hex_to_bytes (codes "00F") 3 ≡ none
unfolding hex_to_bytes
decode_odd = refl

decode_no_room : hex_decode (some (codes "00ff")) 1 ≡ none
unfolding hex_decode
decode_no_room = refl

hex_to_bytes_iff_example : (hex_to_bytes (codes "0aFF") 2 ≡ some (10 ∷ 255 ∷ [])) ↔ (
    All IsByte (10 ∷ 255 ∷ [])
    × (hex_encode (10 ∷ 255 ∷ []) ≡ map lower (codes "0aFF"))
    × (length {A = ℕ} (10 ∷ 255 ∷ []) ≤ 2))
hex_to_bytes_iff_example = hex_to_bytes_iff (codes "0aFF") (10 ∷ 255 ∷ []) 2
