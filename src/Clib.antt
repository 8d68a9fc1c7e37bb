-- ===== src/Clib.antt =====
-- What the sources use of the C library on strings: `strtoul` in base 10 and the conversions of
-- `snprintf`. `unsigned long` has 32 bits, as on the device.
pub mod Numbers
use espshell.Prelude.{
  ℕ, zero, suc, ◌+◌, ◌-◌, ◌*◌, ◌/◌, ◌%◌, ◌^◌, Bool, true, false, ◌++◌, ◌&&◌, ◌||◌, List, [], ◌∷◌,
  ltb, leb, ◌==◌, if◌then◌else◌, map, bytes_eq,
}

-- `isspace` in the C locale.
abbrev pub is_space : ℕ → Bool
is_space c = c == 0x20 || (leb 9 c && leb c 13)

-- `%d` and `%u` of a number that is not negative, with fuel for the digits.
unfoldable pub print_digits : ℕ → ℕ → List ℕ → List ℕ
print_digits zero n behind = behind
print_digits (suc fuel) n behind =
    let digits = (b'0' + n % 10) ∷ behind in
    if ltb n 10 then digits else print_digits fuel (n / 10) digits

abbrev pub print_int : ℕ → List ℕ
print_int n = print_digits (suc n) n []

-- The value of the digits in front of the text, above `acc`.
unfoldable pub read_digits : List ℕ → ℕ → ℕ
read_digits [] acc = acc
read_digits (c ∷ s) acc =
    let rest = read_digits s (acc * 10 + (c - b'0')) in
    if leb b'0' c && leb c b'9' then rest else acc

abbrev pub ulong_max : ℕ
ulong_max = 2 ^ 32 - 1

abbrev clamp : ℕ → ℕ
clamp n = if ltb ulong_max n then ulong_max else n

-- A sign `-` negates the value in the type; one that is too large stays the largest.
abbrev negate : ℕ → ℕ
negate n = if ltb ulong_max n then ulong_max else (2 ^ 32 - n) % 2 ^ 32

unfoldable pub read_signed : List ℕ → ℕ
unfolding read_digits
read_signed [] = 0
read_signed (c ∷ s) =
    if c == b'-'
    then negate (read_digits s 0)
    else if c == b'+'
    then clamp (read_digits s 0)
    else clamp (read_digits (c ∷ s) 0)

unfoldable pub strtoul : List ℕ → ℕ
unfolding read_signed
strtoul [] = 0
strtoul (c ∷ s) = let rest = strtoul s in if is_space c then rest else read_signed (c ∷ s)

-- A C string in a buffer: what stands before the first zero byte.
unfoldable pub c_string : List ℕ → List ℕ
c_string [] = []
c_string (c ∷ s) = if c == 0 then [] else c ∷ c_string s

-- `strncmp(s, prefix, strlen(prefix)) == 0`.
unfoldable pub starts_with : List ℕ → List ℕ → Bool
starts_with [] s = true
starts_with (p ∷ prefix) [] = false
starts_with (p ∷ prefix) (c ∷ s) = c == p && starts_with prefix s

abbrev pub add_word : List ℕ → List (List ℕ) → List (List ℕ)
add_word [] ws = ws
add_word (c ∷ word) ws = (c ∷ word) ∷ ws

-- The tokens that `strtok` gives with `" "`, `word` being what is read of the first.
unfoldable pub strtok_words : List ℕ → List ℕ → List (List ℕ)
strtok_words word [] = add_word word []
strtok_words word (c ∷ s) =
    let next = strtok_words [] s in
    let more = strtok_words (word ++ (c ∷ [])) s in if c == b' ' then add_word word next else more

abbrev pub is_digit : ℕ → Bool
is_digit c = leb b'0' c && leb c b'9'

unfoldable pub skip_digits : List ℕ → List ℕ
skip_digits [] = []
skip_digits (c ∷ s) = let rest = skip_digits s in if is_digit c then rest else c ∷ s

unfoldable pub skip_spaces : List ℕ → List ℕ
skip_spaces [] = []
skip_spaces (c ∷ s) = let rest = skip_spaces s in if is_space c then rest else c ∷ s

-- A `long` or an `int` is its bits; it is negative from `2 ^ 31` on. What does not fit becomes the
-- largest or the smallest value.
abbrev pub is_negative : ℕ → Bool
is_negative n = leb (2 ^ 31) n

abbrev to_long : Bool → ℕ → ℕ
to_long minus n =
    if minus
    then (if ltb (2 ^ 31) n then 2 ^ 31 else (2 ^ 32 - n) % 2 ^ 32)
    else if leb (2 ^ 31) n
    then 2 ^ 31 - 1
    else n

-- The number at the front of `s`, and the text behind it; without one, 0 and the whole text `start`.
unfoldable pub signed_number : List ℕ → Bool → List ℕ → ℕ × List ℕ
unfolding read_digits skip_digits
signed_number start minus [] = (0, start)
signed_number start minus (c ∷ s) =
    if is_digit c then (to_long minus (read_digits (c ∷ s) 0), skip_digits (c ∷ s)) else (0, start)

unfoldable pub number_after_sign : List ℕ → List ℕ → ℕ × List ℕ
unfolding signed_number
number_after_sign start [] = (0, start)
number_after_sign start (c ∷ s) =
    if c == b'-'
    then signed_number start true s
    else if c == b'+'
    then signed_number start false s
    else signed_number start false (c ∷ s)

-- `strtol` in base 10: the value and what `end` points to.
unfoldable pub strtol : List ℕ → ℕ × List ℕ
unfolding number_after_sign skip_spaces
strtol s = number_after_sign s (skip_spaces s)

unfoldable pub atoi : List ℕ → ℕ
unfolding strtol
atoi s = (strtol s).0

-- `strcasecmp(a, b) == 0`.
abbrev pub to_lower : ℕ → ℕ
to_lower c = if leb b'A' c && leb c b'Z' then c + 32 else c

unfoldable pub strcaseeq : List ℕ → List ℕ → Bool
strcaseeq a b = bytes_eq (map to_lower a) (map to_lower b)

-- `%d`.
unfoldable pub print_signed : ℕ → List ℕ
print_signed n = if is_negative n then b'-' ∷ print_int (2 ^ 32 - n) else print_int n

-- The parts of a format with its arguments.
abbrev pub format : List (List ℕ) → List ℕ
format [] = []
format (part ∷ parts) = part ++ format parts
