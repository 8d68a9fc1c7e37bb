-- ===== src/Ctl/Upload/Chunks.antt =====
-- How `do_ota_upload` of tools/esp-ctl/src/esp-ctl.c cuts a file into lines.
use espshell.Prelude.{
  ℕ, zero, suc, ◌+◌, ◌*◌, ◌/◌, ◌%◌, ◌^◌, ◌≤◌, ◌<◌, ◌≡◌, refl, ap, ◌∙◌, true, List, [], ◌∷◌, ◌++◌,
  ltb, leb, ◌&&◌, length, length-append, length-take, length-drop, take, drop, none,
  take-append-drop, take_all, codes, All, All-append, All-imp, IsByte, all_below, all_below_sound,
  arith,
}
use espshell.Clib.{print_int}
use espshell.Clib.Numbers.{IsPlain, IsDigit, print_int-IsDigit, print_int-nonempty, print_int-fits}
use espshell.Hex
use espshell.Hex.{hex_char}
use espshell.Hex.Client
use espshell.Hex.RoundTrip.{length-hex_encode}
use espshell.Cmd.Tokenizer.Words.{words_from}
use espshell.Cmd.Tokenizer.Plain.{words_plain, words_last}
use espshell.Cmd.Tokenizer.InPlace.{IsText}
use espshell.Ota.Commit.{concat}
use espshell.Ctl.Upload.{chunk_hex, data_line, begin_line}

-- The chunks of the rounds of the loop.
unfoldable pub pieces : ℕ → List ℕ → List (List ℕ)
pieces rounds [] = []
pieces zero (b ∷ left) = []
pieces (suc rounds) (b ∷ left) = take 504 (b ∷ left) ∷ pieces rounds (drop 504 (b ∷ left))

pub concat-pieces :
    (rounds : ℕ) (left : List ℕ) → length left ≤ rounds → concat (pieces rounds left) ≡ left
unfolding pieces
concat-pieces rounds [] h = refl
concat-pieces zero (b ∷ left) h = absurd (omega arith)
concat-pieces (suc rounds) (b ∷ left) h =
    ap (λ rest. take 504 (b ∷ left) ++ rest)
      (concat-pieces rounds (drop 504 (b ∷ left)) (omega (arith, length-drop 503 left)))
    ∙ take-append-drop 504 (b ∷ left)

abbrev pub IsChunk : List ℕ → Type 0
IsChunk c = (0 < length c) × (length c ≤ 504)

pub take-IsChunk : (b : ℕ) (left : List ℕ) → IsChunk (take 504 (b ∷ left))
take-IsChunk b left = (omega (arith, length-take 503 left), omega (arith, length-take 503 left))

pub pieces-IsChunk : (rounds : ℕ) (left : List ℕ) → All IsChunk (pieces rounds left)
unfolding pieces
pieces-IsChunk rounds [] = tt
pieces-IsChunk zero (b ∷ left) = tt
pieces-IsChunk (suc rounds) (b ∷ left) =
    (take-IsChunk b left, pieces-IsChunk rounds (drop 504 (b ∷ left)))

-- A chunk's digits all fit.
chunk_hex-encode :
    (off : ℕ) (chunk : List ℕ)
    → off + 2 * length chunk ≤ 1023
    → chunk_hex off chunk ≡ Hex.hex_encode chunk
unfolding chunk_hex Hex.hex_encode
chunk_hex-encode off [] h = refl
chunk_hex-encode off (b ∷ chunk) h =
    let room : ltb (off + 2) 1024 ≡ true = ground arith in
    rw room (
      ap (λ rest. hex_char (b / 2 ^ 4) ∷ hex_char (b % 2 ^ 4) ∷ rest)
        (chunk_hex-encode (off + 2) chunk (omega arith)))

plain_table : all_below 16 (λ d. leb 35 (hex_char d) && leb (hex_char d) 126) ≡ true
unfolding all_below
plain_table = refl

hex_char-IsPlain : (d : ℕ) → d < 16 → IsPlain (hex_char d)
hex_char-IsPlain d h =
    let within =
      all_below_sound 16 (λ d. leb 35 (hex_char d) && leb (hex_char d) 126) plain_table d h in
    digit (hex_char d) within
  where
    digit : (c : ℕ) → (leb 35 c && leb c 126) ≡ true → IsPlain c
    digit c e = ground arith

hex_encode-IsPlain : (bs : List ℕ) → All IsByte bs → All IsPlain (Hex.hex_encode bs)
unfolding Hex.hex_encode
hex_encode-IsPlain [] a = tt
hex_encode-IsPlain (b ∷ bs) (h, a) = (
  hex_char-IsPlain (b / 2 ^ 4) (omega arith),
  (hex_char-IsPlain (b % 2 ^ 4) (omega arith), hex_encode-IsPlain bs a),
)

digits-IsPlain : (s : List ℕ) → All IsDigit s → All IsPlain s
digits-IsPlain s a = All-imp IsDigit IsPlain s (λ c h. (omega arith, omega arith)) a

-- A line that is a text: plain words and spaces.
abbrev IsLine : ℕ → Type 0
IsLine c = (32 ≤ c) × (c ≤ 126)

plain-IsLine : (s : List ℕ) → All IsPlain s → All IsLine s
plain-IsLine s a = All-imp IsPlain IsLine s (λ c h. (omega arith, omega arith)) a

line-IsText : (s : List ℕ) → All IsLine s → IsText s
line-IsText [] a = tt
line-IsText (c ∷ s) (h, a) = (omega arith, line-IsText s a)

-- The last word of a line, when it is not empty.
last_words :
    (room : ℕ) (s : List ℕ) → All IsPlain s → 0 < length s → words_from (suc (suc room)) s ≡ s ∷ []
last_words room [] a h = absurd (omega arith)
last_words room (c ∷ s) a h = words_last (suc room) c s a

middle_words :
    (room : ℕ) (s t : List ℕ)
    → All IsPlain s
    → 0 < length s
    → words_from (suc room) (s ++ (b' ' ∷ t)) ≡ s ∷ words_from room t
middle_words room [] t a h = absurd (omega arith)
middle_words room (c ∷ s) t a h = words_plain room c s t a

pub data_line-words :
    (chunk : List ℕ)
    → All IsByte chunk
    → IsChunk chunk
    → IsText (data_line chunk)
      × (words_from 16 (data_line chunk) ≡ codes "OTA_DATA" ∷ Hex.hex_encode chunk ∷ [])
unfolding data_line
data_line-words chunk bytes (some_bytes, short) =
    let hex = Hex.hex_encode chunk in
    let plain = hex_encode-IsPlain chunk bytes in
    let whole = chunk_hex-encode 9 chunk (omega arith) in
    (
      line-IsText (codes "OTA_DATA " ++ chunk_hex 9 chunk) (
          All-append IsLine (codes "OTA_DATA ") (chunk_hex 9 chunk) (omega arith)
            (rw whole (plain-IsLine hex plain))),
      ap (λ h. words_from 16 (codes "OTA_DATA " ++ h)) whole
          ∙ (words_plain 15 b'O' (codes "TA_DATA") hex (omega arith)
              ∙ ap (λ ws. codes "OTA_DATA" ∷ ws)
                  (last_words 13 hex plain (omega (arith, length-hex_encode chunk)))),
    )

abbrev begin_text : ℕ → List ℕ → List ℕ
begin_text size sha = codes "OTA_BEGIN " ++ (print_int size ++ (codes " " ++ Hex.hex_encode sha))

begin_line-text :
    (size : ℕ) (sha : List ℕ)
    → size < 2 ^ 32
    → length sha ≡ 32
    → begin_line size sha ≡ begin_text size sha
unfolding begin_line
begin_line-text size sha small full =
    ap (λ h. take 1023 (codes "OTA_BEGIN " ++ (print_int size ++ (codes " " ++ h))))
      ((Client.hex_functions_agree none 0 sha).1)
    ∙ take_all 1023 (begin_text size sha) (
        omega (
          arith,
          length-append (print_int size) (codes " " ++ Hex.hex_encode sha),
          print_int-fits size small,
          length-hex_encode sha,
        ))

pub begin_line-words :
    (size : ℕ) (sha : List ℕ)
    → size < 2 ^ 32
    → All IsByte sha
    → length sha ≡ 32
    → IsText (begin_line size sha)
      × (words_from 16 (begin_line size sha)
          ≡ codes "OTA_BEGIN" ∷ print_int size ∷ Hex.hex_encode sha ∷ [])
begin_line-words size sha small bytes full =
    let hex = Hex.hex_encode sha in
    let plain = hex_encode-IsPlain sha bytes in
    let number = digits-IsPlain (print_int size) (print_int-IsDigit size) in
    let text = begin_line-text size sha small full in
    (
      rw text (
          line-IsText (begin_text size sha) (
            All-append IsLine (codes "OTA_BEGIN ") (print_int size ++ (codes " " ++ hex))
              (omega arith)
              (All-append IsLine (print_int size) (codes " " ++ hex)
                (plain-IsLine (print_int size) number)
                (All-append IsLine (codes " ") hex (omega arith) (plain-IsLine hex plain))))),
      ap (words_from 16) text
          ∙ (words_plain 15 b'O' (codes "TA_BEGIN") (print_int size ++ (codes " " ++ hex))
                (omega arith)
              ∙ ap (λ ws. codes "OTA_BEGIN" ∷ ws)
                  (middle_words 14 (print_int size) hex number (print_int-nonempty size)
                    ∙ ap (λ ws. print_int size ∷ ws)
                        (last_words 12 hex plain (omega (arith, length-hex_encode sha))))),
    )

pub end_line-words :
    IsText (codes "OTA_END") × (words_from 16 (codes "OTA_END") ≡ codes "OTA_END" ∷ [])
end_line-words = (omega arith, words_last 15 b'O' (codes "TA_END") (omega arith))
