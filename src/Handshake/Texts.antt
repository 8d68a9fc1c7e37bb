-- ===== src/Handshake/Texts.antt =====
-- The lines of the handshake between components/core/src/net.c and tools/esp-ctl/src/esp-ctl.c as texts:
-- what the readers of each side find in the lines of the other.
use espshell.Prelude.{
  ℕ, ◌+◌, ◌/◌, ◌%◌, ◌^◌, ◌≤◌, ◌<◌, ◌≡◌, ◌≢◌, refl, ap, ap₂, sym, ◌∙◌, true, false, List, [], ◌∷◌,
  ◌++◌, append-nil, append_assoc, some, none, ◌==◌, leb, ◌&&◌, length, length-append, take,
  take_all, codes, All, All-append, All-imp, IsByte, arith, all_below, all_below_sound, bytes_eq,
}
use espshell.Clib.{c_string, starts_with, strtok_words}
use espshell.Hex
use espshell.Hex.{hex_char}
use espshell.Hex.Client
use espshell.Hex.RoundTrip.{length-hex_encode, hex_decode-hex_encode}
use espshell.Net.{strip_cr}
use espshell.Handshake.{hello_line, read_fields, auth_fields}
use espshell.Handshake.Client.{read_hello, auth_line}

-- A printing character other than a space.
abbrev pub IsGraph : ℕ → Type 0
IsGraph c = (33 ≤ c) × (c ≤ 126)

-- A printing character or a space.
abbrev pub IsPrint : ℕ → Type 0
IsPrint c = (32 ≤ c) × (c ≤ 126)

graph-IsPrint : (s : List ℕ) → All IsGraph s → All IsPrint s
graph-IsPrint s g = All-imp IsGraph IsPrint s (λ c h. (omega arith, omega arith)) g

graph_table : all_below 16 (λ d. leb 33 (hex_char d) && leb (hex_char d) 126) ≡ true
unfolding all_below
graph_table = refl

hex_char-IsGraph : (d : ℕ) → d < 16 → IsGraph (hex_char d)
hex_char-IsGraph d h =
    let within =
      all_below_sound 16 (λ d. leb 33 (hex_char d) && leb (hex_char d) 126) graph_table d h in
    digit (hex_char d) within
  where
    digit : (c : ℕ) → (leb 33 c && leb c 126) ≡ true → IsGraph c
    digit c e = ground arith

pub hex_encode-IsGraph : (bs : List ℕ) → All IsByte bs → All IsGraph (Hex.hex_encode bs)
unfolding Hex.hex_encode
hex_encode-IsGraph [] a = tt
hex_encode-IsGraph (b ∷ bs) (h, a) = (
  hex_char-IsGraph (b / 2 ^ 4) (omega arith),
  (hex_char-IsGraph (b % 2 ^ 4) (omega arith), hex_encode-IsGraph bs a),
)

pub c_string-IsPrint : (s : List ℕ) → All IsPrint s → c_string s ≡ s
unfolding c_string
c_string-IsPrint [] a = refl
c_string-IsPrint (c ∷ s) (h, a) =
    let more : (c == 0) ≡ false = ground arith in rw more (ap (λ t. c ∷ t) (c_string-IsPrint s a))

pub strip_cr-IsPrint : (s : List ℕ) → All IsPrint s → strip_cr s ≡ s
unfolding strip_cr
strip_cr-IsPrint [] a = refl
strip_cr-IsPrint (c ∷ []) (h, a) = let other : (c == b'\r') ≡ false = ground arith in rw other refl
strip_cr-IsPrint (c ∷ d ∷ s) (h, a) = ap (λ t. c ∷ t) (strip_cr-IsPrint (d ∷ s) a)

pub no_newline : (s : List ℕ) → All IsPrint s → All (λ c. c ≢ b'\n') s
no_newline s a = All-imp IsPrint (λ c. c ≢ b'\n') s (λ c h e. omega arith) a

-- A word of printing characters, up to a space or to the end of the text.
strtok_graph :
    (g word s : List ℕ) → All IsGraph g → strtok_words word (g ++ s) ≡ strtok_words (word ++ g) s
unfolding strtok_words
strtok_graph [] word s a = ap (λ w. strtok_words w s) (sym (append-nil word))
strtok_graph (c ∷ g) word s (h, a) =
    let letter : (c == b' ') ≡ false = ground arith in
    rw letter (
      strtok_graph g (word ++ (c ∷ [])) s a
      ∙ ap (λ w. strtok_words w s) (append_assoc word (c ∷ []) g))

-- A word that is not empty, and a space behind it.
strtok_word :
    (c : ℕ) (g s : List ℕ)
    → All IsGraph (c ∷ g)
    → strtok_words [] ((c ∷ g) ++ (b' ' ∷ s)) ≡ (c ∷ g) ∷ strtok_words [] s
strtok_word c g s a = strtok_graph (c ∷ g) [] (b' ' ∷ s) a ∙ unfold strtok_words in refl

strtok_last : (c : ℕ) (g : List ℕ) → All IsGraph (c ∷ g) → strtok_words [] (c ∷ g) ≡ (c ∷ g) ∷ []
strtok_last c g a =
    ap (strtok_words []) (sym (append-nil (c ∷ g)))
    ∙ (strtok_graph (c ∷ g) [] [] a ∙ unfold strtok_words in refl)

abbrev pub auth_words : List ℕ → List ℕ → List ℕ
auth_words c h = codes "AUTH cnonce=" ++ (c ++ (codes " hmac=" ++ h))

client_encode : (bs : List ℕ) → Client.hex_encode bs ≡ Hex.hex_encode bs
client_encode bs = (Client.hex_functions_agree none 0 bs).1

graphic : (xs ys : List ℕ) → All IsGraph xs → All IsGraph ys → All IsGraph (xs ++ ys)
graphic xs ys a b = All-append IsGraph xs ys a b

strtok_auth :
    (c h : List ℕ)
    → All IsGraph c
    → All IsGraph h
    → strtok_words [] (auth_words c h)
      ≡ codes "AUTH" ∷ (codes "cnonce=" ++ c) ∷ (codes "hmac=" ++ h) ∷ []
strtok_auth c h gc gh =
    strtok_word b'A' (codes "UTH") (codes "cnonce=" ++ (c ++ (codes " hmac=" ++ h))) (omega arith)
    ∙ ap (λ ws. codes "AUTH" ∷ ws)
        (ap (strtok_words []) (sym (append_assoc (codes "cnonce=") c (codes " hmac=" ++ h)))
          ∙ (strtok_word b'c' (codes "nonce=" ++ c) (codes "hmac=" ++ h)
                (graphic (codes "cnonce=") c (omega arith) gc)
              ∙ ap (λ ws. (codes "cnonce=" ++ c) ∷ ws)
                  (strtok_last b'h' (codes "mac=" ++ h)
                    (graphic (codes "hmac=") h (omega arith) gh))))

auth_fields_lem :
    (c h : List ℕ)
    → auth_fields (codes "AUTH" ∷ (codes "cnonce=" ++ c) ∷ (codes "hmac=" ++ h) ∷ []) ≡ some (c, h)
unfolding auth_fields read_fields starts_with bytes_eq
auth_fields_lem c h = refl

spaced : (xs ys : List ℕ) → All IsPrint xs → All IsPrint ys → All IsPrint (xs ++ ys)
spaced xs ys a b = All-append IsPrint xs ys a b

pub auth_words-IsPrint :
    (c h : List ℕ) → All IsGraph c → All IsGraph h → All IsPrint (auth_words c h)
auth_words-IsPrint c h gc gh =
    spaced (codes "AUTH cnonce=") (c ++ (codes " hmac=" ++ h)) (omega arith) (
      spaced c (codes " hmac=" ++ h) (graph-IsPrint c gc)
        (spaced (codes " hmac=") h (omega arith) (graph-IsPrint h gh)))

pub length-auth_words : (c h : List ℕ) → length (auth_words c h) ≡ 18 + length c + length h
length-auth_words c h =
    omega (arith, length-append c (codes " hmac=" ++ h), length-append (codes " hmac=") h)

-- What the client sends is not cut.
pub auth_line-words :
    (cnonce hmac : List ℕ)
    → length cnonce ≡ 32
    → length hmac ≡ 32
    → auth_line cnonce hmac ≡ auth_words (Hex.hex_encode cnonce) (Hex.hex_encode hmac)
unfolding auth_line
auth_line-words cnonce hmac sc sh =
    let c = Hex.hex_encode cnonce in
    let h = Hex.hex_encode hmac in
    ap₂ (λ x y. take 255 (auth_words x y)) (client_encode cnonce) (client_encode hmac)
    ∙ take_all 255 (auth_words c h)
        (omega (arith, length-auth_words c h, length-hex_encode cnonce, length-hex_encode hmac))

-- The device finds both fields.
pub auth_words-fields :
    (c h : List ℕ)
    → All IsGraph c
    → All IsGraph h
    → auth_fields (strtok_words [] (c_string (auth_words c h))) ≡ some (c, h)
auth_words-fields c h gc gh =
    ap (λ s. auth_fields (strtok_words [] s))
      (c_string-IsPrint (auth_words c h) (auth_words-IsPrint c h gc gh))
    ∙ (ap auth_fields (strtok_auth c h gc gh) ∙ auth_fields_lem c h)

abbrev pub hello_words : List ℕ → List ℕ
hello_words n = codes "espshell/1 HELLO nonce=" ++ n

pub hello_words-IsPrint : (n : List ℕ) → All IsGraph n → All IsPrint (hello_words n)
hello_words-IsPrint n g =
    spaced (codes "espshell/1 HELLO nonce=") n (omega arith) (graph-IsPrint n g)

pub hello_line-words :
    (snonce : List ℕ) → length snonce ≡ 32 → hello_line snonce ≡ hello_words (Hex.hex_encode snonce)
unfolding hello_line
hello_line-words snonce size =
    take_all 127 (hello_words (Hex.hex_encode snonce)) (omega (arith, length-hex_encode snonce))

-- The client finds the nonce.
hello_words-nonce : (n : List ℕ) → read_hello (hello_words n) ≡ Client.hex_decode (some n) 32
unfolding read_hello starts_with
hello_words-nonce n = refl

pub read_hello-hello_words :
    (snonce : List ℕ)
    → All IsByte snonce
    → length snonce ≡ 32
    → read_hello (c_string (hello_words (Hex.hex_encode snonce))) ≡ some snonce
read_hello-hello_words snonce bytes size =
    let n = Hex.hex_encode snonce in
    ap read_hello
      (c_string-IsPrint (hello_words n) (hello_words-IsPrint n (hex_encode-IsGraph snonce bytes)))
    ∙ (hello_words-nonce n
        ∙ ((Client.hex_functions_agree (some n) 32 []).0
            ∙ hex_decode-hex_encode snonce 32 bytes size))
