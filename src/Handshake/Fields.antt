-- ===== src/Handshake/Fields.antt =====
-- What `do_handshake` of components/core/src/net.c takes from a client's answer, as words of the line.
use espshell.Prelude.{
  ℕ, ◌*◌, ◌≡◌, refl, ap, sym, ◌∙◌, true, false, List, [], ◌∷◌, ◌++◌, Option, none, some, ◌==◌,
  if◌then◌else◌, length, drop, map, bytes_eq, bytes_eq→eq, codes, guard, ◌>>=◌, >>=-eq-some, arith,
  Bool, Bool-cases, inl, inr, ◌⊎◌,
}
use espshell.Clib.{starts_with}
use espshell.Hex.{hex_encode, hex_decode, hex_to_bytes}
use espshell.Hex.Digits.{lower}
use espshell.Hex.RoundTrip.{hex_to_bytes_iff}
use espshell.Handshake.{read_fields, auth_fields}

-- A word stands among the words.
abbrev pub Among : List ℕ → List (List ℕ) → Type 0
Among w [] = ⊥
Among w (v ∷ vs) = (v ≡ w) ⊎ Among w vs

-- 32 bytes and their hex digits, in either case.
pub record Digits (hex bytes : List ℕ) : Type 0 where
  pub size : length bytes ≡ 32
  pub digits : hex_encode bytes ≡ map lower hex

pub hex_decode-Digits :
    (hex bytes : List ℕ) → hex_decode (some hex) 32 ≡ some bytes → Digits hex bytes
unfolding hex_decode
hex_decode-Digits hex bytes e = elim (Bool-cases (length hex == 32 * 2)) [
  | inr other ↦ absurd (cc (e, other))
  | inl even ↦
      let run : (hex_to_bytes hex 32 >>= λ out. if length out == 32 then some out else none)
          ≡ some bytes =
        cc (e, even) in
      let (out, decoded, e1) = >>=-eq-some (hex_to_bytes hex 32) _ run in
      let full : (length out ≡ 32) × (out ≡ bytes) = sized out e1 in
      let (_, same, _) = (hex_to_bytes_iff hex out 32).0 decoded in
      record { size = ap length (sym full.1) ∙ full.0; digits = ap hex_encode (sym full.1) ∙ same }
]
  where
    sized :
        (out : List ℕ)
        → (if length out == 32 then some out else none) ≡ some bytes
        → (length out ≡ 32) × (out ≡ bytes)
    sized out e1 = elim (Bool-cases (length out == 32)) [
      | inl good ↦
          let kept : some out ≡ some bytes =
            ap (λ b. if b then some out else none) (sym good) ∙ e1 in
          (ground arith, cc kept)
      | inr wrong ↦ absurd (cc (ap (λ b. if b then some out else none) (sym wrong) ∙ e1))
    ]

starts_with-drop :
    (prefix s : List ℕ) → starts_with prefix s ≡ true → s ≡ prefix ++ drop (length prefix) s
unfolding starts_with
starts_with-drop [] s e = refl
starts_with-drop (p ∷ prefix) [] e = absurd (cc e)
starts_with-drop (p ∷ prefix) (c ∷ s) e =
    let first : c ≡ p = ground arith in
    let others : starts_with prefix s ≡ true = ground arith in
    ap (λ x. x ∷ s) first ∙ ap (λ l. p ∷ l) (starts_with-drop prefix s others)

-- A field that was read stands before the words, or among them with its name in front.
abbrev FieldOf : List ℕ → Option (List ℕ) → Option (List ℕ) → List (List ℕ) → Type 0
FieldOf name before got toks =
    (v : List ℕ) → got ≡ some v → (before ≡ some v) ⊎ Among (name ++ v) toks

head_field :
    (name v tok : List ℕ) (toks : List (List ℕ)) (before : Option (List ℕ)) (b : Bool)
    → (b ≡ true → tok ≡ name ++ drop (length name) tok)
    → (if b then some (drop (length name) tok) else before) ≡ some v
    → (before ≡ some v) ⊎ Among (name ++ v) (tok ∷ toks)
head_field name v tok toks before true named e =
    let value : drop (length name) tok ≡ v = cc e in
    inr (inl (named refl ∙ ap (λ x. name ++ x) value))
head_field name v tok toks before false named e = inl e

read_fields-FieldOf :
    (toks : List (List ℕ)) (c h : Option (List ℕ))
    → FieldOf (codes "cnonce=") c (read_fields toks c h).0 toks
      × FieldOf (codes "hmac=") h (read_fields toks c h).1 toks
unfolding read_fields
read_fields-FieldOf [] c h = (λ v e. inl e, λ v e. inl e)
read_fields-FieldOf (tok ∷ toks) c h =
    let named = starts_with (codes "cnonce=") tok in
    let hmac_next =
      if named then h else if starts_with (codes "hmac=") tok then some (drop 5 tok) else h in
    let (cnonces, hmacs) =
      read_fields-FieldOf toks (if named then some (drop 7 tok) else c) hmac_next in
    (
      λ v e. elim (cnonces v e) [
        | inr later ↦ inr (inr later)
        | inl here ↦
            head_field (codes "cnonce=") v tok toks c named (starts_with-drop (codes "cnonce=") tok)
              here
      ],
      λ v e. elim (hmacs v e) [ inr later ↦ inr (inr later) | inl here ↦ second named v here ],
    )
  where
    second :
        (b : Bool) (v : List ℕ)
        → (if b then h else if starts_with (codes "hmac=") tok then some (drop 5 tok) else h)
          ≡ some v
        → (h ≡ some v) ⊎ Among (codes "hmac=" ++ v) (tok ∷ toks)
    second true v e = inl e
    second false v e =
        head_field (codes "hmac=") v tok toks h (starts_with (codes "hmac=") tok)
          (starts_with-drop (codes "hmac=") tok) e

-- The words of an answer: `AUTH`, and among the others a nonce and an HMAC in hex.
pub record Answer (words : List (List ℕ)) (cnonce chmac : List ℕ) : Type 0 where
  pub fields : List (List ℕ)
  pub cnonce_hex : List ℕ
  pub hmac_hex : List ℕ
  pub is_auth : words ≡ codes "AUTH" ∷ fields
  pub has_cnonce : Among (codes "cnonce=" ++ cnonce_hex) fields
  pub has_hmac : Among (codes "hmac=" ++ hmac_hex) fields
  pub cnonce_is : Digits cnonce_hex cnonce
  pub chmac_is : Digits hmac_hex chmac

not_before : (w v : List ℕ) (toks : List (List ℕ)) → (none ≡ some v) ⊎ Among w toks → Among w toks
not_before w v toks (inl e) = absurd (cc e)
not_before w v toks (inr a) = a

pub auth_fields-Answer :
    (words : List (List ℕ)) (cnonce_hex hmac_hex cnonce chmac : List ℕ)
    → auth_fields words ≡ some (cnonce_hex, hmac_hex)
    → hex_decode (some cnonce_hex) 32 ≡ some cnonce
    → hex_decode (some hmac_hex) 32 ≡ some chmac
    → Answer words cnonce chmac
unfolding auth_fields
auth_fields-Answer [] ch hh cnonce chmac e dc dh = absurd (cc e)
auth_fields-Answer (tok ∷ toks) ch hh cnonce chmac e dc dh =
    let (_, auth, e1) = >>=-eq-some (guard (bytes_eq tok (codes "AUTH"))) _ e in
    let (c, got_c, e2) = >>=-eq-some (read_fields toks none none).0 _ e1 in
    let (h, got_h, e3) = >>=-eq-some (read_fields toks none none).1 _ e2 in
    let same_c : c ≡ ch = ap (λ o. elim o as (λ _. List ℕ) [ none ↦ c | some p ↦ p.0 ]) e3 in
    let same_h : h ≡ hh = ap (λ o. elim o as (λ _. List ℕ) [ none ↦ h | some p ↦ p.1 ]) e3 in
    let (cnonces, hmacs) = read_fields-FieldOf toks none none in
    record {
      fields = toks;
      cnonce_hex = ch;
      hmac_hex = hh;
      is_auth = ap (λ w. w ∷ toks) (bytes_eq→eq tok (codes "AUTH") (passed _ auth));
      has_cnonce = not_before _ ch toks (cnonces ch (got_c ∙ ap some same_c));
      has_hmac = not_before _ hh toks (hmacs hh (got_h ∙ ap some same_h));
      cnonce_is = hex_decode-Digits ch cnonce dc;
      chmac_is = hex_decode-Digits hh chmac dh;
    }
  where
    passed : (b : Bool) → guard b ≡ some tt → b ≡ true
    passed true g = refl
    passed false g = absurd (cc g)
