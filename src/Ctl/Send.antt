-- ===== src/Ctl/Send.antt =====
-- The line that the subcommand `send` of tools/esp-ctl/src/esp-ctl.c makes of its arguments, and the
-- words that `tokenize` of components/core/src/cmd.c finds in it.
use espshell.Prelude.{
  ℕ, zero, suc, ◌-◌, ◌≤◌, ◌<◌, ◌≡◌, ap, sym, subst, ◌∙◌, true, false, List, [], ◌∷◌, ◌++◌,
  append-nil, append_assoc, some, none, leb, length, length-append, map, All, Bool-cases, inl, inr,
  arith,
}
use espshell.Clib.Numbers.{IsPlain}
use espshell.Cmd.Tokenizer.{tokenize, string_at}
use espshell.Cmd.Tokenizer.Words.{words_from}
use espshell.Cmd.Tokenizer.InPlace.{IsText}
use espshell.Cmd.Tokenizer.Plain.{words_plain, words_last}
use espshell.Cmd.Tokenizer.Whole.{tokenize_words}
use espshell.Ctl.Main.{join_args}

-- A word of plain characters.
abbrev pub IsWord : List ℕ → Type 0
IsWord [] = ⊥
IsWord (c ∷ g) = All IsPlain (c ∷ g)

abbrev behind_words : List (List ℕ) → List ℕ
behind_words [] = []
behind_words (arg ∷ args) = (b' ' ∷ arg) ++ behind_words args

-- What the loop adds, and the room that it needs.
joined :
    (args : List (List ℕ)) (buf cmd : List ℕ)
    → length buf < 1024
    → join_args false buf args ≡ some cmd
    → (cmd ≡ buf ++ behind_words args) × (length cmd < 1024)
unfolding join_args
joined [] buf cmd room e =
    let same : buf ≡ cmd = ap (λ r. elim r [ none ↦ cmd | some s ↦ s ]) e in
    (sym same ∙ sym (append-nil buf), subst (λ s. length s < 1024) same room)
joined (arg ∷ args) buf cmd room e =
    elim (Bool-cases (leb (1024 - length buf) (suc (length arg)))) [
      | inl full ↦ absurd (ground arith)
      | inr fits ↦
          let (same, short) =
            joined args (buf ++ (b' ' ∷ arg)) cmd (ground (arith, length-append buf (b' ' ∷ arg)))
              (ground arith) in
          (same ∙ append_assoc buf (b' ' ∷ arg) (behind_words args), short)
    ]

words_joined :
    (args : List (List ℕ)) (arg : List ℕ) (room : ℕ)
    → IsWord arg
    → All IsWord args
    → length args ≤ room
    → words_from (suc room) (arg ++ behind_words args) ≡ arg ∷ args
words_joined args [] room w each h = absurd w
words_joined [] (c ∷ g) room w each h =
    ap (words_from (suc room)) (append-nil (c ∷ g)) ∙ words_last room c g w
words_joined (next ∷ args) (c ∷ g) zero w each h = absurd (omega arith)
words_joined (next ∷ args) (c ∷ g) (suc room) w (here, each) h =
    words_plain (suc room) c g (next ++ behind_words args) w
    ∙ ap (λ ws. (c ∷ g) ∷ ws) (words_joined args next room here each (omega arith))

IsText-append : (s rest : List ℕ) → All IsPlain s → IsText rest → IsText (s ++ rest)
IsText-append [] rest a t = t
IsText-append (c ∷ s) rest (h, a) t = (omega arith, IsText-append s rest a t)

words-IsText : (args : List (List ℕ)) → All IsWord args → IsText (behind_words args)
words-IsText [] each = tt
words-IsText ([] ∷ args) (here, each) = absurd here
words-IsText ((c ∷ g) ∷ args) (here, each) =
    (omega arith, IsText-append (c ∷ g) (behind_words args) here (words-IsText args each))

first_joined :
    (arg : List ℕ) (args : List (List ℕ)) (cmd : List ℕ)
    → join_args true [] (arg ∷ args) ≡ some cmd
    → (cmd ≡ arg ++ behind_words args) × (length cmd < 1024)
unfolding join_args
first_joined arg args cmd e = elim (Bool-cases (leb 1024 (length arg))) [
  | inl full ↦ absurd (ground arith)
  | inr fits ↦ joined args arg cmd (ground arith) (ground arith)
]

-- When the subcommand `send` joins 1 to 16 arguments of plain characters, none of them empty, into a
-- line, the line has less than 1024 bytes, and the device's `tokenize` finds just the arguments in it.
pub send_words :
    (arg : List ℕ) (args : List (List ℕ)) (cmd junk : List ℕ)
    → IsWord arg
    → All IsWord args
    → length args ≤ 15
    → join_args true [] (arg ∷ args) ≡ some cmd
    → (length cmd < 1024)
      × (map (string_at (tokenize (cmd ++ (0 ∷ junk)) 16).1) (tokenize (cmd ++ (0 ∷ junk)) 16).0
          ≡ arg ∷ args)
send_words arg args cmd junk w each few e =
    let (same, short) = first_joined arg args cmd e in
    let text : IsText cmd = subst IsText (sym same) (first_text arg w) in
    let (left, size, line, words) = tokenize_words cmd junk 16 text in
    (short, words ∙ (ap (words_from 16) same ∙ words_joined args arg 15 w each few))
  where
    first_text : (arg : List ℕ) → IsWord arg → IsText (arg ++ behind_words args)
    first_text [] w = absurd w
    first_text (c ∷ g) w = IsText-append (c ∷ g) (behind_words args) w (words-IsText args each)
