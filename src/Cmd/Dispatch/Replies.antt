-- ===== src/Cmd/Dispatch/Replies.antt =====
-- What `cmd_dispatch` of components/core/src/cmd.c answers to a line, from the words of the line.
use espshell.Prelude.{
  ℕ, suc, ◌-◌, ◌≤◌, ◌<◌, ◌==◌, Bool, take_all, ◌≡◌, refl, ap, ap₂, ◌∙◌, true, false, List, [], ◌∷◌,
  ◌++◌, Option, none, some, ltb, if◌then◌else◌, length, length-take, map, bytes_eq, bytes_eq_refl,
  codes, Bool-cases, inl, inr, arith,
}
use espshell.Clib.{print_int, print_digits}
use espshell.Cmd.Tokenizer.{tokenize, string_at}
use espshell.Cmd.Tokenizer.Words.{words_from}
use espshell.Cmd.Tokenizer.InPlace.{IsText}
use espshell.Cmd.Tokenizer.Whole.{tokenize_words}
use espshell.Cmd.Registry.{Entry, Handler, cmd_register, cmd_help_for}
use espshell.Cmd.Registry.Lookup.{entry, appended, cmd_register_iff}
use espshell.Cmd.Dispatch.{
  call_command, dispatch_words, reply_text, run_handler, cmd_dispatch, snprintf,
}

module _ {W : Type 0} where
  -- The replies of docs/protocol.md, `OK[ payload]` and `ERR <code> <message>`, with what stands for a code
  -- that was not set and for no message.
  abbrev pub answer_line : Bool × List ℕ × ℕ × W → List ℕ
  answer_line (true, payload, code, world) =
      if length payload == 0 then codes "OK" else codes "OK " ++ payload
  answer_line (false, payload, code, world) =
      let number = print_int (if code == 0 then 9 else code) in
      let message = if length payload == 0 then codes "handler failed" else payload in
      codes "ERR " ++ (number ++ (codes " " ++ message))

  reply_text-answer_line : (r : Bool × List ℕ × ℕ × W) → reply_text r.0 r.1 r.2 ≡ answer_line r
  unfolding reply_text
  reply_text-answer_line (true, [], code, world) = refl
  reply_text-answer_line (true, c ∷ payload, code, world) =
      let more : (suc (length payload) == 0) ≡ false = ground arith in rw more refl
  reply_text-answer_line (false, [], code, world) = refl
  reply_text-answer_line (false, c ∷ payload, code, world) =
      let more : (suc (length payload) == 0) ≡ false = ground arith in rw more refl

  dispatch_room :
      (tbl : List (Entry W)) (line : List ℕ) (out_sz err : ℕ) (world : W) (words : List (List ℕ))
      → 8 ≤ out_sz
      → map (string_at (tokenize line 16).1) (tokenize line 16).0 ≡ words
      → cmd_dispatch tbl line out_sz err world ≡ (
        snprintf out_sz (dispatch_words tbl words err world).0,
        (tokenize line 16).1,
        (dispatch_words tbl words err world).1,
        (dispatch_words tbl words err world).2,
      )
  unfolding cmd_dispatch
  dispatch_room tbl line out_sz err world words room found =
      let enough : ltb out_sz 8 ≡ false = ground arith in rw (enough, found) refl

  -- On a line that holds a text without a zero byte, and with 8 bytes of room or more, `cmd_dispatch`
  -- prints what the words of the text ask for, cut to the room, answers the length before the cut, and
  -- sets `s_last_err` and the world as the words ask.
  pub cmd_dispatch_words :
      (tbl : List (Entry W)) (s junk : List ℕ) (out_sz err : ℕ) (world : W)
      → IsText s
      → 8 ≤ out_sz
      → ((cmd_dispatch tbl (s ++ (0 ∷ junk)) out_sz err world).0
          ≡ snprintf out_sz (dispatch_words tbl (words_from 16 s) err world).0)
        × ((cmd_dispatch tbl (s ++ (0 ∷ junk)) out_sz err world).2
            ≡ (dispatch_words tbl (words_from 16 s) err world).1)
        × ((cmd_dispatch tbl (s ++ (0 ∷ junk)) out_sz err world).3
            ≡ (dispatch_words tbl (words_from 16 s) err world).2)
  cmd_dispatch_words tbl s junk out_sz err world h room =
      let (left, size, line, words) = tokenize_words s junk 16 h in
      let e = dispatch_room tbl (s ++ (0 ∷ junk)) out_sz err world (words_from 16 s) room words in
      (ap (λ r. r.0) e, ap (λ r. r.2) e, ap (λ r. r.3) e)

  call_unknown :
      (tbl : List (Entry W)) (name : List ℕ) (args : List (List ℕ)) (err : ℕ) (world : W)
      → cmd_help_for tbl name ≡ none
      → call_command tbl name args err world ≡ call_command [] name args err world
  unfolding call_command cmd_help_for
  call_unknown [] name args err world h = refl
  call_unknown (e ∷ tbl) name args err world h = elim (Bool-cases (bytes_eq (Entry.name e) name)) [
    | inl same ↦ absurd (ground arith)
    | inr other ↦ rw other (call_unknown tbl name args err world (ground arith))
  ]

  call_last :
      (tbl : List (Entry W)) (e : Entry W) (args : List (List ℕ)) (err : ℕ) (world : W)
      → cmd_help_for tbl (Entry.name e) ≡ none
      → call_command (tbl ++ (e ∷ [])) (Entry.name e) args err world
        ≡ run_handler (Entry.fn e) args world
  unfolding call_command cmd_help_for
  call_last [] e args err world h = rw (bytes_eq_refl (Entry.name e)) refl
  call_last (x ∷ tbl) e args err world h =
      elim (Bool-cases (bytes_eq (Entry.name x) (Entry.name e))) [
        | inl same ↦ absurd (ground arith)
        | inr other ↦ rw other (call_last tbl e args err world (ground arith))
      ]

  -- A line whose first word is no command's name is answered "ERR 1 unknown command: " and the word, cut
  -- to the room; no handler runs, and `s_last_err` is as before.
  pub unknown_command :
      (tbl : List (Entry W)) (s junk name : List ℕ) (args : List (List ℕ)) (out_sz err : ℕ)
      (world : W)
      → IsText s
      → 8 ≤ out_sz
      → words_from 16 s ≡ name ∷ args
      → cmd_help_for tbl name ≡ none
      → ((cmd_dispatch tbl (s ++ (0 ∷ junk)) out_sz err world).0
          ≡ snprintf out_sz (codes "ERR 1 unknown command: " ++ name))
        × ((cmd_dispatch tbl (s ++ (0 ∷ junk)) out_sz err world).2 ≡ err)
        × ((cmd_dispatch tbl (s ++ (0 ∷ junk)) out_sz err world).3 ≡ world)
  unfolding dispatch_words call_command print_digits
  unknown_command tbl s junk name args out_sz err world h room words free =
      let (reply, code, after) = cmd_dispatch_words tbl s junk out_sz err world h room in
      let found : dispatch_words tbl (words_from 16 s) err world
          ≡ call_command [] name args err world =
        ap (λ w. dispatch_words tbl w err world) words
        ∙ call_unknown tbl name args err world free in
      (
        reply ∙ ap (λ d. snprintf out_sz d.0) found,
        code ∙ ap (λ d. d.1) found,
        after ∙ ap (λ d. d.2) found,
      )

  -- After `cmd_register` has taken a command, a line whose first word is its name runs its function once,
  -- on the other words and with the error code cleared. When the answer fits with its terminator, the
  -- reply is `OK`, with a space and the function's text when it has one, or `ERR`, the code the function
  -- has set, or 9, and its text, or `handler failed`; and its length is answered. The error code and the
  -- world are those the function leaves.
  pub register_dispatch :
      (tbl : List (Entry W)) (name : List ℕ) (fn : Handler W) (help : Option (List ℕ))
      (s junk : List ℕ) (args : List (List ℕ)) (out_sz err : ℕ) (world : W)
      → (cmd_register tbl (some name) (some fn) help).0 ≡ true
      → IsText s
      → 8 ≤ out_sz
      → words_from 16 s ≡ name ∷ args
      → length (answer_line (fn args 0 world)) < out_sz
      → ((cmd_dispatch
            (cmd_register tbl (some name) (some fn) help).1
            (s ++ (0 ∷ junk))
            out_sz
            err
            world).0
          ≡ (some (length (answer_line (fn args 0 world))), answer_line (fn args 0 world)))
        × ((cmd_dispatch
              (cmd_register tbl (some name) (some fn) help).1
              (s ++ (0 ∷ junk))
              out_sz
              err
              world).2
            ≡ (fn args 0 world).2)
        × ((cmd_dispatch
              (cmd_register tbl (some name) (some fn) help).1
              (s ++ (0 ∷ junk))
              out_sz
              err
              world).3
            ≡ (fn args 0 world).3)
  unfolding dispatch_words run_handler
  register_dispatch tbl name fn help s junk args out_sz err world taken h room words fits =
      let table = (cmd_register tbl (some name) (some fn) help).1 in
      let (_, _, _, free) = (cmd_register_iff tbl name fn help).0 taken in
      let (reply, code, after) = cmd_dispatch_words table s junk out_sz err world h room in
      let found : dispatch_words table (words_from 16 s) err world ≡ run_handler fn args world =
        ap₂ (λ t w. dispatch_words t w err world) (appended tbl name fn help taken) words
        ∙ call_last tbl (entry name fn help) args err world free in
      let line = answer_line (fn args 0 world) in
      let text = reply_text-answer_line (fn args 0 world) in
      (
        reply
            ∙ (ap (λ d. snprintf out_sz d.0) found
                ∙ (ap (snprintf out_sz) text
                    ∙ ap (λ l. (some (length line), l))
                        (take_all (out_sz - 1) line (omega arith)))),
        code ∙ ap (λ d. d.1) found,
        after ∙ ap (λ d. d.2) found,
      )

  -- The length of what is in `out`, of the text before the cut.
  pub cmd_dispatch-length :
      (tbl : List (Entry W)) (line : List ℕ) (out_sz err : ℕ) (world : W)
      → 8 ≤ out_sz
      → (n : ℕ) × ((cmd_dispatch tbl line out_sz err world).0.0 ≡ some n)
        × (length (cmd_dispatch tbl line out_sz err world).0.1
            ≡ (if ltb n out_sz then n else out_sz - 1))
  cmd_dispatch-length tbl line out_sz err world room =
      let words = map (string_at (tokenize line 16).1) (tokenize line 16).0 in
      let e = dispatch_room tbl line out_sz err world words room refl in
      let text = (dispatch_words tbl words err world).0 in
      (
        length text,
        ap (λ r. r.0.0) e,
        ap (λ r. length r.0.1) e ∙ ground (arith, length-take (out_sz - 1) text),
      )
