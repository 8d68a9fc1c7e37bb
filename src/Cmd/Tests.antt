-- ===== src/Cmd/Tests.antt =====
-- The theorems on components/core/src/cmd.c at concrete lines and tables.
use espshell.Prelude.{
  ℕ, suc, ◌≡◌, refl, arith, true, false, List, [], ◌∷◌, ◌++◌, none, some, length, map, bytes_eq,
  codes,
}
use espshell.Cmd.Tokenizer.{tokenize, string_at}
use espshell.Cmd.Tokenizer.Words.{words_from, drop_space, span_word, span_quoted, first_word}
use espshell.Cmd.Tokenizer.InPlace.{IsText}
use espshell.Cmd.Tokenizer.Whole.{tokenize_words}
use espshell.Cmd.Registry.{Entry, Handler, registered, cmd_register, cmd_get, cmd_help_for}
use espshell.Cmd.Registry.Invariant.{IsRegistry, cmd_register-IsRegistry}
use espshell.Cmd.Dispatch.{cmd_dispatch}
use espshell.Cmd.Dispatch.Replies.{register_dispatch}

-- echo "a b" x\y
abbrev line : List ℕ
line = codes "echo \"a b\" x"

line-IsText : IsText line
line-IsText = ground arith

words_of_line : words_from 16 line ≡ codes "echo" ∷ codes "a b" ∷ codes "x" ∷ []
unfolding words_from drop_space first_word span_word span_quoted
words_of_line = refl

-- It answers its first argument and counts its calls.
abbrev echo : Handler ℕ
echo [] err count = (false, [], 2, suc count)
echo (a ∷ args) err count = (true, a, err, suc count)

abbrev table : List (Entry ℕ)
table =
    record {
      name = codes "ping";
      help = codes "Ping";
      fn = λ args err count. (true, codes "PONG", err, count);
    }
    ∷ []

tokenize_words_example :
    (left : List ℕ) × (length left ≡ length line)
    × ((tokenize (line ++ (0 ∷ 9 ∷ [])) 16).1 ≡ left ++ (0 ∷ 9 ∷ []))
    × (map (string_at (tokenize (line ++ (0 ∷ 9 ∷ [])) 16).1) (tokenize (line ++ (0 ∷ 9 ∷ [])) 16).0
        ≡ words_from 16 line)
tokenize_words_example = tokenize_words line (9 ∷ []) 16 line-IsText

echo_taken : (cmd_register table (some (codes "echo")) (some echo) none).0 ≡ true
unfolding cmd_register registered bytes_eq
echo_taken = refl

table-IsRegistry : IsRegistry table
table-IsRegistry = ground arith

cmd_register-IsRegistry_example :
    IsRegistry (cmd_register table (some (codes "echo")) (some echo) none).1
cmd_register-IsRegistry_example =
    cmd_register-IsRegistry table (some (codes "echo")) (some echo) none table-IsRegistry

ping_view : cmd_get table 0 ≡ some (codes "ping", codes "Ping")
unfolding cmd_get
ping_view = refl

echo_free : cmd_help_for table (codes "echo") ≡ none
unfolding cmd_help_for bytes_eq
echo_free = refl

abbrev with_echo : List (Entry ℕ)
with_echo = (cmd_register table (some (codes "echo")) (some echo) none).1

register_dispatch_example :
    ((cmd_dispatch with_echo (line ++ (0 ∷ [])) 64 3 5).0 ≡ (some 6, codes "OK a b"))
    × ((cmd_dispatch with_echo (line ++ (0 ∷ [])) 64 3 5).2 ≡ 0)
    × ((cmd_dispatch with_echo (line ++ (0 ∷ [])) 64 3 5).3 ≡ 6)
register_dispatch_example =
    register_dispatch table (codes "echo") echo none line [] (codes "a b" ∷ codes "x" ∷ []) 64 3 5
      echo_taken line-IsText (omega arith) words_of_line (omega arith)
