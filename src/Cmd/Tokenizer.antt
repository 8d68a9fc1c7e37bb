-- ===== src/Cmd/Tokenizer.antt =====
-- `tokenize` of components/core/src/cmd.c: it splits a line in place. The line is its memory, a list
-- of bytes with the terminator in it; pointers into it are indices, and a read past the list is a
-- zero byte. Each inner loop has fuel, the same for all; the loop over arguments recurs on the
-- room that is left in `argv`, of which each round but the last takes one.
pub mod Words
pub mod InPlace
pub mod Buffer
pub mod Quoted
pub mod Endings
pub mod Argument
pub mod Texts
pub mod Whole
pub mod Plain
use espshell.Prelude.{
  ℕ, zero, suc, ◌+◌, Bool, ◌&&◌, ◌||◌, not, List, [], ◌∷◌, leb, ◌==◌, if◌then◌else◌, length, get_or,
  set, drop,
}
use espshell.Clib.{is_space}

abbrev pub quote : ℕ
quote = b'"'

abbrev pub backslash : ℕ
backslash = 0x5c

abbrev pub at : List ℕ → ℕ → ℕ
at line p = get_or line p 0

unfoldable pub skip_space : ℕ → List ℕ → ℕ → ℕ
skip_space zero line p = p
skip_space (suc fuel) line p =
    let more = skip_space fuel line (p + 1) in
    if not (at line p == 0) && is_space (at line p) then more else p

unfoldable pub skip_word : ℕ → List ℕ → ℕ → ℕ
skip_word zero line p = p
skip_word (suc fuel) line p =
    let more = skip_word fuel line (p + 1) in
    if not (at line p == 0) && not (is_space (at line p)) then more else p

-- `if (*p == '\\' && (p[1] == '"' || p[1] == '\\')) p++;`
abbrev pub unescape : List ℕ → ℕ → ℕ
unescape line p =
    if at line p == backslash && (at line (p + 1) == quote || at line (p + 1) == backslash)
    then p + 1
    else p

-- The loop over a quoted argument: it reads at `p` and writes at `w`.
unfoldable pub copy_quoted : ℕ → List ℕ → ℕ → ℕ → List ℕ × ℕ × ℕ
copy_quoted zero line p w = (line, p, w)
copy_quoted (suc fuel) line p w =
    let q = unescape line p in
    let more = copy_quoted fuel (set line w (at line q)) (q + 1) (w + 1) in
    if not (at line p == 0) && not (at line p == quote) then more else (line, p, w)

-- What one argument leaves: the line, and where the next search starts.
unfoldable pub end_quoted : List ℕ × ℕ × ℕ → List ℕ × ℕ
end_quoted (line, p, w) = (set line w 0, if at line p == quote then p + 1 else p)

unfoldable pub end_word : List ℕ → ℕ → List ℕ × ℕ
end_word line p = if not (at line p == 0) then (set line p 0, p + 1) else (line, p)

unfoldable pub read_argument : ℕ → List ℕ → ℕ → List ℕ × ℕ
unfolding end_quoted end_word
read_argument fuel line p =
    if at line p == quote
    then end_quoted (copy_quoted fuel line (p + 1) (p + 1))
    else end_word line (skip_word fuel line p)

-- `argv[argc]` is where the argument starts, behind an opening quote.
abbrev pub argument_start : List ℕ → ℕ → ℕ
argument_start line p = if at line p == quote then p + 1 else p

-- Answers `argv` and the line.
unfoldable pub tokenize_loop : ℕ → ℕ → List ℕ → ℕ → List ℕ × List ℕ
tokenize_loop fuel zero line p = ([], line)
tokenize_loop fuel (suc room) line p =
    let q = skip_space fuel line p in
    let (line', next) = read_argument fuel line q in
    let (argv, last) = tokenize_loop fuel room line' next in
    if at line p == 0
    then ([], line)
    else if at line q == 0
    then ([], line)
    else (argument_start line q ∷ argv, last)

unfoldable pub tokenize : List ℕ → ℕ → List ℕ × List ℕ
unfolding tokenize_loop
tokenize line max_argv = tokenize_loop (length line) max_argv line 0

unfoldable pub until_zero : List ℕ → List ℕ
until_zero [] = []
until_zero (c ∷ s) = if c == 0 then [] else c ∷ until_zero s

-- The C string at `p`.
abbrev pub string_at : List ℕ → ℕ → List ℕ
string_at line p = until_zero (drop p line)
