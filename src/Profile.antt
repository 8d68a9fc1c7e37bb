-- ===== src/Profile.antt =====
-- tools/esp-ctl/src/profile.c: the profiles of devices.toml. The environment and the file system are
-- parameters: `$HOME` and the password entry, the mode that `stat` gives, and the lines that `fgets`
-- gives of the file. What goes to stderr is left out; an `int` is its bits.
pub mod Sections
pub mod Loads
mod Tests
use espshell.Prelude.{
  ℕ, ◌+◌, Bool, true, false, ◌&&◌, ◌||◌, List, [], ◌∷◌, ◌++◌, Option, none, some, ◌==◌,
  if◌then◌else◌, bytes_eq, bit_and, codes,
}
use espshell.Clib.{atoi, c_string}
use espshell.Ctl.Main.{strip_end}

pub record Files : Type 0 where
  pub home : Option (List ℕ)
  pub pw_dir : Option (List ℕ)
  pub stat : List ℕ → Option ℕ
  pub fopen : List ℕ → Option (List (List ℕ))

pub record Profile : Type 0 where
  pub host : Option (List ℕ)
  pub port : ℕ
  pub token : Option (List ℕ)

abbrev or_passwd : Option (List ℕ) → Option (List ℕ) → List ℕ
or_passwd (some h) pw = h
or_passwd none (some dir) = dir
or_passwd none none = codes "/tmp"

abbrev pub home_dir : Files → List ℕ
home_dir env = or_passwd env.home env.pw_dir

unfoldable pub path_for_config : Files → List ℕ
path_for_config env = home_dir env ++ codes "/.config/esp-ctl/devices.toml"

abbrev pub is_blank : ℕ → Bool
is_blank c = c == b' ' || c == b'\t'

unfoldable pub rstrip : List ℕ → List ℕ
unfolding strip_end
rstrip s = strip_end (λ c. c == b'\n' || (c == b'\r' || is_blank c)) s

-- `while (*s == ' ' || *s == '\t') s++`.
unfoldable pub lskip : List ℕ → List ℕ
lskip [] = []
lskip (c ∷ s) = let rest = lskip s in if is_blank c then rest else c ∷ s

-- `strchr`, and what stands before the byte and behind it.
unfoldable pub cut_at : ℕ → List ℕ → Option (List ℕ × List ℕ)
cut_at mark [] = none
cut_at mark (c ∷ s) =
    let rest : Option (List ℕ × List ℕ) = elim (cut_at mark s) [
      | none ↦ none
      | some r ↦ some (c ∷ r.0, r.1)
    ] in
    if c == mark then some ([], s) else rest

abbrev pub quoted : List ℕ → Option (List ℕ × List ℕ) → List ℕ
quoted s none = s
quoted s (some (inside, behind)) = inside

unfoldable pub unquote : List ℕ → List ℕ
unfolding lskip cut_at
unquote s = elim (lskip s) [
  | [] ↦ []
  | c ∷ t ↦ if c == b'"' then quoted t (cut_at b'"' t) else c ∷ t
]

-- The loop's state.
pub record Scan : Type 0 where
  pub in_section : Bool
  pub out : Profile

unfoldable pub set_field : Profile → List ℕ → List ℕ → Profile
unfolding unquote
set_field p k v =
    if bytes_eq k (codes "host")
    then record p { host = some (unquote v) }
    else if bytes_eq k (codes "port")
    then record p { port = atoi v }
    else if bytes_eq k (codes "token")
    then record p { token = some (unquote v) }
    else p

unfoldable pub field_line : Scan → Option (List ℕ × List ℕ) → Scan
unfolding set_field rstrip lskip
field_line st none = st
field_line st (some (k, v)) = record st { out = set_field (Scan.out st) (rstrip k) (lskip v) }

unfoldable pub section_line : List ℕ → Scan → Option (List ℕ × List ℕ) → Scan
section_line name st none = st
section_line name st (some (title, behind)) = record st { in_section = bytes_eq title name }

-- A line without its blanks at both ends.
unfoldable pub stripped_line : List ℕ → Scan → List ℕ → Scan
unfolding section_line field_line cut_at
stripped_line name st [] = st
stripped_line name st (c ∷ p) =
    if c == b'#'
    then st
    else if c == b'['
    then section_line name st (cut_at b']' p)
    else if Scan.in_section st
    then field_line st (cut_at b'=' (c ∷ p))
    else st

unfoldable pub load_line : List ℕ → Scan → List ℕ → Scan
unfolding stripped_line rstrip lskip
load_line name st line = stripped_line name st (lskip (rstrip (c_string line)))

unfoldable pub load_lines : List ℕ → Scan → List (List ℕ) → Scan
unfolding load_line
load_lines name st [] = st
load_lines name st (line ∷ lines) = load_lines name (load_line name st line) lines

abbrev pub blank : Profile
blank = record { host = none; port = 9000; token = none }

abbrev pub complete : Profile → Option (List ℕ) → Option (List ℕ) → Option Profile
complete p none token = none
complete p (some h) none = none
complete p (some h) (some t) = some p

unfoldable pub read_profile : List ℕ → Option (List (List ℕ)) → Option Profile
unfolding load_lines
read_profile name none = none
read_profile name (some lines) =
    let p = Scan.out (load_lines name (record { in_section = false; out = blank }) lines) in
    complete p (Profile.host p) (Profile.token p)

unfoldable pub with_mode : Files → List ℕ → Option ℕ → Option Profile
unfolding read_profile path_for_config
with_mode env name none = none
with_mode env name (some st_mode) =
    if bit_and st_mode 0x3f == 0 then read_profile name (env.fopen (path_for_config env)) else none

-- `none` is -1.
unfoldable pub profile_load : Files → Option (List ℕ) → Option Profile
unfolding with_mode path_for_config
profile_load env none = none
profile_load env (some name) = with_mode env name (env.stat (path_for_config env))
