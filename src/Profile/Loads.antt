-- ===== src/Profile/Loads.antt =====
-- `profile_load` of tools/esp-ctl/src/profile.c on a file of sections.
use espshell.Prelude.{
  ℕ, ◌<◌, ◌^◌, List, [], ◌∷◌, ◌++◌, Option, none, some, if◌then◌else◌, bytes_eq, All,
}
use espshell.Profile.{Profile, blank}
use espshell.Profile.Sections.{IsNice, title_line, host_line, token_line, port_line}

-- A section of the file.
pub record Section : Type 0 where
  pub title : List ℕ
  pub host : List ℕ
  pub port : ℕ
  pub token : List ℕ

abbrev pub IsSection : Section → Type 0
IsSection p =
    All IsNice (Section.title p)
    × All IsNice (Section.host p)
    × (Section.port p < 2 ^ 31)
    × All IsNice (Section.token p)

abbrev pub section_text : Section → List (List ℕ)
section_text p =
    title_line (Section.title p)
    ∷ host_line (Section.host p)
    ∷ port_line (Section.port p)
    ∷ token_line (Section.token p)
    ∷ []

abbrev pub file_text : List Section → List (List ℕ)
file_text [] = []
file_text (p ∷ ps) = section_text p ++ file_text ps

abbrev pub profile_of : Section → Profile
profile_of p = record {
  host = some (Section.host p);
  port = Section.port p;
  token = some (Section.token p);
}

-- The last section with a title, above `found`.
abbrev pub last_titled : List ℕ → Option Section → List Section → Option Section
last_titled name found [] = found
last_titled name found (p ∷ ps) =
    last_titled name (if bytes_eq (Section.title p) name then some p else found) ps

abbrev so_far : Option Section → Profile
so_far none = blank
so_far (some p) = profile_of p

abbrev pub loaded : Option Section → Option Profile
loaded none = none
loaded (some p) = some (profile_of p)
