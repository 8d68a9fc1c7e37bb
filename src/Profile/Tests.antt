-- ===== src/Profile/Tests.antt =====
-- `profile_load` of tools/esp-ctl/src/profile.c on a file of two sections.
use espshell.Prelude.{[], ◌∷◌, none, some, codes}
use espshell.Profile.{Files}
use espshell.Profile.Loads.{Section, file_text}

abbrev bench : Section
bench = record {
  title = codes "bench";
  host = codes "10.0.0.7";
  port = 9000;
  token = codes "0123456789abcdef";
}

abbrev lab : Section
lab = record { title = codes "lab"; host = codes "lab.local"; port = 80; token = codes "s#cr=t" }

abbrev env : Files
env = record {
  home = some (codes "/root");
  pw_dir = none;
  stat = λ path. some 0x180;
  fopen = λ path. some (file_text (bench ∷ lab ∷ []));
}
