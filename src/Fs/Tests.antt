-- ===== src/Fs/Tests.antt =====
-- The commands of components/core/src/fs.c on a toy file system, an association list.
use espshell.Prelude.{
  ℕ, ◌≡◌, refl, ap, sym, ◌∙◌, true, false, List, [], ◌∷◌, Option, some, none, length, take,
  bytes_eq, bytes_eq_refl, if◌then◌else◌, codes, arith,
}
use espshell.Hex.{hex_to_bytes, decode_pairs, hex_nibble}
use espshell.Fs.{
  Spiffs, Files, c_write, c_read, write_bytes, write_file, wrote, ensure_mount, join_path,
}
use espshell.Fs.Reads.{FilesWork, write_read}

abbrev Disk : Type 0
Disk = List (List ℕ × List ℕ)

abbrev find : Disk → List ℕ → ℕ → Option (List ℕ)
find [] path room = none
find ((name, bytes) ∷ disk) path room =
    if bytes_eq name path then some (take room bytes) else find disk path room

abbrev toy : Spiffs
toy = record {
  Fs = Disk;
  esp_vfs_spiffs_register = λ fs. (true, fs);
  esp_spiffs_info = λ fs. some (1024, length fs);
  esp_spiffs_format = λ fs. (true, []);
  readdir = λ fs path. some [];
  stat = λ fs path. none;
  read_file = find;
  File = List ℕ × Disk;
  fopen_wb = λ fs path. some (path, fs);
  fwrite = λ f bytes. (length bytes, (f.0, (f.0, bytes) ∷ f.1));
  fclose = λ f. (true, f.1);
  unlink = λ fs path. (false, fs);
}

found :
    (path bytes : List ℕ) (room : ℕ) (fs : Disk)
    → find ((path, bytes) ∷ fs) path room ≡ some (take room bytes)
found path bytes room fs = rw (bytes_eq_refl path) refl

abbrev path_of : List ℕ → Option (List ℕ × Disk) → List ℕ × Disk
path_of path none = (path, [])
path_of path (some f) = f

toy-works : FilesWork toy
toy-works = record {
  reads_back = λ fs fs' f f' path bytes room opened taken closed.
      let file : f ≡ (path, fs) = sym (ap (path_of path) opened) in
      let left : fs' ≡ (path, bytes) ∷ fs =
        sym (ap (λ r. r.1) closed)
        ∙ (sym (ap (λ r. r.1.1) taken) ∙ ap (λ g. (g.0, bytes) ∷ g.1) file) in
      ap (λ d. find d path room) left ∙ found path bytes room fs;
}

abbrev disk : Files toy
disk = record { fs = []; s_mounted = true }

write_run : (c_write toy (codes "a.txt" ∷ codes "00Ff" ∷ []) 0 disk).0 ≡ true
unfolding c_write write_bytes write_file wrote ensure_mount hex_to_bytes decode_pairs hex_nibble
write_run = refl

write_read_example :
    c_read toy (codes "a.txt" ∷ []) 3 (c_write toy (codes "a.txt" ∷ codes "00Ff" ∷ []) 0 disk).3
    ≡ (true, codes "00ff", 3, (c_write toy (codes "a.txt" ∷ codes "00Ff" ∷ []) 0 disk).3)
write_read_example =
    write_read toy-works (codes "a.txt") (codes "00Ff") 0 3 disk refl (omega arith)
      (λ f bytes opened decoded. refl) write_run

-- Two names that are cut to one path.
cut_run :
    join_path (codes "0123456789012345678901234567890123456789012345678901234567890-a")
    ≡ join_path (codes "0123456789012345678901234567890123456789012345678901234567890-b")
unfolding join_path
cut_run = refl
