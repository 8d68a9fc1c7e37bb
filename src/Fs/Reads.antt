-- ===== src/Fs/Reads.antt =====
-- What FS_READ of components/core/src/fs.c reads behind FS_WRITE.
use espshell.Prelude.{
  ℕ, ◌+◌, ◌*◌, ◌≤◌, ◌≡◌, refl, ap, ap₂, sym, ◌∙◌, true, false, List, [], ◌∷◌, Option, none, some,
  ltb, ◌==◌, length, take, take_all, map, Bool-cases, inl, inr, arith,
}
use espshell.Hex.{hex_encode, hex_to_bytes}
use espshell.Hex.Digits.{lower}
use espshell.Hex.RoundTrip.{hex_to_bytes_iff, hex_to_bytes-length}
use espshell.Fs.{
  Spiffs, Files, join_path, ensure_mount, told_file, wrote, write_file, write_bytes, c_read,
  c_write,
}

-- A file that `fwrite` has taken as a whole, and that `fclose` could write out, is read back, as far as is
-- asked for.
pub record FilesWork (S : Spiffs) : Type 0 where
  pub reads_back :
      (fs fs' : S.Fs) (f f' : S.File) (path bytes : List ℕ) (room : ℕ)
      → S.fopen_wb fs path ≡ some f
      → S.fwrite f bytes ≡ (length bytes, f')
      → S.fclose f' ≡ (true, fs')
      → S.read_file fs' path room ≡ some (take room bytes)

module _ {S : Spiffs} (W : FilesWork S) where
  -- Of a write that answers OK, `fwrite` has taken all.
  wrote-true :
      (err n : ℕ) (w : Files S) (r : ℕ × S.File)
      → (wrote S err w n r).0 ≡ true
      → (r.0 ≡ n)
        × (Files.fs (wrote S err w n r).3 ≡ (S.fclose r.1).1)
        × (Files.s_mounted (wrote S err w n r).3 ≡ w.s_mounted)
  unfolding wrote
  wrote-true err n w (k, file) e = elim (Bool-cases (k == n)) [
    | inl whole ↦ (ground arith, rw whole refl, rw whole refl)
    | inr part ↦ absurd (ground (arith, part))
  ]

  mounted_already : (w : Files S) → w.s_mounted ≡ true → ensure_mount S w ≡ w
  unfolding ensure_mount
  mounted_already w up = rw up refl

  told_all :
      (err : ℕ) (w : Files S) (bytes : List ℕ)
      → length bytes * 2 + 1 ≤ 4096
      → told_file S err w (some bytes) ≡ (true, hex_encode bytes, err, w)
  unfolding told_file
  told_all err w bytes room =
      let fits : ltb 4096 (length bytes * 2 + 1) ≡ false = ground arith in rw fits refl

  read_after :
      (err : ℕ) (w w' : Files S) (path bytes : List ℕ) (f : S.File)
      → Files.s_mounted w' ≡ true
      → S.fopen_wb w.fs (join_path path) ≡ some f
      → (S.fwrite f bytes).0 ≡ length bytes
      → (S.fclose (S.fwrite f bytes).1).0 ≡ true
      → Files.fs w' ≡ (S.fclose (S.fwrite f bytes).1).1
      → length bytes * 2 + 1 ≤ 4096
      → c_read S (path ∷ []) err w' ≡ (true, hex_encode bytes, err, w')
  unfolding c_read
  read_after err w w' path bytes f up found all_taken closed left room =
      let file = (S.fwrite f bytes).1 in
      let kept : S.read_file (Files.fs w') (join_path path) 8192 ≡ some bytes =
        W.reads_back w.fs (Files.fs w') f file (join_path path) bytes 8192 found
          (ap (λ k. (k, file)) all_taken) (ap₂ (λ ok fs. (ok, fs)) closed (sym left))
        ∙ ap some (take_all 8192 bytes (omega arith)) in
      ap (λ v. told_file S err v (S.read_file (Files.fs v) (join_path path) 8192))
        (mounted_already w' up)
      ∙ (ap (told_file S err w') kept ∙ told_all err w' bytes room)

  -- The `fclose` of a write to `path` of what `hex` stands for succeeds.
  abbrev Closes : Files S → List ℕ → List ℕ → Type 0
  Closes w path hex =
      (f : S.File) (bytes : List ℕ)
      → S.fopen_wb w.fs (join_path path) ≡ some f
      → hex_to_bytes hex 8192 ≡ some bytes
      → (S.fclose (S.fwrite f bytes).1).0 ≡ true

  file_then_read :
      (path hex bytes : List ℕ) (err err' : ℕ) (w : Files S) (file : Option S.File)
      → w.s_mounted ≡ true
      → S.fopen_wb w.fs (join_path path) ≡ file
      → hex_to_bytes hex 8192 ≡ some bytes
      → Closes w path hex
      → (write_file S err w bytes file).0 ≡ true
      → length hex ≤ 4094
      → c_read S (path ∷ []) err' (write_file S err w bytes file).3
        ≡ (true, map lower hex, err', (write_file S err w bytes file).3)
  unfolding write_file
  file_then_read path hex bytes err err' w none up found decoded closes done small =
      absurd (cc done)
  file_then_read path hex bytes err err' w (some f) up found decoded closes done small =
      let (_, same, _) = (hex_to_bytes_iff hex bytes 8192).0 decoded in
      let r = S.fwrite f bytes in
      let (all_taken, left, kept) = wrote-true err (length bytes) w r done in
      let w' : Files S = (wrote S err w (length bytes) r).3 in
      read_after err' w w' path bytes f (kept ∙ up) found all_taken (closes f bytes found decoded)
        left (omega (arith, hex_to_bytes-length hex bytes 8192 decoded))
      ∙ ap (λ text. (true, text, err', w')) same

  write_then_read :
      (path : List ℕ) (data_ : Option (List ℕ)) (hex : List ℕ) (err err' : ℕ) (w : Files S)
      → w.s_mounted ≡ true
      → hex_to_bytes hex 8192 ≡ data_
      → Closes w path hex
      → (write_bytes S err w path data_).0 ≡ true
      → length hex ≤ 4094
      → c_read S (path ∷ []) err' (write_bytes S err w path data_).3
        ≡ (true, map lower hex, err', (write_bytes S err w path data_).3)
  unfolding write_bytes
  write_then_read path none hex err err' w up decoded closes done small = absurd (cc done)
  write_then_read path (some bytes) hex err err' w up decoded closes done small =
      file_then_read path hex bytes err err' w (S.fopen_wb w.fs (join_path path)) up refl decoded
        closes done small

  -- When the partition is mounted, FS_WRITE of at most 4094 hex digits to a path answers OK, and the
  -- `fclose` in it has succeeded, which FS_WRITE does not test: FS_READ of the path answers just those
  -- digits, in lower case, and changes nothing. A file that `fwrite` has taken and `fclose` has written
  -- out is read back.
  pub write_read :
      (path hex : List ℕ) (err err' : ℕ) (w : Files S)
      → w.s_mounted ≡ true
      → length hex ≤ 4094
      → ((f : S.File) (bytes : List ℕ)
          → S.fopen_wb w.fs (join_path path) ≡ some f
          → hex_to_bytes hex 8192 ≡ some bytes
          → (S.fclose (S.fwrite f bytes).1).0 ≡ true)
      → (c_write S (path ∷ hex ∷ []) err w).0 ≡ true
      → c_read S (path ∷ []) err' (c_write S (path ∷ hex ∷ []) err w).3
        ≡ (true, map lower hex, err', (c_write S (path ∷ hex ∷ []) err w).3)
  unfolding c_write
  write_read path hex err err' w up small closes done =
      let decoded = hex_to_bytes hex 8192 in
      let run : c_write S (path ∷ hex ∷ []) err w ≡ write_bytes S err w path decoded =
        ap (λ v. write_bytes S err v path decoded) (mounted_already w up) in
      ap (λ r. c_read S (path ∷ []) err' r.3) run
      ∙ (write_then_read path decoded hex err err' w up refl closes (ap (λ r. r.0) (sym run) ∙ done)
            small
          ∙ ap (λ r. (true, map lower hex, err', r.3)) (sym run))
