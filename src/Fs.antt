-- ===== src/Fs.antt =====
-- components/core/src/fs.c: the commands on the files of the `storage` partition. SPIFFS is a parameter:
-- what its calls, and those of stdio on its paths, do with its state.
pub mod Reads
mod Tests
use espshell.Prelude.{
  ℕ, zero, suc, ◌+◌, ◌-◌, ◌*◌, Bool, true, false, not, List, [], ◌∷◌, ◌++◌, Option, none, some, ltb,
  leb, ◌==◌, if◌then◌else◌, length, take, codes,
}
use espshell.Clib.{print_int, print_signed, format}
use espshell.Hex.{hex_encode, hex_to_bytes}
use espshell.Cmd.Registry.{Entry, Handler, cmd_register}
use espshell.Cmd.Dispatch.{snprintf}
use espshell.Ota.Handlers.{e_bad_args, e_hw_fail, e_not_found}
use espshell.Gpio.{e_no_mem}

abbrev pub max_file_bytes : ℕ
max_file_bytes = 8192

-- `read_file` is `fopen` for reading, `fread` of at most so many bytes and `fclose`; `fopen_wb` is `fopen`
-- for writing, of which `none` is a null pointer, `fwrite` answers how much it has taken, and `fclose`
-- whether it could write out what was not yet written, and the state it leaves; `readdir` gives the names
-- in a directory, and `stat` a file's size.
pub record Spiffs : Type 1 where
  pub Fs : Type 0
  pub esp_vfs_spiffs_register : Fs → Bool × Fs
  pub esp_spiffs_info : Fs → Option (ℕ × ℕ)
  pub esp_spiffs_format : Fs → Bool × Fs
  pub readdir : Fs → List ℕ → Option (List (List ℕ))
  pub stat : Fs → List ℕ → Option ℕ
  pub read_file : Fs → List ℕ → ℕ → Option (List ℕ)
  pub File : Type 0
  pub fopen_wb : Fs → List ℕ → Option File
  pub fwrite : File → List ℕ → ℕ × File
  pub fclose : File → Bool × Fs
  pub unlink : Fs → List ℕ → Bool × Fs

pub record Files (S : Spiffs) : Type 0 where
  pub fs : S.Fs
  pub s_mounted : Bool

-- The path of a user's name, in 64 bytes.
unfoldable pub join_path : List ℕ → List ℕ
join_path [] = (snprintf 64 (codes "/sp/")).1
join_path (c ∷ user) =
    (snprintf 64 ((if c == b'/' then codes "/sp" else codes "/sp/") ++ (c ∷ user))).1

abbrev pub say : List ℕ → List ℕ
say text = (snprintf 4096 text).1

abbrev or_zero : Option ℕ → ℕ
or_zero none = 0
or_zero (some n) = n

-- `(full[fl - 1] == '/') ? "" : "/"`.
unfoldable pub separator : List ℕ → List ℕ
separator [] = codes "/"
separator (c ∷ []) = if c == b'/' then [] else codes "/"
separator (c ∷ d ∷ s) = separator (d ∷ s)

module _ (S : Spiffs) where
  abbrev pub Reply : Type 0
  Reply = Bool × List ℕ × ℕ × Files S

  abbrev pub fail_with : ℕ → List ℕ → Files S → Reply
  fail_with code message w = (false, message, code, w)

  abbrev mounted : Files S → Bool × S.Fs → Files S
  mounted w (ok, fs) = record w { fs = fs; s_mounted = ok }

  unfoldable pub ensure_mount : Files S → Files S
  ensure_mount w = if w.s_mounted then w else mounted w (S.esp_vfs_spiffs_register w.fs)

  unfoldable pub told_info : ℕ → Files S → Option (ℕ × ℕ) → Reply
  told_info err w none = fail_with e_hw_fail [] w
  told_info err w (some (total, used)) = (
    true,
    say (
        format (
          codes "total="
          ∷ print_int total
          ∷ codes " used="
          ∷ print_int used
          ∷ codes " free="
          ∷ print_int (total - used)
          ∷ [])),
    err,
    w,
  )

  unfoldable pub c_info : Handler (Files S)
  unfolding ensure_mount told_info
  c_info v err w = let w' = ensure_mount w in told_info err w' (S.esp_spiffs_info (Files.fs w'))

  -- The loop over the names of a directory, while there is room for 64 bytes.
  unfoldable pub list_loop : S.Fs → List ℕ → List (List ℕ) → List ℕ → List ℕ
  unfolding separator
  list_loop fs full [] text = text
  list_loop fs full (name ∷ names) text =
      let fp = (snprintf 320 (full ++ (separator full ++ name))).1 in
      let sep = if length text == 0 then [] else codes " " in
      let more = text ++ (sep ++ (name ++ (codes ":" ++ print_int (or_zero (S.stat fs fp))))) in
      let next = list_loop fs full names more in
      if ltb (length text) (4096 - 64) then next else text

  unfoldable pub listed : ℕ → Files S → List ℕ → Option (List (List ℕ)) → Reply
  unfolding list_loop
  listed err w full none = fail_with e_not_found (codes "open") w
  listed err w full (some names) = (true, say (list_loop w.fs full names []), err, w)

  unfoldable pub list_path : ℕ → Files S → List ℕ → Reply
  unfolding listed join_path
  list_path err w path = listed err w (join_path path) (S.readdir w.fs (join_path path))

  unfoldable pub c_list : Handler (Files S)
  unfolding list_path ensure_mount
  c_list [] err w = list_path err (ensure_mount w) (codes "/")
  c_list (path ∷ v) err w = list_path err (ensure_mount w) path

  unfoldable pub told_file : ℕ → Files S → Option (List ℕ) → Reply
  told_file err w none = fail_with e_not_found (codes "open") w
  told_file err w (some buf) =
      if ltb 4096 (length buf * 2 + 1)
      then fail_with e_no_mem (codes "too big") w
      else (true, hex_encode buf, err, w)

  unfoldable pub c_read : Handler (Files S)
  unfolding told_file ensure_mount join_path
  c_read (path ∷ []) err w =
      let w' = ensure_mount w in
      told_file err w' (S.read_file (Files.fs w') (join_path path) max_file_bytes)
  c_read _ err w = fail_with e_bad_args [] w

  -- The result of `fclose` is not read.
  unfoldable pub wrote : ℕ → Files S → ℕ → ℕ × S.File → Reply
  wrote err w n (k, file) =
      let w' : Files S = record w { fs = (S.fclose file).1 } in
      if k == n then (true, print_int n, err, w') else fail_with e_hw_fail [] w'

  unfoldable pub write_file : ℕ → Files S → List ℕ → Option S.File → Reply
  unfolding wrote
  write_file err w buf none = fail_with e_hw_fail (codes "open") w
  write_file err w buf (some file) = wrote err w (length buf) (S.fwrite file buf)

  unfoldable pub write_bytes : ℕ → Files S → List ℕ → Option (List ℕ) → Reply
  unfolding write_file join_path
  write_bytes err w path none = fail_with e_bad_args (codes "hex") w
  write_bytes err w path (some buf) = write_file err w buf (S.fopen_wb w.fs (join_path path))

  unfoldable pub c_write : Handler (Files S)
  unfolding write_bytes ensure_mount
  c_write (path ∷ hex ∷ []) err w =
      write_bytes err (ensure_mount w) path (hex_to_bytes hex max_file_bytes)
  c_write _ err w = fail_with e_bad_args [] w

  unfoldable pub removed : ℕ → Files S → Bool × S.Fs → Reply
  removed err w (false, fs) = fail_with e_not_found (codes "rm") (record w { fs = fs })
  removed err w (true, fs) = (true, [], err, record w { fs = fs })

  unfoldable pub c_del : Handler (Files S)
  unfolding removed ensure_mount join_path
  c_del (path ∷ []) err w =
      let w' = ensure_mount w in removed err w' (S.unlink (Files.fs w') (join_path path))
  c_del _ err w = fail_with e_bad_args [] w

  unfoldable pub formatted : ℕ → Files S → Bool × S.Fs → Reply
  formatted err w (false, fs) = fail_with e_hw_fail [] (record w { fs = fs })
  formatted err w (true, fs) = (true, [], err, record w { fs = fs; s_mounted = false })

  unfoldable pub c_format : Handler (Files S)
  unfolding formatted
  c_format v err w = formatted err w (S.esp_spiffs_format w.fs)

  abbrev Table : Type 0
  Table = List (Entry (Files S))

  abbrev with_command : Table → List ℕ → Handler (Files S) → List ℕ → Table
  with_command tbl name fn help = (cmd_register tbl (some name) (some fn) (some help)).1

  unfoldable pub fs_module_init : Table → Table
  unfolding c_info c_list c_read c_write c_del c_format
  fs_module_init tbl =
      let t1 =
        with_command tbl (codes "FS_INFO") c_info (codes "Mount info: total/used/free bytes") in
      let t2 = with_command t1 (codes "FS_LIST") c_list (codes "FS_LIST [path]") in
      let t3 = with_command t2 (codes "FS_READ") c_read (codes "FS_READ <path> (returns hex)") in
      let t4 = with_command t3 (codes "FS_WRITE") c_write (codes "FS_WRITE <path> <hex>") in
      let t5 = with_command t4 (codes "FS_DEL") c_del (codes "FS_DEL <path>") in
      with_command t5 (codes "FS_FORMAT") c_format (codes "FS_FORMAT (destructive)")
