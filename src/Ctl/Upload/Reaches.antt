-- ===== src/Ctl/Upload/Reaches.antt =====
-- What an upload with tools/esp-ctl/src/esp-ctl.c leaves in the flash of a device with the commands of
-- components/core/src/ota.c.
use espshell.Prelude.{
  ℕ, ◌+◌, ◌^◌, ◌≤◌, ◌<◌, ◌≡◌, ap, sym, subst, ◌∙◌, true, List, Option, none, some, ◌>>=◌,
  >>=-eq-some, length, take_all, All, All-imp, IsByte, arith,
}
use espshell.Ota.{Platform, OtaState, ota_begin, ota_end}
use espshell.Ota.Upload.{FlashWorks}
use espshell.Ota.Commit.{concat, accepted, accepted-eq, feed, committed_upload}
use espshell.Ota.Completes.{NeverFails, upload_completes}
use espshell.Ota.Handlers.{Timers, World}
use espshell.Ctl.Upload.{do_ota_upload}
use espshell.Ctl.Upload.Chunks.{IsChunk, pieces, concat-pieces, pieces-IsChunk}
use espshell.Ctl.Upload.Device.{Bench, device}
use espshell.Ctl.Upload.Runs.{Exits, upload_of, upload_calls, do_ota_upload-calls}

short_pieces : (file : List ℕ) → All (λ c. length c ≤ 1024) (pieces (length file) file)
short_pieces file =
    All-imp IsChunk (λ c. length c ≤ 1024) (pieces (length file) file) (λ c h. omega arith)
      (pieces-IsChunk (length file) file)

module _ {P : Platform} where
  upload_calls-inv :
      (u : OtaState P × P.Flash) (size : ℕ) (sha : List ℕ) (chunks : List (List ℕ))
      (v : OtaState P × P.Flash)
      → upload_calls P u size sha chunks ≡ some v
      → (s₁ : OtaState P) × (f₁ : P.Flash) × (s₂ : OtaState P) × (f₂ : P.Flash) × (ota_begin P u.0
            u.1 size sha
          ≡ (true, s₁, f₁))
        × (feed P chunks (s₁, f₁) ≡ some (s₂, f₂))
        × (ota_end P s₂ f₂ ≡ (true, v.0, v.1))
  upload_calls-inv u size sha chunks v e =
      let ((s₁, f₁), began, e1) = >>=-eq-some (accepted P (ota_begin P u.0 u.1 size sha)) _ e in
      let ((s₂, f₂), fed, ended) = >>=-eq-some (feed P chunks (s₁, f₁)) _ e1 in
      (
        s₁,
        f₁,
        s₂,
        f₂,
        accepted-eq P (ota_begin P u.0 u.1 size sha) s₁ f₁ began,
        fed,
        accepted-eq P (ota_end P s₂ f₂) v.0 v.1 ended,
      )

module _ {P : Platform} {T : Timers} {junk : List ℕ} where
  exit_ok :
      (calls : Option (OtaState P × P.Flash)) (r : Option (ℕ × Bench P T junk)) (b : Bench P T junk)
      → Exits P T junk calls r
      → r ≡ some (0, b)
      → calls ≡ some (upload_of P T junk b)
  exit_ok none r b (b', failed) e = absurd (cc (sym failed ∙ e))
  exit_ok (some u) r b (b', done, same) e =
      ap some (sym same ∙ ap (upload_of P T junk) (same_bench b' b (sym done ∙ e)))
    where
      exit_0 : Bench P T junk → Option (ℕ × Bench P T junk)
      exit_0 x = some (0, x)

      bench_of : Bench P T junk → Option (ℕ × Bench P T junk) → Bench P T junk
      bench_of x none = x
      bench_of x (some p) = p.1

      same_bench : (x y : Bench P T junk) → exit_0 x ≡ exit_0 y → x ≡ y
      same_bench x y e = ap (bench_of x) e

  -- When the client's `do_ota_upload` exits with 0, on a device with the commands of ota.c, the device
  -- is set to boot from a partition that holds just the file. The file has at most 2^32 - 1025 bytes, the
  -- client's hash of it is any 32 bytes, and the calls of ESP-IDF and PSA that succeed do what
  -- `FlashWorks` states.
  pub upload_reaches_flash :
      {sha256 : List ℕ → List ℕ} (W : FlashWorks P sha256) (digest : List ℕ → Option (List ℕ))
      (file sha : List ℕ) (b b' : Bench P T junk)
      → All IsByte file
      → 0 < length file
      → length file + 1024 < 2 ^ 32
      → digest file ≡ some sha
      → All IsByte sha
      → length sha ≡ 32
      → do_ota_upload (device P T junk) digest (some file) b ≡ some (0, b')
      → (part : P.Partition) × (W.image (World.flash (Bench.world b')) part ≡ file)
        × (W.boot (World.flash (Bench.world b')) ≡ some part)
  upload_reaches_flash {sha256 = sha256} W digest file sha b b' bytes some_bytes room hashed
        sha_bytes full exits =
      let chunks = pieces (length file) file in
      let calls =
        exit_ok (upload_calls P (upload_of P T junk b) (length file) sha chunks)
          (do_ota_upload (device P T junk) digest (some file) b) b'
          (do_ota_upload-calls P T junk digest file sha b bytes some_bytes (omega arith) hashed
            sha_bytes full)
          exits in
      let (s₁, f₁, s₂, f₂, began, fed, ended) =
        upload_calls-inv (upload_of P T junk b) (length file) sha chunks (upload_of P T junk b')
          calls in
      let (part, _, _, held, booted, _) =
        committed_upload P sha256 W (upload_of P T junk b).0 (upload_of P T junk b).1 (length file)
          sha chunks s₁ s₂ (upload_of P T junk b').0 f₁ f₂ (upload_of P T junk b').1 room
          (short_pieces file) began fed ended in
      (part, held ∙ concat-pieces (length file) file (omega arith), booted)

  -- On a device whose platform never fails, and when OpenSSL and PSA compute the same SHA-256, the
  -- client's `do_ota_upload` of a file of 1 to 2^32 - 1025 bytes exits with 0, whatever state the device's
  -- upload was in, and leaves a partition that holds just the file, from which the device is set to boot.
  pub upload_succeeds :
      {sha256 : List ℕ → List ℕ} (W : FlashWorks P sha256) (N : NeverFails P)
      (digest : List ℕ → Option (List ℕ)) (file : List ℕ) (b : Bench P T junk)
      → All IsByte file
      → 0 < length file
      → length file + 1024 < 2 ^ 32
      → digest file ≡ some (sha256 file)
      → All IsByte (sha256 file)
      → length (sha256 file) ≡ 32
      → (b' : Bench P T junk) × (do_ota_upload (device P T junk) digest (some file) b
          ≡ some (0, b'))
        × (part : P.Partition) × (W.image (World.flash (Bench.world b')) part ≡ file)
        × (W.boot (World.flash (Bench.world b')) ≡ some part)
  upload_succeeds {sha256 = sha256} W N digest file b bytes some_bytes room hashed sha_bytes full =
      let chunks = pieces (length file) file in
      let sha = sha256 file in
      let u = upload_of P T junk b in
      let whole : concat chunks ≡ file = concat-pieces (length file) file (omega arith) in
      let each =
        All-imp IsChunk (λ c. (0 < length c) × (length c ≤ 1024)) chunks (λ c h. omega arith)
          (pieces-IsChunk (length file) file) in
      let (s₁, f₁, s₂, f₂, s₃, f₃, began, fed, ended) =
        upload_completes P N sha256 W u.0 u.1 (length file) sha chunks each (ap length whole) room
          (ap sha256 whole ∙ sym (take_all 32 sha (omega arith))) in
      let calls : upload_calls P u (length file) sha chunks ≡ some (s₃, f₃) =
        ap (λ r. accepted P r >>= λ x. feed P chunks x >>= λ v. accepted P (ota_end P v.0 v.1))
          began
        ∙ (ap (λ x. x >>= λ v. accepted P (ota_end P v.0 v.1)) fed ∙ ap (accepted P) ended) in
      let (b', exits, _) =
        subst (λ c. Exits P T junk c (do_ota_upload (device P T junk) digest (some file) b)) calls
          (do_ota_upload-calls P T junk digest file sha b bytes some_bytes (omega arith) hashed
            sha_bytes full) in
      let (part, held, booted) =
        upload_reaches_flash W digest file sha b b' bytes some_bytes room hashed sha_bytes full
          exits in
      (b', exits, part, held, booted)
