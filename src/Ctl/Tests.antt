-- ===== src/Ctl/Tests.antt =====
-- The client's parts of tools/esp-ctl/src/esp-ctl.c at concrete inputs.
use espshell.Prelude.{ℕ, ◌≡◌, refl, false, List, [], ◌∷◌, some, arith, All, IsByte}
use espshell.Ota.{idle}
use espshell.Ota.Handlers.{World}
use espshell.Ota.Toy.{
  ToyFlash, digest, toy, toy-works, toy-never-fails, blank, toy_timers, boot_world,
}
use espshell.Ctl.{Console}
use espshell.Ctl.Upload.{do_ota_upload}
use espshell.Ctl.Upload.Chunks.{pieces}
use espshell.Ctl.Upload.Device.{Bench, device}
use espshell.Ctl.Upload.Runs.{upload_calls, Exits, do_ota_upload-calls}
use espshell.Ctl.Upload.Reaches.{upload_reaches_flash, upload_succeeds}

abbrev dumb : Console
dumb = record { g_tty = false; g_color = false; now = []; out = [] }

abbrev bench : Bench toy toy_timers (7 ∷ [])
bench = record { world = boot_world; last_err = 0; console = dumb }

abbrev firmware : List ℕ
firmware = 1 ∷ 2 ∷ 3 ∷ []

firmware-bytes : All IsByte firmware
firmware-bytes = omega arith

digest-bytes : All IsByte (digest firmware)
digest-bytes = omega arith

do_ota_upload-calls_example :
    Exits toy toy_timers
      (7 ∷ [])
      (upload_calls toy (idle toy, blank) 3 (digest firmware) (pieces 3 firmware))
      (do_ota_upload (device toy toy_timers (7 ∷ [])) (λ x. some (digest x)) (some firmware) bench)
do_ota_upload-calls_example =
    do_ota_upload-calls toy toy_timers (7 ∷ []) (λ x. some (digest x)) firmware (digest firmware)
      bench firmware-bytes (omega arith) (omega arith) refl digest-bytes refl

upload_succeeds_example :
    (b' : Bench toy toy_timers (7 ∷ [])) × (do_ota_upload
        (device toy toy_timers (7 ∷ []))
        (λ x. some (digest x))
        (some firmware)
        bench
      ≡ some (0, b'))
    × (part : ℕ) × (ToyFlash.stored (World.flash (Bench.world b')) ≡ firmware)
    × (ToyFlash.boot_from (World.flash (Bench.world b')) ≡ some part)
unfolding toy-works
upload_succeeds_example =
    upload_succeeds toy-works toy-never-fails (λ x. some (digest x)) firmware bench firmware-bytes
      (omega arith) (omega arith) refl digest-bytes refl

abbrev uploaded : Bench toy toy_timers (7 ∷ [])
uploaded =
    (upload_succeeds toy-works toy-never-fails (λ x. some (digest x)) firmware bench firmware-bytes
      (omega arith) (omega arith) refl digest-bytes refl).0

upload_reaches_flash_example :
    (part : ℕ) × (ToyFlash.stored (World.flash (Bench.world uploaded)) ≡ firmware)
    × (ToyFlash.boot_from (World.flash (Bench.world uploaded)) ≡ some part)
unfolding toy-works
upload_reaches_flash_example =
    upload_reaches_flash toy-works (λ x. some (digest x)) firmware (digest firmware) bench uploaded
      firmware-bytes (omega arith) (omega arith) refl digest-bytes refl
      (upload_succeeds toy-works toy-never-fails (λ x. some (digest x)) firmware bench
        firmware-bytes (omega arith) (omega arith) refl digest-bytes refl).1
