-- ===== src/Ota.antt =====
-- components/core/src/ota.c: the upload of a firmware image in chunks, with OTA enabled.
-- `ota_state_t s` is `OtaState`, cleared by `memset` to `idle`; a null or zero handle is `none`. The
-- functions of ESP-IDF and of PSA are parameters that act on the flash's state.
pub mod Upload
pub mod Commit
pub mod Completes
pub mod Handlers
pub mod Toy
mod Tests
use espshell.Prelude.{
  ℕ, zero, suc, ◌+◌, ◌-◌, ◌%◌, ◌^◌, Bool, true, false, ◌&&◌, ◌||◌, not, List, [], ◌∷◌, ◌++◌, Option,
  none, some, ltb, leb, ◌==◌, if◌then◌else◌, length, replicate, take, bytes_eq, codes,
}

pub record Platform : Type 1 where
  pub Flash : Type 0
  pub Handle : Type 0
  pub Partition : Type 0
  pub Hash : Type 0
  pub esp_ota_get_next_update_partition : Flash → Option Partition
  pub esp_ota_get_last_invalid_partition : Flash → Option Partition
  -- `none` is an error, which gives no handle.
  pub esp_ota_begin : Flash → Partition → ℕ → Option Handle × Flash
  pub esp_ota_write : Flash → Option Handle → List ℕ → Bool × Flash
  pub esp_ota_end : Flash → Option Handle → Bool × Flash
  pub esp_ota_abort : Flash → Handle → Flash
  pub esp_ota_set_boot_partition : Flash → Option Partition → Bool × Flash
  -- A started operation absorbs bytes; `none` is an error.
  pub psa_hash_setup : Option Hash
  pub psa_hash_update : Option Hash → List ℕ → Option Hash
  pub psa_hash_finish : Option Hash → Option (List ℕ)

pub record OtaState (P : Platform) : Type 0 where
  pub active : Bool
  pub h : Option P.Handle
  pub part : Option P.Partition
  pub total : ℕ
  pub received : ℕ
  pub expected_sha : List ℕ
  pub sha : Option P.Hash

module _ (P : Platform) where
  -- `memset(&s, 0, sizeof(s))`, also the state at boot.
  abbrev pub idle : OtaState P
  idle = record {
    active = false;
    h = none;
    part = none;
    total = 0;
    received = 0;
    expected_sha = replicate 32 0;
    sha = none;
  }

  unfoldable pub abort_handle : P.Flash → Option P.Handle → P.Flash
  abort_handle f none = f
  abort_handle f (some h) = P.esp_ota_abort f h

  -- `psa_hash_abort` leaves the operation as it was before its setup, which the clearing does too.
  unfoldable pub abort_locked : OtaState P → P.Flash → OtaState P × P.Flash
  unfolding abort_handle
  abort_locked s f =
      if not (OtaState.active s) then (s, f) else (idle, abort_handle f (OtaState.h s))

  unfoldable pub begin_hash : OtaState P → P.Flash → Option P.Hash → Bool × OtaState P × P.Flash
  unfolding abort_handle
  begin_hash s f none = (false, s, abort_handle f (OtaState.h s))
  begin_hash s f (some op) = (true, record s { sha = some op; active = true }, f)

  unfoldable pub begin_on :
      OtaState P
      → P.Partition
      → ℕ
      → List ℕ
      → Option P.Handle × P.Flash
      → Bool × OtaState P × P.Flash
  unfolding begin_hash
  begin_on s part size sha256 (none, f) = (false, record s { part = some part }, f)
  begin_on s part size sha256 (some h, f) =
      begin_hash
        (record s {
          part = some part;
          h = some h;
          total = size;
          received = 0;
          expected_sha = take 32 sha256;
          sha = none;
        })
        f P.psa_hash_setup

  unfoldable pub begin_part :
      OtaState P → P.Flash → ℕ → List ℕ → Option P.Partition → Bool × OtaState P × P.Flash
  unfolding begin_on
  begin_part s f size sha256 none = (false, record s { part = none }, f)
  begin_part s f size sha256 (some part) = begin_on s part size sha256 (P.esp_ota_begin f part size)

  unfoldable pub ota_begin : OtaState P → P.Flash → ℕ → List ℕ → Bool × OtaState P × P.Flash
  unfolding abort_locked begin_part
  ota_begin s f size sha256 =
      let (s', f') = abort_locked s f in
      begin_part s' f' size sha256 (P.esp_ota_get_next_update_partition f')

  unfoldable pub abort_false : OtaState P × P.Flash → Bool × OtaState P × P.Flash
  abort_false (s, f) = (false, s, f)

  unfoldable pub update_hash :
      OtaState P → P.Flash → List ℕ → Option P.Hash → Bool × OtaState P × P.Flash
  unfolding abort_locked abort_false
  update_hash s f chunk none = abort_false (abort_locked s f)
  update_hash s f chunk (some op) = (
    true,
    record s { sha = some op; received = (OtaState.received s + length chunk) % 2 ^ 32 },
    f,
  )

  unfoldable pub write_chunk : OtaState P → List ℕ → Bool × P.Flash → Bool × OtaState P × P.Flash
  unfolding abort_locked abort_false update_hash
  write_chunk s chunk (false, f) = abort_false (abort_locked s f)
  write_chunk s chunk (true, f) = update_hash s f chunk (P.psa_hash_update (OtaState.sha s) chunk)

  -- The sum is a 32-bit one.
  unfoldable pub ota_data : OtaState P → P.Flash → List ℕ → Bool × OtaState P × P.Flash
  unfolding write_chunk
  ota_data s f chunk =
      if not (OtaState.active s) || length chunk == 0
      then (false, s, f)
      else if ltb (OtaState.total s) ((OtaState.received s + length chunk) % 2 ^ 32)
      then (false, s, f)
      else write_chunk s chunk (P.esp_ota_write f (OtaState.h s) chunk)

  unfoldable pub hash_matches : OtaState P → Option (List ℕ) → Bool
  hash_matches s none = false
  hash_matches s (some got) = length got == 32 && bytes_eq got (OtaState.expected_sha s)

  -- From `esp_ota_end` on: the handle is cleared first.
  unfoldable pub commit : OtaState P → Bool × P.Flash → Bool × OtaState P × P.Flash
  unfolding abort_locked abort_false
  commit s (false, f) = abort_false (abort_locked (record s { h = none }) f)
  commit s (true, f) =
      let (ok, f') = P.esp_ota_set_boot_partition f (OtaState.part s) in (ok, idle, f')

  unfoldable pub ota_end : OtaState P → P.Flash → Bool × OtaState P × P.Flash
  unfolding abort_locked abort_false hash_matches commit
  ota_end s f =
      if not (OtaState.active s)
      then (false, s, f)
      else if not (OtaState.received s == OtaState.total s)
      then abort_false (abort_locked s f)
      else if not (hash_matches s (P.psa_hash_finish (OtaState.sha s)))
      then abort_false (abort_locked s f)
      else commit s (P.esp_ota_end f (OtaState.h s))

  unfoldable pub ota_abort : OtaState P → P.Flash → OtaState P × P.Flash
  unfolding abort_locked
  ota_abort s f = abort_locked s f

  unfoldable pub boot_from : P.Flash → Option P.Partition → Bool × P.Flash
  boot_from f none = (false, f)
  boot_from f (some p) = P.esp_ota_set_boot_partition f (some p)

  unfoldable pub rollback_to : P.Flash → Option P.Partition → Bool × P.Flash
  unfolding boot_from
  rollback_to f none = boot_from f (P.esp_ota_get_next_update_partition f)
  rollback_to f (some p) = boot_from f (some p)

  unfoldable pub ota_rollback : P.Flash → Bool × P.Flash
  unfolding rollback_to
  ota_rollback f = rollback_to f (P.esp_ota_get_last_invalid_partition f)
