-- ===== src/Ota/Toy.antt =====
-- A toy platform for components/core/src/ota.c: one partition, a buffer, and a digest that is the
-- padded data.
use espshell.Prelude.{
  ℕ, ◌+◌, refl, ap, sym, arith, Bool, true, false, List, [], ◌∷◌, ◌++◌, Option, none, some,
  length-take, length-append, replicate, take,
}
use espshell.Ota.{Platform, idle}
use espshell.Ota.Upload.{FlashWorks}
use espshell.Ota.Completes.{NeverFails}
use espshell.Ota.Handlers.{Timers, World}

abbrev pub from_some {ℓ} : {A : Type ℓ} → A → Option A → A
from_some d none = d
from_some d (some a) = a

pub record ToyFlash : Type 0 where
  pub buffer : List ℕ
  pub stored : List ℕ
  pub boot_from : Option ℕ

abbrev pub toy_write : ToyFlash → Option ℕ → List ℕ → Bool × ToyFlash
toy_write f none c = (false, f)
toy_write f (some h) c = (true, record f { buffer = f.buffer ++ c })

abbrev pub toy_end : ToyFlash → Option ℕ → Bool × ToyFlash
toy_end f none = (false, f)
toy_end f (some h) = (true, record f { stored = f.buffer })

abbrev pub toy_boot : ToyFlash → Option ℕ → Bool × ToyFlash
toy_boot f none = (false, f)
toy_boot f (some p) = (true, record f { boot_from = some p })

abbrev pub toy_update : Option (List ℕ) → List ℕ → Option (List ℕ)
toy_update none c = none
toy_update (some op) c = some (op ++ c)

abbrev pub digest : List ℕ → List ℕ
digest bytes = take 32 (bytes ++ replicate 32 0)

abbrev pub toy_finish : Option (List ℕ) → Option (List ℕ)
toy_finish none = none
toy_finish (some op) = some (digest op)

abbrev pub toy : Platform
toy = record {
  Flash = ToyFlash;
  Handle = ℕ;
  Partition = ℕ;
  Hash = List ℕ;
  esp_ota_get_next_update_partition = λ f. some 1;
  esp_ota_get_last_invalid_partition = λ f. none;
  esp_ota_begin = λ f p size. (some p, record f { buffer = [] });
  esp_ota_write = toy_write;
  esp_ota_end = toy_end;
  esp_ota_abort = λ f h. f;
  esp_ota_set_boot_partition = toy_boot;
  psa_hash_setup = some [];
  psa_hash_update = toy_update;
  psa_hash_finish = toy_finish;
}

unfoldable pub toy-works : FlashWorks toy digest
toy-works = record {
  written = λ f h. f.buffer;
  target = λ h. h;
  image = λ f p. f.stored;
  boot = λ f. f.boot_from;
  absorbed = λ op. op;
  begins =
      λ f p size h f' e. (ap (λ r. ToyFlash.buffer r.1) (sym e), ap (λ r. from_some p r.0) (sym e));
  writes = λ f h chunk f' e. ap (λ r. ToyFlash.buffer r.1) (sym e);
  ends = λ f h f' e. ap (λ r. ToyFlash.stored r.1) (sym e);
  boots =
      λ f p f' e. (ap (λ r. ToyFlash.boot_from r.1) (sym e), ap (λ r. ToyFlash.stored r.1) (sym e));
  setups = λ op e. ap (from_some []) (sym e);
  updates = λ op chunk op' e. ap (from_some []) (sym e);
  finishes = λ op got e. ap (from_some []) (sym e);
}

pub toy-never-fails : NeverFails toy
toy-never-fails = record {
  parts = λ f. (1, refl);
  begins = λ f p size. (p, _, refl);
  writes = λ f h chunk. (_, refl);
  ends = λ f h. (_, refl);
  boots = λ f p. (_, refl);
  setups = ([], refl);
  updates = λ op chunk. (_, refl);
  finishes = λ op. (
    _,
    refl,
    omega (arith, length-take 32 (op ++ replicate 32 0), length-append op (replicate 32 0)),
  );
}

abbrev pub blank : ToyFlash
blank = record { buffer = 9 ∷ []; stored = []; boot_from = none }

abbrev pub toy_timers : Timers
toy_timers = record {
  Clock = ℕ;
  Timer = ℕ;
  esp_timer_create = λ c. (some 7, c);
  esp_timer_start_once = λ c t us. c + us;
}

abbrev pub boot_world : World toy toy_timers
boot_world = record { s = idle toy; flash = blank; t = none; clock = 0 }
