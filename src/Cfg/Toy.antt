-- ===== src/Cfg/Toy.antt =====
-- A toy NVS for the runs of components/core/src/cfg.c, auth.c and cmd_builtin.c: an association list.
use espshell.Prelude.{
  ℕ, ◌≡◌, ◌≢◌, refl, sym, ◌∙◌, true, false, List, [], ◌∷◌, Option, none, some, ltb, if◌then◌else◌,
  length, map, ap, bytes_eq, bytes_eq_iff, Bool-cases, inl, inr,
}
use espshell.Cfg.{Nvs}
use espshell.Cfg.Stores.{NvsWorks}

abbrev pub ToyStore : Type 0
ToyStore = List (List ℕ × List ℕ)

abbrev pub find : ToyStore → List ℕ → ℕ → Option (List ℕ)
find [] key sz = none
find ((k, v) ∷ st) key sz =
    if bytes_eq k key then (if ltb (length v) sz then some v else none) else find st key sz

abbrev pub name_of : List ℕ × List ℕ → List ℕ
name_of (k, v) = k

abbrev pub toy_nvs : Nvs
toy_nvs = record {
  Store = ToyStore;
  nvs_get_str = find;
  nvs_set_str = λ st k v. (true, (k, v) ∷ st);
  nvs_get_u32 = λ st k. none;
  nvs_set_u32 = λ st k n. (false, st);
  nvs_get_blob = λ st k sz. none;
  nvs_set_blob = λ st k v. (false, st);
  nvs_erase_key = λ st k. (false, st);
  nvs_commit = λ st. (true, st);
  nvs_entries = λ st. map name_of st;
}

find_set :
    (st : ToyStore) (key value : List ℕ) (sz : ℕ)
    → find ((key, value) ∷ st) key sz ≡ (if ltb (length value) sz then some value else none)
find_set st key value sz = rw ((bytes_eq_iff key key).1 refl) refl

find_other :
    (st : ToyStore) (key value other : List ℕ) (sz : ℕ)
    → key ≢ other
    → find ((key, value) ∷ st) other sz ≡ find st other sz
find_other st key value other sz apart = elim (Bool-cases (bytes_eq key other)) [
  | inl same ↦ absurd (apart ((bytes_eq_iff key other).0 same))
  | inr differ ↦ rw differ refl
]

pub toy_nvs-works : NvsWorks toy_nvs
toy_nvs-works = record {
  sets = λ st st' key value e sz.
      ap (λ s. find s key sz) (sym (ap (λ r. r.1) e)) ∙ find_set st key value sz;
  keeps = λ st key value other apart sz. find_other st key value other sz apart;
  commits = λ st key sz. refl;
}
