-- ===== src/Proto/Toy.antt =====
-- PSA on the toy cipher: a parameter of components/core/src/proto.c at which its theorems are tried.
use espshell.Prelude.{
  ℕ, ◌+◌, ◌-◌, ◌≡◌, refl, List, [], ◌++◌, Option, none, some, leb, if◌then◌else◌, arith, length,
  length-append, take, drop, take-append_of_eq, drop-append_of_eq,
}
use espshell.Crypto.Toy.{toy, tag_of}
use espshell.Proto.{Psa}
use espshell.Proto.Spec.{PsaWorks}

abbrev pub toy_open : List ℕ → List ℕ → List ℕ → Option (List ℕ)
toy_open n c a = toy.unseal [] n a (take (length c - 16) c) (drop (length c - 16) c)

-- A handle is the key.
abbrev pub toy_psa : Psa
toy_psa = record {
  Handle = List ℕ;
  import_key = λ use_for k. some k;
  aead_encrypt = λ h n a p room. if leb (length p + 16) room then some (p ++ tag_of n) else none;
  aead_decrypt = λ h n a c room. if leb (length c) (room + 16) then toy_open n c a else none;
}

toy_open_parts : (n a s t : List ℕ) → length t ≡ 16 → toy_open n (s ++ t) a ≡ toy.unseal [] n a s t
toy_open_parts n a s t h =
    let size : length (s ++ t) - 16 ≡ length s = omega (arith, length-append s t) in
    rw (size, take-append_of_eq (length s) s t refl, drop-append_of_eq (length s) s t refl)

pub toy_psa-works : PsaWorks toy_psa toy
toy_psa-works = record {
  encrypting = λ k hk. (k, refl, λ n a p room hn fits. ground arith);
  decrypting = λ k hk. (
    k,
    refl,
    λ n a s t room hn ht fits. ground (arith, length-append s t, toy_open_parts n a s t),
  );
}
