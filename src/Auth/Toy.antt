-- ===== src/Auth/Toy.antt =====
-- Toy functions in place of the HMAC and the HKDF that components/core/src/auth.c and
-- tools/esp-ctl/src/crypto.c call.
use espshell.Prelude.{
  ℕ, zero, suc, ◌≡◌, refl, ap, arith, List, [], ◌∷◌, ◌++◌, some, length, length-take, length-append,
  length-replicate, take, replicate,
}
use espshell.Crypto.{Hmac, Hkdf}
use espshell.Auth.{PsaMac, PsaKdf}
use espshell.Auth.Agreement.{MacWorks, HmacWorks}
use espshell.Auth.Keys.{KdfWorks, HkdfWorks}

abbrev pub toy_hmac : List ℕ → List ℕ → List ℕ
toy_hmac key bytes = take 32 (key ++ (bytes ++ replicate 32 0))

pub toy_hmac-size : (key bytes : List ℕ) → length (toy_hmac key bytes) ≡ 32
toy_hmac-size key bytes = omega (
  arith,
  length-take 32 (key ++ (bytes ++ replicate 32 0)),
  length-append key (bytes ++ replicate 32 0),
  length-append bytes (replicate 32 0),
)

abbrev pub toy_mac : PsaMac
toy_mac = record {
  Key = List ℕ;
  Op = List ℕ × List ℕ;
  import_key = λ k. some k;
  sign_setup = λ k. some (k, []);
  update = λ op bytes. some (op.0, op.1 ++ bytes);
  sign_finish = λ op. some (toy_hmac op.0 op.1);
}

pub toy_mac-works : MacWorks toy_mac toy_hmac
toy_mac-works = record {
  key_of = λ op. op.0;
  given = λ op. op.1;
  starts = λ token pos. (token, (token, []), refl, refl, refl, refl);
  updates = λ op bytes. ((op.0, op.1 ++ bytes), refl, refl, refl);
  finishes = λ op. refl;
  size = toy_hmac-size;
}

abbrev pub toy_openssl : Hmac
toy_openssl = record {
  Ctx = List ℕ × List ℕ;
  ctx_new = some ([], []);
  init = λ k c. some (k, []);
  update = λ bytes c. some (c.0, c.1 ++ bytes);
  final = λ c. some (toy_hmac c.0 c.1);
}

pub toy_openssl-works : HmacWorks toy_openssl toy_hmac
toy_openssl-works = record {
  key_of = λ c. c.0;
  given = λ c. c.1;
  news = (([], []), refl);
  inits = λ k c. ((k, []), refl, refl, refl);
  updates = λ bytes c. ((c.0, c.1 ++ bytes), refl, refl, refl);
  finals = λ c. refl;
  size = toy_hmac-size;
}

abbrev pub toy_hkdf : List ℕ → List ℕ → List ℕ → ℕ → List ℕ
toy_hkdf salt secret info n = take n (salt ++ (secret ++ replicate n 0))

abbrev pub part : List (List ℕ) → ℕ → List ℕ
part [] i = []
part (x ∷ xs) zero = x
part (x ∷ xs) (suc i) = part xs i

abbrev pub toy_kdf : PsaKdf
toy_kdf = record {
  Op = List (List ℕ);
  setup = some [];
  input_bytes = λ op step bytes. some (op ++ bytes ∷ []);
  output_bytes = λ op n. some (toy_hkdf (part op 0) (part op 1) (part op 2) n);
}

pub toy_kdf-works : KdfWorks toy_kdf toy_hkdf
toy_kdf-works = record {
  given = λ op. op;
  setups = ([], refl, refl);
  salts = λ op salt g. (_, refl, ap (λ o. o ++ salt ∷ []) g);
  secrets = λ op salt secret g pos. (_, refl, ap (λ o. o ++ secret ∷ []) g);
  infos = λ op salt secret info g. (_, refl, ap (λ o. o ++ info ∷ []) g);
  outputs =
      λ op salt secret info n g. ap (λ o. some (toy_hkdf (part o 0) (part o 1) (part o 2) n)) g;
}

abbrev pub toy_pkey : Hkdf
toy_pkey = record {
  Ctx = List ℕ × List ℕ;
  ctx_new = some ([], []);
  derive_init = λ c. some c;
  set_md = λ c. some c;
  set_salt = λ salt c. some (salt, c.1);
  set_key = λ key c. some (c.0, key);
  add_info = λ info c. some c;
  derive = λ n c. some (toy_hkdf c.0 c.1 [] n);
}

pub toy_pkey-works : HkdfWorks toy_pkey toy_hkdf
toy_pkey-works = record {
  runs = λ salt secret info n pos. (_, _, _, _, _, _, refl, refl, refl, refl, refl, refl, refl);
  size = λ salt secret info n. omega (
    arith,
    length-take n (salt ++ (secret ++ replicate n 0)),
    length-append salt (secret ++ replicate n 0),
    length-append secret (replicate n 0),
    length-replicate n zero,
  );
}
