-- ===== src/Crypto/Toy.antt =====
-- A concrete cipher that meets every law assumed of the crypto libraries: the text stands as it is,
-- and the tag is made of the nonce. The tests run on it.
use espshell.Prelude.{
  ℕ, ◌≡◌, refl, List, [], ◌++◌, none, some, if◌then◌else◌, arith, length, take, replicate,
  length-append, length-take, length-replicate, bytes_eq, bytes_eq_refl,
}
use espshell.Crypto.{Evp}
use espshell.Crypto.Ideal.{Aead, IsAead, EvpWorks}

unfoldable pub tag_of : List ℕ → List ℕ
tag_of nonce = take 16 (nonce ++ replicate 16 0)

pub length-tag_of : (n : List ℕ) → length (tag_of n) ≡ 16
unfolding tag_of
length-tag_of n = omega (
  arith,
  length-take 16 (n ++ replicate 16 0),
  length-append n (replicate {A = ℕ} 16 0),
  length-replicate {A = ℕ} 16 0,
)

abbrev pub toy : Aead
toy = record {
  seal = λ k n a p. (p, tag_of n);
  unseal = λ k n a c t. if bytes_eq t (tag_of n) then some c else none;
}

pub toy-IsAead : IsAead toy
toy-IsAead = record {
  length_text = λ k n a p. refl;
  length_tag = λ k n a p. length-tag_of n;
  length_unseal = λ k n a c t p e. ground arith;
  unseal-seal = λ k n a p. rw (bytes_eq_refl (tag_of n));
}

-- The nonce, and the expected tag when decrypting.
abbrev pub toy_evp : Evp
toy_evp = record {
  Ctx = List ℕ × List ℕ;
  ctx_new = some ([], []);
  set_ivlen = λ n c. some c;
  encrypt_init = λ c. some c;
  encrypt_key = λ k n c. some (n, []);
  encrypt_aad = λ a c. some c;
  encrypt_update = λ p c. some (c, p);
  encrypt_final = λ c. some (c, []);
  get_tag = λ m c. some (tag_of c.0);
  decrypt_init = λ c. some c;
  decrypt_key = λ k n c. some (n, []);
  decrypt_aad = λ a c. some c;
  decrypt_update = λ s c. some (c, s);
  set_tag = λ t c. some (c.0, t);
  decrypt_final = λ c. if bytes_eq c.1 (tag_of c.0) then some (c, []) else none;
}

pub toy_evp-works : EvpWorks toy_evp toy
toy_evp-works = record {
  encrypting = λ k n hk hn. ((n, []), refl, λ a p. ((n, []), (n, []), refl, refl, refl, refl));
  decrypting = λ k n hk hn. (
    (n, []),
    refl,
    λ a s t. (
      (n, []),
      (n, []),
      (n, t),
      s,
      refl,
      refl,
      refl,
      (λ e. ground arith),
      (λ p e. (ground arith, ground arith)),
    ),
  );
}
