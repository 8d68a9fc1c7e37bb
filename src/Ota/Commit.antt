-- ===== src/Ota/Commit.antt =====
-- The end of an upload in components/core/src/ota.c, and whole uploads.
use espshell.Prelude.{
  ℕ, ◌+◌, ◌^◌, ◌≤◌, ◌<◌, ◌≡◌, refl, ap, subst, sym, ◌∙◌, Bool, true, false, List, [], ◌∷◌, ◌++◌,
  append_assoc, append-nil, Option, none, some, ◌>>=◌, >>=-eq-some, ◌==◌, length, take, bytes_eq,
  bytes_eq→eq, Bool-cases, inl, inr, arith, All,
}
use espshell.Ota.{
  Platform, OtaState, idle, abort_locked, ota_begin, abort_false, ota_data, hash_matches, commit,
  ota_end,
}
use espshell.Ota.Upload.{FlashWorks, Uploading, ota_begin-Uploading, ota_data-Uploading}

abbrev pub concat : List (List ℕ) → List ℕ
concat [] = []
concat (c ∷ cs) = c ++ concat cs

module _ (P : Platform) where
  abbrev pub accepted : Bool × OtaState P × P.Flash → Option (OtaState P × P.Flash)
  accepted (false, s, f) = none
  accepted (true, s, f) = some (s, f)

  -- The client sends the chunks as long as they are accepted.
  unfoldable pub feed : List (List ℕ) → OtaState P × P.Flash → Option (OtaState P × P.Flash)
  feed [] (s, f) = some (s, f)
  feed (c ∷ cs) (s, f) = accepted (ota_data P s f c) >>= feed cs

  aborted : (s : OtaState P) (f : P.Flash) → OtaState.active (abort_locked P s f).0 ≡ false
  unfolding abort_locked
  aborted s f = elim (Bool-cases s.active) [
    | inl active ↦ rw active refl
    | inr quiet ↦ rw quiet refl
  ]

  commit_stops : (s : OtaState P) (r : Bool × P.Flash) → OtaState.active (commit P s r).1 ≡ false
  unfolding commit abort_false
  commit_stops s (false, f) = aborted (record s { h = none }) f
  commit_stops s (true, f) = refl

  stopped : (s : OtaState P) (f : P.Flash) → OtaState.active (ota_end P s f).1 ≡ false
  unfolding ota_end abort_false
  stopped s f =
      let ab = aborted s f in
      let co = commit_stops s (P.esp_ota_end f s.h) in
      elim (Bool-cases s.active) [ inl active ↦ ground arith | inr quiet ↦ ground arith ]

  -- After `ota_end`, whatever it answers, no upload is in progress: `ota_data` refuses every chunk and
  -- changes nothing.
  pub ota_data-ota_end :
      (s : OtaState P) (f : P.Flash) (chunk : List ℕ)
      → ota_data P (ota_end P s f).1 (ota_end P s f).2 chunk
        ≡ (false, (ota_end P s f).1, (ota_end P s f).2)
  unfolding ota_data
  ota_data-ota_end s f chunk = let done = stopped s f in rw done refl

  pub accepted-eq :
      (r : Bool × OtaState P × P.Flash) (s : OtaState P) (f : P.Flash)
      → accepted r ≡ some (s, f)
      → r ≡ (true, s, f)
  accepted-eq (false, t, g) s f e = cc
  accepted-eq (true, t, g) s f e = cc

module _ (P : Platform) (sha256 : List ℕ → List ℕ) (W : FlashWorks P sha256) where
  abbrev UploadingIf : ℕ → List ℕ → List ℕ → Option (OtaState P × P.Flash) → Type 0
  UploadingIf size sha bytes none = Unit
  UploadingIf size sha bytes (some (s, f)) = Uploading P sha256 W s f size sha bytes

  pub feed-Uploading :
      (chunks : List (List ℕ)) (s : OtaState P) (f : P.Flash) (size : ℕ) (sha bytes : List ℕ)
      (s' : OtaState P) (f' : P.Flash)
      → Uploading P sha256 W s f size sha bytes
      → All (λ c. length c ≤ 1024) chunks
      → size + 1024 < 2 ^ 32
      → feed P chunks (s, f) ≡ some (s', f')
      → Uploading P sha256 W s' f' size sha (bytes ++ concat chunks)
  unfolding feed
  feed-Uploading [] s f size sha bytes s' f' u short room e =
      subst (UploadingIf size sha (bytes ++ [])) e
        (subst (Uploading P sha256 W s f size sha) (sym (append-nil bytes)) u)
  feed-Uploading (c ∷ cs) s f size sha bytes s' f' u (here, short) room e =
      let ((t, g), one, rest) = >>=-eq-some (accepted P (ota_data P s f c)) _ e in
      let next =
        ota_data-Uploading P sha256 W s f size sha bytes c t g u here room
          (accepted-eq P (ota_data P s f c) t g one) in
      subst (Uploading P sha256 W s' f' size sha) (append_assoc bytes c (concat cs))
        (feed-Uploading cs t g size sha (bytes ++ c) s' f' next short room rest)

  commit-true :
      (s : OtaState P) (f : P.Flash) (size : ℕ) (sha bytes : List ℕ) (ok : Bool) (g : P.Flash)
      (s' : OtaState P) (f' : P.Flash)
      → (u : Uploading P sha256 W s f size sha bytes) → P.esp_ota_end f s.h ≡ (ok, g)
      → commit P s (ok, g) ≡ (true, s', f')
      → (s' ≡ idle P)
        × (W.boot f' ≡ some (W.target (Uploading.handle u)))
        × (W.image f' (W.target (Uploading.handle u)) ≡ bytes)
  unfolding commit abort_false
  commit-true s f size sha bytes false g s' f' u ended e = cc
  commit-true s f size sha bytes true g s' f' u ended e =
      let part = W.target (Uploading.handle u) in
      let set : P.esp_ota_set_boot_partition g (some part) ≡ (true, f') =
        ap (λ p. P.esp_ota_set_boot_partition g p) (sym (Uploading.has_part u))
        ∙ ap (λ r. (r.0, r.2)) e in
      let (booted, kept) = W.boots g part f' set in
      let held =
        W.ends f (Uploading.handle u) g
          (ap (P.esp_ota_end f) (sym (Uploading.has_handle u)) ∙ ended) in
      (ap (λ r. r.1) (sym e), booted, kept ∙ (held ∙ Uploading.in_flash u))

  hash-eq :
      (s : OtaState P) (f : P.Flash) (size : ℕ) (sha bytes : List ℕ) (got : Option (List ℕ))
      → (u : Uploading P sha256 W s f size sha bytes) → P.psa_hash_finish s.sha ≡ got
      → hash_matches P s got ≡ true
      → sha256 bytes ≡ take 32 sha
  unfolding hash_matches
  hash-eq s f size sha bytes none u eg h = cc
  hash-eq s f size sha bytes (some got) u eg h =
      let finished : got ≡ sha256 bytes =
        W.finishes (Uploading.op u) got (ap P.psa_hash_finish (sym (Uploading.has_op u)) ∙ eg)
        ∙ ap sha256 (Uploading.in_hash u) in
      let same : bytes_eq got s.expected_sha ≡ true = ground arith in
      sym finished ∙ (bytes_eq→eq got s.expected_sha same ∙ Uploading.has_sha u)

  ota_end-true :
      (s : OtaState P) (f : P.Flash) (size : ℕ) (sha bytes : List ℕ) (s' : OtaState P)
      (f' : P.Flash)
      → Uploading P sha256 W s f size sha bytes
      → ota_end P s f ≡ (true, s', f')
      → (part : P.Partition) × (length bytes ≡ size)
        × (sha256 bytes ≡ take 32 sha)
        × (W.image f' part ≡ bytes)
        × (W.boot f' ≡ some part)
        × (s' ≡ idle P)
  unfolding ota_end abort_false
  ota_end-true s f size sha bytes s' f' u e =
      let active = Uploading.is_active u in
      let counts = Uploading.counts u in
      let total = Uploading.has_total u in
      let finish = P.psa_hash_finish s.sha in
      elim (Bool-cases (s.received == s.total)) [
        | inl whole ↦ elim (Bool-cases (hash_matches P s finish)) [
          | inl good ↦
              let (cleared, booted, held) =
                commit-true s f size sha bytes (P.esp_ota_end f s.h).0 (P.esp_ota_end f s.h).1 s' f'
                  u refl (ground arith) in
              (
                W.target (Uploading.handle u),
                ground arith,
                hash-eq s f size sha bytes finish u refl good,
                held,
                booted,
                cleared,
              )
          | inr bad ↦ absurd (ground arith)
        ]
        | inr short ↦ absurd (ground arith)
      ]

  -- An upload that is announced with `size` and the hash `sha`, whose chunks of at most 1,024 bytes are
  -- all accepted and whose end succeeds: the chunks together are `size` bytes, they have the hash that
  -- was announced, one partition holds just them, and the device is set to boot from it. The state is
  -- idle again. The size leaves room for a chunk in 32 bits, and the calls of ESP-IDF and PSA that
  -- succeed do what `FlashWorks` states.
  pub committed_upload :
      (s : OtaState P) (f : P.Flash) (size : ℕ) (sha : List ℕ) (chunks : List (List ℕ))
      (s₁ s₂ s₃ : OtaState P) (f₁ f₂ f₃ : P.Flash)
      → size + 1024 < 2 ^ 32
      → All (λ c. length c ≤ 1024) chunks
      → ota_begin P s f size sha ≡ (true, s₁, f₁)
      → feed P chunks (s₁, f₁) ≡ some (s₂, f₂)
      → ota_end P s₂ f₂ ≡ (true, s₃, f₃)
      → (part : P.Partition) × (length (concat chunks) ≡ size)
        × (sha256 (concat chunks) ≡ take 32 sha)
        × (W.image f₃ part ≡ concat chunks)
        × (W.boot f₃ ≡ some part)
        × (s₃ ≡ idle P)
  committed_upload s f size sha chunks s₁ s₂ s₃ f₁ f₂ f₃ room short begun fed ended =
      let started = ota_begin-Uploading P sha256 W s f size sha s₁ f₁ begun in
      let received = feed-Uploading chunks s₁ f₁ size sha [] s₂ f₂ started short room fed in
      ota_end-true s₂ f₂ size sha (concat chunks) s₃ f₃ received ended
