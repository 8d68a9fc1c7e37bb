-- ===== src/Ota/Completes.antt =====
-- Uploads in components/core/src/ota.c that go through, when no call of the platform fails.
use espshell.Prelude.{
  ℕ, ◌+◌, ◌%◌, ◌^◌, ◌≤◌, ◌<◌, ◌≡◌, refl, ap, sym, ◌∙◌, true, false, not, ◌||◌, List, [], ◌∷◌, ◌++◌,
  some, ◌>>=◌, ltb, ◌==◌, length, length-append, take, bytes_eq, bytes_eq_refl, arith, All, All-imp,
}
use espshell.Ota.{
  Platform, OtaState, idle, abort_locked, begin_hash, begin_on, begin_part, ota_begin, update_hash,
  write_chunk, ota_data, hash_matches, commit, ota_end,
}
use espshell.Ota.Upload.{FlashWorks, Uploading, ota_begin-Uploading, ota_data-Uploading}
use espshell.Ota.Commit.{concat, accepted, feed, feed-Uploading}

pub record NeverFails (P : Platform) : Type 0 where
  pub parts : (f : P.Flash) → (p : P.Partition) × (P.esp_ota_get_next_update_partition f ≡ some p)
  pub begins :
      (f : P.Flash) (p : P.Partition) (size : ℕ)
      → (h : P.Handle) × (f' : P.Flash) × (P.esp_ota_begin f p size ≡ (some h, f'))
  pub writes :
      (f : P.Flash) (h : P.Handle) (chunk : List ℕ)
      → (f' : P.Flash) × (P.esp_ota_write f (some h) chunk ≡ (true, f'))
  pub ends : (f : P.Flash) (h : P.Handle) → (f' : P.Flash) × (P.esp_ota_end f (some h) ≡ (true, f'))
  pub boots :
      (f : P.Flash) (p : P.Partition)
      → (f' : P.Flash) × (P.esp_ota_set_boot_partition f (some p) ≡ (true, f'))
  pub setups : (op : P.Hash) × (P.psa_hash_setup ≡ some op)
  pub updates :
      (op : P.Hash) (chunk : List ℕ)
      → (op' : P.Hash) × (P.psa_hash_update (some op) chunk ≡ some op')
  pub finishes :
      (op : P.Hash) → (got : List ℕ) × (P.psa_hash_finish (some op) ≡ some got) × (length got ≡ 32)

module _ (P : Platform) (N : NeverFails P) where
  begin_completes :
      (s : OtaState P) (f : P.Flash) (size : ℕ) (sha : List ℕ)
      → (s' : OtaState P) × (f' : P.Flash) × (ota_begin P s f size sha ≡ (true, s', f'))
  unfolding ota_begin begin_part begin_on begin_hash
  begin_completes s f size sha =
      let (s1, g) = abort_locked P s f in
      let (p, next) = N.parts g in
      let (h, f', on) = N.begins g p size in
      let (op, setup) = N.setups in
      (
        _,
        _,
        ap (begin_part P s1 g size sha) next
            ∙ (ap (begin_on P s1 p size sha) on ∙ ap (begin_hash P _ f') setup),
      )

  data_open :
      (s : OtaState P) (f : P.Flash) (chunk : List ℕ)
      → (not s.active || length chunk == 0) ≡ false
      → ltb s.total ((s.received + length chunk) % 2 ^ 32) ≡ false
      → ota_data P s f chunk ≡ write_chunk P s chunk (P.esp_ota_write f s.h chunk)
  unfolding ota_data
  data_open s f chunk a b = ground arith

  end_open :
      (s : OtaState P) (f : P.Flash)
      → s.active ≡ true
      → s.received ≡ s.total
      → hash_matches P s (P.psa_hash_finish s.sha) ≡ true
      → ota_end P s f ≡ commit P s (P.esp_ota_end f s.h)
  unfolding ota_end
  end_open s f a b c = ground arith

module _ (P : Platform) (N : NeverFails P) (sha256 : List ℕ → List ℕ)
    (W : FlashWorks P sha256) where
  data_completes :
      (s : OtaState P) (f : P.Flash) (size : ℕ) (sha bytes chunk : List ℕ)
      → Uploading P sha256 W s f size sha bytes
      → 0 < length chunk
      → length bytes + length chunk ≤ size
      → size < 2 ^ 32
      → (s' : OtaState P) × (f' : P.Flash) × (ota_data P s f chunk ≡ (true, s', f'))
  unfolding write_chunk update_hash
  data_completes s f size sha bytes chunk u pos fits room =
      let (g, wrote) = N.writes f (Uploading.handle u) chunk in
      let (op, updated) = N.updates (Uploading.op u) chunk in
      let active = Uploading.is_active u in
      let counts = Uploading.counts u in
      let total = Uploading.has_total u in
      let wrote' : P.esp_ota_write f s.h chunk ≡ (true, g) =
        ap (λ h. P.esp_ota_write f h chunk) (Uploading.has_handle u) ∙ wrote in
      let updated' : P.psa_hash_update s.sha chunk ≡ some op =
        ap (λ o. P.psa_hash_update o chunk) (Uploading.has_op u) ∙ updated in
      let guard_a : (not s.active || length chunk == 0) ≡ false = ground arith in
      let guard_b : ltb s.total ((s.received + length chunk) % 2 ^ 32) ≡ false = ground arith in
      (
        _,
        _,
        data_open P N s f chunk guard_a guard_b
            ∙ (ap (write_chunk P s chunk) wrote' ∙ ap (update_hash P s g chunk) updated'),
      )

  feed_completes :
      (chunks : List (List ℕ)) (s : OtaState P) (f : P.Flash) (size : ℕ) (sha bytes : List ℕ)
      → Uploading P sha256 W s f size sha bytes
      → All (λ c. (0 < length c) × (length c ≤ 1024)) chunks
      → length bytes + length (concat chunks) ≤ size
      → size + 1024 < 2 ^ 32
      → (s' : OtaState P) × (f' : P.Flash) × (feed P chunks (s, f) ≡ some (s', f'))
  unfolding feed
  feed_completes [] s f size sha bytes u each fits room = (s, f, refl)
  feed_completes (c ∷ cs) s f size sha bytes u ((pos, short), each) fits room =
      let sum = length-append c (concat cs) in
      let (s1, f1, one) = data_completes s f size sha bytes c u pos (omega arith) (omega arith) in
      let next = ota_data-Uploading P sha256 W s f size sha bytes c s1 f1 u short room one in
      let (s', f', rest) =
        feed_completes cs s1 f1 size sha (bytes ++ c) next each
          (omega (arith, length-append bytes c)) room in
      (s', f', ap (λ r. accepted P r >>= feed P cs) one ∙ rest)

  end_completes :
      (s : OtaState P) (f : P.Flash) (size : ℕ) (sha bytes : List ℕ)
      → Uploading P sha256 W s f size sha bytes
      → length bytes ≡ size
      → sha256 bytes ≡ take 32 sha
      → (s' : OtaState P) × (f' : P.Flash) × (ota_end P s f ≡ (true, s', f'))
  unfolding hash_matches commit
  end_completes s f size sha bytes u whole hashed =
      let (got, finish, full) = N.finishes (Uploading.op u) in
      let finish' : P.psa_hash_finish s.sha ≡ some got =
        ap P.psa_hash_finish (Uploading.has_op u) ∙ finish in
      let same : got ≡ s.expected_sha =
        W.finishes (Uploading.op u) got finish
        ∙ (ap sha256 (Uploading.in_hash u) ∙ (hashed ∙ sym (Uploading.has_sha u))) in
      let equal : bytes_eq got s.expected_sha ≡ true =
        ap (λ x. bytes_eq x s.expected_sha) same ∙ bytes_eq_refl s.expected_sha in
      let (g, ended) = N.ends f (Uploading.handle u) in
      let (f', booted) = N.boots g (W.target (Uploading.handle u)) in
      let ended' : P.esp_ota_end f s.h ≡ (true, g) =
        ap (P.esp_ota_end f) (Uploading.has_handle u) ∙ ended in
      let booted' : P.esp_ota_set_boot_partition g s.part ≡ (true, f') =
        ap (P.esp_ota_set_boot_partition g) (Uploading.has_part u) ∙ booted in
      (
        idle P,
        f',
        end_open P N s f (Uploading.is_active u)
              (omega (arith, Uploading.counts u, Uploading.has_total u))
              (ap (hash_matches P s) finish' ∙ ground arith)
            ∙ (ap (commit P s) ended' ∙ ap (λ r. (r.0, idle P, r.1)) booted'),
      )

  -- When no call of the platform fails, an upload in chunks of 1 to 1,024 bytes goes through whenever the
  -- size and the hash that were announced are the chunks' own: `ota_begin`, each `ota_data` and
  -- `ota_end` succeed, whatever state was left before. The size leaves room for a chunk in 32 bits, and
  -- the calls of ESP-IDF and PSA do what `FlashWorks` states.
  pub upload_completes :
      (s : OtaState P) (f : P.Flash) (size : ℕ) (sha : List ℕ) (chunks : List (List ℕ))
      → All (λ c. (0 < length c) × (length c ≤ 1024)) chunks
      → length (concat chunks) ≡ size
      → size + 1024 < 2 ^ 32
      → sha256 (concat chunks) ≡ take 32 sha
      → (s₁ : OtaState P) × (f₁ : P.Flash) × (s₂ : OtaState P) × (f₂ : P.Flash) × (s₃ : OtaState P)
        × (f₃ : P.Flash) × (ota_begin P s f size sha ≡ (true, s₁, f₁))
        × (feed P chunks (s₁, f₁) ≡ some (s₂, f₂))
        × (ota_end P s₂ f₂ ≡ (true, s₃, f₃))
  upload_completes s f size sha chunks each whole room hashed =
      let (s1, f1, begun) = begin_completes P N s f size sha in
      let started = ota_begin-Uploading P sha256 W s f size sha s1 f1 begun in
      let (s2, f2, fed) = feed_completes chunks s1 f1 size sha [] started each (omega arith) room in
      let received =
        feed-Uploading P sha256 W chunks s1 f1 size sha [] s2 f2 started
          (All-imp _ (λ c. length c ≤ 1024) chunks (λ c h. h.1) each) room fed in
      let (s3, f3, ended) = end_completes s2 f2 size sha (concat chunks) received whole hashed in
      (s1, f1, s2, f2, s3, f3, begun, fed, ended)
