-- ===== src/Ota/Upload.antt =====
-- An upload in progress in components/core/src/ota.c, and what platform calls are taken to do.
use espshell.Prelude.{
  ℕ, ◌+◌, ◌%◌, ◌^◌, ◌≤◌, ◌<◌, ◌≡◌, refl, ap, subst, sym, ◌∙◌, Bool, true, false, not, ◌||◌, List,
  [], ◌++◌, Option, none, some, ltb, ◌==◌, length, length-append, take, Bool-cases, inl, inr, arith,
}
use espshell.Ota.{
  Platform, OtaState, abort_locked, begin_hash, begin_on, begin_part, ota_begin, abort_false,
  update_hash, write_chunk, ota_data,
}

-- What ESP-IDF and PSA document of the calls that succeed.
pub record FlashWorks (P : Platform) (sha256 : List ℕ → List ℕ) : Type 1 where
  -- The bytes written through a handle, and the partition it writes to.
  pub written : P.Flash → P.Handle → List ℕ
  pub target : P.Handle → P.Partition
  -- The image a partition holds after `esp_ota_end`, and the partition to boot from.
  pub image : P.Flash → P.Partition → List ℕ
  pub boot : P.Flash → Option P.Partition
  pub absorbed : P.Hash → List ℕ
  pub begins :
      (f : P.Flash) (p : P.Partition) (size : ℕ) (h : P.Handle) (f' : P.Flash)
      → P.esp_ota_begin f p size ≡ (some h, f')
      → (written f' h ≡ []) × (target h ≡ p)
  pub writes :
      (f : P.Flash) (h : P.Handle) (chunk : List ℕ) (f' : P.Flash)
      → P.esp_ota_write f (some h) chunk ≡ (true, f')
      → written f' h ≡ written f h ++ chunk
  pub ends :
      (f : P.Flash) (h : P.Handle) (f' : P.Flash)
      → P.esp_ota_end f (some h) ≡ (true, f')
      → image f' (target h) ≡ written f h
  pub boots :
      (f : P.Flash) (p : P.Partition) (f' : P.Flash)
      → P.esp_ota_set_boot_partition f (some p) ≡ (true, f')
      → (boot f' ≡ some p) × (image f' p ≡ image f p)
  pub setups : (op : P.Hash) → P.psa_hash_setup ≡ some op → absorbed op ≡ []
  pub updates :
      (op : P.Hash) (chunk : List ℕ) (op' : P.Hash)
      → P.psa_hash_update (some op) chunk ≡ some op'
      → absorbed op' ≡ absorbed op ++ chunk
  pub finishes :
      (op : P.Hash) (got : List ℕ)
      → P.psa_hash_finish (some op) ≡ some got
      → got ≡ sha256 (absorbed op)

module _ (P : Platform) (sha256 : List ℕ → List ℕ) (W : FlashWorks P sha256) where
  -- An upload of `size` bytes with the hash `sha` has received `bytes`.
  pub record Uploading (s : OtaState P) (f : P.Flash) (size : ℕ) (sha bytes : List ℕ) : Type 0 where
    pub handle : P.Handle
    pub op : P.Hash
    pub is_active : s.active ≡ true
    pub has_handle : s.h ≡ some handle
    pub has_part : s.part ≡ some (W.target handle)
    pub has_total : s.total ≡ size
    pub has_sha : s.expected_sha ≡ take 32 sha
    pub has_op : s.sha ≡ some op
    pub counts : s.received ≡ length bytes
    pub fits : length bytes ≤ size
    pub in_flash : W.written f handle ≡ bytes
    pub in_hash : W.absorbed op ≡ bytes

  begin_hash-Uploading :
      (s : OtaState P) (f : P.Flash) (h : P.Handle) (size : ℕ) (sha : List ℕ) (op : Option P.Hash)
      (s' : OtaState P) (f' : P.Flash)
      → P.psa_hash_setup ≡ op
      → s.h ≡ some h
      → s.part ≡ some (W.target h)
      → s.total ≡ size
      → s.received ≡ 0
      → s.expected_sha ≡ take 32 sha
      → W.written f h ≡ []
      → begin_hash P s f op ≡ (true, s', f')
      → Uploading s' f' size sha []
  unfolding begin_hash
  begin_hash-Uploading s f h size sha none s' f' setup eh ep et er es ew e = cc
  begin_hash-Uploading s f h size sha (some op) s' f' setup eh ep et er es ew e =
      let es' : record s { sha = some op; active = true } ≡ s' = ap (λ r. r.1) e in
      let ef : f ≡ f' = ap (λ r. r.2) e in
      subst (λ r. Uploading r f' size sha []) es'
        (subst (λ g. Uploading (record s { sha = some op; active = true }) g size sha []) ef
          (record {
            handle = h;
            op = op;
            is_active = refl;
            has_handle = eh;
            has_part = ep;
            has_total = et;
            has_sha = es;
            has_op = refl;
            counts = er;
            fits = omega arith;
            in_flash = ew;
            in_hash = W.setups op setup;
          }))

  begin_on-Uploading :
      (s : OtaState P) (g : P.Flash) (part : P.Partition) (size : ℕ) (sha : List ℕ)
      (h : Option P.Handle) (f : P.Flash) (s' : OtaState P) (f' : P.Flash)
      → P.esp_ota_begin g part size ≡ (h, f)
      → begin_on P s part size sha (h, f) ≡ (true, s', f')
      → Uploading s' f' size sha []
  unfolding begin_on
  begin_on-Uploading s g part size sha none f s' f' eb e = cc
  begin_on-Uploading s g part size sha (some h) f s' f' eb e =
      let (empty, on) = W.begins g part size h f eb in
      begin_hash-Uploading _ f h size sha P.psa_hash_setup s' f' refl refl (ap some (sym on)) refl
        refl refl empty e

  begin_part-Uploading :
      (s : OtaState P) (f : P.Flash) (size : ℕ) (sha : List ℕ) (part : Option P.Partition)
      (s' : OtaState P) (f' : P.Flash)
      → begin_part P s f size sha part ≡ (true, s', f')
      → Uploading s' f' size sha []
  unfolding begin_part
  begin_part-Uploading s f size sha none s' f' e = cc
  begin_part-Uploading s f size sha (some part) s' f' e =
      begin_on-Uploading s f part size sha (P.esp_ota_begin f part size).0
        (P.esp_ota_begin f part size).1 s' f' refl e

  -- A successful `ota_begin` starts an upload that has received nothing, whatever was in progress.
  pub ota_begin-Uploading :
      (s : OtaState P) (f : P.Flash) (size : ℕ) (sha : List ℕ) (s' : OtaState P) (f' : P.Flash)
      → ota_begin P s f size sha ≡ (true, s', f')
      → Uploading s' f' size sha []
  unfolding ota_begin
  ota_begin-Uploading s f size sha s' f' e =
      begin_part-Uploading (abort_locked P s f).0 (abort_locked P s f).1 size sha
        (P.esp_ota_get_next_update_partition (abort_locked P s f).1) s' f' e

  update_hash-Uploading :
      (s : OtaState P) (f g : P.Flash) (size : ℕ) (sha bytes chunk : List ℕ) (op : Option P.Hash)
      (s' : OtaState P) (f' : P.Flash)
      → (u : Uploading s f size sha bytes) → W.written g (Uploading.handle u) ≡ bytes ++ chunk
      → P.psa_hash_update s.sha chunk ≡ op
      → length bytes + length chunk ≤ size
      → size < 2 ^ 32
      → update_hash P s g chunk op ≡ (true, s', f')
      → Uploading s' f' size sha (bytes ++ chunk)
  unfolding update_hash abort_false
  update_hash-Uploading s f g size sha bytes chunk none s' f' u ew eu le lt e = cc
  update_hash-Uploading s f g size sha bytes chunk (some op) s' f' u ew eu le lt e =
      let es' : record s { sha = some op; received = (s.received + length chunk) % 2 ^ 32 } ≡ s' =
        ap (λ r. r.1) e in
      let ef : g ≡ f' = ap (λ r. r.2) e in
      let updated : P.psa_hash_update (some (Uploading.op u)) chunk ≡ some op =
        ap (λ o. P.psa_hash_update o chunk) (sym (Uploading.has_op u)) ∙ eu in
      let sum = length-append bytes chunk in
      subst (λ r. Uploading r f' size sha (bytes ++ chunk)) es'
        (subst
          (λ x.
            Uploading (record s { sha = some op; received = (s.received + length chunk) % 2 ^ 32 })
              x size sha (bytes ++ chunk))
          ef
          (record {
            handle = Uploading.handle u;
            op = op;
            is_active = Uploading.is_active u;
            has_handle = Uploading.has_handle u;
            has_part = Uploading.has_part u;
            has_total = Uploading.has_total u;
            has_sha = Uploading.has_sha u;
            has_op = refl;
            counts = omega (arith, Uploading.counts u);
            fits = omega arith;
            in_flash = ew;
            in_hash =
                W.updates (Uploading.op u) chunk op updated
                ∙ ap (λ b. b ++ chunk) (Uploading.in_hash u);
          }))

  write_chunk-Uploading :
      (s : OtaState P) (f g : P.Flash) (size : ℕ) (sha bytes chunk : List ℕ) (ok : Bool)
      (s' : OtaState P) (f' : P.Flash)
      → (u : Uploading s f size sha bytes) → P.esp_ota_write f s.h chunk ≡ (ok, g)
      → length bytes + length chunk ≤ size
      → size < 2 ^ 32
      → write_chunk P s chunk (ok, g) ≡ (true, s', f')
      → Uploading s' f' size sha (bytes ++ chunk)
  unfolding write_chunk abort_false
  write_chunk-Uploading s f g size sha bytes chunk false s' f' u ew le lt e = cc
  write_chunk-Uploading s f g size sha bytes chunk true s' f' u ew le lt e =
      let here : P.esp_ota_write f (some (Uploading.handle u)) chunk ≡ (true, g) =
        ap (λ h. P.esp_ota_write f h chunk) (sym (Uploading.has_handle u)) ∙ ew in
      let written =
        W.writes f (Uploading.handle u) chunk g here
        ∙ ap (λ b. b ++ chunk) (Uploading.in_flash u) in
      update_hash-Uploading s f g size sha bytes chunk (P.psa_hash_update s.sha chunk) s' f' u
        written refl le lt e

  -- A chunk of at most 1,024 bytes that `ota_data` accepts while an upload is in progress is appended
  -- to it, in the flash, the hash and the count, and the upload still fits the size that was announced.
  -- The size leaves room for a chunk in 32 bits, and the calls of ESP-IDF and PSA that succeed do what
  -- `FlashWorks` states.
  pub ota_data-Uploading :
      (s : OtaState P) (f : P.Flash) (size : ℕ) (sha bytes chunk : List ℕ) (s' : OtaState P)
      (f' : P.Flash)
      → Uploading s f size sha bytes
      → length chunk ≤ 1024
      → size + 1024 < 2 ^ 32
      → ota_data P s f chunk ≡ (true, s', f')
      → Uploading s' f' size sha (bytes ++ chunk)
  unfolding ota_data
  ota_data-Uploading s f size sha bytes chunk s' f' u short room e =
      let counts = Uploading.counts u in
      let fits = Uploading.fits u in
      let total = Uploading.has_total u in
      elim (Bool-cases (not s.active || length chunk == 0)) [
        | inl idle_or_empty ↦ absurd (ground arith)
        | inr go ↦ elim (Bool-cases (ltb s.total ((s.received + length chunk) % 2 ^ 32))) [
          | inl over ↦ absurd (ground arith)
          | inr under ↦
              let le : length bytes + length chunk ≤ size = ground arith in
              write_chunk-Uploading s f (P.esp_ota_write f s.h chunk).1 size sha bytes chunk
                (P.esp_ota_write f s.h chunk).0 s' f' u refl le (omega arith) (ground arith)
        ]
      ]
