-- ===== src/Ctl/Upload/Runs.antt =====
-- `do_ota_upload` of tools/esp-ctl/src/esp-ctl.c, on a device, against the calls of components/core/src/ota.c
-- that its commands make.
use espshell.Prelude.{
  ℕ, zero, suc, ◌^◌, ◌≤◌, ◌<◌, ◌≡◌, refl, ap, ap₂, sym, subst, ◌∙◌, Bool, true, false, List, [],
  ◌∷◌, Option, none, some, ◌>>=◌, ◌==◌, length, length-drop, take, drop, codes, All, IsByte, arith,
}
use espshell.Ota.{Platform, OtaState, ota_begin, ota_data, ota_end}
use espshell.Ota.Handlers.{Timers, World}
use espshell.Ota.Commit.{accepted, feed}
use espshell.Ctl.{print_reply}
use espshell.Ctl.Upload.{
  reply_code, data_line, begin_line, upload_loop, end_upload, send_file, with_digest, do_ota_upload,
}
use espshell.Ctl.Upload.Chunks.{pieces, take-IsChunk}
use espshell.Ctl.Upload.Device.{Bench, ask_device, device, Answers, ask_begin, ask_data, ask_end}

All-take : (P : ℕ → Type 0) (n : ℕ) (xs : List ℕ) → All P xs → All P (take n xs)
All-take P zero xs a = tt
All-take P (suc n) [] a = tt
All-take P (suc n) (x ∷ xs) (p, a) = (p, All-take P n xs a)

All-drop : (P : ℕ → Type 0) (n : ℕ) (xs : List ℕ) → All P xs → All P (drop n xs)
All-drop P zero xs a = a
All-drop P (suc n) [] a = tt
All-drop P (suc n) (x ∷ xs) (p, a) = All-drop P n xs a

module _ (P : Platform) where
  abbrev pub Flashed : Type 0
  Flashed = OtaState P × P.Flash

  -- The calls of ota.c for an upload in chunks: the state and the flash when all succeed.
  abbrev pub upload_calls : Flashed → ℕ → List ℕ → List (List ℕ) → Option Flashed
  upload_calls (s, f) size sha chunks = accepted P (ota_begin P s f size sha) >>= λ u.
      feed P chunks u >>= λ v. accepted P (ota_end P v.0 v.1)

module _ (P : Platform) (T : Timers) (junk : List ℕ) where
  abbrev pub upload_of : Bench P T junk → Flashed P
  upload_of b = (World.s (Bench.world b), World.flash (Bench.world b))

  -- What ota.c does with the chunks, and how the loop ends: on a refusal with exit code 4.
  abbrev Loops : Option (Flashed P) → Option (Option ℕ × Bench P T junk) → Type 0
  Loops none r = (b : Bench P T junk) × (r ≡ some (some 4, b))
  Loops (some u) r = (b : Bench P T junk) × (r ≡ some (none, b)) × (upload_of b ≡ u)

  abbrev after_reply :
      Bench P T junk
      → Option (Option ℕ × Bench P T junk)
      → Option ℕ
      → Option (Option ℕ × Bench P T junk)
  after_reply b next refusal = elim refusal [ some code ↦ some (some code, b) | none ↦ next ]

  loop_step :
      (r : Bool × OtaState P × P.Flash) (asked : Option (List ℕ) × Bench P T junk)
      (chunks : List (List ℕ)) (next : Option (Option ℕ × Bench P T junk))
      → Answers P T junk r asked
      → Loops (feed P chunks (upload_of asked.1)) next
      → Loops
          (accepted P r >>= feed P chunks)
          (after_reply asked.1 next (reply_code (device P T junk) asked.0))
  loop_step (false, s, f) asked chunks next (refusal, prints, same_s, same_f) follows =
      (asked.1, ap (after_reply asked.1 next) refusal)
  loop_step (true, s, f) asked chunks next (refusal, prints, same_s, same_f) follows =
      subst (λ x. Loops (feed P chunks (s, f)) (after_reply asked.1 next x)) (sym refusal)
        (subst (λ x. Loops (feed P chunks (x, f)) next) same_s
          (subst (λ x. Loops (feed P chunks (World.s (Bench.world asked.1), x)) next) same_f
            follows))

  loop_feeds :
      (rounds : ℕ) (left : List ℕ) (b : Bench P T junk)
      → All IsByte left
      → length left ≤ rounds
      → Loops
          (feed P (pieces rounds left) (upload_of b))
          (upload_loop (device P T junk) rounds left b)
  unfolding upload_loop pieces feed
  loop_feeds rounds [] b bytes h = (b, refl, refl)
  loop_feeds zero (c ∷ left) b bytes h = absurd (omega arith)
  loop_feeds (suc rounds) (c ∷ left) b bytes h =
      let asked = ask_device P T junk b (data_line (take 504 (c ∷ left))) in
      let rest = drop 504 (c ∷ left) in
      loop_step
        (ota_data P (World.s (Bench.world b)) (World.flash (Bench.world b)) (take 504 (c ∷ left)))
        asked (pieces rounds rest) (upload_loop (device P T junk) rounds rest asked.1)
        (ask_data P T junk b (take 504 (c ∷ left)) (All-take IsByte 504 (c ∷ left) bytes)
          (take-IsChunk c left))
        (loop_feeds rounds rest asked.1 (All-drop IsByte 504 (c ∷ left) bytes)
          (omega (arith, length-drop 503 left)))

  -- The exit code is 0 when they all succeed, and 4 otherwise.
  abbrev pub Exits : Option (Flashed P) → Option (ℕ × Bench P T junk) → Type 0
  Exits none r = (b : Bench P T junk) × (r ≡ some (4, b))
  Exits (some u) r = (b : Bench P T junk) × (r ≡ some (0, b)) × (upload_of b ≡ u)

  abbrev print_end : Option (List ℕ) × Bench P T junk → Option (ℕ × Bench P T junk)
  print_end (reply, b) = elim reply [
    | none ↦ some (3, b)
    | some text ↦ some ((device P T junk).print b text)
  ]

  abbrev printed : Bench P T junk → List ℕ → Bench P T junk
  printed b text = record b { console = (print_reply (Bench.console b) text).1 }

  end_answered :
      (r : Bool × OtaState P × P.Flash) (asked : Option (List ℕ) × Bench P T junk)
      → Answers P T junk r asked
      → Exits (accepted P r) (print_end asked)
  end_answered (ok, s, f) (none, b) (refusal, prints, same_s, same_f) = absurd prints
  end_answered (false, s, f) (some text, b) (refusal, prints, same_s, same_f) =
      (printed b text, ap (λ code. some (code, printed b text)) (prints (Bench.console b)))
  end_answered (true, s, f) (some text, b) (refusal, prints, same_s, same_f) = (
    printed b text,
    ap (λ code. some (code, printed b text)) (prints (Bench.console b)),
    ap₂ (λ x y. (x, y)) same_s same_f,
  )

  -- The end of an upload, behind what the loop has come to.
  end_step :
      (fed : Option (Flashed P)) (r : Option (Option ℕ × Bench P T junk))
      → Loops fed r
      → Exits (fed >>= λ v. accepted P (ota_end P v.0 v.1)) (end_upload (device P T junk) r)
  unfolding end_upload
  end_step none r (b, failed) = (b, ap (end_upload (device P T junk)) failed)
  end_step (some u) r (b, done, same) =
      let asked = ask_device P T junk b (codes "OTA_END") in
      let here =
        end_answered (ota_end P (upload_of b).0 (upload_of b).1) asked (ask_end P T junk b) in
      subst (λ x. Exits (accepted P (ota_end P u.0 u.1)) (end_upload (device P T junk) x))
        (sym done) (subst (λ v. Exits (accepted P (ota_end P v.0 v.1)) (print_end asked)) same here)

  -- The whole of `send_file`, behind the reply to OTA_BEGIN.
  begin_step :
      (r : Bool × OtaState P × P.Flash) (asked : Option (List ℕ) × Bench P T junk) (file : List ℕ)
      → Answers P T junk r asked
      → All IsByte file
      → Exits
          (accepted P r >>= λ u.
            feed P (pieces (length file) file) u >>= λ v. accepted P (ota_end P v.0 v.1))
          (elim (reply_code (device P T junk) asked.0) [
            | some code ↦ some (code, asked.1)
            | none ↦
                end_upload
                  (device P T junk)
                  (upload_loop (device P T junk) (length file) file asked.1)
          ])
  begin_step (false, s, f) asked file (refusal, prints, same_s, same_f) bytes = (
    asked.1,
    ap
        (λ x. elim x [
          | some code ↦ some (code, asked.1)
          | none ↦
              end_upload (device P T junk)
                (upload_loop (device P T junk) (length file) file asked.1)
        ])
        refusal,
  )
  begin_step (true, s, f) asked file (refusal, prints, same_s, same_f) bytes =
      let chunks = pieces (length file) file in
      let run = upload_loop (device P T junk) (length file) file asked.1 in
      let rest =
        end_step (feed P chunks (upload_of asked.1)) run
          (loop_feeds (length file) file asked.1 bytes (omega arith)) in
      let started : upload_of asked.1 ≡ (s, f) = ap₂ (λ x y. (x, y)) same_s same_f in
      subst
        (λ x.
          Exits (feed P chunks (s, f) >>= λ v. accepted P (ota_end P v.0 v.1))
            (elim x [ some code ↦ some (code, asked.1) | none ↦ end_upload (device P T junk) run ]))
        (sym refusal)
        (subst
          (λ u.
            Exits (feed P chunks u >>= λ v. accepted P (ota_end P v.0 v.1))
              (end_upload (device P T junk) run))
          started rest)

  -- The client's `do_ota_upload`, on a device with the commands of ota.c and with a file of 1 to
  -- 2^32 - 1 bytes whose SHA-256 OpenSSL computes, comes to an end, and it is `ota_begin` with the
  -- file's size and hash, `ota_data` with pieces of the file of 1 to 504 bytes, in order, and `ota_end`: the
  -- exit code is 0, with the state and the flash that these leave, when they all succeed, and 4 when
  -- one of them refuses.
  pub do_ota_upload-calls :
      (digest : List ℕ → Option (List ℕ)) (file sha : List ℕ) (b : Bench P T junk)
      → All IsByte file
      → 0 < length file
      → length file < 2 ^ 32
      → digest file ≡ some sha
      → All IsByte sha
      → length sha ≡ 32
      → Exits
          (upload_calls P (upload_of b) (length file) sha (pieces (length file) file))
          (do_ota_upload (device P T junk) digest (some file) b)
  unfolding do_ota_upload with_digest send_file
  do_ota_upload-calls digest [] sha b bytes some_bytes small hashed sha_bytes full =
      absurd (omega arith)
  do_ota_upload-calls digest (c ∷ cs) sha b bytes some_bytes small hashed sha_bytes full =
      let file = c ∷ cs in
      let whole : (length sha == 32) ≡ true = ground arith in
      let run : do_ota_upload (device P T junk) digest (some file) b
          ≡ send_file (device P T junk) file sha b =
        ap (λ d. with_digest (device P T junk) file d b) hashed ∙ rw whole refl in
      subst (Exits (upload_calls P (upload_of b) (length file) sha (pieces (length file) file)))
        (sym run)
        (begin_step (ota_begin P (upload_of b).0 (upload_of b).1 (length file) sha)
          (ask_device P T junk b (begin_line (length file) sha)) file
          (ask_begin P T junk b (length file) sha small sha_bytes full) bytes)
