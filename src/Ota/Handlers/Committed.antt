-- ===== src/Ota/Handlers/Committed.antt =====
-- A whole upload through the command handlers of components/core/src/ota.c.
use espshell.Prelude.{
  ℕ, ◌+◌, ◌^◌, ◌≤◌, ◌<◌, ◌≡◌, refl, ap, ap₂, sym, ◌∙◌, Bool, true, false, List, [], ◌∷◌, Option,
  none, some, ◌>>=◌, >>=-eq-some, ◌==◌, length, take_all, map, Bool-cases, inl, inr, arith, All,
}
use espshell.Clib.{strtoul}
use espshell.Hex.{hex_to_bytes, hex_encode}
use espshell.Hex.Digits.{lower}
use espshell.Hex.RoundTrip.{hex_to_bytes_iff}
use espshell.Ota.{Platform, OtaState, ota_begin, ota_data, ota_end}
use espshell.Ota.Upload.{FlashWorks}
use espshell.Ota.Commit.{concat, accepted, feed, committed_upload}
use espshell.Ota.Handlers.{
  Timers, World, begun, begin_with, c_begin, received, data_with, c_data, created, ended, c_end,
}

abbrev get_or_else {ℓ} : {A : Type ℓ} → A → Option A → A
get_or_else d none = d
get_or_else d (some a) = a

module _ (P : Platform) (T : Timers) where
  abbrev answered : Bool × List ℕ × ℕ × World P T → Option (World P T)
  answered (false, r, err, w) = none
  answered (true, r, err, w) = some w

  -- OTA_DATA commands, as long as they succeed.
  unfoldable pub send_chunks : List (List ℕ) → ℕ → World P T → Option (World P T)
  send_chunks [] err w = some w
  send_chunks (hex ∷ hexes) err w = answered (c_data P T (hex ∷ []) err w) >>= send_chunks hexes err

  begun-ok :
      (r : Bool × OtaState P × P.Flash) (err : ℕ) (w w' : World P T) (reply : List ℕ) (code : ℕ)
      → begun P T err w r ≡ (true, reply, code, w')
      → r ≡ (true, w'.s, w'.flash)
  unfolding begun
  begun-ok (false, s, f) err w w' reply code e = absurd (cc (ap (λ x. x.0) e))
  begun-ok (true, s, f) err w w' reply code e = ap (λ x. (true, x.3.s, x.3.flash)) e

  begin_with-ok :
      (size : ℕ) (sha : Option (List ℕ)) (err : ℕ) (w w' : World P T) (reply : List ℕ) (code : ℕ)
      → begin_with P T err w size sha ≡ (true, reply, code, w')
      → (digest : List ℕ) × (sha ≡ some digest)
        × (length digest ≡ 32)
        × (ota_begin P w.s w.flash size digest ≡ (true, w'.s, w'.flash))
  unfolding begin_with
  begin_with-ok size none err w w' reply code e = absurd (cc (ap (λ x. x.0) e))
  begin_with-ok size (some digest) err w w' reply code e = elim (Bool-cases (length digest == 32)) [
    | inl full ↦ (
      digest,
      refl,
      ground arith,
      begun-ok (ota_begin P w.s w.flash size digest) err w w' reply code (ground arith),
    )
    | inr other ↦ absurd (ground arith)
  ]

  received-ok :
      (r : Bool × OtaState P × P.Flash) (err : ℕ) (w w' : World P T)
      → answered (received P T err w r) ≡ some w'
      → r ≡ (true, w'.s, w'.flash)
  unfolding received
  received-ok (false, s, f) err w w' e = absurd (cc e)
  received-ok (true, s, f) err w w' e =
      let same = ap (get_or_else w) e in ap (λ x. (true, World.s x, World.flash x)) same

  data_with-ok :
      (hex : Option (List ℕ)) (err : ℕ) (w w' : World P T)
      → answered (data_with P T err w hex) ≡ some w'
      → (chunk : List ℕ) × (hex ≡ some chunk)
        × (ota_data P w.s w.flash chunk ≡ (true, w'.s, w'.flash))
  unfolding data_with
  data_with-ok none err w w' e = absurd (cc e)
  data_with-ok (some []) err w w' e = absurd (cc e)
  data_with-ok (some (b ∷ chunk)) err w w' e =
      (b ∷ chunk, refl, received-ok (ota_data P w.s w.flash (b ∷ chunk)) err w w' e)

  pub created-keeps :
      (w : World P T) (t : Option T.Timer)
      → (World.s (created P T w t) ≡ w.s) × (World.flash (created P T w t) ≡ w.flash)
  unfolding created
  created-keeps w none = (refl, refl)
  created-keeps w (some t) = (refl, refl)

  ended-ok :
      (r : Bool × OtaState P × P.Flash) (err : ℕ) (w w' : World P T) (reply : List ℕ) (code : ℕ)
      → ended P T err w r ≡ (true, reply, code, w')
      → r ≡ (true, w'.s, w'.flash)
  unfolding ended
  ended-ok (false, s, f) err w w' reply code e = absurd (cc (ap (λ x. x.0) e))
  ended-ok (true, s, f) err w w' reply code e =
      let kept = created-keeps (record w { s = s; flash = f }) w.t in
      ap₂ (λ x y. (true, x, y)) (sym kept.0) (sym kept.1)
      ∙ ap (λ x. (true, World.s x.3, World.flash x.3)) e

  -- The chunks that the commands carry are fed to the upload.
  sent :
      (hexes : List (List ℕ)) (err : ℕ) (w w' : World P T)
      → send_chunks hexes err w ≡ some w'
      → (chunks : List (List ℕ)) × (map hex_encode chunks ≡ map (map lower) hexes)
        × All (λ c. length c ≤ 1024) chunks
        × (feed P chunks (w.s, w.flash) ≡ some (w'.s, w'.flash))
  unfolding send_chunks feed c_data
  sent [] err w w' e =
      ([], refl, tt, ap (λ x. some (World.s (get_or_else w x), World.flash (get_or_else w x))) e)
  sent (hex ∷ hexes) err w w' e =
      let (w1, one, rest) =
        >>=-eq-some (answered (c_data P T (hex ∷ []) err w)) (send_chunks hexes err) e in
      let (chunk, decoded, taken) = data_with-ok (hex_to_bytes hex 1024) err w w1 one in
      let (chunks, carried, short, fed) = sent hexes err w1 w' rest in
      let (_, same, fits) = (hex_to_bytes_iff hex chunk 1024).0 decoded in
      (
        chunk ∷ chunks,
        ap₂ (λ x xs. x ∷ xs) same carried,
        (fits, short),
        ap (λ r. accepted P r >>= feed P chunks) taken ∙ fed,
      )

-- An upload over commands that all succeed: OTA_BEGIN with a size and a hash in hex, OTA_DATA commands
-- with chunks in hex, and OTA_END. Then the chunks together have the size, and their SHA-256 is the
-- announced one; a partition holds just them, and the device is set to boot from it. The size
-- leaves room for a chunk in 32 bits, and the calls of ESP-IDF and PSA that succeed do what
-- `FlashWorks` states.
pub committed_by_commands :
    (P : Platform) (T : Timers) (sha256 : List ℕ → List ℕ) (W : FlashWorks P sha256)
    (size sha : List ℕ) (hexes args : List (List ℕ)) (err : ℕ) (w₀ w₁ w₂ w₃ : World P T)
    (reply₁ reply₃ : List ℕ) (code₁ code₃ : ℕ)
    → strtoul size + 1024 < 2 ^ 32
    → c_begin P T (size ∷ sha ∷ []) err w₀ ≡ (true, reply₁, code₁, w₁)
    → send_chunks P T hexes err w₁ ≡ some w₂
    → c_end P T args err w₂ ≡ (true, reply₃, code₃, w₃)
    → (chunks : List (List ℕ)) × (part : P.Partition) × (map hex_encode chunks
        ≡ map (map lower) hexes)
      × (length (concat chunks) ≡ strtoul size)
      × (hex_encode (sha256 (concat chunks)) ≡ map lower sha)
      × (W.image w₃.flash part ≡ concat chunks)
      × (W.boot w₃.flash ≡ some part)
unfolding c_begin c_end
committed_by_commands P T sha256 W size sha hexes args err w₀ w₁ w₂ w₃ reply₁ reply₃ code₁ code₃
      room begins sends ends =
    let (digest, decoded, full, started) =
      begin_with-ok P T (strtoul size) (hex_to_bytes sha 32) err w₀ w₁ reply₁ code₁ begins in
    let (chunks, carried, short, fed) = sent P T hexes err w₁ w₂ sends in
    let finished = ended-ok P T (ota_end P w₂.s w₂.flash) err w₂ w₃ reply₃ code₃ ends in
    let (part, whole, hashed, held, booted, _) =
      committed_upload P sha256 W w₀.s w₀.flash (strtoul size) digest chunks w₁.s w₂.s w₃.s w₁.flash
        w₂.flash w₃.flash room short started fed finished in
    let (_, same, _) = (hex_to_bytes_iff sha digest 32).0 decoded in
    (
      chunks,
      part,
      carried,
      whole,
      ap hex_encode (hashed ∙ take_all 32 digest (omega arith)) ∙ same,
      held,
      booted,
    )
