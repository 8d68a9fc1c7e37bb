-- ===== src/Ctl/Upload/Device.antt =====
-- The commands of `do_ota_upload` of tools/esp-ctl/src/esp-ctl.c on a device that has the commands of
-- components/core/src/ota.c: a channel that gives each line to `cmd_dispatch`, with what follows it in
-- the line's buffer, and answers what that prints.
use espshell.Prelude.{
  ℕ, ◌^◌, ◌<◌, ◌≡◌, refl, ap, sym, subst, ◌∙◌, Bool, true, false, List, [], ◌∷◌, ◌++◌, Option, none,
  some, if◌then◌else◌, length, take, bytes_eq, codes, All, IsByte, arith, ◌==◌,
}
use espshell.Clib.{starts_with, strtoul, print_int}
use espshell.Clib.Numbers.{strtoul-print_int}
use espshell.Hex.{hex_encode}
use espshell.Hex.RoundTrip.{hex_to_bytes-hex_encode}
use espshell.Cmd.Registry.{Handler, cmd_register, registered}
use espshell.Cmd.Dispatch.{cmd_dispatch, dispatch_words, call_command, run_handler, reply_text}
use espshell.Cmd.Dispatch.Replies.{cmd_dispatch_words}
use espshell.Cmd.Tokenizer.Words.{words_from}
use espshell.Cmd.Tokenizer.InPlace.{IsText}
use espshell.Session.{or_overflow, max_resp}
use espshell.Ota.{Platform, OtaState, ota_begin, ota_data, ota_end}
use espshell.Ota.Handlers.{
  Timers, World, ota_init, c_begin, begin_with, begun, c_data, data_with, received, c_end, ended,
  created,
}
use espshell.Ota.Handlers
use espshell.Ota.Handlers.Committed.{created-keeps}
use espshell.Ctl.{Console, print_reply}
use espshell.Ctl.Upload.{Channel, reply_code, data_line, begin_line}
use espshell.Ctl.Upload.Chunks.{IsChunk, data_line-words, begin_line-words, end_line-words}

module _ (P : Platform) (T : Timers) (junk : List ℕ) where
  pub record Bench : Type 0 where
    pub world : World P T
    pub last_err : ℕ
    pub console : Console

  unfoldable pub ask_device : Bench → List ℕ → Option (List ℕ) × Bench
  ask_device b line =
      let (reply, line', err, world) =
        cmd_dispatch (ota_init P T []) (line ++ (0 ∷ junk)) max_resp b.last_err b.world in
      (some (or_overflow reply), record b { world = world; last_err = err })

  abbrev pub device : Channel
  device = record {
    State = Bench;
    ask = ask_device;
    print = λ b reply.
        let (code, con) = print_reply (Bench.console b) reply in (code, record b { console = con });
  }

  abbrev told : Bench → Option ℕ × List ℕ → ℕ → World P T → Option (List ℕ) × Bench
  told b reply err world = (some (or_overflow reply), record b { world = world; last_err = err })

  abbrev told_reply : Bool × List ℕ × ℕ × World P T → Option ℕ × List ℕ
  told_reply (ok, payload, code, world) =
      (some (length (reply_text ok payload code)), take 4095 (reply_text ok payload code))

  -- What a handler answers, as the channel gives it.
  abbrev answer_of : Bench → Bool × List ℕ × ℕ × World P T → Option (List ℕ) × Bench
  answer_of b (ok, payload, code, world) =
      (some (take 4095 (reply_text ok payload code)), record b { world = world; last_err = code })

  ask_handler :
      (b : Bench) (line name : List ℕ) (args : List (List ℕ)) (fn : Handler (World P T))
      → IsText line
      → words_from 16 line ≡ name ∷ args
      → call_command (ota_init P T []) name args b.last_err b.world ≡ run_handler fn args b.world
      → ask_device b line ≡ answer_of b (fn args 0 b.world)
  unfolding ask_device dispatch_words run_handler
  ask_handler b line name args fn text words found =
      let tbl = ota_init P T [] in
      let (reply, code, after) =
        cmd_dispatch_words tbl line junk 4096 b.last_err b.world text (omega arith) in
      let run : dispatch_words tbl (words_from 16 line) b.last_err b.world
          ≡ run_handler fn args b.world =
        ap (λ ws. dispatch_words tbl ws b.last_err b.world) words ∙ found in
      let d = cmd_dispatch tbl (line ++ (0 ∷ junk)) 4096 b.last_err b.world in
      ap (λ x. told b x d.2 d.3) (reply ∙ ap (λ r. (some (length r.0), take 4095 r.0)) run)
      ∙ (ap (λ e. told b (told_reply (fn args 0 b.world)) e d.3) (code ∙ ap (λ r. r.1) run)
          ∙ ap (told b (told_reply (fn args 0 b.world)) (fn args 0 b.world).2)
              (after ∙ ap (λ r. r.2) run))

  begin_found :
      (args : List (List ℕ)) (err : ℕ) (w : World P T)
      → call_command (ota_init P T []) (codes "OTA_BEGIN") args err w
        ≡ run_handler (c_begin P T) args w
  unfolding ota_init cmd_register registered call_command bytes_eq
  begin_found args err w = refl

  data_found :
      (args : List (List ℕ)) (err : ℕ) (w : World P T)
      → call_command (ota_init P T []) (codes "OTA_DATA") args err w
        ≡ run_handler (c_data P T) args w
  unfolding ota_init cmd_register registered call_command bytes_eq
  data_found args err w = refl

  end_found :
      (args : List (List ℕ)) (err : ℕ) (w : World P T)
      → call_command (ota_init P T []) (codes "OTA_END") args err w ≡ run_handler (c_end P T) args w
  unfolding ota_init cmd_register registered call_command bytes_eq
  end_found args err w = refl

  -- `print_reply` of a reply that there is.
  abbrev pub Prints : Bool → Option (List ℕ) → Type 0
  Prints ok none = ⊥
  Prints ok (some text) = (con : Console) → (print_reply con text).0 ≡ (if ok then 0 else 4)

  reply-IsOk :
      (ok : Bool) (payload : List ℕ) (code : ℕ)
      → reply_code device (some (take 4095 (reply_text ok payload code)))
        ≡ (if ok then none else some 4)
  unfolding reply_code reply_text starts_with
  reply-IsOk true [] code = refl
  reply-IsOk true (c ∷ payload) code = refl
  reply-IsOk false payload code = refl

  reply-Prints :
      (ok : Bool) (payload : List ℕ) (code : ℕ)
      → Prints ok (some (take 4095 (reply_text ok payload code)))
  unfolding print_reply reply_text starts_with
  reply-Prints true [] code con = refl
  reply-Prints true (c ∷ payload) code con = refl
  reply-Prints false payload code con = refl

  -- A step of ota.c and a command: the exit code it asks for, the upload's state and the flash.
  abbrev pub Answers : Bool × OtaState P × P.Flash → Option (List ℕ) × Bench → Type 0
  Answers (ok, s, f) r =
      (reply_code device r.0 ≡ (if ok then none else some 4))
      × Prints ok r.0
      × (World.s (Bench.world r.1) ≡ s)
      × (World.flash (Bench.world r.1) ≡ f)

  begun-Answers :
      (r : Bool × OtaState P × P.Flash) (b : Bench)
      → Answers r (answer_of b (begun P T 0 b.world r))
  unfolding begun
  begun-Answers (false, s, f) b = (
    reply-IsOk false (codes "begin failed") 4,
    reply-Prints false (codes "begin failed") 4,
    refl,
    refl,
  )
  begun-Answers (true, s, f) b = (
    reply-IsOk true (codes "ready chunk_max=" ++ print_int 502) 0,
    reply-Prints true (codes "ready chunk_max=" ++ print_int 502) 0,
    refl,
    refl,
  )

  received-Answers :
      (r : Bool × OtaState P × P.Flash) (b : Bench)
      → Answers r (answer_of b (received P T 0 b.world r))
  unfolding received
  received-Answers (false, s, f) b =
      (reply-IsOk false (codes "write") 4, reply-Prints false (codes "write") 4, refl, refl)
  received-Answers (true, s, f) b = (
    reply-IsOk true (Handlers.progress P T s) 0,
    reply-Prints true (Handlers.progress P T s) 0,
    refl,
    refl,
  )

  ended-Answers :
      (r : Bool × OtaState P × P.Flash) (b : Bench)
      → Answers r (answer_of b (ended P T 0 b.world r))
  unfolding ended created
  ended-Answers (false, s, f) b = (
    reply-IsOk false (codes "verify/commit failed") 4,
    reply-Prints false (codes "verify/commit failed") 4,
    refl,
    refl,
  )
  ended-Answers (true, s, f) b =
      let (same_s, same_f) =
        created-keeps P T (record b.world { s = s; flash = f }) (World.t b.world) in
      (
        reply-IsOk true (codes "committed, rebooting") 0,
        reply-Prints true (codes "committed, rebooting") 0,
        same_s,
        same_f,
      )

  pub ask_begin :
      (b : Bench) (size : ℕ) (sha : List ℕ)
      → size < 2 ^ 32
      → All IsByte sha
      → length sha ≡ 32
      → Answers
          (ota_begin P (World.s b.world) (World.flash b.world) size sha)
          (ask_device b (begin_line size sha))
  unfolding c_begin begin_with
  ask_begin b size sha small bytes full =
      let (text, words) = begin_line-words size sha small bytes full in
      let args = print_int size ∷ hex_encode sha ∷ [] in
      let asked =
        ask_handler b (begin_line size sha) (codes "OTA_BEGIN") args (c_begin P T) text words
          (begin_found args b.last_err b.world) in
      let whole : (length sha == 32) ≡ true = ground arith in
      let run : c_begin P T args 0 b.world
          ≡ begun P T 0 b.world (ota_begin P (World.s b.world) (World.flash b.world) size sha) =
        ap (begin_with P T 0 b.world (strtoul (print_int size)))
          (hex_to_bytes-hex_encode sha 32 bytes (omega arith))
        ∙ (ap (λ n. begin_with P T 0 b.world n (some sha)) (strtoul-print_int size small)
            ∙ rw whole refl) in
      let started = ota_begin P (World.s b.world) (World.flash b.world) size sha in
      subst (Answers started) (sym (asked ∙ ap (answer_of b) run)) (begun-Answers started b)

  pub ask_data :
      (b : Bench) (chunk : List ℕ)
      → All IsByte chunk
      → IsChunk chunk
      → Answers
          (ota_data P (World.s b.world) (World.flash b.world) chunk)
          (ask_device b (data_line chunk))
  unfolding c_data data_with
  ask_data b [] bytes (some_bytes, short) = absurd (omega arith)
  ask_data b (c ∷ cs) bytes (some_bytes, short) =
      let chunk = c ∷ cs in
      let (text, words) = data_line-words chunk bytes (some_bytes, short) in
      let args = hex_encode chunk ∷ [] in
      let asked =
        ask_handler b (data_line chunk) (codes "OTA_DATA") args (c_data P T) text words
          (data_found args b.last_err b.world) in
      let taken = ota_data P (World.s b.world) (World.flash b.world) chunk in
      let run : c_data P T args 0 b.world ≡ received P T 0 b.world taken =
        ap (data_with P T 0 b.world) (hex_to_bytes-hex_encode chunk 1024 bytes (omega arith)) in
      subst (Answers taken) (sym (asked ∙ ap (answer_of b) run)) (received-Answers taken b)

  pub ask_end :
      (b : Bench)
      → Answers (ota_end P (World.s b.world) (World.flash b.world)) (ask_device b (codes "OTA_END"))
  unfolding c_end
  ask_end b =
      let (text, words) = end_line-words in
      let asked =
        ask_handler b (codes "OTA_END") (codes "OTA_END") [] (c_end P T) text words
          (end_found [] b.last_err b.world) in
      let finished = ota_end P (World.s b.world) (World.flash b.world) in
      subst (Answers finished) (sym asked) (ended-Answers finished b)
