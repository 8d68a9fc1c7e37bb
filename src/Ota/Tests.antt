-- ===== src/Ota/Tests.antt =====
-- Uploads of components/core/src/ota.c on the toy platform.
use espshell.Prelude.{
  ℕ, ◌≡◌, refl, arith, Bool, true, List, [], ◌∷◌, some, length, take, map, bytes_eq, codes,
}
use espshell.Clib.{strtoul, read_digits, read_signed, print_digits}
use espshell.Hex.{hex_encode, hex_to_bytes, decode_pairs, hex_nibble}
use espshell.Hex.Digits.{lower}
use espshell.Ota.{
  OtaState, idle, abort_locked, begin_hash, begin_on, begin_part, ota_begin, update_hash,
  write_chunk, ota_data, hash_matches, commit, ota_end,
}
use espshell.Ota.Commit.{concat, accepted, feed, committed_upload}
use espshell.Ota.Handlers.{
  World, c_begin, begin_with, begun, c_data, data_with, received, progress, c_end, ended, created,
}
use espshell.Ota.Toy.{from_some, ToyFlash, digest, toy, toy-works, blank, toy_timers, boot_world}
use espshell.Ota.Handlers.Committed.{send_chunks, committed_by_commands}

abbrev chunks : List (List ℕ)
chunks = (1 ∷ 2 ∷ []) ∷ (3 ∷ []) ∷ []

abbrev sha : List ℕ
sha = digest (1 ∷ 2 ∷ 3 ∷ [])

abbrev begun_state : Bool × OtaState toy × ToyFlash
begun_state = ota_begin toy (idle toy) blank 3 sha

begin_succeeds : begun_state ≡ (true, begun_state.1, begun_state.2)
unfolding ota_begin abort_locked begin_part begin_on begin_hash
begin_succeeds = refl

one_chunk : ota_data toy begun_state.1 begun_state.2 (1 ∷ []) ≡ (
  true,
  (from_some
      (idle toy, blank)
      (accepted toy (ota_data toy begun_state.1 begun_state.2 (1 ∷ [])))).0,
  (from_some
      (idle toy, blank)
      (accepted toy (ota_data toy begun_state.1 begun_state.2 (1 ∷ [])))).1,
)
unfolding ota_data write_chunk update_hash ota_begin abort_locked begin_part begin_on begin_hash
one_chunk = refl

abbrev fed_state : OtaState toy × ToyFlash
fed_state = from_some (idle toy, blank) (feed toy chunks (begun_state.1, begun_state.2))

feed_succeeds : feed toy chunks (begun_state.1, begun_state.2) ≡ some (fed_state.0, fed_state.1)
unfolding feed ota_data write_chunk update_hash ota_begin abort_locked begin_part begin_on
    begin_hash
feed_succeeds = refl

abbrev ended_state : Bool × OtaState toy × ToyFlash
ended_state = ota_end toy fed_state.0 fed_state.1

end_succeeds : ended_state ≡ (true, ended_state.1, ended_state.2)
unfolding ota_end hash_matches bytes_eq commit feed ota_data write_chunk update_hash ota_begin
    abort_locked begin_part begin_on begin_hash
end_succeeds = refl

committed_upload_example :
    (part : ℕ) × (length (concat chunks) ≡ 3)
    × (digest (1 ∷ 2 ∷ 3 ∷ []) ≡ take 32 sha)
    × (ToyFlash.stored ended_state.2 ≡ 1 ∷ 2 ∷ 3 ∷ [])
    × (ToyFlash.boot_from ended_state.2 ≡ some part)
    × (ended_state.1 ≡ idle toy)
unfolding ota_end toy-works
committed_upload_example =
    committed_upload toy digest toy-works (idle toy) blank 3 sha chunks begun_state.1 fed_state.0
      ended_state.1 begun_state.2 fed_state.1 ended_state.2 (omega arith)
      (omega arith, (omega arith, tt)) begin_succeeds feed_succeeds end_succeeds

abbrev begin_reply : Bool × List ℕ × ℕ × World toy toy_timers
begin_reply = c_begin toy toy_timers (codes "3" ∷ hex_encode sha ∷ []) 0 boot_world

begin_reply-ok : begin_reply ≡ (true, codes "ready chunk_max=502", 0, begin_reply.3)
unfolding c_begin begin_with begun hex_to_bytes decode_pairs hex_nibble hex_encode strtoul
    read_signed read_digits print_digits ota_begin abort_locked begin_part begin_on begin_hash
begin_reply-ok = refl

abbrev hexes : List (List ℕ)
hexes = codes "0102" ∷ codes "03" ∷ []

abbrev sent_world : World toy toy_timers
sent_world = from_some boot_world (send_chunks toy toy_timers hexes 0 begin_reply.3)

sent-ok : send_chunks toy toy_timers hexes 0 begin_reply.3 ≡ some sent_world
unfolding send_chunks c_data data_with received progress c_begin begin_with begun hex_to_bytes
    decode_pairs hex_nibble hex_encode strtoul read_signed read_digits print_digits ota_data
    write_chunk update_hash ota_begin abort_locked begin_part begin_on begin_hash
sent-ok = refl

abbrev end_reply : Bool × List ℕ × ℕ × World toy toy_timers
end_reply = c_end toy toy_timers [] 0 sent_world

end_reply-ok : end_reply ≡ (true, codes "committed, rebooting", 0, end_reply.3)
unfolding c_end ended created ota_end hash_matches bytes_eq commit send_chunks c_data data_with
    received progress c_begin begin_with begun hex_to_bytes decode_pairs hex_nibble hex_encode
    strtoul read_signed read_digits print_digits ota_data write_chunk update_hash ota_begin
    abort_locked begin_part begin_on begin_hash
end_reply-ok = refl

three : strtoul (codes "3") ≡ 3
unfolding strtoul read_signed read_digits
three = refl

committed_by_commands_example :
    (parts : List (List ℕ)) × (part : ℕ) × (map hex_encode parts ≡ map (map lower) hexes)
    × (length (concat parts) ≡ strtoul (codes "3"))
    × (hex_encode (digest (concat parts)) ≡ map lower (hex_encode sha))
    × (ToyFlash.stored (World.flash end_reply.3) ≡ concat parts)
    × (ToyFlash.boot_from (World.flash end_reply.3) ≡ some part)
unfolding c_end toy-works
committed_by_commands_example =
    committed_by_commands toy toy_timers digest toy-works (codes "3") (hex_encode sha) hexes [] 0
      boot_world begin_reply.3 sent_world end_reply.3 (codes "ready chunk_max=502")
      (codes "committed, rebooting") 0 0 (omega (arith, three)) begin_reply-ok sent-ok end_reply-ok
