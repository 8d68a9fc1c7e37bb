-- ===== src/Proto.antt =====
-- components/core/src/proto.c and include/proto.h: the frames of the encrypted phase on the device.
-- The mirror in tools/esp-ctl/src/proto.c is `Proto.Client`.
-- Pointers are valid, as at every call: `!s`, `!out` and the like are not modelled. A buffer with a
-- length is a list; `false` is `none`, and a failed call leaves the session as it was.
pub mod Words
pub mod Client
pub mod Spec
pub mod Agreement
pub mod Document
pub mod Toy
pub mod Sealed
pub mod Wire
pub mod Replay
pub mod Nonces
mod Tests
use espshell.Prelude.{
  ◌>>=◌, ◌>>◌, guard, ℕ, zero, suc, ◌+◌, ◌-◌, ◌*◌, ◌/◌, ◌%◌, ◌^◌, Bool, true, false, ◌&&◌, ◌||◌,
  not, List, [], ◌∷◌, ◌++◌, Option, none, some, ltb, leb, ◌==◌, if◌then◌else◌, length, get_or, take,
  drop, replicate, codes, bit_or,
}

abbrev pub frame_header_len : ℕ
frame_header_len = 12

abbrev pub frame_tag_len : ℕ
frame_tag_len = 16

abbrev pub frame_type_data : ℕ
frame_type_data = 1

abbrev pub dir_server : ℕ
dir_server = 0

abbrev pub dir_client : ℕ
dir_client = 1

-- `proto_session_t`, and the client's `session_t` with the same fields.
pub record Session : Type 0 where
  pub key : List ℕ
  pub rx_seq : ℕ
  pub tx_seq : ℕ
  pub rx_dir : ℕ
  pub tx_dir : ℕ
  pub established : Bool

-- The PSA Crypto API as the code calls it. A handle stands for an imported key; the last argument of
-- the two operations is the room for the output; `none` is a status other than PSA_SUCCESS.
pub record Psa : Type 1 where
  pub Handle : Type 0
  pub import_key : Bool → List ℕ → Option Handle
  pub aead_encrypt : Handle → List ℕ → List ℕ → List ℕ → ℕ → Option (List ℕ)
  pub aead_decrypt : Handle → List ℕ → List ℕ → List ℕ → ℕ → Option (List ℕ)

unfoldable pub be16 : ℕ → List ℕ
be16 v = (v / 2 ^ 8) % 2 ^ 8 ∷ v % 2 ^ 8 ∷ []

unfoldable pub rd16 : List ℕ → ℕ
rd16 p = bit_or (get_or p 0 0 * 2 ^ 8) (get_or p 1 0)

-- The bytes from index `n - 1` down, in front of those already written.
unfoldable pub be_loop : ℕ → ℕ → List ℕ → List ℕ
be_loop zero v p = p
be_loop (suc n) v p = be_loop n (v / 2 ^ 8) (v % 2 ^ 8 ∷ p)

unfoldable pub be64 : ℕ → List ℕ
unfolding be_loop
be64 v = be_loop 8 v []

unfoldable pub rd_loop : ℕ → ℕ → List ℕ → ℕ
rd_loop (suc n) v (b ∷ p) = rd_loop n (bit_or (v * 2 ^ 8 % 2 ^ 64) b) p
rd_loop n v p = v

unfoldable pub rd64 : List ℕ → ℕ
rd64 p = rd_loop 8 0 p

unfoldable pub build_nonce : ℕ → ℕ → List ℕ
build_nonce dir seq = dir ∷ be64 seq ++ (0 ∷ 0 ∷ 0 ∷ [])

unfoldable pub proto_session_init : List ℕ → Session
proto_session_init key = record {
  key = key;
  rx_seq = 0;
  tx_seq = 0;
  rx_dir = dir_client;
  tx_dir = dir_server;
  established = true;
}

-- Every byte of the struct is zero.
unfoldable pub proto_session_wipe : Session → Session
proto_session_wipe s = record {
  key = replicate (length s.key) 0;
  rx_seq = 0;
  tx_seq = 0;
  rx_dir = 0;
  tx_dir = 0;
  established = false;
}

unfoldable pub proto_frame_peek_length : List ℕ → ℕ
proto_frame_peek_length header = rd16 header

-- The 12 bytes that the frame starts with, which are authenticated.
unfoldable pub frame_header : ℕ → ℕ → List ℕ
frame_header frame_len seq = be16 frame_len ++ (frame_type_data ∷ 0 ∷ be64 seq)

-- `uint64_t` increment.
abbrev pub next_seq : ℕ → ℕ
next_seq seq = (seq + 1) % 2 ^ 64

module _ (psa : Psa) where
  open psa use {import_key, aead_encrypt, aead_decrypt}

  unfoldable pub proto_frame_encrypt : Session → List ℕ → ℕ → Option (List ℕ × Session)
  proto_frame_encrypt s plaintext out_cap = do
    guard s.established
    guard (leb (length plaintext) 0xffff)
    let frame_len = frame_header_len + length plaintext + frame_tag_len
    guard (leb frame_len out_cap && leb frame_len 0xffff)
    let header = frame_header frame_len s.tx_seq
    let nonce = build_nonce s.tx_dir s.tx_seq
    kid ← import_key true s.key
    sealed ← aead_encrypt kid nonce header plaintext (length plaintext + frame_tag_len)
    guard (length sealed == length plaintext + frame_tag_len)
    some (header ++ sealed, record s { tx_seq = next_seq s.tx_seq })

  unfoldable pub proto_frame_decrypt : Session → List ℕ → ℕ → Option (List ℕ × Session)
  proto_frame_decrypt s frame out_cap = do
    guard s.established
    guard (leb (frame_header_len + frame_tag_len) (length frame))
    guard (rd16 frame == length frame)
    guard (get_or frame 2 0 == frame_type_data)
    guard (get_or frame 3 0 == 0)
    let seq = rd64 (drop 4 frame)
    guard (seq == s.rx_seq)
    let ct_len = length frame - frame_header_len - frame_tag_len
    guard (leb ct_len out_cap)
    let nonce = build_nonce s.rx_dir seq
    kid ← import_key false s.key
    plaintext ← aead_decrypt kid nonce (take 12 frame) (drop 12 frame) out_cap
    guard (length plaintext == ct_len)
    some (plaintext, record s { rx_seq = next_seq s.rx_seq })
