-- ===== src/Proto/Client.antt =====
-- tools/esp-ctl/src/proto.c: the client's side of the frames, over its own byte functions.
use espshell.Prelude.{
  ℕ, zero, suc, ◌+◌, ◌-◌, ◌*◌, ◌/◌, ◌%◌, ◌^◌, bit_or, true, false, ◌&&◌, List, [], ◌∷◌, ◌++◌,
  Option, some, leb, ◌==◌, length, get_or, take, drop, replicate, guard, ◌>>=◌, ◌>>◌,
}
use espshell.Crypto.{Evp, ec_chacha20_seal, ec_chacha20_open}
use espshell.Proto.{
  Session, frame_header_len, frame_tag_len, frame_type_data, dir_server, dir_client, next_seq,
}

unfoldable pub be16 : ℕ → List ℕ
be16 v = (v / 2 ^ 8) % 2 ^ 8 ∷ v % 2 ^ 8 ∷ []

unfoldable pub rd16 : List ℕ → ℕ
rd16 p = bit_or (get_or p 0 0 * 2 ^ 8) (get_or p 1 0)

-- The loop of `be64`: `p[i] = v & 0xff; v >>= 8` from `i = n - 1` down to 0.
unfoldable pub be64_loop : ℕ → ℕ → List ℕ → List ℕ
be64_loop zero v p = p
be64_loop (suc i) v p = be64_loop i (v / 2 ^ 8) (v % 2 ^ 8 ∷ p)

unfoldable pub be64 : ℕ → List ℕ
be64 v = be64_loop 8 v []

-- The loop of `rd64` over the `n` bytes that are left.
unfoldable pub rd64_loop : ℕ → ℕ → List ℕ → ℕ
rd64_loop (suc n) v (b ∷ p) = rd64_loop n (bit_or (v * 2 ^ 8 % 2 ^ 64) b) p
rd64_loop n v p = v

unfoldable pub rd64 : List ℕ → ℕ
rd64 p = rd64_loop 8 0 p

unfoldable pub nonce_for : ℕ → ℕ → List ℕ
nonce_for dir seq = dir ∷ be64 seq ++ (0 ∷ 0 ∷ 0 ∷ [])

unfoldable pub session_init : List ℕ → Session
session_init key = record {
  key = key;
  rx_seq = 0;
  tx_seq = 0;
  rx_dir = dir_server;
  tx_dir = dir_client;
  established = true;
}

unfoldable pub session_wipe : Session → Session
session_wipe s = record {
  key = replicate (length s.key) 0;
  rx_seq = 0;
  tx_seq = 0;
  rx_dir = 0;
  tx_dir = 0;
  established = false;
}

module _ (evp : Evp) where
  unfoldable pub frame_encrypt : Session → List ℕ → ℕ → Option (List ℕ × Session)
  frame_encrypt s pt out_cap = do
    guard s.established
    let fl = frame_header_len + length pt + frame_tag_len
    guard (leb fl out_cap && leb fl 0xffff)
    let header = be16 fl ++ (frame_type_data ∷ 0 ∷ be64 s.tx_seq)
    let nonce = nonce_for s.tx_dir s.tx_seq
    (ct, tag) ← ec_chacha20_seal evp s.key nonce header pt
    some (header ++ (ct ++ tag), record s { tx_seq = next_seq s.tx_seq })

  unfoldable pub frame_decrypt : Session → List ℕ → ℕ → Option (List ℕ × Session)
  frame_decrypt s frame out_cap = do
    guard s.established
    guard (leb (frame_header_len + frame_tag_len) (length frame))
    guard (rd16 frame == length frame)
    guard (get_or frame 2 0 == frame_type_data && get_or frame 3 0 == 0)
    let seq = rd64 (drop 4 frame)
    guard (seq == s.rx_seq)
    let ct_len = length frame - frame_header_len - frame_tag_len
    guard (leb ct_len out_cap)
    let nonce = nonce_for s.rx_dir seq
    let ct = take ct_len (drop 12 frame)
    let tag = take 16 (drop ct_len (drop 12 frame))
    pt ← ec_chacha20_open evp s.key nonce (take 12 frame) ct tag
    some (pt, record s { rx_seq = next_seq s.rx_seq })
