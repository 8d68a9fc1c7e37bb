-- ===== src/Discover.antt =====
-- `name_read` of tools/esp-ctl/src/discover.c: a DNS name with compression pointers. The packet is a
-- list of bytes, and `none` stands for -1. The loop has fuel, and answers `none` when that runs out;
-- 17 rounds for each byte of the packet are given, a run for each of the 16 pointers that are followed
-- and one before them.
pub mod Names
pub mod Response
pub mod Table
mod Tests
use espshell.Prelude.{
  ℕ, zero, suc, ◌+◌, ◌-◌, ◌*◌, ◌^◌, Bool, true, false, ◌&&◌, ◌||◌, not, List, [], ◌∷◌, Option, none,
  some, ltb, leb, ◌==◌, if◌then◌else◌, length, get_or, set, bit_or, bit_and,
}

-- The output, how much of it is written, the end after the first pointer, and the pointers followed.
pub record Reader : Type 0 where
  pub out : List ℕ
  pub w : ℕ
  pub end : Option ℕ
  pub hops : ℕ

abbrev pub byte : List ℕ → ℕ → ℕ
byte pkt i = get_or pkt i 0

abbrev pub put_byte : ℕ → ℕ → Reader → Reader
put_byte cap b r = if ltb r.w (cap - 1) then record r { out = set r.out r.w b; w = r.w + 1 } else r

-- The loop over a label's `l` bytes, from `i` on.
unfoldable pub copy_label : List ℕ → ℕ → ℕ → ℕ → Reader → Reader
copy_label pkt cap i zero r = r
copy_label pkt cap i (suc l) r = copy_label pkt cap (i + 1) l (put_byte cap (byte pkt i) r)

abbrev pub put_dot : ℕ → Reader → Reader
put_dot cap r =
    if not (r.w == 0) && ltb r.w cap then record r { out = set r.out r.w b'.'; w = r.w + 1 } else r

abbrev pub or_end : Option ℕ → ℕ → ℕ
or_end none e = e
or_end (some e) e' = e

abbrev pub terminate : ℕ → Reader → List ℕ
terminate cap r = if ltb r.w cap then set r.out r.w 0 else set r.out (cap - 1) 0

abbrev pub is_pointer : ℕ → Bool
is_pointer l = bit_and l 0xc0 == 0xc0

abbrev pub pointer_target : List ℕ → ℕ → ℕ
pointer_target pkt o = bit_or (bit_and (byte pkt o) 0x3f * 2 ^ 8) (byte pkt (o + 1))

abbrev pub follow : ℕ → Reader → Reader
follow o r = record r { end = some (or_end r.end (o + 2)); hops = r.hops + 1 }

-- Answers the end and the output.
unfoldable pub name_loop : ℕ → List ℕ → ℕ → ℕ → Reader → Option (Option ℕ × List ℕ)
name_loop zero pkt cap o r = none
name_loop (suc fuel) pkt cap o r =
    let l = byte pkt o in
    let jump = name_loop fuel pkt cap (pointer_target pkt o) (follow o r) in
    let next =
      name_loop fuel pkt cap (o + (1 + l)) (copy_label pkt cap (o + 1) l (put_dot cap r)) in
    if leb (length pkt) o
    then some (none, r.out)
    else if l == 0
    then some (some (or_end r.end (o + 1)), terminate cap r)
    else if is_pointer l
    then if leb (length pkt) (o + 1) || ltb 16 (r.hops + 1) then some (none, r.out) else jump
    else if ltb (length pkt) (o + 1 + l)
    then some (none, r.out)
    else next

abbrev pub rounds : List ℕ → ℕ
rounds pkt = 17 * (length pkt + 1)

unfoldable pub name_read : List ℕ → ℕ → List ℕ → ℕ → Option (Option ℕ × List ℕ)
unfolding name_loop
name_read pkt off out cap =
    name_loop (rounds pkt) pkt cap off (record { out = out; w = 0; end = none; hops = 0 })
