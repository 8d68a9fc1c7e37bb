-- ===== src/Discover/Tests.antt =====
-- `name_read` of tools/esp-ctl/src/discover.c on small packets.
use espshell.Prelude.{
  ℕ, ◌≤◌, ◌<◌, ◌≡◌, refl, arith, List, [], ◌∷◌, ◌++◌, Option, none, some, length, get_or, codes,
  replicate,
}
use espshell.Discover.{name_loop, name_read, copy_label}
use espshell.Clib.{c_string, starts_with}
use espshell.Proto.{rd16}
use espshell.Handshake.Client.{strstr}
use espshell.Profile.{cut_at}
use espshell.Discover.Response.{
  parse_response, records, use_record, skip_questions, finished, collect,
}
use espshell.Discover.Table.{IsTable, collect-IsTable}
use espshell.Discover.Names.{name_read_returns, name_read_ends}

-- The name "ab.c" in two labels, and a pointer to its second one behind it.
abbrev packet : List ℕ
packet = 2 ∷ 97 ∷ 98 ∷ 1 ∷ 99 ∷ 0 ∷ 1 ∷ 100 ∷ 0xc0 ∷ 3 ∷ []

abbrev room : List ℕ
room = 7 ∷ 7 ∷ 7 ∷ 7 ∷ 7 ∷ []

name_run : name_read packet 0 room 5 ≡ some (some 6, 97 ∷ 98 ∷ b'.' ∷ 99 ∷ 0 ∷ [])
unfolding name_read name_loop copy_label
name_run = refl

pointer_run : name_read packet 6 room 5 ≡ some (some 10, 100 ∷ b'.' ∷ 99 ∷ 0 ∷ 7 ∷ [])
unfolding name_read name_loop copy_label
pointer_run = refl

-- A name that fills the output, dot included, and then breaks off: the output has no zero byte.
broken_run :
    name_read (3 ∷ 97 ∷ 98 ∷ 99 ∷ 1 ∷ 100 ∷ 9 ∷ []) 0 (0 ∷ 0 ∷ 0 ∷ 0 ∷ []) 4
    ≡ some (none, 97 ∷ 98 ∷ 99 ∷ b'.' ∷ [])
unfolding name_read name_loop copy_label
broken_run = refl

loop_run : name_read (0xc0 ∷ 0 ∷ []) 0 room 5 ≡ some (none, room)
unfolding name_read name_loop copy_label
loop_run = refl

name_read_returns_example :
    (res : Option ℕ × List ℕ) × (name_read (0xc0 ∷ 0 ∷ []) 0 room 5 ≡ some res)
name_read_returns_example = name_read_returns (0xc0 ∷ 0 ∷ []) 0 room 5

abbrev name_out : List ℕ
name_out = 100 ∷ b'.' ∷ 99 ∷ 0 ∷ 7 ∷ []

name_read_ends_example :
    (6 < 10)
    × (10 ≤ length packet)
    × (length name_out ≡ 5)
    × ((k : ℕ) × (k < 5) × (get_or name_out k 1 ≡ 0))
name_read_ends_example = name_read_ends packet 6 room 5 10 name_out (omega arith) refl pointer_run

-- A response with the instance "bench" of the service.
abbrev response : List ℕ
response =
    (0 ∷ 0 ∷ 0x84 ∷ 0 ∷ 0 ∷ 0 ∷ 0 ∷ 1 ∷ 0 ∷ 0 ∷ 0 ∷ 0 ∷ [])
    ++ (9 ∷ codes "_espshell" ++ (4 ∷ codes "_tcp" ++ (5 ∷ codes "local" ++ (0 ∷ []))))
    ++ (0 ∷ 12 ∷ 0 ∷ 1 ∷ 0 ∷ 0 ∷ 0 ∷ 0 ∷ 0 ∷ 8 ∷ 5 ∷ codes "bench" ++ (0xc0 ∷ 12 ∷ []))

abbrev packets : List (List ℕ × List ℕ)
packets = (response, codes "10.0.0.7") ∷ ([], []) ∷ (response, codes "10.0.0.8") ∷ []

response_run :
    parse_response (replicate 256 7) response (codes "10.0.0.7")
    ≡ some (record {
      instance_ = codes "bench";
      hostname = replicate 64 0;
      ip = codes "10.0.0.7";
      port = 9000;
      txt = [];
    })
unfolding parse_response records use_record skip_questions finished name_read name_loop copy_label
    strstr starts_with cut_at rd16 c_string
response_run = refl

collect-IsTable_example : IsTable (collect (replicate 256 7) [] packets)
collect-IsTable_example = collect-IsTable (replicate 256 7) [] packets (omega arith, tt, tt)
