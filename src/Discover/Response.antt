-- ===== src/Discover/Response.antt =====
-- `parse_response` and the loop of `do_discover` in tools/esp-ctl/src/discover.c. An array on the stack
-- holds `junk` before it is written. The packets that `recvfrom` gives within the time come with their
-- senders; a socket that fails is `none`. What goes to stderr is left out.
use espshell.Prelude.{
  ℕ, zero, suc, ◌+◌, ◌-◌, Bool, true, false, ◌&&◌, ◌||◌, not, List, [], ◌∷◌, ◌++◌, Option, none,
  some, ltb, leb, ◌==◌, if◌then◌else◌, length, take, drop, replicate, bytes_eq, codes,
}
use espshell.Clib.{c_string, print_int, format}
use espshell.Proto.{rd16}
use espshell.Handshake.Client.{strstr}
use espshell.Profile.{cut_at}
use espshell.Discover.{byte, name_read}

abbrev pub max_devices : ℕ
max_devices = 16

-- `hostname` is the array; the other strings are the bytes in front of their terminators.
pub record Device : Type 0 where
  pub instance_ : List ℕ
  pub hostname : List ℕ
  pub ip : List ℕ
  pub port : ℕ
  pub txt : List ℕ

abbrev unread : List ℕ → Option (Option ℕ × List ℕ) → Option ℕ × List ℕ
unread out none = (none, out)
unread out (some r) = r

abbrev pub name_at : List ℕ → ℕ → List ℕ → ℕ → Option ℕ × List ℕ
name_at pkt off out cap = unread out (name_read pkt off out cap)

-- The questions of a packet: the offset behind them.
unfoldable pub skip_questions : ℕ → List ℕ → List ℕ → ℕ → Option ℕ
unfolding name_read
skip_questions zero junk pkt off = some off
skip_questions (suc qd) junk pkt off = elim (name_at pkt off junk 256).0 [
  | none ↦ none
  | some n ↦
      let next = skip_questions qd junk pkt (n + 4) in
      if ltb (length pkt) (n + 4) then none else next
]

abbrev pub is_service : List ℕ → Bool
is_service name = elim (strstr (codes "_espshell._tcp") name) [ none ↦ false | some s ↦ true ]

-- `inet_ntop` of the 4 bytes at an offset.
unfoldable pub inet_ntop : List ℕ → ℕ → List ℕ
inet_ntop pkt i = format (
    print_int (byte pkt i)
    ∷ codes "."
    ∷ print_int (byte pkt (i + 1))
    ∷ codes "."
    ∷ print_int (byte pkt (i + 2))
    ∷ codes "."
    ∷ print_int (byte pkt (i + 3))
    ∷ [])

abbrev pub first_label : List ℕ → List ℕ
first_label s = elim (cut_at b'.' s) [ none ↦ s | some r ↦ r.0 ]

-- A text of a TXT record behind those that are there, in 128 bytes.
abbrev pub add_text : List ℕ → List ℕ → List ℕ
add_text txt label =
    let sep = if not (length txt == 0) && ltb (length txt) 127 then txt ++ codes " " else txt in
    sep ++ take (127 - length sep) label

-- The texts from `p` on. A round moves `p` by a byte or more.
unfoldable pub txt_loop : ℕ → List ℕ → ℕ → ℕ → List ℕ → List ℕ
txt_loop zero pkt stop p txt = txt
txt_loop (suc rounds) pkt stop p txt =
    let l = byte pkt p in
    let next = txt_loop rounds pkt stop (p + (1 + l)) (add_text txt (take l (drop (p + 1) pkt))) in
    if not (ltb p stop) || l == 0 then txt else if ltb stop (p + 1 + l) then txt else next

-- The loop's state.
pub record Parse : Type 0 where
  pub found : Bool
  pub a_host : List ℕ
  pub a_ip : List ℕ
  pub dev : Device

abbrev pub ptr_record : Parse → Option ℕ × List ℕ → Parse
ptr_record st (none, inst) = st
ptr_record st (some n, inst) = record st {
  found = true;
  dev = record (Parse.dev st) { instance_ = take 63 (first_label (c_string inst)) };
}

unfoldable pub use_record : List ℕ → List ℕ → List ℕ → ℕ → ℕ → ℕ → Parse → Parse
unfolding name_read txt_loop inet_ntop strstr
use_record junk pkt name type rdoff rdlen st =
    let dev = Parse.dev st in
    if type == 12 && is_service name
    then ptr_record st (name_at pkt rdoff junk 256)
    else if type == 33 && is_service name
    then (if ltb rdlen 7 then st else record st {
      dev = record dev {
        port = rd16 (drop (rdoff + 4) pkt);
        hostname = (name_at pkt (rdoff + 6) (Device.hostname dev) 64).1;
      };
    })
    else if type == 16 && is_service name
    then record st { dev = record dev { txt = txt_loop rdlen pkt (rdoff + rdlen) rdoff [] } }
    else if type == 1 && rdlen == 4
    then record st { a_host = take 63 name; a_ip = inet_ntop pkt rdoff }
    else st

unfoldable pub records : ℕ → List ℕ → List ℕ → ℕ → Parse → Parse
unfolding use_record name_read
records zero junk pkt off st = st
records (suc an) junk pkt off st =
    let (name_end, name) = name_at pkt off junk 256 in
    let rest : Parse = elim name_end [
      | none ↦ st
      | some n ↦
          let type = rd16 (drop n pkt) in
          let rdlen = rd16 (drop (n + 8) pkt) in
          let next =
            records an junk pkt (n + 10 + rdlen)
              (use_record junk pkt (c_string name) type (n + 10) rdlen st) in
          if ltb (length pkt) (n + 10)
          then st
          else if ltb (length pkt) (n + 10 + rdlen)
          then st
          else next
    ] in
    if leb (length pkt) off then st else rest

abbrev pub blank_device : Device
blank_device = record { instance_ = []; hostname = replicate 64 0; ip = []; port = 0; txt = [] }

abbrev pub or_espshell : List ℕ → List ℕ
or_espshell [] = codes "espshell"
or_espshell (c ∷ s) = c ∷ s

-- `src` is the sender's address as a text.
unfoldable pub finished : List ℕ → Parse → Option Device
finished src st =
    let dev = Parse.dev st in
    let host = c_string (Device.hostname dev) in
    let known =
      not (length (Parse.a_ip st) == 0) && (length host == 0 || bytes_eq (Parse.a_host st) host) in
    if Parse.found st
    then some (record dev {
      ip = (if known then Parse.a_ip st else src);
      instance_ = or_espshell (Device.instance_ dev);
      port = (if Device.port dev == 0 then 9000 else Device.port dev);
    })
    else none

unfoldable pub parse_response : List ℕ → List ℕ → List ℕ → Option Device
unfolding finished records skip_questions
parse_response junk pkt src =
    let an = rd16 (drop 6 pkt) + rd16 (drop 8 pkt) + rd16 (drop 10 pkt) in
    let parsed : Option Device = elim (skip_questions (rd16 (drop 4 pkt)) junk pkt 12) [
      | none ↦ none
      | some off ↦ finished src (
          records an junk pkt off
            (record { found = false; a_host = []; a_ip = []; dev = blank_device }))
    ] in
    if ltb (length pkt) 12 then none else parsed

unfoldable pub is_known : List Device → List ℕ → Bool
is_known [] name = false
is_known (d ∷ devs) name = bytes_eq (Device.instance_ d) name || is_known devs name

unfoldable pub add_device : List Device → Option Device → List Device
unfolding is_known
add_device devs none = devs
add_device devs (some d) =
    if not (is_known devs (Device.instance_ d)) && ltb (length devs) max_devices
    then devs ++ (d ∷ [])
    else devs

-- The loop over the packets that come in time, an empty one is passed over.
unfoldable pub collect : List ℕ → List Device → List (List ℕ × List ℕ) → List Device
unfolding add_device parse_response
collect junk devs [] = devs
collect junk devs ((pkt, src) ∷ packets) =
    collect junk (if length pkt == 0 then devs else add_device devs (parse_response junk pkt src))
      packets

-- The lines that are printed of a device; an empty line in front.
unfoldable pub device_text : Device → List (List ℕ)
device_text d =
    let host = c_string (Device.hostname d) in
    let txt = c_string (Device.txt d) in
    let more : List (List ℕ) = if length txt == 0 then [] else (codes "# " ++ txt) ∷ [] in
    []
    ∷ format (codes "[" ∷ Device.instance_ d ∷ codes "]" ∷ [])
    ∷ format (
        codes "host = \""
        ∷ Device.ip d
        ∷ codes "\""
        ∷ (if length host == 0
            then []
            else codes "   # or \"" ++ (host ++ codes "\" with nss-mdns"))
        ∷ [])
    ∷ (codes "port = " ++ print_int (Device.port d))
    ∷ (more ++ (codes "# token = \"<paste the device token here>\"" ∷ []))

unfoldable pub devices_text : List Device → List (List ℕ)
unfolding device_text
devices_text [] = []
devices_text (d ∷ devs) = device_text d ++ devices_text devs

-- Answers the exit code, and what is printed behind the line with the number of devices.
unfoldable pub do_discover : List ℕ → Option (List (List ℕ × List ℕ)) → ℕ × List (List ℕ)
unfolding collect devices_text
do_discover junk none = (3, [])
do_discover junk (some packets) =
    let devs = collect junk [] packets in
    if length devs == 0 then (4, []) else (0, devices_text devs)
