-- ===== src/Discover/Table.antt =====
-- The table of devices that `do_discover` of tools/esp-ctl/src/discover.c collects.
use espshell.Prelude.{
  ℕ, zero, suc, ◌+◌, ◌≤◌, ◌<◌, ◌≡◌, ◌≢◌, Bool, true, false, ◌&&◌, not, List, [], ◌∷◌, ◌++◌, Option,
  none, some, ltb, leb, ◌==◌, if◌then◌else◌, length, length-append, length-take, drop, bytes_eq,
  bytes_eq_iff, All, All-append, Bool-cases, inl, inr, arith,
}
use espshell.Clib.{c_string}
use espshell.Proto.{rd16}
use espshell.Discover.Response.{
  Device, Parse, name_at, use_record, records, finished, parse_response, skip_questions, is_known,
  add_device, collect, ptr_record, or_espshell, is_service, first_label, blank_device,
}

abbrev pub IsFound : Device → Type 0
IsFound d =
    (0 < length (Device.instance_ d)) × (length (Device.instance_ d) ≤ 63) × (0 < Device.port d)

abbrev Short : Parse → Type 0
Short st = length (Device.instance_ (Parse.dev st)) ≤ 63

if_ind {ℓ κ} :
    {A : Type ℓ} (P : A → Type κ) (b : Bool) (x y : A) → P x → P y → P (if b then x else y)
if_ind P true x y px py = px
if_ind P false x y px py = py

ptr_record-Short : (st : Parse) (r : Option ℕ × List ℕ) → Short st → Short (ptr_record st r)
ptr_record-Short st (none, inst) h = h
ptr_record-Short st (some n, inst) h = omega (arith, length-take 63 (first_label (c_string inst)))

use_record-Short :
    (junk pkt name : List ℕ) (type rdoff rdlen : ℕ) (st : Parse)
    → Short st
    → Short (use_record junk pkt name type rdoff rdlen st)
unfolding use_record
use_record-Short junk pkt name type rdoff rdlen st h =
    if_ind Short (type == 12 && is_service name) _ _
      (ptr_record-Short st (name_at pkt rdoff junk 256) h)
      (if_ind Short (type == 33 && is_service name) _ _ (if_ind Short (ltb rdlen 7) _ _ h h) (
        if_ind Short (type == 16 && is_service name) _ _ h
          (if_ind Short (type == 1 && rdlen == 4) _ _ h h)))

records-Short :
    (an : ℕ) (junk pkt : List ℕ) (off : ℕ) (st : Parse)
    → Short st
    → Short (records an junk pkt off st)
unfolding records
records-Short zero junk pkt off st h = h
records-Short (suc an) junk pkt off st h = if_ind Short (leb (length pkt) off) _ _ h (
    behind (name_at pkt off junk 256).0 (λ n.
      records-Short an junk pkt (n + 10 + rd16 (drop (n + 8) pkt)) _ (
        use_record-Short junk pkt (c_string (name_at pkt off junk 256).1) (rd16 (drop n pkt))
          (n + 10) (rd16 (drop (n + 8) pkt)) st h)))
  where
    name : List ℕ
    name = (name_at pkt off junk 256).1

    next : ℕ → Parse
    next n = records an junk pkt (n + 10 + rd16 (drop (n + 8) pkt)) (
        use_record junk pkt (c_string name) (rd16 (drop n pkt)) (n + 10) (rd16 (drop (n + 8) pkt))
          st)

    behind :
        (end : Option ℕ)
        → ((n : ℕ) → Short (next n))
        → Short (elim end [
          | none ↦ st
          | some n ↦
              if ltb (length pkt) (n + 10)
              then st
              else if ltb (length pkt) (n + 10 + rd16 (drop (n + 8) pkt))
              then st
              else next n
        ])
    behind none each = h
    behind (some n) each =
        if_ind Short (ltb (length pkt) (n + 10)) _ _ h
          (if_ind Short (ltb (length pkt) (n + 10 + rd16 (drop (n + 8) pkt))) _ _ h (each n))

-- What holds of the device, if there is one.
abbrev OrNone : Option Device → Type 0
OrNone none = Unit
OrNone (some d) = IsFound d

named : (s : List ℕ) → length s ≤ 63 → (0 < length (or_espshell s)) × (length (or_espshell s) ≤ 63)
named [] h = (omega arith, omega arith)
named (c ∷ s) h = (omega arith, h)

default_port : (n : ℕ) → 0 < (if n == 0 then 9000 else n)
default_port n = ground arith

finished-OrNone : (src : List ℕ) (st : Parse) → Short st → OrNone (finished src st)
unfolding finished
finished-OrNone src st h =
    let (full, short) = named (Device.instance_ (Parse.dev st)) h in
    if_ind OrNone (Parse.found st) _ _ (full, short, default_port (Device.port (Parse.dev st))) tt

parse_response-OrNone : (junk pkt src : List ℕ) → OrNone (parse_response junk pkt src)
unfolding parse_response
parse_response-OrNone junk pkt src =
    if_ind OrNone (ltb (length pkt) 12) _ _ tt
      (behind (skip_questions (rd16 (drop 4 pkt)) junk pkt 12))
  where
    an : ℕ
    an = rd16 (drop 6 pkt) + rd16 (drop 8 pkt) + rd16 (drop 10 pkt)

    start : Parse
    start = record { found = false; a_host = []; a_ip = []; dev = blank_device }

    behind :
        (off : Option ℕ)
        → OrNone (elim off [ none ↦ none | some o ↦ finished src (records an junk pkt o start) ])
    behind none = tt
    behind (some o) =
        finished-OrNone src (records an junk pkt o start)
          (records-Short an junk pkt o start (omega arith))

-- No two devices of the table have one name.
abbrev pub Distinct : List Device → Type 0
Distinct [] = Unit
Distinct (d ∷ devs) = All (λ e. Device.instance_ d ≢ Device.instance_ e) devs × Distinct devs

abbrev pub IsTable : List Device → Type 0
IsTable devs = (length devs ≤ 16) × All IsFound devs × Distinct devs

Distinct-append :
    (devs : List Device) (d : Device)
    → is_known devs (Device.instance_ d) ≡ false
    → Distinct devs
    → Distinct (devs ++ (d ∷ []))
unfolding is_known
Distinct-append [] d new distinct = (tt, tt)
Distinct-append (e ∷ devs) d new (apart, distinct) =
    let differ : bytes_eq (Device.instance_ e) (Device.instance_ d) ≡ false = ground arith in
    let rest : is_known devs (Device.instance_ d) ≡ false = ground arith in
    let other : Device.instance_ e ≢ Device.instance_ d = λ same.
      absurd (ground (arith, (bytes_eq_iff (Device.instance_ e) (Device.instance_ d)).1 same)) in
    (
      All-append (λ x. Device.instance_ e ≢ Device.instance_ x) devs (d ∷ []) apart (other, tt),
      Distinct-append devs d rest distinct,
    )

add_device-IsTable :
    (devs : List Device) (d : Option Device) → OrNone d → IsTable devs → IsTable (add_device devs d)
unfolding add_device
add_device-IsTable devs none found table = table
add_device-IsTable devs (some d) found (few, each, distinct) =
    elim (Bool-cases (not (is_known devs (Device.instance_ d)) && ltb (length devs) 16)) [
      | inl taken ↦
          let new : is_known devs (Device.instance_ d) ≡ false = ground arith in
          rw taken (
            ground (arith, length-append devs (d ∷ [])),
            All-append IsFound devs (d ∷ []) each (found, tt),
            Distinct-append devs d new distinct,
          )
      | inr left_out ↦ rw left_out (few, each, distinct)
    ]

-- The table of `do_discover`, from a table on: at most 16 devices, no two with one name, each with a name
-- of 1 to 63 bytes and a port other than 0, whatever the packets are.
pub collect-IsTable :
    (junk : List ℕ) (devs : List Device) (packets : List (List ℕ × List ℕ))
    → IsTable devs
    → IsTable (collect junk devs packets)
unfolding collect
collect-IsTable junk devs [] table = table
collect-IsTable junk devs ((pkt, src) ∷ packets) table =
    collect-IsTable junk
      (if length pkt == 0 then devs else add_device devs (parse_response junk pkt src)) packets
      (if_ind IsTable (length pkt == 0) _ _ table (
        add_device-IsTable devs (parse_response junk pkt src) (parse_response-OrNone junk pkt src)
          table))
