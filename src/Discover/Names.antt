-- ===== src/Discover/Names.antt =====
-- Termination and bounds of `name_read` of tools/esp-ctl/src/discover.c.
use espshell.Prelude.{
  ℕ, zero, suc, ◌+◌, ◌-◌, ◌*◌, ◌≤◌, ◌<◌, ◌≡◌, refl, subst, sym, ◌∙◌, ◌&&◌, ◌||◌, not, List, [], ◌∷◌,
  Option, none, some, ltb, leb, ◌==◌, length, get_or, set, length-set, Bool-cases, inl, inr, arith,
}
use espshell.Discover.{
  Reader, byte, copy_label, put_dot, or_end, terminate, is_pointer, pointer_target, follow,
  put_byte, name_loop, rounds, name_read,
}

-- What a write keeps.
abbrev Keeps : Reader → Reader → Type 0
Keeps r r' = (r'.hops ≡ r.hops) × (length r'.out ≡ length r.out) × (r'.end ≡ r.end)

put_byte-Keeps : (cap b : ℕ) (r : Reader) → Keeps r (put_byte cap b r)
put_byte-Keeps cap b r = elim (Bool-cases (ltb r.w (cap - 1))) [
  | inl room ↦ ground (arith, length-set r.out r.w b)
  | inr full ↦ ground arith
]

put_dot-Keeps : (cap : ℕ) (r : Reader) → Keeps r (put_dot cap r)
put_dot-Keeps cap r = elim (Bool-cases (not (r.w == 0) && ltb r.w cap)) [
  | inl room ↦ ground (arith, length-set r.out r.w b'.')
  | inr full ↦ ground arith
]

copy_label-Keeps : (pkt : List ℕ) (cap i l : ℕ) (r : Reader) → Keeps r (copy_label pkt cap i l r)
unfolding copy_label
copy_label-Keeps pkt cap i zero r = (refl, refl, refl)
copy_label-Keeps pkt cap i (suc l) r =
    let (h, n, e) = put_byte-Keeps cap (byte pkt i) r in
    let (h', n', e') = copy_label-Keeps pkt cap (i + 1) l (put_byte cap (byte pkt i) r) in
    (h' ∙ h, n' ∙ n, e' ∙ e)

label-Keeps :
    (pkt : List ℕ) (cap o l : ℕ) (r : Reader)
    → Keeps r (copy_label pkt cap (o + 1) l (put_dot cap r))
label-Keeps pkt cap o l r =
    let (h, n, e) = put_dot-Keeps cap r in
    let (h', n', e') = copy_label-Keeps pkt cap (o + 1) l (put_dot cap r) in
    (h' ∙ h, n' ∙ n, e' ∙ e)

-- What is left of the packet, and a packet for each pointer that may still be followed.
abbrev measure : ℕ → ℕ → ℕ → ℕ
measure len o hops = (16 - hops) * (len + 1) + (len - o) + 1

measure-hop : (len o o' hops : ℕ) → hops < 16 → measure len o' (hops + 1) < measure len o hops
measure-hop len o o' hops h =
    let less : 16 - hops ≡ suc (16 - (hops + 1)) = omega arith in
    let product : (16 - hops) * (len + 1) ≡ (16 - (hops + 1)) * (len + 1) + (len + 1) =
      rw less (grind arith) in
    omega arith

name_loop_returns :
    (fuel : ℕ) (pkt : List ℕ) (cap o : ℕ) (r : Reader)
    → measure (length pkt) o r.hops ≤ fuel
    → (res : Option ℕ × List ℕ) × (name_loop fuel pkt cap o r ≡ some res)
unfolding name_loop
name_loop_returns zero pkt cap o r m = absurd (omega arith)
name_loop_returns (suc fuel) pkt cap o r m =
    let l = byte pkt o in
    let (kept, _, _) = label-Keeps pkt cap o l r in
    let r' = copy_label pkt cap (o + 1) l (put_dot cap r) in
    elim (Bool-cases (leb (length pkt) o)) [
      | inl past ↦ ((none, r.out), rw past refl)
      | inr inside ↦ elim (Bool-cases (l == 0)) [
        | inl root ↦ ((some (or_end r.end (o + 1)), terminate cap r), rw (inside, root) refl)
        | inr more ↦ elim (Bool-cases (is_pointer l)) [
          | inl pointer ↦ elim (Bool-cases (leb (length pkt) (o + 1) || ltb 16 (r.hops + 1))) [
            | inl bad ↦ ((none, r.out), rw (inside, more, pointer, bad) refl)
            | inr good ↦
                let less =
                  measure-hop (length pkt) o (pointer_target pkt o) r.hops (ground arith) in
                let (res, e) =
                  name_loop_returns fuel pkt cap (pointer_target pkt o) (follow o r)
                    (omega arith) in
                (res, rw (inside, more, pointer, good) e)
          ]
          | inr label ↦ elim (Bool-cases (ltb (length pkt) (o + 1 + l))) [
            | inl long ↦ ((none, r.out), rw (inside, more, label, long) refl)
            | inr short ↦
                let fits : o + 1 + l ≤ length pkt = ground arith in
                let less : measure (length pkt) (o + (1 + l)) r'.hops ≤ fuel =
                  subst (λ h. measure (length pkt) (o + (1 + l)) h ≤ fuel) (sym kept)
                    (omega arith) in
                let (res, e) = name_loop_returns fuel pkt cap (o + (1 + l)) r' less in
                (res, rw (inside, more, label, short) e)
          ]
        ]
      ]
    ]

-- `name_read` returns on every packet, pointers that loop included: the rounds it is given are enough.
pub name_read_returns :
    (pkt : List ℕ) (off : ℕ) (out : List ℕ) (cap : ℕ)
    → (res : Option ℕ × List ℕ) × (name_read pkt off out cap ≡ some res)
unfolding name_read
name_read_returns pkt off out cap =
    name_loop_returns (rounds pkt) pkt cap off (record { out = out; w = 0; end = none; hops = 0 })
      (omega arith)

-- What a success answers: an end in the packet, and an output with a zero byte in its `cap` bytes.
abbrev Ends : List ℕ → ℕ → ℕ → List ℕ → ℕ → Type 0
Ends pkt off cap out e =
    (off < e) × (e ≤ length pkt) × (length out ≡ cap) × ((k : ℕ) × (k < cap) × (get_or out k 1 ≡ 0))

-- While no pointer was followed the name is read on from `off`; then its end is known.
abbrev Reads : List ℕ → ℕ → ℕ → Option ℕ → Type 0
Reads pkt off o none = off ≤ o
Reads pkt off o (some e) = (off < e) × (e ≤ length pkt)

or_end_lem :
    (pkt : List ℕ) (off o : ℕ) (known : Option ℕ) (e : ℕ)
    → Reads pkt off o known
    → o < e
    → e ≤ length pkt
    → (off < or_end known e) × (or_end known e ≤ length pkt)
or_end_lem pkt off o none e h lt le = (omega arith, le)
or_end_lem pkt off o (some e') e h lt le = h

Reads-on :
    (pkt : List ℕ) (off o o' : ℕ) (known : Option ℕ)
    → o ≤ o'
    → Reads pkt off o known
    → Reads pkt off o' known
Reads-on pkt off o o' none le h = omega arith
Reads-on pkt off o o' (some e) le h = h

set_zero : (xs : List ℕ) (i : ℕ) → i < length xs → get_or (set xs i 0) i 1 ≡ 0
set_zero [] i h = absurd (omega arith)
set_zero (x ∷ xs) zero h = refl
set_zero (x ∷ xs) (suc i) h = set_zero xs i (omega arith)

terminate_lem :
    (cap : ℕ) (r : Reader)
    → length r.out ≡ cap
    → 0 < cap
    → (length (terminate cap r) ≡ cap) × ((k : ℕ) × (k < cap) × (get_or (terminate cap r) k 1 ≡ 0))
terminate_lem cap r n pos = elim (Bool-cases (ltb r.w cap)) [
  | inl room ↦
      let lt : r.w < cap = ground arith in
      rw room (length-set r.out r.w 0 ∙ n, (r.w, lt, set_zero r.out r.w (omega arith)))
  | inr full ↦ rw full (
    length-set r.out (cap - 1) 0 ∙ n,
    (cap - 1, omega arith, set_zero r.out (cap - 1) (omega arith)),
  )
]

abbrev EndsIf : List ℕ → ℕ → ℕ → Option (Option ℕ × List ℕ) → Type 0
EndsIf pkt off cap none = Unit
EndsIf pkt off cap (some (none, text)) = Unit
EndsIf pkt off cap (some (some e, text)) = Ends pkt off cap text e

name_loop-Ends :
    (fuel : ℕ) (pkt : List ℕ) (off cap o : ℕ) (r : Reader) (e : ℕ) (text : List ℕ)
    → 0 < cap
    → length r.out ≡ cap
    → Reads pkt off o r.end
    → name_loop fuel pkt cap o r ≡ some (some e, text)
    → Ends pkt off cap text e
unfolding name_loop
name_loop-Ends zero pkt off cap o r e text pos n reads h = absurd (cc h)
name_loop-Ends (suc fuel) pkt off cap o r e text pos n reads h =
    let l = byte pkt o in
    let (_, kept, end_kept) = label-Keeps pkt cap o l r in
    let r' = copy_label pkt cap (o + 1) l (put_dot cap r) in
    elim (Bool-cases (leb (length pkt) o)) [
      | inl past ↦ absurd (cc (rw (past) at h))
      | inr inside ↦ elim (Bool-cases (l == 0)) [
        | inl root ↦
            let (past_off, fits) =
              or_end_lem pkt off o r.end (o + 1) reads (omega arith) (ground arith) in
            let (size, ended) = terminate_lem cap r n pos in
            subst (EndsIf pkt off cap) (rw (inside, root) at h) (past_off, fits, size, ended)
        | inr more ↦ elim (Bool-cases (is_pointer l)) [
          | inl pointer ↦ elim (Bool-cases (leb (length pkt) (o + 1) || ltb 16 (r.hops + 1))) [
            | inl bad ↦ absurd (cc (rw (inside, more, pointer, bad) at h))
            | inr good ↦
                let le : o + 2 ≤ length pkt = ground arith in
                let new_end = or_end_lem pkt off o r.end (o + 2) reads (omega arith) le in
                name_loop-Ends fuel pkt off cap (pointer_target pkt o) (follow o r) e text pos n
                  new_end (rw (inside, more, pointer, good) at h)
          ]
          | inr label ↦ elim (Bool-cases (ltb (length pkt) (o + 1 + l))) [
            | inl long ↦ absurd (cc (rw (inside, more, label, long) at h))
            | inr short ↦
                name_loop-Ends fuel pkt off cap (o + (1 + l)) r' e text pos (kept ∙ n)
                  (subst (Reads pkt off (o + (1 + l))) (sym end_kept)
                    (Reads-on pkt off o (o + (1 + l)) r.end (omega arith) reads))
                  (rw (inside, more, label, short) at h)
          ]
        ]
      ]
    ]

-- When `name_read` succeeds on an output of `cap` bytes, not none, the end it answers lies behind the
-- start and not behind the packet, the output is as long as before, and a byte of it is zero: it holds
-- a string.
pub name_read_ends :
    (pkt : List ℕ) (off : ℕ) (out : List ℕ) (cap e : ℕ) (text : List ℕ)
    → 0 < cap
    → length out ≡ cap
    → name_read pkt off out cap ≡ some (some e, text)
    → (off < e)
      × (e ≤ length pkt)
      × (length text ≡ cap)
      × ((k : ℕ) × (k < cap) × (get_or text k 1 ≡ 0))
unfolding name_read
name_read_ends pkt off out cap e text pos n h =
    name_loop-Ends (rounds pkt) pkt off cap off (record { out = out; w = 0; end = none; hops = 0 })
      e text pos n (omega arith) h
