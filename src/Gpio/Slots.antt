-- ===== src/Gpio/Slots.antt =====
-- The loops over the table of watched pins of components/core/src/periph_gpio.c, on the map from pins to
-- edges.
use espshell.Prelude.{
  ℕ, suc, ◌+◌, ◌-◌, ◌≤◌, ◌<◌, ◌≡◌, ◌≢◌, refl, ap, ap₂, sym, subst, ◌∙◌, true, false, List, [], ◌∷◌,
  Option, none, some, ◌==◌, if◌then◌else◌, length, set, Bool-cases, Option-cases, inl, inr, ◌⊎◌,
  arith,
}
use espshell.Gpio.{Slot}
use espshell.Gpio.Edges.{is_pin, first_free, find_slot, clear_pin}

-- The edge a pin is watched for.
unfoldable pub edge_of : List Slot → ℕ → Option ℕ
edge_of [] p = none
edge_of (w ∷ ws) p =
    let rest = edge_of ws p in if is_pin (Slot.pin w) p then some (Slot.edge w) else rest

-- What a write to slot `k` does to the map.
abbrev pub Puts : List Slot → List Slot → ℕ → ℕ → Type 0
Puts ws ws' p edge = (edge_of ws' p ≡ some edge) × ((q : ℕ) → q ≢ p → edge_of ws' q ≡ edge_of ws q)

is_pin-other : (pin : Option ℕ) (p q : ℕ) → is_pin pin p ≡ true → q ≢ p → is_pin pin q ≡ false
is_pin-other none p q e other = absurd (cc e)
is_pin-other (some r) p q e other = elim (Bool-cases (r == q)) [
  | inl same ↦ absurd (ground (arith, other))
  | inr differ ↦ differ
]

-- Either the slot that was found before is kept, and no slot here has the pin, or the slot is one of these.
abbrev pub Found : List Slot → ℕ → Option ℕ → ℕ → ℕ → ℕ → Type 0
Found ws i slot p k edge =
    ((slot ≡ some k) × (edge_of ws p ≡ none))
    ⊎ ((i ≤ k)
        × (k - i < length ws)
        × Puts ws (set ws (k - i) (record { pin = some p; edge = edge })) p edge)

here :
    (w : Slot) (ws : List Slot) (p edge : ℕ)
    → (is_pin (Slot.pin w) p ≡ true) ⊎ (Slot.pin w ≡ none)
    → Puts (w ∷ ws) (record { pin = some p; edge = edge } ∷ ws) p edge
unfolding edge_of
here w ws p edge why =
    let own : (p == p) ≡ true = ground arith in
    (
      rw own refl,
      λ q other.
          let apart : (p == q) ≡ false = elim (Bool-cases (p == q)) [
            | inl same ↦ absurd (ground (arith, other))
            | inr differ ↦ differ
          ] in
          rw (apart, skipped q other) refl,
    )
  where
    skipped : (q : ℕ) → q ≢ p → is_pin (Slot.pin w) q ≡ false
    skipped q other = elim why [
      | inl same ↦ is_pin-other (Slot.pin w) p q same other
      | inr empty ↦ ap (λ o. is_pin o q) empty
    ]

later :
    (w : Slot) (ws ws' : List Slot) (p edge : ℕ)
    → is_pin (Slot.pin w) p ≡ false
    → Puts ws ws' p edge
    → Puts (w ∷ ws) (w ∷ ws') p edge
unfolding edge_of
later w ws ws' p edge differ (own, others) = (rw differ own, λ q other. rw (others q other) refl)

-- The first slot here is the one, or one behind it.
at_head :
    (w : Slot) (ws : List Slot) (i p k edge : ℕ)
    → i ≡ k
    → (is_pin (Slot.pin w) p ≡ true) ⊎ (Slot.pin w ≡ none)
    → (i ≤ k)
      × (k - i < length (w ∷ ws))
      × Puts (w ∷ ws) (set (w ∷ ws) (k - i) (record { pin = some p; edge = edge })) p edge
at_head w ws i p k edge same why =
    let none_before : k - i ≡ 0 = omega arith in
    (
      omega arith,
      omega arith,
      subst (λ n. Puts (w ∷ ws) (set (w ∷ ws) n (record { pin = some p; edge = edge })) p edge)
          (sym none_before) (here w ws p edge why),
    )

in_rest :
    (w : Slot) (ws : List Slot) (i p k edge : ℕ)
    → is_pin (Slot.pin w) p ≡ false
    → (i + 1 ≤ k)
      × (k - (i + 1) < length ws)
      × Puts ws (set ws (k - (i + 1)) (record { pin = some p; edge = edge })) p edge
    → (i ≤ k)
      × (k - i < length (w ∷ ws))
      × Puts (w ∷ ws) (set (w ∷ ws) (k - i) (record { pin = some p; edge = edge })) p edge
in_rest w ws i p k edge differ (above, inside, puts) =
    let next : k - i ≡ suc (k - (i + 1)) = omega arith in
    (
      omega arith,
      omega arith,
      subst (λ n. Puts (w ∷ ws) (set (w ∷ ws) n (record { pin = some p; edge = edge })) p edge)
          (sym next)
          (later w ws (set ws (k - (i + 1)) (record { pin = some p; edge = edge })) p edge differ
            puts),
    )

some-inj : (i k : ℕ) → some i ≡ some k → i ≡ k
some-inj i k e = ap (λ o. elim o [ none ↦ i | some n ↦ n ]) e

kept_or_here :
    (w : Slot) (ws : List Slot) (i : ℕ) (slot : Option ℕ) (p k edge : ℕ)
    → is_pin (Slot.pin w) p ≡ false
    → first_free i (Slot.pin w) slot ≡ some k
    → edge_of ws p ≡ none
    → Found (w ∷ ws) i slot p k edge
kept_or_here w ws i slot p k edge differ e unknown = elim (Option-cases (Slot.pin w)) [
  | inr (q, used) ↦ inl (sym (ap (λ o. first_free i o slot) used) ∙ e, absent)
  | inl empty ↦ elim (Option-cases slot) [
    | inr (j, before) ↦ inl (before ∙ (sym (ap₂ (first_free i) empty before) ∙ e), absent)
    | inl nothing ↦ inr (
        at_head w ws i p k edge (some-inj i k (sym (ap₂ (first_free i) empty nothing) ∙ e))
          (inr empty))
  ]
]
  where
    absent : edge_of (w ∷ ws) p ≡ none
    absent = unfold edge_of in rw differ unknown

pub find_slot-Found :
    (ws : List Slot) (i : ℕ) (slot : Option ℕ) (p k edge : ℕ)
    → find_slot ws i slot p ≡ some k
    → Found ws i slot p k edge
unfolding find_slot
find_slot-Found [] i slot p k edge e = inl (e, unfold edge_of in refl)
find_slot-Found (w ∷ ws) i slot p k edge e = elim (Bool-cases (is_pin (Slot.pin w) p)) [
  | inl same ↦
      let first : find_slot (w ∷ ws) i slot p ≡ some i = rw same refl in
      inr (at_head w ws i p k edge (some-inj i k (sym first ∙ e)) (inl same))
  | inr differ ↦
      let rest : find_slot ws (i + 1) (first_free i (Slot.pin w) slot) p ≡ some k = ground arith in
      elim (find_slot-Found ws (i + 1) (first_free i (Slot.pin w) slot) p k edge rest) [
        | inl (chosen, unknown) ↦ kept_or_here w ws i slot p k edge differ chosen unknown
        | inr later_slot ↦ inr (in_rest w ws i p k edge differ later_slot)
      ]
]

pub clear_pin_lem :
    (ws : List Slot) (p : ℕ)
    → (edge_of (clear_pin ws p) p ≡ none)
      × ((q : ℕ) → q ≢ p → edge_of (clear_pin ws p) q ≡ edge_of ws q)
unfolding clear_pin edge_of
clear_pin_lem [] p = (refl, λ q other. refl)
clear_pin_lem (w ∷ ws) p =
    let (gone, others) = clear_pin_lem ws p in
    elim (Bool-cases (is_pin (Slot.pin w) p)) [
      | inl same ↦ (
        rw same gone,
        λ q other. rw (same, is_pin-other (Slot.pin w) p q same other) (others q other),
      )
      | inr differ ↦ (rw differ (rw differ gone), λ q other. rw differ (rw (others q other) refl))
    ]
