-- ===== src/Gpio/Watches.antt =====
-- The table of watched pins of components/core/src/periph_gpio.c as a map from pins to edges.
use espshell.Prelude.{
  ℕ, ◌-◌, ◌≡◌, ◌≢◌, refl, ap, sym, subst, ◌∙◌, Bool, true, false, List, [], ◌∷◌, Option, none, some,
  length, set, length-set, Bool-cases, inl, inr, arith,
}
use espshell.Gpio.{Driver, Gpio, Slot, parse_pin, on_pin}
use espshell.Gpio.Edges.{
  find_slot, parse_edge, c_watch, c_unwatch, added, watch_edge, watch_slot, installed, unwatch,
}
use espshell.Gpio.Slots.{edge_of, Puts, find_slot-Found, clear_pin_lem}

module _ (D : Driver) where
  installed-watch : (w : Gpio D) → Gpio.s_watch (installed D w) ≡ w.s_watch
  unfolding installed
  installed-watch w = elim (Bool-cases w.s_isr_svc) [
    | inl up ↦ rw up refl
    | inr down ↦ rw down refl
  ]

  added-true :
      (err : ℕ) (w : Gpio D) (k : ℕ) (new : Slot) (r : Bool × D.Hw)
      → (added D err w k new r).0 ≡ true
      → Gpio.s_watch (added D err w k new r).3 ≡ set w.s_watch k new
  unfolding added
  added-true err w k new (false, hw) e = absurd (cc e)
  added-true err w k new (true, hw) e = refl

  watch_slot-true :
      (err p edge : ℕ) (w : Gpio D) (k : ℕ)
      → (watch_slot D err w p edge (some k)).0 ≡ true
      → Gpio.s_watch (watch_slot D err w p edge (some k)).3
        ≡ set w.s_watch k (record { pin = some p; edge = edge })
  unfolding watch_slot
  watch_slot-true err p edge w k done =
      added-true err (installed D w) k _ _ done
      ∙ ap (λ ws. set ws k (record { pin = some p; edge = edge })) (installed-watch w)

  watch_slot-Puts :
      (err p edge : ℕ) (w : Gpio D) (slot : Option ℕ)
      → find_slot w.s_watch 0 none p ≡ slot
      → (watch_slot D err w p edge slot).0 ≡ true
      → (length (Gpio.s_watch (watch_slot D err w p edge slot).3) ≡ length w.s_watch)
        × Puts w.s_watch (Gpio.s_watch (watch_slot D err w p edge slot).3) p edge
  watch_slot-Puts err p edge w none found done = unfold watch_slot in absurd (cc done)
  watch_slot-Puts err p edge w (some k) found done =
      let new : Slot = record { pin = some p; edge = edge } in
      let written = watch_slot-true err p edge w k done in
      let from_zero : k - 0 ≡ k = omega arith in
      elim (find_slot-Found w.s_watch 0 none p k edge found) [
        | inl kept ↦ absurd (cc kept.0)
        | inr (_, _, puts) ↦ (
          ap length written ∙ length-set w.s_watch k new,
          subst (λ ws. Puts w.s_watch ws p edge) (sym written)
              (subst (λ n. Puts w.s_watch (set w.s_watch n new) p edge) from_zero puts),
        )
      ]

  watch_run :
      (pin s : List ℕ) (p edge err : ℕ) (w : Gpio D)
      → parse_pin pin ≡ some p
      → parse_edge D s ≡ some edge
      → c_watch D (pin ∷ s ∷ []) err w ≡ watch_slot D err w p edge (find_slot w.s_watch 0 none p)
  unfolding c_watch watch_edge
  watch_run pin s p edge err w known kind =
      ap (λ o. on_pin D w o (λ n. watch_edge D err w n (parse_edge D s))) known
      ∙ ap (watch_edge D err w p) kind

  -- When GPIO_WATCH of a pin succeeds, the pin is watched for the edge that was asked for, whatever it was
  -- watched for before, and the other pins are watched as before; a GPIO_UNWATCH of the pin behind it
  -- succeeds and takes out just this pin. The table keeps its size.
  pub watch_unwatch :
      (pin s : List ℕ) (p edge err err' : ℕ) (w : Gpio D)
      → parse_pin pin ≡ some p
      → parse_edge D s ≡ some edge
      → (c_watch D (pin ∷ s ∷ []) err w).0 ≡ true
      → (length (Gpio.s_watch (c_watch D (pin ∷ s ∷ []) err w).3) ≡ length w.s_watch)
        × (edge_of (Gpio.s_watch (c_watch D (pin ∷ s ∷ []) err w).3) p ≡ some edge)
        × ((q : ℕ)
            → q ≢ p
            → edge_of (Gpio.s_watch (c_watch D (pin ∷ s ∷ []) err w).3) q ≡ edge_of w.s_watch q)
        × ((c_unwatch D (pin ∷ []) err' (c_watch D (pin ∷ s ∷ []) err w).3).0 ≡ true)
        × (edge_of
              (Gpio.s_watch (c_unwatch D (pin ∷ []) err' (c_watch D (pin ∷ s ∷ []) err w).3).3)
              p
            ≡ none)
        × ((q : ℕ)
            → q ≢ p
            → edge_of
                (Gpio.s_watch (c_unwatch D (pin ∷ []) err' (c_watch D (pin ∷ s ∷ []) err w).3).3)
                q
              ≡ edge_of w.s_watch q)
  unfolding c_unwatch unwatch
  watch_unwatch pin s p edge err err' w known kind done =
      let run = watch_run pin s p edge err w known kind in
      let slot = find_slot w.s_watch 0 none p in
      let (size, puts) = watch_slot-Puts err p edge w slot refl (ap (λ r. r.0) (sym run) ∙ done) in
      let (own, others) = puts in
      let after : Gpio D = (c_watch D (pin ∷ s ∷ []) err w).3 in
      let same : Gpio.s_watch after ≡ Gpio.s_watch (watch_slot D err w p edge slot).3 =
        ap (λ r. Gpio.s_watch r.3) run in
      let gone : c_unwatch D (pin ∷ []) err' after ≡ unwatch D err' after (some p) =
        ap (unwatch D err' after) known in
      let (cleared, left) = clear_pin_lem (Gpio.s_watch after) p in
      (
        ap length same ∙ size,
        ap (λ ws. edge_of ws p) same ∙ own,
        λ q other. ap (λ ws. edge_of ws q) same ∙ others q other,
        ap (λ r. r.0) gone,
        ap (λ r. edge_of (Gpio.s_watch r.3) p) gone ∙ cleared,
        λ q other.
            ap (λ r. edge_of (Gpio.s_watch r.3) q) gone
            ∙ (left q other ∙ (ap (λ ws. edge_of ws q) same ∙ others q other)),
      )
