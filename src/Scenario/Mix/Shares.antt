-- ===== src/Scenario/Mix/Shares.antt =====
-- How often a cycle of the mix runs each step.
use mathlib.Core.List.{Perm, Permᴰ}
use mathlib.Core.Logic.{∥∥₁_elim}
use native.Mathlib.Nat.{ℕ_set, mul-div_cancel}
use braunrate.Base.{
  ℕ, zero, suc, ◌+◌, ◌*◌, ◌/◌, ◌<◌, ◌≡◌, refl, ap, ◌∙◌, List, [], ◌∷◌, ◌++◌, Bool, true, none, some,
  All, arith, get_elem?, count, count-append, eqb, if◌then◌else◌,
}
use braunrate.Base.Float.{Float64}
use braunrate.Scenario.{Step}
use braunrate.Scenario.Mix.{
  Slot, slot_less, SortSlice, step_of, copies, slots_from, mix_order, weights_of, divisor_of,
  total_shares, has_mix,
}
use braunrate.Scenario.Mix.Gcd.{Divides, divisor_of-Divides}

module _ {ℓ} {W : Type ℓ} where
  step_of-append : (xs ys : List (Slot W)) → step_of (xs ++ ys) ≡ step_of xs ++ step_of ys
  step_of-append [] ys = refl
  step_of-append (x ∷ xs) ys = ap (λ t. x.step ∷ t) (step_of-append xs ys)

  count_of_permᴰ :
      (i : ℕ) {xs ys : List (Slot W)} → Permᴰ xs ys → count i (step_of xs) ≡ count i (step_of ys)
  count_of_permᴰ i Permᴰ.nil = refl
  count_of_permᴰ i (Permᴰ.cons e d) =
      ground (arith, count_of_permᴰ i d, ap (λ (s : Slot W). s.step) e)
  count_of_permᴰ i (Permᴰ.swap p q) =
      ground (arith, ap (λ (s : Slot W). s.step) p, ap (λ (s : Slot W). s.step) q)
  count_of_permᴰ i (Permᴰ.trans d e) = count_of_permᴰ i d ∙ count_of_permᴰ i e

  count_of_perm :
      (i : ℕ) {xs ys : List (Slot W)} → Perm xs ys → count i (step_of xs) ≡ count i (step_of ys)
  count_of_perm i p = ∥∥₁_elim p (ℕ_set _ _) (count_of_permᴰ i)

-- The share of the step at a position, and 0 past the last step.
abbrev pub share_at : ℕ → List ℕ → ℕ → ℕ
share_at divisor ws i = elim (get_elem? ws i) [ none ↦ 0 | some w ↦ w / divisor ]

module _ {ℓ} (W : Type ℓ) ⦃f : Float64 W⦄ where
  count-copies :
      (i total share index left copy : ℕ)
      → count i (step_of {W = W} (copies total share index left copy))
        ≡ (if eqb index i then left else 0)
  unfolding copies
  count-copies i total share index zero copy = ground arith
  count-copies i total share index (suc left) copy =
      ground (arith, count-copies i total share index left (copy + 1))

  count-slots_from_below :
      (i total divisor index : ℕ) (ws : List ℕ)
      → i < index
      → count i (step_of {W = W} (slots_from total divisor index ws)) ≡ 0
  unfolding slots_from
  count-slots_from_below i total divisor index [] h = refl
  count-slots_from_below i total divisor index (w ∷ ws) h =
      let head = copies {W = W} total (w / divisor) index (w / divisor) 0 in
      let rest = slots_from {W = W} total divisor (index + 1) ws in
      rw (step_of-append head rest) (
        ground (
          arith,
          count-append i (step_of head) (step_of rest),
          count-copies i total (w / divisor) index (w / divisor) 0,
          count-slots_from_below i total divisor (index + 1) ws,
        ))

  count-slots_from :
      (j i total divisor index : ℕ) (ws : List ℕ)
      → index + j ≡ i
      → count i (step_of {W = W} (slots_from total divisor index ws)) ≡ share_at divisor ws j
  unfolding slots_from
  count-slots_from j i total divisor index [] e = refl
  count-slots_from zero i total divisor index (w ∷ ws) e =
      let head = copies {W = W} total (w / divisor) index (w / divisor) 0 in
      let rest = slots_from {W = W} total divisor (index + 1) ws in
      rw (step_of-append head rest) (
        ground (
          arith,
          count-append i (step_of head) (step_of rest),
          count-copies i total (w / divisor) index (w / divisor) 0,
          count-slots_from_below i total divisor (index + 1) ws,
        ))
  count-slots_from (suc j) i total divisor index (w ∷ ws) e =
      let head = copies {W = W} total (w / divisor) index (w / divisor) 0 in
      let rest = slots_from {W = W} total divisor (index + 1) ws in
      rw (step_of-append head rest) (
        ground (
          arith,
          count-append i (step_of head) (step_of rest),
          count-copies i total (w / divisor) index (w / divisor) 0,
          count-slots_from j i total divisor (index + 1) ws,
        ))

-- The documented behaviour of `sort.Slice` that the count rests on: it rearranges the slice.
abbrev pub Rearranges {ℓ} : {A : Type ℓ} → SortSlice A → Type ℓ
Rearranges {A} sort = (less : A → A → Bool) (xs : List A) → Perm (sort less xs) xs

module _ {ℓ} {C : Type ℓ} where
  share_at-weights_of :
      (divisor : ℕ) (steps : List (Step C)) (i : ℕ) {s : Step C}
      → get_elem? steps i ≡ some s
      → share_at divisor (weights_of steps) i ≡ s.weight / divisor
  share_at-weights_of d [] i h = cc
  share_at-weights_of d (x ∷ steps) zero h = ground (arith, h)
  share_at-weights_of d (x ∷ steps) (suc i) h = share_at-weights_of d steps i h

  pub share_at-weights_of-none :
      (divisor : ℕ) (steps : List (Step C)) (i : ℕ)
      → get_elem? steps i ≡ none
      → share_at divisor (weights_of steps) i ≡ 0
  share_at-weights_of-none d [] i h = refl
  share_at-weights_of-none d (x ∷ steps) zero h = cc
  share_at-weights_of-none d (x ∷ steps) (suc i) h = share_at-weights_of-none d steps i h

  Divides-weights_of :
      (divisor : ℕ) (steps : List (Step C)) (i : ℕ) {s : Step C}
      → get_elem? steps i ≡ some s
      → All (Divides divisor) (weights_of steps)
      → Divides divisor s.weight
  Divides-weights_of d [] i h a = cc
  Divides-weights_of d (x ∷ steps) zero {s} h a = let (k, e) = a.0 in (k, ground (arith, h))
  Divides-weights_of d (x ∷ steps) (suc i) h a = Divides-weights_of d steps i h a.1

div-mul_of_Divides : (d n : ℕ) → Divides d n → n / d * d ≡ n
div-mul_of_Divides zero n (k, e) = omega (arith, e)
div-mul_of_Divides (suc d) n (k, e) = rw e (rw (mul-div_cancel k {n = suc d} (omega arith)))

module _ {ℓ κ} {C : Type κ} {W : Type ℓ} ⦃f : Float64 W⦄ (sort_slice : SortSlice (Slot W)) where
  pub count-mix_order_share :
      Rearranges sort_slice
      → (steps : List (Step C)) (i : ℕ) → has_mix steps ≡ true
      → count i (mix_order sort_slice steps)
        ≡ share_at (divisor_of (weights_of steps)) (weights_of steps) i
  unfolding mix_order
  count-mix_order_share rearranges steps i mixed =
      let ws = weights_of steps in
      let d = divisor_of ws in
      let slots = slots_from {W = W} (total_shares d ws) d 0 ws in
      rw mixed (
        count_of_perm i (rearranges slot_less slots)
        ∙ count-slots_from W i i (total_shares d ws) d 0 ws (omega arith))

  -- Where the scenario declares a mix, a cycle of the order runs the step at each position exactly
  -- its weight divided by the common divisor of the weights: the number of its turns times that
  -- divisor is its weight, whatever order the sort gives to the turns.
  pub count-mix_order :
      Rearranges sort_slice
      → (steps : List (Step C)) (i : ℕ) {s : Step C} → has_mix steps ≡ true
      → get_elem? steps i ≡ some s
      → count i (mix_order sort_slice steps) * divisor_of (weights_of steps) ≡ s.weight
  count-mix_order rearranges steps i {s} mixed at =
      let ws = weights_of steps in
      let d = divisor_of ws in
      rw (count-mix_order_share rearranges steps i mixed, share_at-weights_of d steps i at)
        (div-mul_of_Divides d s.weight (Divides-weights_of d steps i at (divisor_of-Divides ws)))
