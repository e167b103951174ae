-- ===== src/Scenario/Mix.antt =====
-- internal/scenario/mix.go: the weighted mix of steps, and internal/engine/executor.go's choice of
-- the step that an iteration runs.
pub mod Gcd
pub mod Shares
pub mod Cycle
use mathlib.Core.WellFounded.{Acc, WellFounded}
use mathlib.Core.Logic.{dite}
use native.Mathlib.Decide.{dec_lt}
use braunrate.Base.{
  ℕ, zero, suc, ◌+◌, ◌/◌, ◌%◌, ◌<◌, List, [], ◌∷◌, ◌++◌, Bool, false, Option, none, some, ltb, eqb,
  if◌then◌else◌, length, get_elem?, sum, arith, ◌||◌,
}
use braunrate.Base.Int.{ℤ, pos, negsuc, pos_part, neg_part, sub_ℕ, ltb_ℤ}
use braunrate.Base.Float.{Float64}
use braunrate.Scenario.{Step}

acc_below : (k n : ℕ) → n < k → Acc ◌<◌ n
acc_below zero n h = absurd (omega arith)
acc_below (suc k) n h = Acc.intro n λ m lt. acc_below k m (omega arith)

lt_wf : WellFounded ◌<◌
unfolding acc_below
lt_wf = record { apply = λ n. acc_below (suc n) n (omega arith) }

-- `for second != 0 { first, second = second, first%second }`
gcd_loop : (first second : ℕ) → Acc ◌<◌ second → ℕ
gcd_loop first second (Acc.intro _ smaller) =
    dite (dec_lt 0 second)
      (λ h. gcd_loop second (first % second) (smaller (first % second) (omega arith))) (λ _. first)

unfoldable pub greatest_common_divisor : ℕ → ℕ → ℕ
unfolding gcd_loop lt_wf dec_lt
greatest_common_divisor first second = gcd_loop first second (lt_wf.apply second)

-- The loop that folds the divisor over the weights after the first.
unfoldable pub fold_divisor : ℕ → List ℕ → ℕ
fold_divisor divisor [] = divisor
fold_divisor divisor (weight ∷ weights) =
    fold_divisor (greatest_common_divisor divisor weight) weights

unfoldable pub divisor_of : List ℕ → ℕ
divisor_of [] = 0
divisor_of (weight ∷ weights) = fold_divisor weight weights

module _ {ℓ} {C : Type ℓ} where
  abbrev pub weights_of : List (Step C) → List ℕ
  weights_of [] = []
  weights_of (s ∷ steps) = s.weight ∷ weights_of steps

  unfoldable pub has_mix : List (Step C) → Bool
  has_mix [] = false
  has_mix (s ∷ steps) = ltb 0 s.weight || has_mix steps

pub record Slot {ℓ} (W : Type ℓ) : Type ℓ where
  pub position : W
  pub step : ℕ
  pub copy : ℕ

unfoldable pub total_shares : ℕ → List ℕ → ℕ
total_shares divisor [] = 0
total_shares divisor (weight ∷ weights) = weight / divisor + total_shares divisor weights

module _ {ℓ} {W : Type ℓ} ⦃f : Float64 W⦄ where
  open f use {of_ℕ, add, mul, div, lt, eq}

  abbrev pub slot_position : ℕ → ℕ → ℕ → W
  slot_position copy total share =
      div (mul (add (of_ℕ copy) (div (of_ℕ 1) (of_ℕ 2))) (of_ℕ total)) (of_ℕ share)

  -- `for copyIndex := range share`, with `left` rounds to go.
  unfoldable pub copies : (total share index left copy : ℕ) → List (Slot W)
  copies total share index zero copy = []
  copies total share index (suc left) copy =
      record { position = slot_position copy total share; step = index; copy = copy }
      ∷ copies total share index left (copy + 1)

  unfoldable pub slots_from : (total divisor index : ℕ) → List ℕ → List (Slot W)
  slots_from total divisor index [] = []
  slots_from total divisor index (weight ∷ weights) =
      copies total (weight / divisor) index (weight / divisor) 0
      ++ slots_from total divisor (index + 1) weights

  -- The comparison that is handed to `sort.Slice`.
  unfoldable pub slot_less : Slot W → Slot W → Bool
  slot_less a b =
      if eq a.position b.position
      then (if eqb a.step b.step then ltb a.copy b.copy else ltb a.step b.step)
      else lt a.position b.position

-- `sort.Slice`: it takes the comparison and rearranges the slice.
abbrev pub SortSlice {ℓ} : Type ℓ → Type ℓ
SortSlice A = (A → A → Bool) → List A → List A

abbrev pub step_of {ℓ} : {W : Type ℓ} → List (Slot W) → List ℕ
step_of [] = []
step_of (s ∷ slots) = s.step ∷ step_of slots

module _ {ℓ κ} {C : Type κ} {W : Type ℓ} ⦃f : Float64 W⦄ (sort_slice : SortSlice (Slot W)) where
  -- `nil` is the empty list.
  unfoldable pub mix_order : List (Step C) → List ℕ
  mix_order steps =
      let weights = weights_of steps in
      let divisor = divisor_of weights in
      let total = total_shares divisor weights in
      if has_mix steps
      then step_of (sort_slice slot_less (slots_from total divisor 0 weights))
      else []

module _ {ℓ κ} {C : Type κ} {W : Type ℓ} ⦃f : Float64 W⦄ where
  -- `none` is a panic on an index out of range.
  unfoldable pub declared_share : List (Step C) → ℕ → Option W
  declared_share steps index =
      let total = sum (weights_of steps) in
      if has_mix steps
      then (if eqb total 0 then some (f.of_ℕ 0) else (elim (get_elem? steps index) [
        | none ↦ none
        | some s ↦ some (f.div (f.of_ℕ s.weight) (f.of_ℕ total))
      ]))
      else some (f.of_ℕ 1)

-- Go's `%` of an int64 by a positive length: the sign is the dividend's.
abbrev pub rem_ℤ : ℤ → ℕ → ℤ
rem_ℤ (pos n) m = pos (n % m)
rem_ℤ (negsuc n) m = sub_ℕ 0 (suc n % m)

unfoldable pub cycle_position : ℤ → ℕ → ℕ
cycle_position iteration size =
    let position = rem_ℤ iteration size in
    if ltb_ℤ position (pos 0)
    then pos_part (sub_ℕ (pos_part position + size) (neg_part position))
    else pos_part position

-- `mixOrder[position]`; `none` is the panic of an index out of range.
unfoldable pub turn : List ℕ → ℤ → Option ℕ
turn order iteration = get_elem? order (cycle_position iteration (length order))

module _ {ℓ} {C : Type ℓ} where
  -- `steps[i : i+1]`; `none` is the panic of an index out of range.
  abbrev pub single : List (Step C) → ℕ → Option (List (Step C))
  single steps i = elim (get_elem? steps i) [ none ↦ none | some s ↦ some (s ∷ []) ]

  unfoldable pub steps_of : List ℕ → List (Step C) → ℤ → Option (List (Step C))
  steps_of [] steps iteration = some steps
  steps_of (i ∷ order) steps iteration = elim (turn (i ∷ order) iteration) [
    | none ↦ none
    | some step ↦ single steps step
  ]
