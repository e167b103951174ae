-- ===== src/Scenario/Mix/Cycle.antt =====
-- The step that an iteration runs, over a whole cycle of the mix.
use mathlib.Core.List.{append_assoc, append-nil}
use native.Mathlib.Nat.{mod-lt, mod-eq_of_lt, add-mod_right, add-zero, add-suc, suc-add}
use native.Mathlib.Numerals.{add-one}
use braunrate.Base.{
  ◌≢◌, ℕ, zero, suc, ◌+◌, ◌*◌, ◌%◌, ◌<◌, ◌≡◌, refl, sym, ap, ◌∙◌, List, [], ◌∷◌, ◌++◌, true, Option,
  none, some, arith, length, get_elem?, count, count-append, Option-cases, Bool-cases, inl, inr,
  length-append, ltb,
}
use braunrate.Base.Int.{ℤ, pos, negsuc}
use braunrate.Base.Float.{Float64}
use braunrate.Scenario.{Step}
use braunrate.Scenario.Mix.{
  single, Slot, SortSlice, mix_order, weights_of, divisor_of, has_mix, turn, steps_of,
  cycle_position,
}
use braunrate.Scenario.Mix.Shares.{
  Rearranges, count-mix_order, count-mix_order_share, share_at-weights_of-none,
}

cycle_position-lt : (iteration : ℤ) (size : ℕ) → 0 < size → cycle_position iteration size < size
unfolding cycle_position
cycle_position-lt (pos n) size h = ground (arith, mod-lt n h)
cycle_position-lt (negsuc n) size h = ground (arith, mod-lt (suc n) h)

cycle_position_pos : (n size : ℕ) → cycle_position (pos n) size ≡ n % size
unfolding cycle_position
cycle_position_pos n size = ground arith

abbrev to_list : Option ℕ → List ℕ
to_list none = []
to_list (some n) = n ∷ []

-- The position of the step that an iteration runs, as a list of none or one.
abbrev pub pick : List ℕ → ℕ → List ℕ
pick order iteration = to_list (turn order (pos iteration))

pick_lem : (order : List ℕ) (n : ℕ) → pick order n ≡ to_list (get_elem? order (n % length order))
unfolding turn
pick_lem order n = ap (λ p. to_list (get_elem? order p)) (cycle_position_pos n (length order))

-- The steps that `size` iterations in a row run, from the one given on.
unfoldable pub picks : List ℕ → ℕ → ℕ → List ℕ
picks order start zero = []
picks order start (suc size) = pick order start ++ picks order (start + 1) size

count_first :
    (i : ℕ) (order : List ℕ) (size start : ℕ)
    → count i (picks order start (suc size))
      ≡ count i (pick order start) + count i (picks order (suc start) size)
unfolding picks
count_first i order size start =
    rw (count-append i (pick order start) (picks order (start + 1) size), add-one)

count-picks-zero : (i : ℕ) (order : List ℕ) (start : ℕ) → count i (picks order start 0) ≡ 0
unfolding picks
count-picks-zero i order start = refl

count-picks-one :
    (i : ℕ) (order : List ℕ) (start : ℕ)
    → count i (picks order start 1) ≡ count i (pick order start)
unfolding picks
count-picks-one i order start = rw append-nil

count-picks-suc :
    (i : ℕ) (order : List ℕ) (size start : ℕ)
    → count i (picks order start (suc size))
      ≡ count i (picks order start size) + count i (pick order (start + size))
count-picks-suc i order zero start = omega (
  arith,
  count-picks-one i order start,
  ap (λ n. count i (pick order n)) (add-zero start),
  count-picks-zero i order start,
)
count-picks-suc i order (suc size) start = omega (
  arith,
  count_first i order (suc size) start,
  count_first i order size start,
  count-picks-suc i order size (suc start),
  ap (λ n. count i (pick order n)) (suc-add start size ∙ sym (add-suc start size)),
)

pick_next_cycle :
    (order : List ℕ) (start : ℕ) → pick order (start + length order) ≡ pick order start
pick_next_cycle order start =
    pick_lem order (start + length order)
    ∙ ap (λ p. to_list (get_elem? order p)) (add-mod_right start (length order))
    ∙ sym (pick_lem order start)

get_elem?_middle :
    (before : List ℕ) (x : ℕ) (after : List ℕ)
    → get_elem? (before ++ x ∷ after) (length before) ≡ some x
get_elem?_middle [] x after = refl
get_elem?_middle (y ∷ before) x after = get_elem?_middle before x after

picks_suffix :
    (before after : List ℕ) → picks (before ++ after) (length before) (length after) ≡ after
unfolding picks
picks_suffix before [] = refl
picks_suffix before (x ∷ after) =
    let whole = before ++ x ∷ after in
    let inside : length before < length whole = omega (arith, length-append before (x ∷ after)) in
    let here : pick whole (length before) ≡ x ∷ [] =
      pick_lem whole (length before)
      ∙ ap (λ p. to_list (get_elem? whole p)) (mod-eq_of_lt inside)
      ∙ ap to_list (get_elem?_middle before x after) in
    let rest : picks whole (length before + 1) (length after) ≡ after =
      rw (append_assoc before (x ∷ []) after, length-append before (x ∷ [])) at
        (picks_suffix (before ++ x ∷ []) after) in
    rw here (ap (λ t. x ∷ t) rest)

count-picks :
    (i : ℕ) (order : List ℕ) (start : ℕ)
    → count i (picks order start (length order)) ≡ count i order
count-picks i order zero = ap (count i) (picks_suffix [] order)
count-picks i order (suc start) = omega (
  arith,
  count-picks i order start,
  count-picks-suc i order (length order) start,
  count_first i order (length order) start,
  ap (count i) (pick_next_cycle order start),
)

module _ {ℓ κ} {C : Type κ} {W : Type ℓ} ⦃f : Float64 W⦄ (sort_slice : SortSlice (Slot W)) where
  -- Any run of iterations in a row that is as long as the cycle, wherever it begins, runs each
  -- step exactly its weight divided by the common divisor of the weights.
  pub turns_of_cycle :
      Rearranges sort_slice
      → (steps : List (Step C)) (i start : ℕ) {s : Step C} → has_mix steps ≡ true
      → get_elem? steps i ≡ some s
      → let order = mix_order sort_slice steps in
        count i (picks order start (length order)) * divisor_of (weights_of steps) ≡ s.weight
  turns_of_cycle rearranges steps i start mixed at =
      rw (count-picks i (mix_order sort_slice steps) start)
        (count-mix_order sort_slice rearranges steps i mixed at)

get_elem?_of_lt : (xs : List ℕ) (n : ℕ) → n < length xs → (x : ℕ) × (get_elem? xs n ≡ some x)
get_elem?_of_lt [] n h = absurd (omega arith)
get_elem?_of_lt (x ∷ xs) zero h = (x, refl)
get_elem?_of_lt (x ∷ xs) (suc n) h = get_elem?_of_lt xs n (omega arith)

count_pos_of_get_elem? : (xs : List ℕ) (n : ℕ) {x : ℕ} → get_elem? xs n ≡ some x → 0 < count x xs
count_pos_of_get_elem? [] n h = cc
count_pos_of_get_elem? (y ∷ xs) zero h = ground arith
count_pos_of_get_elem? (y ∷ xs) (suc n) {x} h =
    ground (arith, count_pos_of_get_elem? xs n {x = x} h)

pos_of_mul : (a b : ℕ) → 0 < a * b → 0 < a
pos_of_mul zero b h = absurd (omega arith)
pos_of_mul (suc a) b h = omega arith

ne-nil_of_count : (x : ℕ) (xs : List ℕ) → 0 < count x xs → 0 < length xs
ne-nil_of_count x [] h = absurd (omega arith)
ne-nil_of_count x (y ∷ xs) h = omega arith

turn_of_get_elem? :
    (order : List ℕ) (iteration : ℤ) {i : ℕ}
    → get_elem? order (cycle_position iteration (length order)) ≡ some i
    → turn order iteration ≡ some i
unfolding turn
turn_of_get_elem? order iteration h = h

turn_nil : (iteration : ℤ) {i : ℕ} → turn [] iteration ≢ some i
unfolding turn
turn_nil iteration h = cc

module _ {ℓ} {C : Type ℓ} where
  steps_of-turn :
      (order : List ℕ) (steps : List (Step C)) (iteration : ℤ) {i : ℕ} {s : Step C}
      → turn order iteration ≡ some i
      → get_elem? steps i ≡ some s
      → steps_of order steps iteration ≡ some (s ∷ [])
  unfolding steps_of
  steps_of-turn [] steps iteration h at = absurd (turn_nil iteration h)
  steps_of-turn (j ∷ order) steps iteration h at = rw (h, steps_of) (rw (at, single))

  -- A declared mix has a step with a weight.
  weighted_of_has_mix :
      (steps : List (Step C))
      → has_mix steps ≡ true
      → (i : ℕ) × (s : Step C) × (get_elem? steps i ≡ some s) × (0 < s.weight)
  unfolding has_mix
  weighted_of_has_mix [] h = cc
  weighted_of_has_mix (s ∷ steps) h = elim (Bool-cases (ltb 0 s.weight)) [
    | inl p ↦ (0, s, refl, ground arith)
    | inr p ↦ (let (i, t, at, q) = weighted_of_has_mix steps (rw p at h) in (suc i, t, at, q))
  ]

module _ {ℓ κ} {C : Type κ} {W : Type ℓ} ⦃f : Float64 W⦄ (sort_slice : SortSlice (Slot W)) where
  present :
      Rearranges sort_slice
      → (steps : List (Step C)) (i : ℕ) → has_mix steps ≡ true
      → 0 < count i (mix_order sort_slice steps)
      → (s : Step C) × (get_elem? steps i ≡ some s)
  present rearranges steps i mixed h = elim (Option-cases (get_elem? steps i)) [
    | inl out ↦ absurd (
        omega (
          arith,
          count-mix_order_share sort_slice rearranges steps i mixed,
          share_at-weights_of-none (divisor_of (weights_of steps)) steps i out,
        ))
    | inr found ↦ found
  ]

  -- Where the scenario declares a mix, every iteration, also at a negative number, runs exactly one
  -- step, which is a step of the scenario: no index of the choice is out of range.
  pub steps_of-mix_order :
      Rearranges sort_slice
      → (steps : List (Step C)) (iteration : ℤ) → has_mix steps ≡ true
      → (i : ℕ) × (s : Step C) × (get_elem? steps i ≡ some s)
        × (steps_of (mix_order sort_slice steps) steps iteration ≡ some (s ∷ []))
  steps_of-mix_order rearranges steps iteration mixed =
      let order = mix_order sort_slice steps in
      let (i, s, at, weight_pos) = weighted_of_has_mix steps mixed in
      let filled : 0 < count i order =
        pos_of_mul _ (divisor_of (weights_of steps))
          (rw (count-mix_order sort_slice rearranges steps i mixed at) weight_pos) in
      let (x, turn_is) =
        get_elem?_of_lt order (cycle_position iteration (length order))
          (cycle_position-lt iteration (length order) (ne-nil_of_count i order filled)) in
      let (t, found) = present rearranges steps x mixed (count_pos_of_get_elem? order _ turn_is) in
      (
        x,
        t,
        found,
        steps_of-turn order steps iteration (turn_of_get_elem? order iteration turn_is) found,
      )
