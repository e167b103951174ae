-- ===== src/Scenario/Validation/Parts.antt =====
-- The checks of a scenario one by one, and when each of them finds nothing.
use braunrate.Base.{
  ℕ, ◌+◌, ◌≤◌, ◌<◌, ◌≡◌, ◌↔◌, ◌⊎◌, refl, true, false, String, string_eq, List, [], ◌∷◌, ◌++◌, Map,
  All, any, arith, inl, inr, Bool-cases, eq_iff, ◌==◌, ◌||◌, add_count, eq_refl, lookup, count_of,
  count_of-add_count, eqb, not,
}
use braunrate.Base.Codes.{Text, text_eq}
use braunrate.Base.Float.{Float64}
use braunrate.Scenario.{Step, SloRule}
use braunrate.Scenario.Load.{LoadPlan, LoadPhase, is_closed_model}
use braunrate.Scenario.Validation.{
  Surroundings, check_phases, check_load, check_slo_steps, check_brokers, repeated_names,
  reaches_broker, is_ramp, is_step_scope, has_any,
}

pub append-none {ℓ} : {A : Type ℓ} (xs ys : List A) → (xs ++ ys ≡ []) → (xs ≡ []) × (ys ≡ [])
append-none [] ys e = (refl, e)
append-none (x ∷ xs) ys e = absurd (ground (arith, e))

none_counted : (name : String) → count_of name [] ≤ 1
unfolding lookup
none_counted name = omega arith

module _ {ℓ} {W : Type ℓ} ⦃f : Float64 W⦄ where
  -- A phase lasts, and has a rate unless it is a ramp.
  abbrev pub HasLoad : LoadPhase W → Type 0
  HasLoad phase =
      (0 < phase.lasting) × ((is_ramp phase.kind || not (f.le phase.to_rate (f.of_ℕ 0))) ≡ true)

  pub check_phases-none :
      (phases : List (LoadPhase W)) → (check_phases phases ≡ []) ↔ All HasLoad phases
  unfolding check_phases
  check_phases-none [] = ground arith
  check_phases-none (phase ∷ phases) = ground (arith, check_phases-none phases)

  -- A closed load has users and a duration, an open one has a phase.
  abbrev pub HasPlan : LoadPlan W → Type 0
  HasPlan load =
      (is_closed_model load.model ≡ true) × (0 < load.users) × (0 < load.lasting)
      ⊎ (is_closed_model load.model ≡ false) × (has_any load.phases ≡ true)

  pub check_load-none : (load : LoadPlan W) → (check_load load ≡ []) ↔ HasPlan load
  unfolding check_load
  check_load-none load = ground arith

module _ {ℓ} {C : Type ℓ} (around : Surroundings C) where
  pub check_brokers-none :
      (target : Text) (messaging : Map String (List String)) (steps : List (Step C))
      → (check_brokers around target messaging [] steps ≡ [])
        ↔ All (λ s. reaches_broker around target messaging s ≡ true) steps
  unfolding check_brokers
  check_brokers-none target messaging [] = ground arith
  check_brokers-none target messaging (s ∷ steps) =
      elim (Bool-cases (reaches_broker around target messaging s)) [
        | inl e ↦ rw e (ground (arith, check_brokers-none target messaging steps))
        | inr e ↦ rw e (ground arith)
      ]

module _ {ℓ} {C : Type ℓ} where
  -- No name of a step stands twice.
  abbrev pub HasNames : List (Step C) → Type 0
  HasNames [] = Unit
  HasNames (s ∷ steps) = (any (λ t. t.name == s.name) steps ≡ false) × HasNames steps

  all_counted :
      (name : String) (seen : Map String ℕ) (steps : List (Step C))
      → All (λ t. count_of t.name (add_count name 1 seen) ≡ 0) steps
        ↔ ((any (λ t. t.name == name) steps ≡ false) × All (λ t. count_of t.name seen ≡ 0) steps)
  all_counted name seen [] = ground arith
  all_counted name seen (t ∷ steps) = ground (
    arith,
    all_counted name seen steps,
    count_of-add_count name t.name 1 seen,
    eq_iff name t.name,
    eq_iff t.name name,
  )

  repeated_names-none :
      (seen : Map String ℕ) (steps : List (Step C))
      → ((name : String) → count_of name seen ≤ 1)
      → (repeated_names seen steps ≡ [])
        ↔ (HasNames steps × All (λ s. count_of s.name seen ≡ 0) steps)
  unfolding repeated_names
  repeated_names-none seen [] once = ground arith
  repeated_names-none seen (s ∷ steps) once =
      let counted = add_count s.name 1 seen in
      let here : count_of s.name counted ≡ count_of s.name seen + 1 =
        ground (arith, count_of-add_count s.name s.name 1 seen, eq_refl s.name) in
      elim (Bool-cases (eqb (count_of s.name counted) 2)) [
        | inl e ↦ rw e (ground (arith, e, here))
        | inr e ↦
            (let fresh : count_of s.name seen ≡ 0 = ground (arith, e, here, once s.name) in
              let once' : (name : String) → count_of name counted ≤ 1 = λ name. ground (
                arith,
                once name,
                fresh,
                count_of-add_count s.name name 1 seen,
                eq_iff s.name name,
              ) in
              rw e (
                ground (
                  arith,
                  fresh,
                  all_counted s.name seen steps,
                  repeated_names-none counted steps once',
                )))
      ]

  all_zero : (steps : List (Step C)) → All (λ t. count_of t.name [] ≡ 0) steps
  unfolding lookup
  all_zero [] = tt
  all_zero (t ∷ steps) = (refl, all_zero steps)

  pub repeated_names-distinct :
      (steps : List (Step C)) → (repeated_names [] steps ≡ []) ↔ HasNames steps
  repeated_names-distinct steps =
      ground (arith, repeated_names-none [] steps none_counted, all_zero steps)

  module _ {κ} {W : Type κ} ⦃f : Float64 W⦄ where
    -- A rule on a step names a step of the scenario.
    abbrev pub NamesStep : List (Step C) → SloRule W → Type 0
    NamesStep steps rule =
        (not (is_step_scope rule.scope) || any (λ s. s.name == rule.step) steps) ≡ true

    pub check_slo_steps-none :
        (steps : List (Step C)) (rules : List (SloRule W))
        → (check_slo_steps steps rules ≡ []) ↔ All (NamesStep steps) rules
    unfolding check_slo_steps
    check_slo_steps-none steps [] = ground arith
    check_slo_steps-none steps (rule ∷ rules) =
        elim (Bool-cases (not (is_step_scope rule.scope) || any (λ s. s.name == rule.step) steps)) [
          | inl e ↦ rw e (ground (arith, check_slo_steps-none steps rules))
          | inr e ↦ rw e (ground arith)
        ]
