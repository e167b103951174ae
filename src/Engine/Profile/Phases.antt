-- ===== src/Engine/Profile/Phases.antt =====
-- The phases of a compiled plan, and the rate that one of them gives at an instant.
use braunrate.Base.{
  ap, ltb, append_assoc, ◌∙◌, inr, Bool-cases, append-nil, ◌⊎◌, sym, ◌-◌, inl, ℕ, ◌+◌, ◌≤◌, ◌<◌,
  ◌≡◌, refl, true, false, List, [], ◌∷◌, ◌++◌, arith, if◌then◌else◌,
}
use braunrate.Base.Int.{sub_ℕ, pos}
use braunrate.Base.Float.{Float64}
use braunrate.Scenario.Load.{LoadPhase, LoadPlan, is_closed_model, total_lasting, declared_duration}
use braunrate.Engine.Profile.{
  slope_of, initial_rate, FloatMath, CompiledPhase, compile_phase, compile_phases, compile_plan,
  count_in_phase, is_within, rate_at,
}

module _ {ℓ} {W : Type ℓ} ⦃f : Float64 W⦄ (m : FloatMath W) where
  -- Each phase begins where the one before ends, and counts on from where that one stops.
  pub data Follows : ℕ → W → List (LoadPhase W) → List (CompiledPhase W) → ℕ → W → Type ℓ where
    ended : {at : ℕ} {sofar : W} → Follows at sofar [] [] at sofar
    then_phase :
        {at end : ℕ} {sofar total : W} {phase : LoadPhase W} {phases : List (LoadPhase W)}
        {compiled : List (CompiledPhase W)}
        → Follows
            (at + phase.lasting)
            (f.add sofar (count_in_phase m (compile_phase m phase at sofar) phase.lasting))
            phases
            compiled
            end
            total
        → Follows at sofar (phase ∷ phases) (compile_phase m phase at sofar ∷ compiled) end total

  compile_phases-Follows :
      (phases : List (LoadPhase W)) (compiled : List (CompiledPhase W)) (at : ℕ) (sofar : W)
      → let (made, end, total) = compile_phases m phases compiled at sofar in
        (added : List (CompiledPhase W)) × (made ≡ compiled ++ added)
        × Follows at sofar phases added end total
        × (end ≡ at + total_lasting phases)
  unfolding compile_phases total_lasting
  compile_phases-Follows [] compiled at sofar = ([], sym (append-nil compiled), ended, omega arith)
  compile_phases-Follows (phase ∷ phases) compiled at sofar =
      let current = compile_phase m phase at sofar in
      let (added, made, follows, ends) =
        compile_phases-Follows phases (compiled ++ current ∷ []) (at + phase.lasting)
          (f.add sofar (count_in_phase m current phase.lasting)) in
      (
        current ∷ added,
        made ∙ append_assoc compiled (current ∷ []) added,
        then_phase follows,
        omega (arith, ends),
      )

  closed_plan :
      (load : LoadPlan W)
      → is_closed_model load.model ≡ true
      → (compile_plan m load
          ≡ record { phases = []; duration = load.lasting; total_requests = pos 0 })
        × (declared_duration load ≡ load.lasting)
  unfolding compile_plan declared_duration
  closed_plan load e = ground (arith, e)

  open_plan :
      (load : LoadPlan W)
      → is_closed_model load.model ≡ false
      → let (phases, end, total) = compile_phases m load.phases [] 0 (f.of_ℕ 0) in
        (compile_plan m load
          ≡ record { phases = phases; duration = end; total_requests = m.floor total })
        × (declared_duration load ≡ total_lasting load.phases)
  unfolding compile_plan declared_duration
  open_plan load e = ground (arith, e)

  -- The plan of an open load has the phases of the load one after another from its start on, each
  -- counting on from where the one before stops; it lasts as long as the load declares, also where
  -- the load is closed; and its requests are the whole part of what the phases count. The plan of a
  -- closed load has no phases and no requests.
  pub compile_plan_lem :
      (load : LoadPlan W)
      → let plan = compile_plan m load in
        (plan.duration ≡ declared_duration load)
        × ((is_closed_model load.model ≡ true) × (plan.phases ≡ []) × (plan.total_requests ≡ pos 0)
            ⊎ (is_closed_model load.model ≡ false)
              × ((total : W) × Follows 0 (f.of_ℕ 0) load.phases plan.phases plan.duration total
                  × (plan.total_requests ≡ m.floor total)))
  compile_plan_lem load = elim (Bool-cases (is_closed_model load.model)) [
    | inl e ↦
        (let (made, lasts) = closed_plan load e in rw (made, lasts) (refl, inl (e, refl, refl)))
    | inr e ↦
        (let (made, lasts) = open_plan load e in
          let (added, adds, follows, ends) = compile_phases-Follows load.phases [] 0 (f.of_ℕ 0) in
          rw (made, lasts) (omega (arith, ends), inr (e, (_, rw adds follows, refl))))
  ]

  -- The rate of a load at an instant, by walking through its phases.
  abbrev pub declared_rate : List (LoadPhase W) → ℕ → W
  declared_rate [] instant = f.of_ℕ 0
  declared_rate (phase ∷ phases) instant =
      let rest = declared_rate phases (instant - phase.lasting) in
      if ltb instant phase.lasting
      then f.add (initial_rate phase)
          (f.mul (slope_of m (compile_phase m phase 0 (f.of_ℕ 0))) (m.seconds (pos instant)))
      else rest

  -- Before its own start a plan has no rate.
  rate_at-before :
      {at end : ℕ} {sofar total : W} {phases : List (LoadPhase W)}
      {compiled : List (CompiledPhase W)}
      → Follows at sofar phases compiled end total
      → (instant : ℕ) → instant < at
      → rate_at m compiled (pos instant) ≡ f.of_ℕ 0
  unfolding rate_at
  rate_at-before ended instant early = refl
  rate_at-before (then_phase follows) instant early =
      ground (arith, rate_at-before follows instant (omega arith))

  rate_at-Follows :
      {at end : ℕ} {sofar total : W} {phases : List (LoadPhase W)}
      {compiled : List (CompiledPhase W)}
      → Follows at sofar phases compiled end total
      → (instant : ℕ) → at ≤ instant
      → rate_at m compiled (pos instant) ≡ declared_rate phases (instant - at)
  unfolding rate_at
  rate_at-Follows ended instant from_start = refl
  rate_at-Follows (then_phase {at = at} {sofar = sofar} {phase = phase} follows) instant
        from_start =
      let later : instant - (at + phase.lasting) ≡ instant - at - phase.lasting = omega arith in
      elim (Bool-cases (ltb (instant - at) phase.lasting)) [
        | inl h ↦
            (let inside : is_within m (pos instant) (compile_phase m phase at sofar) ≡ true =
                ground (arith, h, from_start) in
              let since : sub_ℕ instant at ≡ pos (instant - at) = ground (arith, from_start) in
              rw (inside, h)
                (ap
                  (λ past.
                    f.add (initial_rate phase)
                      (f.mul (slope_of m (compile_phase m phase 0 (f.of_ℕ 0))) (m.seconds past)))
                  since))
        | inr h ↦
            (let passed : at + phase.lasting ≤ instant = ground (arith, h, from_start) in
              let outside : is_within m (pos instant) (compile_phase m phase at sofar) ≡ false =
                ground (arith, passed) in
              rw (outside, h) (rw later at (rate_at-Follows follows instant passed)))
      ]

  -- At every instant the plan of an open load has the rate that the phase of that instant declares,
  -- at the time since that phase began; and none from the end of the last phase on.
  pub rate_at-compile_plan :
      (load : LoadPlan W) (instant : ℕ)
      → is_closed_model load.model ≡ false
      → rate_at m (compile_plan m load).phases (pos instant) ≡ declared_rate load.phases instant
  rate_at-compile_plan load instant opened = elim (compile_plan_lem load).1 [
    | inl closed ↦ absurd (ground (arith, opened, closed.0))
    | inr opens ↦
        (let same : instant - 0 ≡ instant = omega arith in
          rw same at (rate_at-Follows opens.1.1 instant (omega arith)))
  ]
