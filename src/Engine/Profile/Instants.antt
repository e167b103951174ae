-- ===== src/Engine/Profile/Instants.antt =====
-- The instants of a compiled plan, and the loop of the engine that waits for them.
use braunrate.Base.{
  Bool-cases, inl, inr, zero, suc, ℕ, ◌+◌, ◌≤◌, ◌≡◌, true, List, [], ◌∷◌, All, All-append, arith,
}
use braunrate.Base.Int.{ℤ, pos, leb_ℤ}
use braunrate.Base.Float.{Float64}
use braunrate.Engine.Schedule.{planned, take_turns-new_drive}
use braunrate.Engine.{Plan, Turn, take_turns, new_drive}
use braunrate.Metrics.{Hdr}
use braunrate.Metrics.Collector.{new_collector}
use braunrate.Engine.Profile.{
  FloatMath, clamped, add_ℤ, instant_in_phase, CompiledPhase, CompiledPlan, instant_among,
  instant_of, count_in_phase,
}

clamped-le : (instant : ℤ) (duration : ℕ) → leb_ℤ (clamped instant duration) (pos duration) ≡ true
clamped-le instant duration = ground arith

module _ {ℓ} {W : Type ℓ} ⦃f : Float64 W⦄ (m : FloatMath W) where
  instant_among-le :
      (phases : List (CompiledPhase W)) (duration : ℕ) (target : W)
      → leb_ℤ (instant_among m phases duration target) (pos duration) ≡ true
  unfolding instant_among
  instant_among-le [] duration target = ground arith
  instant_among-le (phase ∷ []) duration target = clamped-le _ duration
  instant_among-le (phase ∷ next ∷ phases) duration target =
      let count = f.sub target phase.accumulated_until in
      elim (Bool-cases (f.le (count_in_phase m phase phase.duration) count)) [
        | inl e ↦ rw e (instant_among-le (next ∷ phases) duration target)
        | inr e ↦ rw e (clamped-le (add_ℤ phase.start (instant_in_phase m phase count)) duration)
      ]

  -- Whatever the floats give, no request of a plan is scheduled after the end of the plan.
  pub instant_of-le :
      (plan : CompiledPlan W) (index : ℕ)
      → leb_ℤ (instant_of m plan index) (pos plan.duration) ≡ true
  unfolding instant_of
  instant_of-le plan index = instant_among-le plan.phases plan.duration (f.of_ℕ index)

  planned-le :
      (compiled : CompiledPlan W) (plan : Plan W)
      → ((index : ℕ) → instant_of m compiled index ≡ pos (plan.instant_of index))
      → (n : ℕ) → All (λ instant. instant ≤ plan.start + compiled.duration) (planned plan n)
  planned-le compiled plan agrees zero = tt
  planned-le compiled plan agrees (suc n) =
      All-append _ (planned plan n) _ (planned-le compiled plan agrees n)
        (ground (arith, instant_of-le compiled n, agrees n), tt)

-- With the instants of a compiled plan, whatever iterations end, however much time passes and
-- whenever the run is canceled, the open loop never waits for an instant after the start of the run
-- and the plan's duration.
pub take_turns-compiled {ℓ κ} :
    {W : Type κ} (H : Type ℓ) ⦃h : Hdr H⦄ ⦃f : Float64 W⦄ (m : FloatMath W)
    (compiled : CompiledPlan W) (plan : Plan W) (now : ℕ) (threshold : ℤ) (capacity : ℕ)
    (turns : List Turn)
    → ((index : ℕ) → instant_of m compiled index ≡ pos (plan.instant_of index))
    → let d = take_turns plan turns (new_drive now (new_collector {H = H} threshold capacity)) in
      All (λ instant. instant ≤ plan.start + compiled.duration) d.clock.waits
take_turns-compiled H m compiled plan now threshold capacity turns agrees =
    let scheduled = (take_turns-new_drive {H = H} plan now threshold capacity turns).0 in
    rw scheduled.waited (
      planned-le m compiled plan agrees
        (take_turns plan turns (new_drive now (new_collector {H = H} threshold capacity))).index)
