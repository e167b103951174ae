-- ===== src/Engine/Profile.antt =====
-- internal/engine/plan.go: the plan of a run, compiled from the phases of a load, with the rate at an
-- instant and the instant of a request. What is computed with floats is computed with the functions
-- of a float64 that the plan uses.
pub mod Phases
pub mod Instants
use braunrate.Base.{
  ℕ, ◌+◌, Bool, true, false, List, [], ◌∷◌, ◌++◌, ◌&&◌, not, ltb, leb, eqb, if◌then◌else◌,
}
use braunrate.Base.Int.{ℤ, pos, negsuc, sub_ℕ, ltb_ℤ, leb_ℤ}
use braunrate.Base.Float.{Float64}
use braunrate.Scenario.Load.{LoadPhase, LoadPlan, is_closed_model, initial_rate, final_rate}

-- The rest of math and time that the plan uses: the seconds of a duration in nanoseconds, the
-- duration that a float of seconds is truncated to, math.Floor with its conversion to an integer,
-- and the bound below which a slope counts as none.
pub record FloatMath {ℓ} (W : Type ℓ) : Type ℓ where
  pub seconds : ℤ → W
  pub nanoseconds : W → ℤ
  pub floor : W → ℤ
  pub abs : W → W
  pub sqrt : W → W
  pub negate : W → W
  pub max : W → W → W
  pub flat : W

pub record CompiledPhase {ℓ} (W : Type ℓ) : Type ℓ where
  pub initial_rate : W
  pub final_rate : W
  pub duration : ℕ
  pub start : ℕ
  pub accumulated_until : W

-- `Plan` of the source.
pub record CompiledPlan {ℓ} (W : Type ℓ) : Type ℓ where
  pub phases : List (CompiledPhase W)
  pub duration : ℕ
  pub total_requests : ℤ

-- The sum of a duration that is not negative and any other.
abbrev pub add_ℤ : ℕ → ℤ → ℤ
add_ℤ a (pos b) = pos (a + b)
add_ℤ a (negsuc b) = sub_ℕ a (b + 1)

abbrev pub less_ℤ : ℤ → ℕ → ℤ
less_ℤ (pos a) b = sub_ℕ a b
less_ℤ (negsuc a) b = negsuc (a + b)

abbrev pub clamped : ℤ → ℕ → ℤ
clamped instant duration = if ltb_ℤ (pos duration) instant then pos duration else instant

module _ {ℓ} {W : Type ℓ} ⦃f : Float64 W⦄ (m : FloatMath W) where
  abbrev pub slope_of : CompiledPhase W → W
  slope_of phase =
      f.div (f.sub phase.final_rate phase.initial_rate) (m.seconds (pos phase.duration))

  unfoldable pub count_in_phase : CompiledPhase W → ℕ → W
  count_in_phase phase until =
      let elapsed = m.seconds (pos until) in
      if leb phase.duration 0
      then f.of_ℕ 0
      else f.add (f.mul phase.initial_rate elapsed)
          (f.div (f.mul (f.mul (slope_of phase) elapsed) elapsed) (f.of_ℕ 2))

  abbrev pub compile_phase : LoadPhase W → ℕ → W → CompiledPhase W
  compile_phase phase start accumulated = record {
    initial_rate = initial_rate phase;
    final_rate = final_rate phase;
    duration = phase.lasting;
    start = start;
    accumulated_until = accumulated;
  }

  -- The loop of CompilePlan: the phases, where they end, and how many requests they have.
  unfoldable pub compile_phases :
      List (LoadPhase W) → List (CompiledPhase W) → ℕ → W → List (CompiledPhase W) × ℕ × W
  compile_phases [] compiled start accumulated = (compiled, start, accumulated)
  compile_phases (phase ∷ phases) compiled start accumulated =
      let current = compile_phase phase start accumulated in
      compile_phases phases (compiled ++ current ∷ []) (start + phase.lasting)
        (f.add accumulated (count_in_phase current phase.lasting))

  unfoldable pub compile_plan : LoadPlan W → CompiledPlan W
  compile_plan load = elim (is_closed_model load.model) [
    | true ↦ record { phases = []; duration = load.lasting; total_requests = pos 0 }
    | false ↦
        (let (phases, start, accumulated) = compile_phases load.phases [] 0 (f.of_ℕ 0) in
          record { phases = phases; duration = start; total_requests = m.floor accumulated })
  ]

  abbrev pub is_within : ℤ → CompiledPhase W → Bool
  is_within instant phase =
      not (ltb_ℤ instant (pos phase.start)) && ltb_ℤ instant (pos (phase.start + phase.duration))

  abbrev pub rate_within : ℤ → CompiledPhase W → W
  rate_within instant phase =
      f.add phase.initial_rate (f.mul (slope_of phase) (m.seconds (less_ℤ instant phase.start)))

  -- `RateAt`
  unfoldable pub rate_at : List (CompiledPhase W) → ℤ → W
  rate_at [] instant = f.of_ℕ 0
  rate_at (phase ∷ phases) instant =
      let rest = rate_at phases instant in
      if is_within instant phase then rate_within instant phase else rest

  unfoldable pub instant_in_phase : CompiledPhase W → W → ℤ
  instant_in_phase phase count =
      let slope = slope_of phase in
      let quadratic = f.div slope (f.of_ℕ 2) in
      let linear = phase.initial_rate in
      let root = m.sqrt (f.add (f.mul linear linear) (f.mul (f.mul (f.of_ℕ 4) quadratic) count)) in
      if f.le count (f.of_ℕ 0)
      then pos 0
      else m.nanoseconds (
          if f.lt (m.abs slope) m.flat
          then f.div count phase.initial_rate
          else f.div (f.add (m.negate linear) root) (f.mul (f.of_ℕ 2) quadratic))

  -- The loop of InstantOf, over a request's number as a float.
  unfoldable pub instant_among : List (CompiledPhase W) → ℕ → W → ℤ
  instant_among [] duration target = pos duration
  instant_among (phase ∷ []) duration target =
      clamped (add_ℤ phase.start (instant_in_phase phase (f.sub target phase.accumulated_until)))
        duration
  instant_among (phase ∷ next ∷ phases) duration target =
      let count = f.sub target phase.accumulated_until in
      let rest = instant_among (next ∷ phases) duration target in
      if f.le (count_in_phase phase phase.duration) count
      then rest
      else clamped (add_ℤ phase.start (instant_in_phase phase count)) duration

  unfoldable pub instant_of : CompiledPlan W → ℕ → ℤ
  instant_of plan index = instant_among plan.phases plan.duration (f.of_ℕ index)

  -- `PeakRate`, from a peak so far.
  unfoldable pub peak_among : W → List (CompiledPhase W) → W
  peak_among peak [] = peak
  peak_among peak (phase ∷ phases) =
      peak_among (m.max peak (m.max phase.initial_rate phase.final_rate)) phases

  abbrev pub peak_rate : CompiledPlan W → W
  peak_rate plan = peak_among (f.of_ℕ 0) plan.phases
