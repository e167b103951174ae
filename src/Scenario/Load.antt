-- ===== src/Scenario/Load.antt =====
-- internal/scenario/model.go: the load that a scenario declares, its phases and its duration. The
-- durations are nanoseconds, which the reader of a scenario refuses below zero.
use braunrate.Base.{ℕ, ◌+◌, Bool, true, false, List, [], ◌∷◌}

pub data ArrivalModel : Type 0 where
  open_arrival closed_arrival : ArrivalModel

pub data PhaseKind : Type 0 where
  phase_ramp phase_steady phase_spike : PhaseKind

-- `W` is the type of the rates; the fields From, To and For of the source.
pub record LoadPhase {ℓ} (W : Type ℓ) : Type ℓ where
  pub kind : PhaseKind
  pub from_rate : W
  pub to_rate : W
  pub lasting : ℕ

pub record LoadPlan {ℓ} (W : Type ℓ) : Type ℓ where
  pub model : ArrivalModel
  pub phases : List (LoadPhase W)
  pub users : ℕ
  pub lasting : ℕ
  pub think_time : ℕ

abbrev pub is_closed_model : ArrivalModel → Bool
is_closed_model open_arrival = false
is_closed_model closed_arrival = true

module _ {ℓ} {W : Type ℓ} where
  abbrev pub initial_rate : LoadPhase W → W
  initial_rate phase = elim phase.kind [ phase_ramp ↦ phase.from_rate | _ ↦ phase.to_rate ]

  abbrev pub final_rate : LoadPhase W → W
  final_rate phase = phase.to_rate

  unfoldable pub total_lasting : List (LoadPhase W) → ℕ
  total_lasting [] = 0
  total_lasting (phase ∷ phases) = phase.lasting + total_lasting phases

  -- `Duration`
  unfoldable pub declared_duration : LoadPlan W → ℕ
  declared_duration load = elim (is_closed_model load.model) [
    | true ↦ load.lasting
    | false ↦ total_lasting load.phases
  ]
