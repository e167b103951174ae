-- ===== src/Scenario/Validation/Accepted.antt =====
-- What a scenario without problems is.
use braunrate.Base.{◌≡◌, ◌≢◌, true, string_eq, [], All}
use braunrate.Base.Codes.{text_eq, trim_space}
use braunrate.Base.Float.{Float64}
use braunrate.Scenario.References.{unresolved_environment}
use braunrate.Scenario.Validation.{Spec, Surroundings, valid_target, has_any, reaches_broker}
use braunrate.Scenario.Validation.Parts.{HasLoad, HasPlan, HasNames, NamesStep}
use braunrate.Scenario.Validation.Mixed.{IsMix}

module _ {ℓ κ} {C : Type ℓ} {W : Type κ} ⦃f : Float64 W⦄ (around : Surroundings C) where
  pub record IsAccepted (spec : Spec C W) : Type 0 where
    pub named : trim_space spec.name ≢ []
    pub resolved : unresolved_environment around.environment spec.target ≡ []
    pub targeted : valid_target around spec.target ≡ true
    pub has_steps : has_any spec.steps ≡ true
    pub planned : HasPlan spec.load
    pub distinct : HasNames spec.steps
    pub mixed : IsMix around spec.steps
    pub reachable : All (λ s. reaches_broker around spec.target spec.messaging s ≡ true) spec.steps
    pub judged : All (NamesStep spec.steps) spec.slo
    pub loaded : All HasLoad spec.load.phases
