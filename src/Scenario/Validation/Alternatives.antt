-- ===== src/Scenario/Validation/Alternatives.antt =====
-- What an iteration of a mix runs, in a scenario without problems.
use braunrate.Base.{ℕ, List, All}
use braunrate.Scenario.{Step}
use braunrate.Scenario.References.{references_in}
use braunrate.Scenario.Validation.{Surroundings}
use braunrate.Scenario.Validation.Mixed.{IsOwn}

module _ {ℓ} {C : Type ℓ} (around : Surroundings C) where
  -- Each reference of a step names what no step captures, or what it is itself the last to capture.
  abbrev pub StandsAlone : List (Step C) → ℕ → Step C → Type 0
  StandsAlone all index s =
      All (λ text. All (IsOwn around all index) (references_in text)) (around.texts_of s.config)
