-- ===== src/Metrics/Sanity.antt =====
-- internal/metrics/sanity.go: whether a run measured what it set out to measure.
pub mod Measured
use braunrate.Base.{
  ℕ, ◌+◌, ◌*◌, ◌/◌, Bool, true, false, not, ◌&&◌, ◌||◌, String, List, [], ◌∷◌, ◌++◌, map, any, keep,
  length, string_eq, ◌==◌, ltb, leb, eqb, if◌then◌else◌,
}
use braunrate.Metrics.Document.{
  Document, DocumentInput, Finding, incomplete_journey, step_without_sample, everything_failed,
  step_fully_failed, short_run, of_warning, Sanity, StepResult, is_closed, is_high,
}

abbrev pub applied_tolerance : ℕ
applied_tolerance = 99

abbrev pub has_samples {ℓ} : {W : Type ℓ} → StepResult W → Bool
has_samples s = ltb 0 s.count

-- A step that ran and whose requests all failed.
abbrev pub fully_failed {ℓ} : {W : Type ℓ} → StepResult W → Bool
fully_failed s = eqb s.errors s.count

module _ {ℓ} {W : Type ℓ} where
  unfoldable pub no_journey_completed : Document W → List Finding
  no_journey_completed d =
      if eqb d.journey.started 0 || ltb 0 d.journey.completed
      then []
      else incomplete_journey d.journey.started ∷ []

  -- `withSamples[declared]`
  abbrev pub with_samples : String → List (StepResult W) → Bool
  with_samples declared steps = any (λ s. has_samples s && s.name == declared) steps

  abbrev without_samples : List (StepResult W) → List String → List Finding
  without_samples steps [] = []
  without_samples steps (declared ∷ rest) =
      let findings = without_samples steps rest in
      if with_samples declared steps then findings else step_without_sample declared ∷ findings

  unfoldable pub declared_step_without_samples : Document W → DocumentInput → List Finding
  declared_step_without_samples d input = without_samples d.steps input.declared_steps

  unfoldable pub everything_failed_findings : Document W → List Finding
  everything_failed_findings d =
      let ran = keep has_samples d.steps in
      let failed = keep fully_failed ran in
      if eqb (length ran) 0 || eqb (length failed) 0
      then []
      else if eqb (length failed) (length ran) && ltb 1 (length ran)
      then everything_failed (length ran) ∷ []
      else map (λ s. step_fully_failed s.name) failed

  unfoldable pub run_shorter_than_window : Document W → DocumentInput → List Finding
  run_shorter_than_window d input =
      if not (is_closed d) || eqb input.planned_duration 0
      then []
      else if leb (input.planned_duration * applied_tolerance / 100) (d.duration_ms * 1_000_000)
      then []
      else short_run d.duration_ms input.planned_duration ∷ []

  unfoldable pub run_shorter_than_plan : Document W → DocumentInput → List Finding
  run_shorter_than_plan d input =
      let applied = d.sent + d.dropped_by_inflight_limit in
      if eqb input.planned_requests 0
      then run_shorter_than_window d input
      else if leb (input.planned_requests * applied_tolerance / 100) applied
      then []
      else short_run applied input.planned_requests ∷ []

  unfoldable pub invalidating_warnings : Document W → List Finding
  invalidating_warnings d = map of_warning (keep is_high d.warnings)

  unfoldable pub findings_of : Document W → DocumentInput → List Finding
  findings_of d input =
      no_journey_completed d
      ++ declared_step_without_samples d input
      ++ everything_failed_findings d
      ++ run_shorter_than_plan d input
      ++ invalidating_warnings d

  unfoldable pub check_sanity : Document W → DocumentInput → Sanity
  check_sanity d input =
      let findings = findings_of d input in
      record { checked = true; valid = eqb (length findings) 0; findings = findings }
