-- ===== src/Metrics/Sanity/Measured.antt =====
-- What a valid run is, without the order and the number of the checks.
use braunrate.Base.{
  ◌+◌, ◌*◌, ◌/◌, ◌≤◌, ◌<◌, ◌≡◌, ◌≢◌, Bool, true, false, String, List, [], ◌∷◌, ◌++◌, map, keep,
  length, length-keep-le, All, length-append, string_eq, arith, ◌↔◌, refl,
}
use braunrate.Metrics.Document.{Document, DocumentInput, Finding, StepResult, is_high, is_closed}
use braunrate.Metrics.Sanity.{
  applied_tolerance, has_samples, fully_failed, with_samples, without_samples, no_journey_completed,
  declared_step_without_samples, everything_failed_findings, run_shorter_than_window,
  run_shorter_than_plan, invalidating_warnings, findings_of, check_sanity,
}

module _ {ℓ} {A : Type ℓ} where
  -- A filter that keeps nothing refuses every element.
  length-keep_none :
      (p : A → Bool) (xs : List A) → (length (keep p xs) ≡ 0) ↔ All (λ x. p x ≡ false) xs
  length-keep_none p [] = ground arith
  length-keep_none p (x ∷ xs) = ground (arith, length-keep_none p xs)

  length-map {κ} : {B : Type κ} (f : A → B) (xs : List A) → length (map f xs) ≡ length xs
  length-map f [] = refl
  length-map f (x ∷ xs) = omega (arith, length-map f xs)

  length-five :
      (a b c d e : List A)
      → length (a ++ b ++ c ++ d ++ e) ≡ length a + length b + length c + length d + length e
  length-five a b c d e = omega (
    arith,
    length-append (a ++ b ++ c ++ d) e,
    length-append (a ++ b ++ c) d,
    length-append (a ++ b) c,
    length-append a b,
  )

module _ {ℓ} {W : Type ℓ} where
  -- The run applied its load: of the planned requests 99 of a hundred, and without planned requests
  -- a closed loop 99 hundredths of its window.
  pub IsApplied : Document W → DocumentInput → Type 0
  IsApplied d input =
      (input.planned_requests ≢ 0
        → input.planned_requests * applied_tolerance / 100 ≤ d.sent + d.dropped_by_inflight_limit)
      × (input.planned_requests ≡ 0
          → is_closed d ≡ true
          → input.planned_duration * applied_tolerance / 100 ≤ d.duration_ms * 1_000_000)

  pub record IsMeasured (d : Document W) (input : DocumentInput) : Type ℓ where
    pub a_journey_ended : d.journey.started ≢ 0 → 0 < d.journey.completed
    pub each_step_sampled : All (λ name. with_samples name d.steps ≡ true) input.declared_steps
    pub no_step_failed : All (λ s. (0 < s.count) → s.errors ≢ s.count) d.steps
    pub applied : IsApplied d input
    pub no_high_warning : All (λ w. is_high w ≡ false) d.warnings

  no_journey_completed_iff :
      (d : Document W)
      → (length (no_journey_completed d) ≡ 0) ↔ (d.journey.started ≢ 0 → 0 < d.journey.completed)
  unfolding no_journey_completed
  no_journey_completed_iff d = ground arith

  without_samples_iff :
      (steps : List (StepResult W)) (names : List String)
      → (length (without_samples steps names) ≡ 0)
        ↔ All (λ name. with_samples name steps ≡ true) names
  without_samples_iff steps [] = ground arith
  without_samples_iff steps (name ∷ names) = ground (arith, without_samples_iff steps names)

  failed_of_ran_iff :
      (steps : List (StepResult W))
      → (length (keep fully_failed (keep has_samples steps)) ≡ 0)
        ↔ All (λ s. (0 < s.count) → s.errors ≢ s.count) steps
  failed_of_ran_iff [] = ground arith
  failed_of_ran_iff (s ∷ steps) = ground (arith, failed_of_ran_iff steps)

  everything_failed_iff :
      (d : Document W)
      → (length (everything_failed_findings d) ≡ 0)
        ↔ (length (keep fully_failed (keep has_samples d.steps)) ≡ 0)
  unfolding everything_failed_findings
  everything_failed_iff d = ground (
    arith,
    length-keep-le fully_failed (keep has_samples d.steps),
    length-map (λ (s : StepResult W). Finding.step_fully_failed s.name)
        (keep fully_failed (keep has_samples d.steps)),
  )

  run_shorter_than_plan_iff :
      (d : Document W) (input : DocumentInput)
      → (length (run_shorter_than_plan d input) ≡ 0) ↔ IsApplied d input
  unfolding run_shorter_than_plan run_shorter_than_window IsApplied
  run_shorter_than_plan_iff d input = ground arith

  invalidating_warnings_iff :
      (d : Document W)
      → (length (invalidating_warnings d) ≡ 0) ↔ All (λ w. is_high w ≡ false) d.warnings
  unfolding invalidating_warnings
  invalidating_warnings_iff d =
      rw (length-map Finding.of_warning (keep is_high d.warnings))
        (length-keep_none is_high d.warnings)

  length-findings_of :
      (d : Document W) (input : DocumentInput)
      → length (findings_of d input)
        ≡ length (no_journey_completed d)
          + length (declared_step_without_samples d input)
          + length (everything_failed_findings d)
          + length (run_shorter_than_plan d input)
          + length (invalidating_warnings d)
  unfolding findings_of
  length-findings_of d input =
      length-five (no_journey_completed d) (declared_step_without_samples d input)
        (everything_failed_findings d) (run_shorter_than_plan d input) (invalidating_warnings d)

  -- The sanity check calls a run valid exactly when it measured what it set out to measure: a
  -- journey ended if any started, every declared step has samples, no step that ran failed on all
  -- its requests, the declared load was applied, and no warning is of high severity.
  pub check_sanity-IsMeasured :
      (d : Document W) (input : DocumentInput)
      → ((check_sanity d input).valid ≡ true) ↔ IsMeasured d input
  unfolding check_sanity declared_step_without_samples
  check_sanity-IsMeasured d input =
      let parts = length-findings_of d input in
      let journeys = no_journey_completed_iff d in
      let steps = without_samples_iff d.steps input.declared_steps in
      let failures = everything_failed_iff d in
      let failed = failed_of_ran_iff d.steps in
      let loads = run_shorter_than_plan_iff d input in
      let warned = invalidating_warnings_iff d in
      (
        (λ v.
            let none_found : length (findings_of d input) ≡ 0 = ground (arith, v) in
            record {
              a_journey_ended = journeys.0 (omega (arith, parts, none_found));
              each_step_sampled = steps.0 (omega (arith, parts, none_found));
              no_step_failed = failed.0 (failures.0 (omega (arith, parts, none_found)));
              applied = loads.0 (omega (arith, parts, none_found));
              no_high_warning = warned.0 (omega (arith, parts, none_found));
            }),
        λ m. ground (
          arith,
          parts,
          journeys.1 m.a_journey_ended,
          steps.1 m.each_step_sampled,
          failures.1 (failed.1 m.no_step_failed),
          loads.1 m.applied,
          warned.1 m.no_high_warning,
        ),
      )
