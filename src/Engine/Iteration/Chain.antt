-- ===== src/Engine/Iteration/Chain.antt =====
-- How the samples of an iteration hang together.
use braunrate.Base.{
  All, ◌⊎◌, none, Option, some, ℕ, suc, ◌≤◌, ◌≡◌, ◌↔◌, refl, Bool, true, false, String, List, [],
  ◌∷◌, length, all, arith, Bool-cases, Option-cases, inl, inr,
}
use braunrate.Scenario.{Check, check_status, check_body, Capture, Assertion, Step}
use braunrate.Protocol.{ErrorClass, Response, is_success}
use braunrate.Metrics.Aggregate.{Sample}
use braunrate.Engine.Iteration.{
  Extracted, value_of, error_of, fails_check, check_assertions, execute_with, capture_all,
  check_all, config_of, answered, Response, Services, run_step, run_steps, finish_of, joined,
}

-- Each sample is scheduled where the one before ended, and the last ends at the last instant.
abbrev pub Chained : ℕ → List Sample → ℕ → Type 0
Chained instant [] last = last ≡ instant
Chained instant (s ∷ samples) last = (s.scheduled_at ≡ instant) × Chained (finish_of s) samples last

abbrev pub all_succeeded : List Sample → Bool
all_succeeded samples = all (λ s. is_success s.class) samples

-- Only the last sample can be a failure.
abbrev pub StopsAtFailure : List Sample → Type 0
StopsAtFailure [] = Unit
StopsAtFailure (s ∷ samples) =
    ((is_success s.class ≡ true) ⊎ (samples ≡ [])) × StopsAtFailure samples

-- Of at most n steps, the samples form a chain that ends at its first failure, and it is complete
-- if all succeeded, which are n then.
abbrev pub IsIteration : ℕ → ℕ → List Sample × ℕ × Bool → Type 0
IsIteration n instant ran =
    Chained instant ran.0 ran.1
    × ((ran.2 ≡ true) ↔ ((all_succeeded ran.0 ≡ true) × (length ran.0 ≡ n)))
    × (length ran.0 ≤ n)
    × ((ran.2 ≡ true) ↔ (all_succeeded ran.0 ≡ true))
    × StopsAtFailure ran.0

joined-IsIteration :
    (n instant : ℕ) (s : Sample) (rest : List Sample × ℕ × Bool)
    → s.scheduled_at ≡ instant
    → IsIteration n (finish_of s) rest
    → IsIteration (suc n) instant (joined s rest)
unfolding joined
joined-IsIteration n instant s rest starts (chain, complete, fits, succeeded, stops) =
    elim (Bool-cases (is_success s.class)) [
      | inl p ↦
          rw (p, joined)
            (
              (starts, chain),
              ground (arith, p, complete),
              omega (arith, fits),
              ground (arith, p, succeeded),
              (inl p, stops),
            )
      | inr p ↦
          rw (p, joined)
            ((starts, refl), ground (arith, p), omega arith, ground (arith, p), (inr refl, tt))
    ]

Extracted-cases :
    (e : Extracted)
    → ((value : String) × (e ≡ value_of value)) ⊎ ((text : String) × (e ≡ error_of text))
Extracted-cases (value_of value) = inl (value, refl)
Extracted-cases (error_of text) = inr (text, refl)

module _ {ℓ κ} {C : Type ℓ} {V : Type κ} (services : Services C V) where
  scheduled_at-run_step :
      (step : Step C) (instant : ℕ) (values : V) (header : String × String) (sent finished : ℕ)
      → (run_step services step instant values header sent finished).0.scheduled_at ≡ instant
  unfolding run_step
  scheduled_at-run_step step instant values header sent finished =
      elim (Option-cases (services.protocol_of step.protocol)) [
        | inl p ↦ ground (arith, p)
        | inr q ↦ (let (execute, p) = q in ground (arith, p))
      ]

  -- The samples of an iteration form a chain from its instant to its last end, at most one for each
  -- step, and every sample but the last one succeeded. It is complete exactly when there is a
  -- successful sample of every step, which is exactly when no sample failed: an iteration that is
  -- not complete ends at its first sample that failed.
  pub run_steps-IsIteration :
      (closed first : Bool) (timed : List (Step C × ℕ × ℕ)) (instant : ℕ) (values : V)
      (header : String × String)
      → IsIteration
          (length timed)
          instant
          (run_steps services closed first timed instant values header)
  unfolding run_steps
  run_steps-IsIteration closed first [] instant values header =
      (refl, ground arith, omega arith, ground arith, tt)
  run_steps-IsIteration closed first ((step, sent, finished) ∷ timed) instant values header =
      let ran = run_step services step instant values header sent finished in
      let starts = scheduled_at-run_step step instant values header sent finished in
      joined-IsIteration (length timed) instant _ _ starts
        (run_steps-IsIteration closed false timed (finish_of ran.0) ran.1 header)

  answered-Succeeds :
      (step : Step C) (instant : ℕ) (values : V) (sent finished : ℕ) (r : Response)
      → (is_success (answered services step instant values sent finished r).0.class ≡ true) ↔ (
          (is_success r.class ≡ true)
          × (is_success (check_all services step.checks step.assertions r values).0 ≡ true)
          × ((capture_all services step.captures r values).0 ≡ none))
  answered-Succeeds step instant values sent finished r =
      elim (Option-cases (capture_all services step.captures r values).0) [
        | inl p ↦ ground (arith, p)
        | inr q ↦ (let (text, p) = q in ground (arith, p))
      ]

  abbrev pub CheckHolds : Check → Response → Type 0
  CheckHolds (check_status status) r = r.status ≡ status
  CheckHolds (check_body text) r = services.contains r.body text ≡ true

  -- Its value is found, or it can do without.
  abbrev pub IsCaptured : Response → Capture → Type 0
  IsCaptured r c =
      (c.required ≡ false) ⊎ ((value : String) × (services.extract c r ≡ value_of value))

  check_assertions-All :
      (assertions : List Assertion) (r : Response) (values : V)
      → (is_success (check_assertions services assertions r values).0 ≡ true)
        ↔ All (λ a. services.evaluate a r values ≡ none) assertions
  unfolding check_assertions
  check_assertions-All [] r values = ground arith
  check_assertions-All (a ∷ assertions) r values =
      let rest = check_assertions-All assertions r values in
      elim (Option-cases (services.evaluate a r values)) [
        | inl p ↦ ground (arith, p, rest)
        | inr q ↦ (let (text, p) = q in ground (arith, p))
      ]

  fails_check-CheckHolds :
      (c : Check) (r : Response)
      → ((fails_check services.contains c r ≡ none) × CheckHolds c r)
        ⊎ ((class : ErrorClass) × (fails_check services.contains c r ≡ some class)
            × (is_success class ≡ false)
            × ¬ CheckHolds c r)
  fails_check-CheckHolds (check_status status) r = ground arith
  fails_check-CheckHolds (check_body text) r = ground arith

  check_all-All :
      (checks : List Check) (assertions : List Assertion) (r : Response) (values : V)
      → (is_success (check_all services checks assertions r values).0 ≡ true) ↔ (
          All (λ c. CheckHolds c r) checks
          × All (λ a. services.evaluate a r values ≡ none) assertions)
  unfolding check_all
  check_all-All [] assertions r values = ground (arith, check_assertions-All assertions r values)
  check_all-All (c ∷ checks) assertions r values =
      let rest = check_all-All checks assertions r values in
      elim (fails_check-CheckHolds c r) [
        | inl (p, holds) ↦ ground (arith, p, holds, rest)
        | inr (class, p, failed, broken) ↦ ground (arith, p, failed, broken)
      ]

  not-IsCaptured :
      (r : Response) (c : Capture) (text : String)
      → services.extract c r ≡ error_of text
      → c.required ≡ true
      → ¬ IsCaptured r c
  not-IsCaptured r c text p e (inl optional) = ground (arith, e, optional)
  not-IsCaptured r c text p e (inr (value, found)) = ground (arith, p, found)

  capture_all-All :
      (captures : List Capture) (r : Response) (values : V)
      → ((capture_all services captures r values).0 ≡ none) ↔ All (IsCaptured r) captures
  unfolding capture_all
  capture_all-All [] r values = ground arith
  capture_all-All (c ∷ captures) r values = elim (Extracted-cases (services.extract c r)) [
    | inl (value, p) ↦
        (let rest = capture_all-All captures r (services.set c.variable value values) in
          let found : IsCaptured r c = inr (value, p) in ground (arith, p, found, rest))
    | inr (text, p) ↦
        (let rest = capture_all-All captures r (services.set c.variable c.default values) in
          elim (Bool-cases c.required) [
            | inl e ↦
                (let found =
                    (λ (captured : IsCaptured r c). not-IsCaptured r c text p e captured) in
                  ground (arith, p, e, found))
            | inr e ↦ let optional : IsCaptured r c = inl e in ground (arith, p, e, optional, rest)
          ])
  ]

  -- A protocol that is there answers with a success, every check and every assertion holds of what
  -- it answers, and every required capture finds its value there.
  pub Succeeds : Option (C → V → Response) → Step C → V → String × String → Type 0
  Succeeds none step values header = ⊥
  Succeeds (some execute) step values header =
      let r = execute (config_of services header values step.config) values in
      (is_success r.class ≡ true)
      × All (λ c. CheckHolds c r) step.checks
      × All (λ a. services.evaluate a r values ≡ none) step.assertions
      × All (IsCaptured r) step.captures

  execute_with-Succeeds :
      (o : Option (C → V → Response)) (step : Step C) (instant : ℕ) (values : V)
      (header : String × String) (sent finished : ℕ)
      → (is_success (execute_with services o step instant values header sent finished).0.class
          ≡ true)
        ↔ Succeeds o step values header
  unfolding Succeeds
  execute_with-Succeeds none step instant values header sent finished = ground arith
  execute_with-Succeeds (some execute) step instant values header sent finished =
      let r = execute (config_of services header values step.config) values in
      let whole = answered-Succeeds step instant values sent finished r in
      let tests = check_all-All step.checks step.assertions r values in
      let captures = capture_all-All step.captures r values in
      (
        λ s.
            let (answer, passed, found) = whole.0 s in
            (answer, (tests.0 passed).0, (tests.0 passed).1, captures.0 found),
        λ s.
            let (answer, checks, assertions, found) = s in
            whole.1 (answer, tests.1 (checks, assertions), captures.1 found),
      )

  -- A step succeeds exactly when its protocol is compiled in, the answer is a success and has the
  -- status or the text of every check, every assertion evaluates to no error, and extraction finds a
  -- value in the answer for every required capture.
  pub run_step-Succeeds :
      (step : Step C) (instant : ℕ) (values : V) (header : String × String) (sent finished : ℕ)
      → (is_success (run_step services step instant values header sent finished).0.class ≡ true)
        ↔ Succeeds (services.protocol_of step.protocol) step values header
  unfolding run_step
  run_step-Succeeds step instant values header sent finished =
      execute_with-Succeeds (services.protocol_of step.protocol) step instant values header sent
        finished
