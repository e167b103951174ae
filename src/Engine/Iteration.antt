-- ===== src/Engine/Iteration.antt =====
-- internal/engine/executor.go: an iteration, its steps one after another, and a step with its checks
-- and captures. What a step calls outside the executor is a parameter: the compiled-in protocols,
-- the substitution of values, extraction and assertions. A step comes with the two readings of the
-- clock, before the request and after it.
pub mod Start
pub mod Chain
pub mod Reports
use braunrate.Base.{
  ℕ, Bool, true, false, not, ◌&&◌, String, string_eq, ◌==◌, Option, none, some, List, [], ◌∷◌, ◌++◌,
  map, eqb, if◌then◌else◌,
}
use braunrate.Scenario.{Step, Check, check_status, check_body, Capture, Assertion}
use braunrate.Protocol.{
  ErrorClass, success, err_status, err_assertion, err_correlation, err_config, err_auth, Response,
  is_success,
}
use braunrate.Metrics.Aggregate.{Sample, corrected_latency, service_latency}
use braunrate.Metrics.Collector.{Action, offering, ending_journey}

-- What `Extract` answers: a value, or the text of its error.
pub data Extracted : Type 0 where
  value_of error_of : String → Extracted

-- `C` is a protocol's configuration, `V` the values of an iteration.
pub record Services {ℓ κ} (C : Type ℓ) (V : Type κ) : Type (ℓ ⊔ κ) where
  pub protocol_of : String → Option (C → V → Response)
  pub resolve : V → C → C
  pub with_header : String → String → C → C
  pub aggregation_key : Step C → String
  pub contains : List ℕ → String → Bool
  pub explain_check : Check → Response → String
  pub evaluate : Assertion → Response → V → Option String
  pub extract : Capture → Response → Extracted
  pub set : String → String → V → V

abbrev fails_check : (List ℕ → String → Bool) → Check → Response → Option ErrorClass
fails_check contains (check_status status) r = if eqb r.status status then none else some err_status
fails_check contains (check_body text) r = if contains r.body text then none else some err_assertion

-- An end is always set; the zero time stands where it is not.
abbrev pub finish_of : Sample → ℕ
finish_of s = elim s.finished_at [ none ↦ 0 | some t ↦ t ]

-- A sample and what the steps after it leave: a failure ends the iteration.
unfoldable pub joined : Sample → List Sample × ℕ × Bool → List Sample × ℕ × Bool
joined s rest =
    if is_success s.class then (s ∷ rest.0, rest.1, rest.2) else (s ∷ [], finish_of s, false)

module _ {ℓ κ} {C : Type ℓ} {V : Type κ} (services : Services C V) where
  unfoldable pub check_assertions : List Assertion → Response → V → ErrorClass × String
  check_assertions [] r values = (success, "")
  check_assertions (a ∷ assertions) r values = elim (services.evaluate a r values) [
    | none ↦ check_assertions assertions r values
    | some text ↦ (err_assertion, text)
  ]

  -- `check`: the class and the text of the first check that fails, and then of the first assertion.
  unfoldable pub check_all : List Check → List Assertion → Response → V → ErrorClass × String
  check_all [] assertions r values = check_assertions assertions r values
  check_all (c ∷ checks) assertions r values = elim (fails_check services.contains c r) [
    | none ↦ check_all checks assertions r values
    | some class ↦ (class, services.explain_check c r)
  ]

  -- The captures in order, with the error of the required one that failed and stopped them; another
  -- one that fails takes its default.
  unfoldable pub capture_all : List Capture → Response → V → Option String × V
  capture_all [] r values = (none, values)
  capture_all (c ∷ captures) r values = elim (services.extract c r) [
    | value_of value ↦ capture_all captures r (services.set c.variable value values)
    | error_of text ↦
        (if c.required
          then (some text, values)
          else capture_all captures r (services.set c.variable c.default values))
  ]

  abbrev pub config_of : String × String → V → C → C
  config_of header values config =
      let resolved = services.resolve values config in
      if header.0 == "" then resolved else services.with_header header.0 header.1 resolved

  -- The sample before the response is looked at.
  abbrev pub blank_sample : Step C → ℕ → Sample
  blank_sample step scheduled = record {
    latency_kind = none;
    step = step.name;
    key = services.aggregation_key step;
    protocol = step.protocol;
    scheduled_at = scheduled;
    sent_at = none;
    finished_at = none;
    class = success;
    detail = "";
    status = 0;
    bytes = 0;
    messages = 0;
  }

  -- The class and the detail after the checks, and after the captures with the values they leave.
  abbrev pub checked : Step C → Response → V → ErrorClass × String
  checked step r values =
      let found = check_all step.checks step.assertions r values in
      if is_success r.class
      then (if is_success found.0 then (r.class, r.detail) else found)
      else (r.class, r.detail)

  abbrev pub captured : Step C → Response → V → ErrorClass × String → (ErrorClass × String) × V
  captured step r values found =
      let (failure, after) = capture_all step.captures r values in
      if is_success found.0
      then (elim failure [ none ↦ found | some text ↦ (err_correlation, text) ], after)
      else (found, values)

  abbrev pub answered : Step C → ℕ → V → ℕ → ℕ → Response → Sample × V
  answered step scheduled values sent finished r =
      let (found, after) = captured step r values (checked step r values) in
      let blank = blank_sample step scheduled in
      (
        record blank {
          key = if r.key == "" then blank.key else r.key;
          sent_at = some sent;
          finished_at = some finished;
          class = found.0;
          detail = found.1;
          status = r.status;
          bytes = r.bytes;
          messages = r.messages;
        },
        after,
      )

  abbrev pub execute_with :
      Option (C → V → Response)
      → Step C
      → ℕ
      → V
      → String × String
      → (sent finished : ℕ) → Sample × V
  execute_with none step scheduled values header sent finished =
      let blank = blank_sample step scheduled in
      (
        record blank {
          sent_at = some sent;
          finished_at = some sent;
          class = err_config;
          detail = "protocol not compiled into this binary";
        },
        values,
      )
  execute_with (some execute) step scheduled values header sent finished =
      answered step scheduled values sent finished
        (execute (config_of header values step.config) values)

  -- `runStep`
  unfoldable pub run_step : Step C → ℕ → V → String × String → (sent finished : ℕ) → Sample × V
  run_step step scheduled values header sent finished =
      execute_with (services.protocol_of step.protocol) step scheduled values header sent finished

  -- The loop over the steps. Only the first one of an open loop has a scheduled instant of its own;
  -- each other one counts from the end of the one before.
  unfoldable pub run_steps :
      (closed first : Bool)
      → List (Step C × ℕ × ℕ)
      → ℕ
      → V
      → String × String
      → List Sample × ℕ × Bool
  run_steps closed first [] instant values header = ([], instant, true)
  run_steps closed first ((step, sent, finished) ∷ timed) instant values header =
      let (sample, after) = run_step step instant values header sent finished in
      let kind = if first && not closed then corrected_latency else service_latency in
      let recorded = record sample { latency_kind = some kind } in
      joined recorded (run_steps closed false timed (finish_of sample) after header)
