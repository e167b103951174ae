-- ===== src/GateExamples.antt =====
-- The theorems on sanity, verdicts and runs at concrete inputs: a document of a short run and its
-- rules. Whole numbers stand for the floats.
use braunrate.Base.{ℕ, ◌≡◌, ◌↔◌, refl, true, false, String, none, [], ◌∷◌, arith, lookup}
use braunrate.Base.Float.{whole_float}
use braunrate.Scenario.{SloRule, SloScope, scope_step, op_less}
use braunrate.Metrics.Document.{
  Document, DocumentInput, Distribution, StepResult, drop_corrected_latency, closed_model,
}
use braunrate.Metrics.Sanity.{check_sanity}
use braunrate.Metrics.Sanity.Measured.{IsMeasured, check_sanity-IsMeasured}
use braunrate.Slo.{Difference, direction_worse, is_latency_metric, index_steps, evaluate_rule}
use braunrate.Slo.Passing.{IsLastNamed, PassesOn, evaluate_rule-PassesOn}
use braunrate.Slo.Gate.{evaluate_rule_closed}
use braunrate.Runner.{judge, exit_passed, exit_slo, exit_invalid}
use braunrate.Runner.Verdicts.{PassesAll, judge_exit}

abbrev pub measured_at : ℕ → Distribution ℕ
measured_at ms = record {
  samples = 100;
  p50 = ms;
  p75 = ms;
  p90 = ms;
  p95 = ms;
  p99 = ms;
  p999 = ms;
  max = ms;
  minimum = ms;
  mean = ms;
  histogram = "";
}

abbrev pub login : StepResult ℕ
login = record {
  name = "login";
  key = "login";
  protocol = "http";
  count = 100;
  successes = 98;
  errors = 2;
  bytes = 0;
  messages = 0;
  errors_by_class = [];
  latency = measured_at 120;
  service_latency = measured_at 90;
  declared_share = 0;
}

abbrev pub short_document : Document ℕ
short_document = record {
  model = closed_model;
  duration_ms = 10_000;
  sent = 100;
  dropped_by_inflight_limit = 0;
  journey = record {
    started = 100;
    completed = 98;
    latency = measured_at 130;
    service_latency = measured_at 100;
  };
  steps = login ∷ [];
  overall = record {
    count = 100;
    successes = 98;
    errors = 2;
    error_rate = 0;
    effective_rate = 10;
    latency = measured_at 120;
    service_latency = measured_at 90;
  };
  sanity = record { checked = false; valid = false; findings = [] };
  slo = record { passed = false; evaluations = []; undeclared = [] };
  warnings = [];
}

abbrev planned : DocumentInput
planned = record {
  declared_steps = "login" ∷ [];
  planned_duration = 10_000_000_000;
  planned_requests = 101;
}

abbrev rule_on : SloScope → String → SloRule ℕ
rule_on scope metric = record {
  scope = scope;
  step = "login";
  metric = metric;
  operator = op_less;
  limit = 200;
  unit = "ms";
  text = "";
}

abbrev login_rule : SloRule ℕ
login_rule = rule_on scope_step "p95"

check_sanity-IsMeasured_example :
    ((check_sanity short_document planned).valid ≡ true) ↔ IsMeasured short_document planned
check_sanity-IsMeasured_example = check_sanity-IsMeasured short_document planned

judge_exit_example :
    let rules = login_rule ∷ [] in
    let checked = record short_document { sanity = check_sanity short_document planned } in
    let result = judge rules none checked in
    ((result.1 ≡ exit_passed) ↔ (IsMeasured short_document planned × PassesAll rules none checked))
    × ((result.1 ≡ exit_slo)
        ↔ (IsMeasured short_document planned × (PassesAll rules none checked → ⊥)))
    × ((result.1 ≡ exit_invalid) ↔ (IsMeasured short_document planned → ⊥))
    × ((IsMeasured short_document planned → ⊥) → result.0 ≡ checked)
judge_exit_example = judge_exit (login_rule ∷ []) none short_document planned

login_rule_named : is_latency_metric "p95" ≡ true
unfolding is_latency_metric
login_rule_named = refl

login_rule-PassesOn : PassesOn login_rule login
unfolding lookup
login_rule-PassesOn = (omega arith, login.latency.p95, refl, refl)

evaluate_rule-PassesOn_example :
    ((evaluate_rule login_rule short_document (index_steps short_document.steps []) none).passed
      ≡ true)
    ↔ ((s : StepResult ℕ) × IsLastNamed "login" short_document.steps s × PassesOn login_rule s)
evaluate_rule-PassesOn_example =
    evaluate_rule-PassesOn login_rule short_document none refl login_rule_named

abbrev worse : Difference ℕ
worse = record { change = 3; direction = direction_worse }

evaluate_rule_closed_example :
    let closed = drop_corrected_latency short_document in
    (evaluate_rule login_rule closed (index_steps closed.steps []) none).obtained ≡ 0
evaluate_rule_closed_example =
    evaluate_rule_closed login_rule short_document none refl login_rule_named
