-- ===== src/Slo.antt =====
-- internal/slo/slo.go: the rules of a scenario read against the document of a run, and what of the
-- run no rule covers. The comparison with an earlier run (internal/report/comparison) is given by
-- what the rules read of it. The code subtracts counts of int64; here a step has at most as many
-- errors as requests, or its difference is 0, which the refusal below reads the same way.
pub mod Gate
pub mod Passing
use braunrate.Base.{
  ℕ, ◌-◌, ◌*◌, Bool, true, false, not, ◌&&◌, ◌||◌, String, string_eq, ◌==◌, Option, none, some,
  List, [], ◌∷◌, ◌++◌, map, any, all, keep, length, Map, lookup, insert, ltb, leb, eqb,
  if◌then◌else◌,
}
use braunrate.Base.Float.{Float64}
use braunrate.Scenario.{
  SloRule, SloScope, scope_step, scope_overall, scope_journey, scope_regression, Operator, op_less,
  op_less_or_equal, op_greater, op_greater_or_equal, op_not_equal,
}
use braunrate.Metrics.Document.{
  Document, Distribution, StepResult, Evaluation, Verdict, MissingCriterion, no_criterion,
  no_journey_criterion, no_overall_criterion, steps_without_criterion, no_regression_criterion,
  no_baseline_passed, reported,
}

pub data Direction : Type 0 where
  direction_worse direction_better direction_same : Direction

pub record Difference {ℓ} (W : Type ℓ) : Type ℓ where
  pub change : W
  pub direction : Direction

-- `difference_of` is `differenceOf` over the comparison's maps; `blocking` its blocking caveats.
pub record Baseline {ℓ} (W : Type ℓ) : Type ℓ where
  pub difference_of : String → Option (Difference W)
  pub blocking : List String

-- What a rule reads of the document: `sampled` and `worked` weigh the sample of a percentile.
pub record Reading {ℓ} (W : Type ℓ) : Type ℓ where
  pub distribution : Distribution W
  pub count : ℕ
  pub errors : ℕ
  pub successes : ℕ
  pub sampled : ℕ
  pub worked : ℕ

abbrev pub latency_metrics : List String
latency_metrics = "p50" ∷ "p75" ∷ "p90" ∷ "p95" ∷ "p99" ∷ "p99.9" ∷ "max" ∷ []

unfoldable pub is_latency_metric : String → Bool
is_latency_metric metric = any (λ m. metric == m) latency_metrics

abbrev pub is_scope : SloScope → SloScope → Bool
is_scope scope_step scope_step = true
is_scope scope_overall scope_overall = true
is_scope scope_journey scope_journey = true
is_scope scope_regression scope_regression = true
is_scope _ _ = false

abbrev pub one_if : Bool → MissingCriterion → List MissingCriterion
one_if missing criterion = if missing then criterion ∷ [] else []

module _ {ℓ} {W : Type ℓ} where
  unfoldable pub target_name : SloRule W → String
  target_name rule = elim rule.scope [
    | scope_overall ↦ "global"
    | scope_journey ↦ "journey"
    | scope_regression ↦ "regression"
    | scope_step ↦ rule.step
  ]

  -- `byStep`: of two steps of one name the last one stands.
  unfoldable pub index_steps :
      List (StepResult W) → Map String (StepResult W) → Map String (StepResult W)
  index_steps [] by_step = by_step
  index_steps (s ∷ steps) by_step = index_steps steps (insert s.name s by_step)

  -- `refuseLatencyOverFailures`: most of the sample failed.
  unfoldable pub refuses_latency : SloRule W → Reading W → Bool
  refuses_latency rule r =
      is_latency_metric rule.metric && not (eqb r.sampled 0) && ltb (r.worked * 2) r.sampled

module _ {ℓ} {W : Type ℓ} ⦃f : Float64 W⦄ where
  unfoldable pub compare : W → Operator → W → Bool
  compare obtained operator limit = elim operator [
    | op_less ↦ f.lt obtained limit
    | op_less_or_equal ↦ f.le obtained limit
    | op_greater ↦ f.lt limit obtained
    | op_greater_or_equal ↦ f.le limit obtained
    | op_not_equal ↦ not (f.eq obtained limit)
    | _ ↦ f.eq obtained limit
  ]

  unfoldable pub reading_of :
      SloRule W → Document W → Map String (StepResult W) → Option (Reading W)
  reading_of rule d by_step = elim rule.scope [
    | scope_overall ↦ some (record {
      distribution = reported d.overall.latency d.overall.service_latency;
      count = d.overall.count;
      errors = d.overall.errors;
      successes = d.overall.successes;
      sampled = d.overall.count;
      worked = d.overall.count - d.overall.errors;
    })
    | scope_journey ↦ some (record {
      distribution = reported d.journey.latency d.journey.service_latency;
      count = d.journey.completed;
      errors = 0;
      successes = 0;
      sampled = d.journey.started;
      worked = d.journey.completed;
    })
    | _ ↦ elim (lookup rule.step by_step) [
      | none ↦ none
      | some s ↦ some (record {
        distribution = s.latency;
        count = s.count;
        errors = s.errors;
        successes = s.successes;
        sampled = s.count;
        worked = s.count - s.errors;
      })
    ]
  ]

  abbrev pub percentage : ℕ → ℕ → W
  percentage part whole =
      if ltb 0 whole then f.mul (f.div (f.of_ℕ part) (f.of_ℕ whole)) (f.of_ℕ 100) else f.of_ℕ 0

  -- The switch on the metric; of a metric that it does not name it obtains 0.
  unfoldable pub obtained_of : String → W → Reading W → W
  obtained_of metric effective_rate r =
      if metric == "p50"
      then r.distribution.p50
      else if metric == "p75"
      then r.distribution.p75
      else if metric == "p90"
      then r.distribution.p90
      else if metric == "p95"
      then r.distribution.p95
      else if metric == "p99"
      then r.distribution.p99
      else if metric == "p99.9"
      then r.distribution.p999
      else if metric == "max"
      then r.distribution.max
      else if metric == "errors"
      then percentage r.errors r.count
      else if metric == "success"
      then percentage r.successes r.count
      else if metric == "throughput"
      then effective_rate
      else f.of_ℕ 0

  -- The evaluation before the rule is read.
  unfoldable pub blank_evaluation : SloRule W → Evaluation W
  blank_evaluation rule = record {
    step = target_name rule;
    metric = rule.metric;
    rule = rule.text;
    obtained = f.of_ℕ 0;
    limit = rule.limit;
    unit = rule.unit;
    passed = false;
    no_data = false;
    untrustworthy = false;
  }

  abbrev pub without_data : Bool → SloRule W → Evaluation W
  without_data passed rule =
      let e = blank_evaluation rule in record e { no_data = true; passed = passed }

  unfoldable pub judge_reading : SloRule W → W → Option (Reading W) → Evaluation W
  judge_reading rule effective_rate none = without_data false rule
  judge_reading rule effective_rate (some r) =
      let obtained = obtained_of rule.metric effective_rate r in
      let e = blank_evaluation rule in
      if refuses_latency rule r
      then without_data false rule
      else record e { obtained = obtained; passed = compare obtained rule.operator rule.limit }

  unfoldable pub worse_percentage : Difference W → W
  worse_percentage d = elim d.direction [
    | direction_worse ↦ f.mul d.change (f.of_ℕ 100)
    | _ ↦ f.of_ℕ 0
  ]

  abbrev pub is_same : Difference W → Bool
  is_same d = elim d.direction [ direction_same ↦ true | _ ↦ false ]

  abbrev pub judge_difference : SloRule W → List String → Option (Difference W) → Evaluation W
  judge_difference rule blocking none = without_data true rule
  judge_difference rule blocking (some d) =
      let obtained = worse_percentage d in
      let e = blank_evaluation rule in
      if ltb 0 (length blocking)
      then record e { obtained = obtained; untrustworthy = true; passed = true }
      else record e {
        obtained = obtained;
        passed = is_same d || compare obtained rule.operator rule.limit;
      }

  unfoldable pub evaluate_regression : SloRule W → Option (Baseline W) → Evaluation W
  evaluate_regression rule baseline = elim baseline [
    | none ↦ without_data true rule
    | some b ↦ judge_difference rule b.blocking (b.difference_of rule.metric)
  ]

  unfoldable pub evaluate_rule :
      SloRule W → Document W → Map String (StepResult W) → Option (Baseline W) → Evaluation W
  evaluate_rule rule d by_step baseline = elim rule.scope [
    | scope_regression ↦ evaluate_regression rule baseline
    | _ ↦ judge_reading rule d.overall.effective_rate (reading_of rule d by_step)
  ]

  -- `declared` and `declaredStep`
  unfoldable pub declares : SloScope → List (SloRule W) → Bool
  declares scope rules = any (λ rule. is_scope scope rule.scope) rules

  unfoldable pub declares_step : String → List (SloRule W) → Bool
  declares_step name rules = any (λ rule. is_scope scope_step rule.scope && rule.step == name) rules

  unfoldable pub steps_without_rule : List (StepResult W) → List (SloRule W) → List String
  steps_without_rule steps rules =
      map (λ s. s.name) (keep (λ s. not (declares_step s.name rules)) steps)

  abbrev pub regression_missing : Bool → Option (Baseline W) → List MissingCriterion
  regression_missing false baseline = no_regression_criterion ∷ []
  regression_missing true none = no_baseline_passed ∷ []
  regression_missing true (some b) = []

  unfoldable pub undeclared :
      List (SloRule W) → Document W → Option (Baseline W) → List MissingCriterion
  undeclared [] d baseline = no_criterion ∷ []
  undeclared (rule ∷ others) d baseline =
      let rules = rule ∷ others in
      let without = steps_without_rule d.steps rules in
      one_if
        (not (declares scope_journey rules) && ltb 0 d.journey.started && ltb 1 (length d.steps))
        no_journey_criterion
      ++ one_if (not (declares scope_overall rules)) no_overall_criterion
      ++ one_if (ltb 0 (length without)) (steps_without_criterion without)
      ++ regression_missing (declares scope_regression rules) baseline

  unfoldable pub evaluate : List (SloRule W) → Document W → Option (Baseline W) → Verdict W
  evaluate rules d baseline =
      let by_step = index_steps d.steps [] in
      let evaluations = map (λ rule. evaluate_rule rule d by_step baseline) rules in
      record {
        passed = all (λ e. e.passed) evaluations;
        evaluations = evaluations;
        undeclared = undeclared rules d baseline;
      }
