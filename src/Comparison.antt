-- ===== src/Comparison.antt =====
-- internal/report/comparison/comparison.go: what changed between two runs. The sentences are left
-- out, and so is the identification of the runs; a caveat is a constructor for its sentence.
-- sort.Strings is a parameter.
pub mod Steps
pub mod Blocking
use braunrate.Base.Codes.{Text, codes, text_eq, has_prefix}
use braunrate.Base.{
  length, drop, keep, ℕ, Bool, true, false, not, ◌&&◌, ◌||◌, String, string_eq, ◌==◌, Option, none,
  some, List, [], ◌∷◌, ◌++◌, Map, insert, lookup, keys, eqb, ltb, if◌then◌else◌, any, map,
}
use braunrate.Base.Float.{Float64}
use braunrate.Slo.{
  Direction, direction_worse, direction_better, direction_same, Difference, Baseline,
}
use braunrate.Metrics.Document.{Document, Distribution, StepResult, reported, valid}

-- A `Difference` with the two values; the change and its direction are what the rules read.
pub record MetricChange {ℓ} (W : Type ℓ) : Type ℓ where
  pub before : W
  pub after : W
  pub difference : Difference W

pub record StepDifference {ℓ} (W : Type ℓ) : Type ℓ where
  pub step : String
  pub new : Bool
  pub vanished : Bool
  pub p95 : MetricChange W
  pub p99 : MetricChange W

-- The caveats in the order of their checks; all but the last block the comparison.
pub data Caveat : Type 0 where
  other_scenario other_target other_machine other_plan other_version other_model : Caveat
  invalid_before invalid_after one_token : Caveat

abbrev pub is_blocking : Caveat → Bool
is_blocking c = elim c [ one_token ↦ false | _ ↦ true ]

-- The fields of `Environment`, `Run` and the document that a comparison reads besides the results.
-- `plan` is the text of planSummary.
pub record Setting : Type 0 where
  pub spec : String
  pub target : String
  pub host : String
  pub cores : ℕ
  pub plan : String
  pub version : String
  pub model : String
  pub auth_obtains : ℕ

abbrev pub caveat_if : Bool → Caveat → List Caveat
caveat_if true caveat = caveat ∷ []
caveat_if false caveat = []

module _ {ℓ} {W : Type ℓ} where
  unfoldable pub collect_caveats : Setting → Document W → Setting → Document W → List Caveat
  collect_caveats before old after new =
      caveat_if (not (before.spec == after.spec)) other_scenario
      ++ caveat_if (not (before.target == after.target)) other_target
      ++ caveat_if (not (before.host == after.host) || not (eqb before.cores after.cores))
          other_machine
      ++ caveat_if (not (before.plan == after.plan)) other_plan
      ++ caveat_if (not (before.version == after.version)) other_version
      ++ caveat_if (not (before.model == after.model)) other_model
      ++ caveat_if (not (valid old)) invalid_before
      ++ caveat_if (not (valid new)) invalid_after
      ++ caveat_if (ltb 0 before.auth_obtains || ltb 0 after.auth_obtains) one_token

  -- `table[step.Name] = step`
  unfoldable pub by_name :
      List (StepResult W) → Map String (StepResult W) → Map String (StepResult W)
  by_name [] table = table
  by_name (step ∷ steps) table = by_name steps (insert step.name step table)

-- `names[name] = true` for the keys of a table.
unfoldable pub add_names : List String → Map String Bool → Map String Bool
add_names [] names = names
add_names (name ∷ more) names = add_names more (insert name true names)

-- splitRegressionMetric, for one of its prefixes: `strings.CutPrefix` with a rest that is not empty.
abbrev pub rest_after : Text → Text → Option Text
rest_after prefix metric =
    if has_prefix metric prefix && ltb (length prefix) (length metric)
    then some (drop (length prefix) metric)
    else none

unfoldable pub split_regression_metric : (Text → Text) → Text → Option (Text × Text)
split_regression_metric to_lower metric = elim (rest_after (codes "journey") metric) [
  | some rest ↦ some (codes "journey", to_lower rest)
  | none ↦ elim (rest_after (codes "global") metric) [
    | some rest ↦ some (codes "global", to_lower rest)
    | none ↦ none
  ]
]

abbrev pub is_missing {ℓ} : {A : Type ℓ} → Option A → Bool
is_missing none = true
is_missing (some a) = false

module _ {ℓ} {W : Type ℓ} ⦃f : Float64 W⦄ where
  -- AcceptedNoise is 0.05, and `math.Abs` changes the sign of what is below 0.
  abbrev pub accepted_noise : W
  accepted_noise = f.div (f.of_ℕ 5) (f.of_ℕ 100)

  abbrev pub abs : W → W
  abs x = if f.lt x (f.of_ℕ 0) then f.sub (f.of_ℕ 0) x else x

  abbrev pub direction_of : W → Direction
  direction_of change =
      if f.lt (abs change) accepted_noise
      then direction_same
      else if f.lt (f.of_ℕ 0) change
      then direction_worse
      else direction_better

  unfoldable pub compare_distribution : W → W → MetricChange W
  compare_distribution before after =
      let change = if f.lt (f.of_ℕ 0) before then f.div (f.sub after before) before else f.of_ℕ 0 in
      record {
        before = before;
        after = after;
        difference = record { change = change; direction = direction_of change };
      }

  unfoldable pub compare_percentiles : Distribution W → Distribution W → Map Text (MetricChange W)
  compare_percentiles before after =
      (codes "p50", compare_distribution before.p50 after.p50)
      ∷ (codes "p75", compare_distribution before.p75 after.p75)
      ∷ (codes "p90", compare_distribution before.p90 after.p90)
      ∷ (codes "p95", compare_distribution before.p95 after.p95)
      ∷ (codes "p99", compare_distribution before.p99 after.p99)
      ∷ (codes "p99.9", compare_distribution before.p999 after.p999)
      ∷ (codes "max", compare_distribution before.max after.max)
      ∷ []

  -- A percentile of `Reported()`; a missing step is the zero value.
  abbrev pub percentile_of : (Distribution W → W) → Option (StepResult W) → W
  percentile_of percentile none = f.of_ℕ 0
  percentile_of percentile (some step) = percentile (reported step.latency step.service_latency)

  abbrev pub step_difference :
      String → Option (StepResult W) → Option (StepResult W) → StepDifference W
  step_difference name previous next = record {
    step = name;
    new = is_missing previous;
    vanished = is_missing next;
    p95 =
        compare_distribution (percentile_of (λ d. d.p95) previous)
          (percentile_of (λ d. d.p95) next);
    p99 =
        compare_distribution (percentile_of (λ d. d.p99) previous)
          (percentile_of (λ d. d.p99) next);
  }

  -- The maps of differenceOf.
  abbrev pub percentiles_of : Document W → Document W → Text → Option (Map Text (MetricChange W))
  percentiles_of old new prefix =
      if prefix == codes "journey"
      then some (
          compare_percentiles (reported old.journey.latency old.journey.service_latency)
            (reported new.journey.latency new.journey.service_latency))
      else if prefix == codes "global"
      then some (
          compare_percentiles (reported old.overall.latency old.overall.service_latency)
            (reported new.overall.latency new.overall.service_latency))
      else none

  abbrev pub found_in : Text → Option (Map Text (MetricChange W)) → Option (Difference W)
  found_in percentile none = none
  found_in percentile (some table) = elim (lookup percentile table) [
    | none ↦ none
    | some change ↦ some change.difference
  ]

  module _ (to_lower : Text → Text) (text_of : Caveat → String) where
    unfoldable pub difference_of : Document W → Document W → String → Option (Difference W)
    difference_of old new metric = elim (split_regression_metric to_lower (codes metric)) [
      | none ↦ none
      | some parts ↦ found_in parts.1 (percentiles_of old new parts.0)
    ]

    -- The baseline that the rules get from Compare; its texts are those of blockingCaveats.
    unfoldable pub baseline_of : Setting → Document W → Setting → Document W → Baseline W
    baseline_of before old after new = record {
      difference_of = difference_of old new;
      blocking = map text_of (keep is_blocking (collect_caveats before old after new));
    }

  module _ (sort_strings : List String → List String) where
    unfoldable pub compare_steps :
        List (StepResult W) → List (StepResult W) → List (StepDifference W)
    compare_steps before after =
        let old = by_name before [] in
        let recent = by_name after [] in
        let names = add_names (keys recent) (add_names (keys old) []) in
        map (λ name. step_difference name (lookup name old) (lookup name recent))
          (sort_strings (keys names))
