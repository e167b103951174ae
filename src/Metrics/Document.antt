-- ===== src/Metrics/Document.antt =====
-- internal/metrics/result.go, internal/metrics/verdict.go and internal/metrics/aggregate.go: the
-- document of a run, as far as its sanity check and its verdict read it. Counts are not negative.
-- The sentences that are printed for the reader are not modelled: a finding or a missing criterion
-- is a constructor with the values that its sentence names.
use braunrate.Base.{
  ℕ, Bool, true, false, ◌&&◌, not, String, string_eq, ◌==◌, List, map, any, Map, if◌then◌else◌, eqb,
}
use braunrate.Base.Float.{Float64}
use braunrate.Protocol.{ErrorClass}

pub record Distribution {ℓ} (W : Type ℓ) : Type ℓ where
  pub samples : ℕ
  pub p50 : W
  pub p75 : W
  pub p90 : W
  pub p95 : W
  pub p99 : W
  pub p999 : W
  pub max : W
  pub minimum : W
  pub mean : W
  pub histogram : String

pub data Severity : Type 0 where
  severity_high severity_medium severity_low severity_other : Severity

pub record Warning : Type 0 where
  pub kind : String
  pub severity : Severity
  pub message : String
  pub evidence : String

pub data Finding : Type 0 where
  incomplete_journey : ℕ → Finding
  step_without_sample : String → Finding
  everything_failed : ℕ → Finding
  step_fully_failed : String → Finding
  short_run : ℕ → ℕ → Finding
  of_warning : Warning → Finding

pub record Sanity : Type 0 where
  pub checked : Bool
  pub valid : Bool
  pub findings : List Finding

pub record Journey {ℓ} (W : Type ℓ) : Type ℓ where
  pub started : ℕ
  pub completed : ℕ
  pub latency : Distribution W
  pub service_latency : Distribution W

pub record StepResult {ℓ} (W : Type ℓ) : Type ℓ where
  pub name : String
  pub key : String
  pub protocol : String
  pub count : ℕ
  pub successes : ℕ
  pub errors : ℕ
  pub bytes : ℕ
  pub messages : ℕ
  pub errors_by_class : Map ErrorClass ℕ
  pub latency : Distribution W
  pub service_latency : Distribution W
  pub declared_share : W

pub record OverallResult {ℓ} (W : Type ℓ) : Type ℓ where
  pub count : ℕ
  pub successes : ℕ
  pub errors : ℕ
  pub error_rate : W
  pub effective_rate : W
  pub latency : Distribution W
  pub service_latency : Distribution W

pub record Evaluation {ℓ} (W : Type ℓ) : Type ℓ where
  pub step : String
  pub metric : String
  pub rule : String
  pub obtained : W
  pub limit : W
  pub unit : String
  pub passed : Bool
  pub no_data : Bool
  pub untrustworthy : Bool

pub data MissingCriterion : Type 0 where
  no_criterion no_journey_criterion no_overall_criterion : MissingCriterion
  steps_without_criterion : List String → MissingCriterion
  no_regression_criterion no_baseline_passed : MissingCriterion

pub record Verdict {ℓ} (W : Type ℓ) : Type ℓ where
  pub passed : Bool
  pub evaluations : List (Evaluation W)
  pub undeclared : List MissingCriterion

-- `sent` and `dropped_by_inflight_limit` are of the `Scheduling`, `model` and `duration_ms` of the
-- `Run`.
pub record Document {ℓ} (W : Type ℓ) : Type ℓ where
  pub model : String
  pub duration_ms : ℕ
  pub sent : ℕ
  pub dropped_by_inflight_limit : ℕ
  pub journey : Journey W
  pub steps : List (StepResult W)
  pub overall : OverallResult W
  pub sanity : Sanity
  pub slo : Verdict W
  pub warnings : List Warning

-- What the sanity check reads of the input of `BuildDocument`. The duration is in nanoseconds.
pub record DocumentInput : Type 0 where
  pub declared_steps : List String
  pub planned_duration : ℕ
  pub planned_requests : ℕ

abbrev pub closed_model : String
closed_model = "closed"

abbrev pub is_high : Warning → Bool
is_high w = elim w.severity [ severity_high ↦ true | _ ↦ false ]

-- `Valid`: older documents have no sanity block.
unfoldable pub valid {ℓ} : {W : Type ℓ} → Document W → Bool
valid d = if d.sanity.checked then d.sanity.valid else not (any is_high d.warnings)

unfoldable pub is_closed {ℓ} : {W : Type ℓ} → Document W → Bool
is_closed d = d.model == closed_model

module _ {ℓ} {W : Type ℓ} ⦃f : Float64 W⦄ where
  abbrev pub no_distribution : Distribution W
  no_distribution = record {
    samples = 0;
    p50 = f.of_ℕ 0;
    p75 = f.of_ℕ 0;
    p90 = f.of_ℕ 0;
    p95 = f.of_ℕ 0;
    p99 = f.of_ℕ 0;
    p999 = f.of_ℕ 0;
    max = f.of_ℕ 0;
    minimum = f.of_ℕ 0;
    mean = f.of_ℕ 0;
    histogram = "";
  }

  -- The comparison with the zero value of the type.
  unfoldable pub is_absent : Distribution W → Bool
  is_absent d =
      let zero_value = λ (w : W). f.eq w (f.of_ℕ 0) in
      eqb d.samples 0
      && zero_value d.p50
      && zero_value d.p75
      && zero_value d.p90
      && zero_value d.p95
      && zero_value d.p99
      && zero_value d.p999
      && zero_value d.max
      && zero_value d.minimum
      && zero_value d.mean
      && d.histogram == ""

  -- `Reported` of a journey, of a step and of the whole: the corrected latency where it is present.
  unfoldable pub reported : Distribution W → Distribution W → Distribution W
  reported latency service_latency = if is_absent latency then service_latency else latency

  abbrev pub without_corrected : StepResult W → StepResult W
  without_corrected s = record s { latency = no_distribution }

  unfoldable pub drop_corrected_latency : Document W → Document W
  drop_corrected_latency d =
      let overall = d.overall in
      let journey = d.journey in
      record d {
        overall = record overall { latency = no_distribution };
        journey = record journey { service_latency = journey.latency; latency = no_distribution };
        steps = map without_corrected d.steps;
      }
