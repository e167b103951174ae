-- ===== src/Metrics/Building.antt =====
-- BuildDocument of internal/metrics/result.go: the document of a run from its collector, as far as
-- Metrics/Document has it. SortKeys, with the aggregate of each key, is a parameter; so are the
-- warnings that evaluateWarnings finds. Seconds and milliseconds are those of the run's window.
pub mod Sums
use braunrate.Base.{
  ℕ, Bool, true, false, String, string_eq, Option, none, some, List, [], ◌∷◌, ◌++◌, Map, map,
  lookup, if◌then◌else◌, ltb,
}
use braunrate.Base.Float.{Float64}
use braunrate.Metrics.{Hdr}
use braunrate.Metrics.Aggregate.{Aggregate, new_aggregate, add, errors}
use braunrate.Metrics.Collector.{Collector}
use braunrate.Metrics.Distributions.{Codec, distribution_of}
use braunrate.Metrics.Document.{
  Document, DocumentInput, StepResult, OverallResult, Journey, Warning, is_closed, no_distribution,
  drop_corrected_latency,
}
use braunrate.Metrics.Merging.{convert_step}
use braunrate.Metrics.Sanity.{check_sanity}

-- What BuildDocument reads of its input besides what the sanity check does.
pub record BuildInput {ℓ} (W : Type ℓ) : Type ℓ where
  pub checked : DocumentInput
  pub model : String
  pub duration_ms : ℕ
  pub duration : W
  pub declared_shares : Map String W
  pub scenario_warnings : List Warning

module _ {ℓ κ} {H : Type ℓ} {W : Type κ} ⦃h : Hdr H⦄ ⦃f : Float64 W⦄ (codec : Codec W H) where
  unfoldable pub add_all : Map String (Aggregate H) → Aggregate H → Aggregate H
  add_all [] overall = overall
  add_all ((key, a) ∷ aggregates) overall = add_all aggregates (add overall a)

  abbrev share_of : String → Map String W → W
  share_of key shares = elim (lookup key shares) [ none ↦ f.of_ℕ 0 | some share ↦ share ]

  unfoldable pub step_results : Map String W → Map String (Aggregate H) → List (StepResult W)
  step_results shares [] = []
  step_results shares ((key, a) ∷ aggregates) =
      (convert_step codec a (share_of a.key shares)).result ∷ step_results shares aggregates

  abbrev pub overall_result : W → Aggregate H → OverallResult W
  overall_result duration overall = record {
    count = overall.count;
    successes = overall.successes;
    errors = errors overall;
    error_rate =
        if ltb 0 overall.count
        then f.div (f.of_ℕ (errors overall)) (f.of_ℕ overall.count)
        else f.of_ℕ 0;
    effective_rate =
        if f.lt (f.of_ℕ 0) duration then f.div (f.of_ℕ overall.count) duration else f.of_ℕ 0;
    latency = distribution_of codec overall.corrected;
    service_latency = distribution_of codec overall.service;
  }

  -- The document before its warnings and its sanity check.
  abbrev pub counted_document : Map String (Aggregate H) → Collector H W → BuildInput W → Document W
  counted_document ordered c input = record {
    model = input.model;
    duration_ms = input.duration_ms;
    sent = c.sent;
    dropped_by_inflight_limit = c.dropped_by_inflight_limit;
    journey = record {
      started = c.journeys_started;
      completed = c.journeys_completed;
      latency = distribution_of codec c.journeys;
      service_latency = no_distribution;
    };
    steps = step_results input.declared_shares ordered;
    overall = overall_result input.duration (add_all ordered (new_aggregate "global" "global" ""));
    sanity = record { checked = false; valid = false; findings = [] };
    slo = record { passed = false; evaluations = []; undeclared = [] };
    warnings = [];
  }

  unfoldable pub if_closed : Document W → Document W
  if_closed d = if is_closed d then drop_corrected_latency d else d

  unfoldable pub build_document :
      (Map String (Aggregate H) → Map String (Aggregate H))
      → (Collector H W → Document W → List Warning)
      → Collector H W
      → BuildInput W
      → Document W
  build_document sort_keys evaluate_warnings c input =
      let counted = if_closed (counted_document (sort_keys c.aggregates) c input) in
      let warned = record counted {
        warnings = evaluate_warnings c counted ++ input.scenario_warnings;
      } in
      record warned { sanity = check_sanity warned input.checked }
