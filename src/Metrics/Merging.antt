-- ===== src/Metrics/Merging.antt =====
-- internal/metrics/merge.go: the sum of the documents of runs that shared a load. Slices and maps are values: that the maps of the first document's steps are
-- those of the sum is not modelled.
pub mod Sums
pub mod Tables
pub mod Totals
use braunrate.Base.{
  ℕ, ◌+◌, ◌/◌, ◌==◌, ◌&&◌, not, Bool, true, false, String, string_eq, ℕ_eq, Option, none, some,
  List, [], ◌∷◌, ◌++◌, map, Map, insert, lookup, if◌then◌else◌, ltb, suc,
}
use braunrate.Base.Int.{ℤ, pos, negsuc, sub_ℕ, pos_part, neg_part}
use braunrate.Base.Float.{Float64}
use braunrate.Protocol.{class_eq}
use braunrate.Metrics.{Hdr}
use braunrate.Metrics.Aggregate.{Aggregate, LatencyKind, add_counts, errors}
use braunrate.Metrics.Document.{Distribution, StepResult, OverallResult, Journey}
use braunrate.Metrics.Distributions.{Codec, distribution_of, merged}
use braunrate.Metrics.Parts.{
  StepEntry, Scheduling, RunWindow, Part, Sum, ok, fail, ◌>>=◌, ◌>>◌, guard, readable, present,
  nothing_to_add, other_format, other_scenario, other_model,
}

abbrev pub result_format_version : String
result_format_version = "4"

-- `Duration.Milliseconds` drops the fraction towards zero.
abbrev pub milliseconds : ℤ → ℤ
milliseconds (pos n) = pos (n / 1_000_000)
milliseconds (negsuc n) = sub_ℕ 0 (suc n / 1_000_000)

unfoldable pub add_run : RunWindow → RunWindow → RunWindow
add_run into other =
    let start = if ltb other.start into.start then other.start else into.start in
    let end = if ltb into.end other.end then other.end else into.end in
    record into {
      start = start;
      end = end;
      duration_ms = milliseconds (sub_ℕ end start);
      max_inflight = into.max_inflight + other.max_inflight;
      auth_obtains = into.auth_obtains + other.auth_obtains;
    }

abbrev pub of_ℤ {ℓ} : {W : Type ℓ} ⦃f : Float64 W⦄ → ℤ → W
of_ℤ ⦃f⦄ n = f.sub (f.of_ℕ (pos_part n)) (f.of_ℕ (neg_part n))

-- summable
unfoldable pub check_formats {ℓ} : {W : Type ℓ} → List (Part W) → Sum (Unit {0})
check_formats [] = ok tt
check_formats (document ∷ documents) =
    guard (document.format_version == result_format_version) other_format >> check_formats documents

-- comparable
unfoldable pub check_runs {ℓ} : {W : Type ℓ} → RunWindow → List (Part W) → Sum (Unit {0})
check_runs first [] = ok tt
check_runs first (document ∷ documents) =
    guard (document.run.spec == first.spec) other_scenario
    >> guard (document.run.model == first.model) other_model
    >> check_runs first documents

-- The pointers by name, and the names in the order in which they were met.
pub record Table {ℓ} (W : Type ℓ) : Type ℓ where
  pub steps : Map String (StepEntry W)
  pub order : List String

unfoldable pub first_table {ℓ} : {W : Type ℓ} → List (StepEntry W) → Table W → Table W
first_table [] table = table
first_table (step ∷ steps) table = first_table steps (record {
  steps = insert step.result.name step table.steps;
  order = table.order ++ step.result.name ∷ [];
})

-- `*steps[name]` for each name
unfoldable pub listed {ℓ} :
    {W : Type ℓ} → Map String (StepEntry W) → List String → Sum (List (StepEntry W))
listed steps [] = ok []
listed steps (name ∷ names) =
    present (lookup name steps) >>= λ step. listed steps names >>= λ rest. ok (step ∷ rest)

-- What addStep writes once the distributions are added.
abbrev pub add_counters {ℓ} :
    {W : Type ℓ} → Distribution W → Distribution W → StepEntry W → StepEntry W → StepEntry W
add_counters latency service into other = record into {
  result = record into.result {
    latency = latency;
    service_latency = service;
    count = into.result.count + other.result.count;
    successes = into.result.successes + other.result.successes;
    errors = into.result.errors + other.result.errors;
    bytes = into.result.bytes + other.result.bytes;
    messages = into.result.messages + other.result.messages;
    errors_by_class = add_counts other.result.errors_by_class into.result.errors_by_class;
  };
  status_by_code = add_counts other.status_by_code into.status_by_code;
  details = add_counts other.details into.details;
}

module _ {ℓ} {W : Type ℓ} where
  -- What addOverall, addJourney and addScheduling write once the distributions are added.
  abbrev pub sum_overall :
      Distribution W → Distribution W → OverallResult W → OverallResult W → OverallResult W
  sum_overall latency service into other = record into {
    latency = latency;
    service_latency = service;
    count = into.count + other.count;
    successes = into.successes + other.successes;
    errors = into.errors + other.errors;
  }

  abbrev pub sum_journey : Distribution W → Distribution W → Journey W → Journey W → Journey W
  sum_journey latency service into other = record into {
    latency = latency;
    service_latency = service;
    started = into.started + other.started;
    completed = into.completed + other.completed;
  }

  abbrev pub sum_scheduling : Distribution W → Scheduling W → Scheduling W → Scheduling W
  sum_scheduling skew into other = record into {
    skew = skew;
    sent = into.sent + other.sent;
    completed = into.completed + other.completed;
    late_dispatches = into.late_dispatches + other.late_dispatches;
    dropped_by_inflight_limit = into.dropped_by_inflight_limit + other.dropped_by_inflight_limit;
    lost_samples = into.lost_samples + other.lost_samples;
    peak_inflight = into.peak_inflight + other.peak_inflight;
  }

  -- The assignments to the sum in one round of the loop.
  abbrev pub with_sums : OverallResult W → Journey W → Scheduling W → Part W → Part W → Part W
  with_sums overall journey scheduling into document = record into {
    overall = overall;
    journey = journey;
    scheduling = scheduling;
    run = add_run into.run document.run;
  }

module _ {ℓ κ} {W : Type ℓ} {H : Type κ} ⦃f : Float64 W⦄ ⦃h : Hdr H⦄ (c : Codec W H) where
  unfoldable pub add_step : StepEntry W → StepEntry W → Sum (StepEntry W)
  add_step into other = do
    latency ← readable (merged c into.result.latency other.result.latency)
    service ← readable (merged c into.result.service_latency other.result.service_latency)
    ok (add_counters latency service into other)

  unfoldable pub add_overall : OverallResult W → OverallResult W → Sum (OverallResult W)
  add_overall into other = do
    latency ← readable (merged c into.latency other.latency)
    service ← readable (merged c into.service_latency other.service_latency)
    ok (sum_overall latency service into other)

  unfoldable pub add_journey : Journey W → Journey W → Sum (Journey W)
  add_journey into other = do
    latency ← readable (merged c into.latency other.latency)
    service ← readable (merged c into.service_latency other.service_latency)
    ok (sum_journey latency service into other)

  unfoldable pub add_scheduling : Scheduling W → Scheduling W → Sum (Scheduling W)
  add_scheduling into other = do
    skew ← readable (merged c into.skew other.skew)
    ok (sum_scheduling skew into other)

  -- What a step of a further document does to the table: `steps[step.Name]` as it stands.
  abbrev pub place_step : StepEntry W → Table W → Option (StepEntry W) → Sum (Table W)
  place_step step table none = ok (record {
    steps = insert step.result.name step table.steps;
    order = table.order ++ step.result.name ∷ [];
  })
  place_step step table (some existing) = add_step existing step >>= λ sum.
      ok (record table { steps = insert step.result.name sum table.steps })

  unfoldable pub add_steps : List (StepEntry W) → Table W → Sum (Table W)
  add_steps [] table = ok table
  add_steps (step ∷ steps) table =
      place_step step table (lookup step.result.name table.steps) >>= add_steps steps

  -- The loop over the further documents.
  unfoldable pub add_documents : List (Part W) → Part W → Table W → Sum (Part W × Table W)
  add_documents [] into table = ok (into, table)
  add_documents (document ∷ documents) into table = do
    placed ← add_steps document.steps table
    overall ← add_overall into.overall document.overall
    journey ← add_journey into.journey document.journey
    scheduling ← add_scheduling into.scheduling document.scheduling
    add_documents documents (with_sums overall journey scheduling into document) placed

  -- convertStep
  unfoldable pub convert_step : Aggregate H → W → StepEntry W
  convert_step a declared_share = record {
    result = record {
      name = a.step;
      key = a.key;
      protocol = a.protocol;
      count = a.count;
      successes = a.successes;
      errors = errors a;
      bytes = a.bytes;
      messages = a.messages;
      errors_by_class = a.errors_by_class;
      latency = distribution_of c a.corrected;
      service_latency = distribution_of c a.service;
      declared_share = declared_share;
    };
    latency_kind = a.latency_kind;
    status_by_code = a.status_by_code;
    details = a.details;
  }

module _ {ℓ} {W : Type ℓ} ⦃f : Float64 W⦄ where
  -- The rates of the sum, over its own window.
  unfoldable pub with_rates : RunWindow → OverallResult W → OverallResult W
  with_rates run overall =
      let seconds = f.div (of_ℤ run.duration_ms) (f.of_ℕ 1000) in
      record overall {
        error_rate =
            if ltb 0 overall.count
            then f.div (f.of_ℕ overall.errors) (f.of_ℕ overall.count)
            else overall.error_rate;
        effective_rate =
            if f.lt (f.of_ℕ 0) seconds
            then f.div (f.of_ℕ overall.count) seconds
            else overall.effective_rate;
      }

module _ {ℓ κ} {W : Type ℓ} {H : Type κ} ⦃f : Float64 W⦄ ⦃h : Hdr H⦄ (c : Codec W H)
    (sort_strings : List String → List String) where
  -- What Merge does with two documents or more.
  unfoldable pub merge_all : Part W → List (Part W) → Sum (Part W)
  merge_all first others = do
    check_formats (first ∷ others)
    check_runs first.run others
    (sum, table) ←
        add_documents c others first (first_table first.steps (record { steps = []; order = [] }))
    steps ← listed table.steps (sort_strings table.order)
    ok (record sum { steps = steps; overall = with_rates sum.run sum.overall })

  unfoldable pub merge : List (Part W) → Sum (Part W)
  merge [] = fail nothing_to_add
  merge (document ∷ []) = ok document
  merge (first ∷ second ∷ others) = merge_all first (second ∷ others)
