-- ===== src/Examples.antt =====
-- The theorems at concrete inputs: small scenarios, samples, documents and runs. Whole numbers stand
-- for the floats, a list of values for a histogram, and a list for a random generator.
use braunrate.Base.{
  ℕ, ◌+◌, ◌*◌, ◌≡◌, refl, true, String, none, some, List, [], ◌∷◌, length, count, get_elem?,
  string_eq,
}
use mathlib.Core.List.Perm
use braunrate.Base.Int.{pos, negsuc}
use braunrate.Base.Float.{whole_float}
use braunrate.Scenario.{Step}
use braunrate.Scenario.Mix.{Slot, SortSlice, mix_order, has_mix, weights_of, divisor_of, steps_of}
use braunrate.Scenario.Mix.Shares.{Rearranges}
use braunrate.Scenario.Mix.Cycle.{picks, turns_of_cycle, steps_of-mix_order}
use braunrate.Protocol.{success, err_timeout}
use braunrate.Metrics.Distributions.{Codec}
use braunrate.Metrics.Building.{BuildInput, build_document}
use braunrate.Metrics.Building.Sums.{Accounts, build_document-Accounts}
use braunrate.Metrics.{list_hdr, list-CountsValues}
use braunrate.Metrics.Aggregate.{Sample, Aggregate, new_aggregate, record_all, service_latency}
use braunrate.Metrics.Aggregate.Tallies
use braunrate.Metrics.Aggregate.Tallies.{Summarises}
use braunrate.Metrics.Collector.{Collector, new_collector, run, close}
use braunrate.Metrics.Collector
use braunrate.Metrics.Collector.Ledger.{IsBalanced}
use braunrate.Metrics.Collector.Settled.{offered, close-run-IsBalanced}

-- Two steps of weights 6 and 4, and one that runs in no turn.
abbrev step_of_weight : String → ℕ → Step ℕ
step_of_weight name weight = record {
  name = name;
  protocol = "http";
  config = 0;
  weight = weight;
  checks = [];
  captures = [];
  assertions = [];
}

abbrev browse : Step ℕ
browse = step_of_weight "browse" 6

abbrev buy : Step ℕ
buy = step_of_weight "buy" 4

abbrev shop : List (Step ℕ)
shop = browse ∷ buy ∷ []

abbrev keep_order : SortSlice (Slot ℕ)
keep_order less slots = slots

keep_order-Rearranges : Rearranges keep_order
keep_order-Rearranges = λ less xs. Perm.refl xs

shop-has_mix : has_mix shop ≡ true
unfolding has_mix
shop-has_mix = refl

turns_of_cycle_example :
    count 0 (picks (mix_order keep_order shop) 3 (length (mix_order keep_order shop)))
      * divisor_of (weights_of shop)
    ≡ 6
turns_of_cycle_example = turns_of_cycle keep_order keep_order-Rearranges shop 0 3 shop-has_mix refl

steps_of-mix_order_example :
    (i : ℕ) × (s : Step ℕ) × (get_elem? shop i ≡ some s)
    × (steps_of (mix_order keep_order shop) shop (negsuc 6) ≡ some (s ∷ []))
steps_of-mix_order_example =
    steps_of-mix_order keep_order keep_order-Rearranges shop (negsuc 6) shop-has_mix

-- A request that worked and one that timed out.
abbrev answered : Sample
answered = record {
  latency_kind = some service_latency;
  step = "browse";
  key = "browse";
  protocol = "http";
  scheduled_at = 1_000_000_000;
  sent_at = some 1_000_100_000;
  finished_at = some 1_025_000_000;
  class = success;
  detail = "";
  status = 200;
  bytes = 512;
  messages = 0;
}

abbrev timed_out : Sample
timed_out = record answered { class = err_timeout; detail = "timeout"; status = 0; sent_at = none }

abbrev fresh : Aggregate (List ℕ)
fresh = new_aggregate "browse" "browse" "http"

record_all_summary_example :
    Summarises (answered ∷ timed_out ∷ []) (record_all (answered ∷ timed_out ∷ []) fresh)
record_all_summary_example =
    Tallies.record_all_summary list-CountsValues (answered ∷ timed_out ∷ []) "browse" "browse"
      "http"

-- A run of the collector with room for one sample: the second one is lost, and then there is room.
abbrev actions : List (Collector.Action ℕ)
actions =
    Collector.dispatching 1_000_000_000 1_000_100_000 50 1
    ∷ Collector.offering answered
    ∷ Collector.offering answered
    ∷ Collector.consuming
    ∷ Collector.offering timed_out
    ∷ Collector.ending_journey 1_000_000_000 1_025_000_000 true
    ∷ Collector.dropping
    ∷ []

close-run-IsBalanced_example :
    let c = close {H = List ℕ} (run actions (new_collector (pos 1000) 1)) in
    IsBalanced c × (c.completed + c.lost_samples ≡ offered actions) × (c.input ≡ [])
close-run-IsBalanced_example = close-run-IsBalanced list-CountsValues (pos 1000) 1 actions

abbrev list_codec : Codec ℕ (List ℕ)
list_codec = record {
  max = λ values. length values;
  min = λ values. 0;
  mean = λ values. 0;
  encode = λ values. some "values";
  decode = λ text. none;
}

abbrev build_input : BuildInput ℕ
build_input = record {
  checked = record { declared_steps = "browse" ∷ []; planned_duration = 0; planned_requests = 3 };
  model = "closed";
  duration_ms = 25;
  duration = 1;
  declared_shares = [];
  scenario_warnings = [];
}

build_document-Accounts_example :
    let c = close {H = List ℕ} (run actions (new_collector (pos 1000) 1)) in
    let d = build_document list_codec (λ m. m) (λ c d. []) c build_input in
    Accounts list_codec c d × (d.overall.count + c.lost_samples ≡ 3)
build_document-Accounts_example =
    build_document-Accounts list_codec list-CountsValues (λ m. m) (λ c d. []) (pos 1000) 1 actions
      build_input (λ m. Perm.refl m)
