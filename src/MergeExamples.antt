-- ===== src/MergeExamples.antt =====
-- The theorems on the sum of documents at concrete inputs. A histogram is the number of its values,
-- and is encoded as a text that is longer by one than that number.
use Prim.Native.String.{String}
use mathlib.Core.List.Perm
use braunrate.Base.{
  lookup, ℕ, zero, suc, ◌+◌, ◌-◌, ◌≡◌, refl, ap, none, some, List, [], ◌∷◌, arith, string_eq,
}
use braunrate.Base.Float.{whole_float}
use braunrate.Base.Int.{pos}
use braunrate.Metrics.{Hdr}
use braunrate.Metrics.Aggregate.{Aggregate, add}
use braunrate.Metrics.Document.{Distribution}
use braunrate.Metrics.Distributions.{
  IsReadable, Codec, IsFaithful, distribution_of, distribution_of-IsReadable,
}
use braunrate.Metrics.Parts.{StepEntry, Part, ok}
use braunrate.Metrics.Merging.{merge, add_step, convert_step, result_format_version}
use braunrate.Metrics.Merging.Sums.{add_step-convert_step}
use braunrate.Metrics.Merging.Totals.{IsSumOf, IsReadablePart, merge-totals}

instance abbrev tally_hdr : Hdr ℕ
tally_hdr = record {
  new = 0;
  record_value = λ v a. a + 1;
  merge = λ a b. a + b;
  total_count = λ a. a;
  value_at_quantile = λ q a. 0;
}

abbrev marks : ℕ → String
marks zero = "h"
marks (suc n) = String.◌∷◌ "h" (marks n)

abbrev length_of : String → ℕ
length_of String.[] = 0
length_of (String.◌∷◌ c s) = suc (length_of s)

abbrev tally_codec : Codec ℕ ℕ
tally_codec = record {
  max = λ a. 0;
  min = λ a. 0;
  mean = λ a. 0;
  encode = λ a. some (marks a);
  decode = λ s. some (length_of s - 1);
}

length_of-marks : (n : ℕ) → length_of (marks n) ≡ n + 1
length_of-marks zero = refl
length_of-marks (suc n) = omega (arith, length_of-marks n)

tally-IsFaithful : IsFaithful ℕ ℕ tally_codec
tally-IsFaithful = record {
  encoded = λ a. (
    marks a,
    refl,
    λ e. absurd (omega (arith, length_of-marks a, ap length_of e)),
    ap some (omega (arith, length_of-marks a)),
  );
  merge_nothing = λ a b h. omega arith;
  nothing_merge = λ a b h. omega arith;
}

-- A step that answered all but one of its requests.
abbrev part_of_step : String → ℕ → Aggregate ℕ
part_of_step name answered = record {
  step = name;
  key = name;
  protocol = "http";
  latency_kind = none;
  corrected = answered;
  service = answered;
  count = answered + 1;
  successes = answered;
  errors_by_class = [];
  status_by_code = (200, answered) ∷ [];
  bytes = 0;
  messages = 0;
  details = [];
}

abbrev reading : ℕ → Distribution ℕ
reading n = distribution_of tally_codec n

abbrev part_of : ℕ → List (StepEntry ℕ) → Part ℕ
part_of n steps = record {
  format_version = result_format_version;
  run = record {
    spec = "orders";
    model = "open";
    start = 0;
    end = 1_000_000_000;
    duration_ms = pos 1000;
    max_inflight = 10;
    auth_obtains = 0;
  };
  scheduling = record {
    sent = n;
    completed = n;
    late_dispatches = 0;
    dropped_by_inflight_limit = 0;
    lost_samples = 0;
    peak_inflight = 1;
    skew = reading n;
  };
  journey = record { started = n; completed = n; latency = reading n; service_latency = reading n };
  steps = steps;
  overall = record {
    count = n;
    successes = n;
    errors = 0;
    error_rate = 0;
    effective_rate = n;
    latency = reading n;
    service_latency = reading n;
  };
}

abbrev first_part : Part ℕ
first_part = part_of 3 (convert_step tally_codec (part_of_step "pay" 2) 0 ∷ [])

abbrev second_part : Part ℕ
second_part = part_of 5 (
    convert_step tally_codec (part_of_step "list" 1) 0
    ∷ convert_step tally_codec (part_of_step "pay" 4) 0
    ∷ [])

add_step-convert_step_example :
    add_step tally_codec
      (convert_step tally_codec (part_of_step "pay" 2) 0)
      (convert_step tally_codec (part_of_step "pay" 4) 0)
    ≡ ok (convert_step tally_codec (add (part_of_step "pay" 2) (part_of_step "pay" 4)) 0)
add_step-convert_step_example =
    add_step-convert_step tally_codec (part_of_step "pay" 2) (part_of_step "pay" 4) 0 0
      tally-IsFaithful (omega arith) (omega arith)

reading-IsReadable : (n : ℕ) → IsReadable tally_codec (reading n)
reading-IsReadable n = distribution_of-IsReadable tally_codec n tally-IsFaithful

first_part-IsReadablePart : IsReadablePart tally_codec first_part
unfolding convert_step
first_part-IsReadablePart = record {
  steps = ((reading-IsReadable 2, reading-IsReadable 2), tt);
  overall = (reading-IsReadable 3, reading-IsReadable 3);
  journey = (reading-IsReadable 3, reading-IsReadable 3);
  skew = reading-IsReadable 3;
}

second_part-IsReadablePart : IsReadablePart tally_codec second_part
unfolding convert_step
second_part-IsReadablePart = record {
  steps = (
    (reading-IsReadable 1, reading-IsReadable 1),
    ((reading-IsReadable 4, reading-IsReadable 4), tt),
  );
  overall = (reading-IsReadable 5, reading-IsReadable 5);
  journey = (reading-IsReadable 5, reading-IsReadable 5);
  skew = reading-IsReadable 5;
}

merge-totals_example :
    (p : Part ℕ) × (merge tally_codec (λ names. names) (first_part ∷ second_part ∷ []) ≡ ok p)
    × IsSumOf tally_codec (λ names. names) (first_part ∷ second_part ∷ []) p
merge-totals_example =
    merge-totals tally_codec (λ names. names) first_part (second_part ∷ []) tally-IsFaithful
      (λ names. Perm.refl names) (first_part-IsReadablePart, (second_part-IsReadablePart, tt))
      (refl, (refl, tt)) ((refl, refl), tt) (unfold lookup in (refl, tt))
