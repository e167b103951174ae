-- ===== src/Metrics/Aggregate.antt =====
-- internal/metrics/aggregate.go: the counters and histograms of one step.
pub mod Consistency
pub mod Tallies
use braunrate.Base.{
  Comparable, ℕ, suc, ◌+◌, ◌-◌, ◌/◌, ◌&&◌, not, Option, none, some, List, [], ◌∷◌, Map, String, ltb,
  if◌then◌else◌, length, add_count, ◌==◌, string_eq, ℕ_eq,
}
use braunrate.Base.Int.{ℤ, pos, negsuc, sub_ℕ, ltb_ℤ, pos_part}
use braunrate.Protocol.{ErrorClass, is_success, class_eq}
use braunrate.Metrics.{Hdr, min_latency_us, max_latency_us}

pub data LatencyKind : Type 0 where
  corrected_latency service_latency : LatencyKind

-- An instant is its nanoseconds since 1970, and `none` is the zero `time.Time`.
pub record Sample : Type 0 where
  pub latency_kind : Option LatencyKind
  pub step : String
  pub key : String
  pub protocol : String
  pub scheduled_at : ℕ
  pub sent_at : Option ℕ
  pub finished_at : Option ℕ
  pub class : ErrorClass
  pub detail : String
  pub status : ℕ
  pub bytes : ℕ
  pub messages : ℕ

pub record Aggregate {ℓ} (H : Type ℓ) : Type ℓ where
  pub step : String
  pub key : String
  pub protocol : String
  pub latency_kind : Option LatencyKind
  pub corrected : H
  pub service : H
  pub count : ℕ
  pub successes : ℕ
  pub errors_by_class : Map ErrorClass ℕ
  pub status_by_code : Map ℕ ℕ
  pub bytes : ℕ
  pub messages : ℕ
  pub details : Map String ℕ

-- `Duration.Microseconds` drops the fraction towards zero.
abbrev pub microseconds : ℤ → ℤ
microseconds (pos n) = pos (n / 1000)
microseconds (negsuc n) = sub_ℕ 0 (suc n / 1000)

unfoldable pub clamp_latency : ℤ → ℕ
clamp_latency value =
    let us = microseconds value in
    let floored = if ltb_ℤ us (pos min_latency_us) then pos min_latency_us else us in
    if ltb_ℤ (pos max_latency_us) floored then max_latency_us else pos_part floored

-- The first kind that is set stays.
abbrev pub first_kind : Option LatencyKind → Option LatencyKind → Option LatencyKind
first_kind none new = new
first_kind (some k) new = some k

abbrev pub details_kept : ℕ
details_kept = 32

module _ {ℓ} {H : Type ℓ} ⦃h : Hdr H⦄ where
  unfoldable pub save : H → ℤ → H
  save histogram value = h.record_value (clamp_latency value) histogram

  unfoldable pub new_aggregate : String → String → String → Aggregate H
  new_aggregate step key protocol = record {
    step = step;
    key = key;
    protocol = protocol;
    latency_kind = none;
    corrected = h.new;
    service = h.new;
    count = 0;
    successes = 0;
    errors_by_class = [];
    status_by_code = [];
    bytes = 0;
    messages = 0;
    details = [];
  }

  -- The counters of a sample that did not succeed.
  unfoldable pub record_error : Sample → Aggregate H → Aggregate H
  record_error s a =
      let counted = record a { errors_by_class = add_count s.class 1 a.errors_by_class } in
      if not (s.detail == "") && ltb (length a.details) details_kept
      then record counted { details = add_count s.detail 1 a.details }
      else counted

  unfoldable pub record_outcome : Sample → Aggregate H → Aggregate H
  unfolding record_error
  record_outcome s a =
      if is_success s.class then record a { successes = a.successes + 1 } else record_error s a

  -- The two histograms, when the sample has an end.
  unfoldable pub record_latency : Sample → Option ℕ → Option ℕ → Aggregate H → Aggregate H
  record_latency s none sent a = a
  record_latency s (some finished) none a = record a {
    corrected = save a.corrected (sub_ℕ finished s.scheduled_at);
  }
  record_latency s (some finished) (some sent) a = record a {
    corrected = save a.corrected (sub_ℕ finished s.scheduled_at);
    service = save a.service (sub_ℕ finished sent);
  }

  -- What is counted of every sample.
  unfoldable pub count_sample : Sample → Aggregate H → Aggregate H
  count_sample s a = record a {
    latency_kind = first_kind a.latency_kind s.latency_kind;
    count = a.count + 1;
    bytes = a.bytes + s.bytes;
    messages = a.messages + s.messages;
    status_by_code =
        if ltb 0 s.status then add_count s.status 1 a.status_by_code else a.status_by_code;
  }

  -- `Aggregate.Record`
  unfoldable pub record_sample : Sample → Aggregate H → Aggregate H
  record_sample s a = record_latency s s.finished_at s.sent_at (record_outcome s (count_sample s a))

  unfoldable pub record_all : List Sample → Aggregate H → Aggregate H
  record_all [] a = a
  record_all (s ∷ samples) a = record_all samples (record_sample s a)

-- `for key, count := range other { into[key] += count }`
unfoldable pub add_counts {ℓ} : {K : Type ℓ} ⦃e : Comparable K⦄ → Map K ℕ → Map K ℕ → Map K ℕ
add_counts [] into = into
add_counts ((k, n) ∷ other) into = add_counts other (add_count k n into)

module _ {ℓ} {H : Type ℓ} ⦃h : Hdr H⦄ where
  -- `Aggregate.Add`
  unfoldable pub add : Aggregate H → Aggregate H → Aggregate H
  add a other = record a {
    corrected = h.merge a.corrected other.corrected;
    service = h.merge a.service other.service;
    count = a.count + other.count;
    successes = a.successes + other.successes;
    bytes = a.bytes + other.bytes;
    messages = a.messages + other.messages;
    errors_by_class = add_counts other.errors_by_class a.errors_by_class;
    status_by_code = add_counts other.status_by_code a.status_by_code;
    details = add_counts other.details a.details;
  }

  unfoldable pub errors : Aggregate H → ℕ
  errors a = a.count - a.successes
