-- ===== src/Metrics/Collector.antt =====
-- internal/metrics/collector.go: the counters of a run, its one-second buckets, and the channel
-- between the iterations and the one goroutine that writes to the histograms.
pub mod Buckets
pub mod Ledger
pub mod Settled
use braunrate.Base.{
  ℕ, ◌+◌, ◌-◌, ◌/◌, ◌%◌, Bool, Option, none, some, List, [], ◌∷◌, ◌++◌, Map, String, ltb,
  if◌then◌else◌, length, lookup, insert, string_eq, ℕ_eq,
}
use braunrate.Base.Int.{ℤ, pos, sub_ℕ, ltb_ℤ}
use braunrate.Base.Float.{Float64}
use braunrate.Protocol.{is_success}
use braunrate.Metrics.{Hdr, min_latency_us}
use braunrate.Metrics.Aggregate.{Sample, Aggregate, save, new_aggregate, record_sample}

abbrev pub bucket_duration_ms : ℕ
bucket_duration_ms = 1000

abbrev pub bucket_retention_ms : ℕ
bucket_retention_ms = 60_000

-- A closed bucket has no histogram left.
pub record Bucket {ℓ κ} (H : Type ℓ) (W : Type κ) : Type (ℓ ⊔ κ) where
  pub start_epoch_ms : ℕ
  pub sent : ℕ
  pub completed : ℕ
  pub errors : ℕ
  pub target_rate : W
  pub latency_p50_ms : W
  pub latency_p99_ms : W
  pub late_samples : ℕ
  pub histogram : Option H

pub record Collector {ℓ κ} (H : Type ℓ) (W : Type κ) : Type (ℓ ⊔ κ) where
  pub aggregates : Map String (Aggregate H)
  pub buckets : Map ℕ (Bucket H W)
  pub newest_bucket_ms : ℕ
  pub scheduling_skew : H
  pub sent : ℕ
  pub completed : ℕ
  pub late_dispatches : ℕ
  pub dropped_by_inflight_limit : ℕ
  pub lost_samples : ℕ
  pub peak_inflight : ℕ
  pub late_threshold : ℤ
  pub journeys : H
  pub journeys_started : ℕ
  pub journeys_completed : ℕ
  pub input : List Sample
  pub capacity : ℕ

-- The start of the bucket of an instant: `UnixMilli` less its rest by a second.
unfoldable pub bucket_start : ℕ → ℕ
bucket_start instant = let ms = instant / 1_000_000 in ms - ms % bucket_duration_ms

abbrev pub in_ms {κ} : {W : Type κ} ⦃f : Float64 W⦄ → ℕ → W
in_ms ⦃f⦄ us = f.div (f.of_ℕ us) (f.of_ℕ 1000)

module _ {ℓ} {H : Type ℓ} ⦃h : Hdr H⦄ where
  unfoldable pub aggregate_of : Sample → Map String (Aggregate H) → Aggregate H
  aggregate_of s m = elim (lookup s.step m) [
    | none ↦ new_aggregate s.step s.key s.protocol
    | some a ↦ a
  ]

module _ {ℓ κ} {H : Type ℓ} {W : Type κ} ⦃h : Hdr H⦄ ⦃f : Float64 W⦄ where
  unfoldable pub new_collector : ℤ → ℕ → Collector H W
  new_collector late_threshold capacity = record {
    aggregates = [];
    buckets = [];
    newest_bucket_ms = 0;
    scheduling_skew = h.new;
    sent = 0;
    completed = 0;
    late_dispatches = 0;
    dropped_by_inflight_limit = 0;
    lost_samples = 0;
    peak_inflight = 0;
    late_threshold = late_threshold;
    journeys = h.new;
    journeys_started = 0;
    journeys_completed = 0;
    input = [];
    capacity = capacity;
  }

  unfoldable pub new_bucket : ℕ → Bucket H W
  new_bucket start = record {
    start_epoch_ms = start;
    sent = 0;
    completed = 0;
    errors = 0;
    target_rate = f.of_ℕ 0;
    latency_p50_ms = f.of_ℕ 0;
    latency_p99_ms = f.of_ℕ 0;
    late_samples = 0;
    histogram = some h.new;
  }

  abbrev closed_with : Option H → Bucket H W → Bucket H W
  closed_with none b = b
  closed_with (some a) b = record b {
    latency_p50_ms = in_ms (h.value_at_quantile 500 a);
    latency_p99_ms = in_ms (h.value_at_quantile 990 a);
    histogram = none;
  }

  unfoldable pub close_bucket : Bucket H W → Bucket H W
  close_bucket b = closed_with b.histogram b

  unfoldable pub close_buckets_before : ℕ → Map ℕ (Bucket H W) → Map ℕ (Bucket H W)
  close_buckets_before limit [] = []
  close_buckets_before limit ((k, b) ∷ m) =
      (k, (if ltb k limit then close_bucket b else b)) ∷ close_buckets_before limit m

  unfoldable pub close_all : Map ℕ (Bucket H W) → Map ℕ (Bucket H W)
  close_all [] = []
  close_all ((k, b) ∷ m) = (k, close_bucket b) ∷ close_all m

  unfoldable pub ensure_bucket : ℕ → Map ℕ (Bucket H W) → Map ℕ (Bucket H W)
  ensure_bucket start m = elim (lookup start m) [
    | none ↦ insert start (new_bucket start) m
    | some _ ↦ m
  ]

  -- `bucketDe`: the bucket of an instant exists afterwards, and a newest one closes the old ones.
  unfoldable pub open_bucket : ℕ → Collector H W → Collector H W
  open_bucket start c =
      let made = ensure_bucket start c.buckets in
      if ltb c.newest_bucket_ms start
      then record c {
        newest_bucket_ms = start;
        buckets = close_buckets_before (start - bucket_retention_ms) made;
      }
      else record c { buckets = made }

  -- A write through the pointer to a bucket.
  unfoldable pub update_bucket : ℕ → (Bucket H W → Bucket H W) → Collector H W → Collector H W
  update_bucket start change c = elim (lookup start c.buckets) [
    | none ↦ c
    | some b ↦ record c { buckets = insert start (change b) c.buckets }
  ]

  -- The bucket of an instant, opened and written to.
  unfoldable pub write_bucket : ℕ → (Bucket H W → Bucket H W) → Collector H W → Collector H W
  write_bucket start change c = update_bucket start change (open_bucket start c)

  abbrev late_or_saved : Sample → ℕ → Option H → Bucket H W → Bucket H W
  late_or_saved s finished none b = record b { late_samples = b.late_samples + 1 }
  late_or_saved s finished (some a) b = record b {
    histogram = some (save a (sub_ℕ finished s.scheduled_at));
  }

  abbrev with_latency : Sample → Option ℕ → Bucket H W → Bucket H W
  with_latency s none b = b
  with_latency s (some finished) b = late_or_saved s finished b.histogram b

  unfoldable pub sample_bucket : Sample → Bucket H W → Bucket H W
  sample_bucket s b = with_latency s s.finished_at (record b {
    completed = b.completed + 1;
    errors = if is_success s.class then b.errors else b.errors + 1;
  })

  unfoldable pub count_applied : Sample → Collector H W → Collector H W
  count_applied s c = record c {
    aggregates = insert s.step (record_sample s (aggregate_of s c.aggregates)) c.aggregates;
    completed = c.completed + 1;
  }

  -- `apply`
  unfoldable pub apply_sample : Sample → Collector H W → Collector H W
  apply_sample s c =
      write_bucket (bucket_start s.scheduled_at) (sample_bucket s) (count_applied s c)

  unfoldable pub count_dispatch : ℤ → ℕ → Collector H W → Collector H W
  count_dispatch delay inflight c = record c {
    sent = c.sent + 1;
    peak_inflight = if ltb c.peak_inflight inflight then inflight else c.peak_inflight;
    scheduling_skew =
        if ltb_ℤ (pos 0) delay
        then save c.scheduling_skew delay
        else h.record_value min_latency_us c.scheduling_skew;
    late_dispatches =
        if ltb_ℤ c.late_threshold delay then c.late_dispatches + 1 else c.late_dispatches;
  }

  unfoldable pub sent_bucket : W → Bucket H W → Bucket H W
  sent_bucket target_rate b = record b { sent = b.sent + 1; target_rate = target_rate }

  -- `RecordDispatch`
  unfoldable pub record_dispatch : ℕ → ℕ → W → ℕ → Collector H W → Collector H W
  record_dispatch scheduled dispatch target_rate inflight c =
      write_bucket (bucket_start scheduled) (sent_bucket target_rate)
        (count_dispatch (sub_ℕ dispatch scheduled) inflight c)

  unfoldable pub record_journey : ℕ → ℕ → Bool → Collector H W → Collector H W
  record_journey scheduled end complete c = record c {
    journeys_started = c.journeys_started + 1;
    journeys_completed = if complete then c.journeys_completed + 1 else c.journeys_completed;
    journeys = save c.journeys (sub_ℕ end scheduled);
  }

  unfoldable pub record_inflight_drop : Collector H W → Collector H W
  record_inflight_drop c = record c { dropped_by_inflight_limit = c.dropped_by_inflight_limit + 1 }

  -- `Record`: a full channel loses the sample, and the loss is counted.
  unfoldable pub offer : Sample → Collector H W → Collector H W
  offer s c =
      if ltb (length c.input) c.capacity
      then record c { input = c.input ++ s ∷ [] }
      else record c { lost_samples = c.lost_samples + 1 }

  abbrev take_next : List Sample → Collector H W → Collector H W
  take_next [] c = c
  take_next (s ∷ input) c = apply_sample s (record c { input = input })

  -- One turn of the loop of `consume`.
  unfoldable pub consume : Collector H W → Collector H W
  consume c = take_next c.input c

  unfoldable pub drain : List Sample → Collector H W → Collector H W
  drain [] c = c
  drain (s ∷ rest) c = drain rest (apply_sample s (record c { input = rest }))

  -- `Close`: the consumer empties the channel, and then every bucket is closed.
  unfoldable pub close : Collector H W → Collector H W
  close c = let done = drain c.input c in record done { buckets = close_all done.buckets }

-- What the goroutines of a run do to the collector, each under its mutex.
pub data Action {κ} (W : Type κ) : Type κ where
  offering : Sample → Action W
  consuming : Action W
  dispatching : ℕ → ℕ → W → ℕ → Action W
  ending_journey : ℕ → ℕ → Bool → Action W
  dropping : Action W

module _ {ℓ κ} {H : Type ℓ} {W : Type κ} ⦃h : Hdr H⦄ ⦃f : Float64 W⦄ where
  unfoldable pub step : Action W → Collector H W → Collector H W
  step (offering s) c = offer s c
  step consuming c = consume c
  step (dispatching scheduled dispatch rate inflight) c =
      record_dispatch scheduled dispatch rate inflight c
  step (ending_journey scheduled end complete) c = record_journey scheduled end complete c
  step dropping c = record_inflight_drop c

  unfoldable pub run : List (Action W) → Collector H W → Collector H W
  run [] c = c
  run (a ∷ actions) c = run actions (step a c)
