-- ===== src/Metrics/Collector/Ledger.antt =====
-- The counters of a run agree with one another, in every order of the actions on the collector.
use braunrate.Base.{
  ℕ, ◌+◌, ◌≤◌, ◌≡◌, refl, sym, ap, ◌∙◌, List, [], ◌∷◌, arith, Bool, Option-cases, inl, inr, Map,
  lookup, insert, String, string_eq, sum_values-insert, if◌then◌else◌,
}
use braunrate.Base.Int.{ℤ, sub_ℕ}
use braunrate.Base.Float.{Float64}
use braunrate.Protocol.{is_success}
use braunrate.Metrics.{Hdr, CountsValues, min_latency_us}
use braunrate.Metrics.Aggregate.{Sample, Aggregate, new_aggregate, record_sample}
use braunrate.Metrics.Aggregate.Tallies.{succeeded, record_sample_frame}
use braunrate.Metrics.Aggregate.Consistency
use braunrate.Metrics.Collector.{
  Bucket, Collector, Action, offering, consuming, dispatching, ending_journey, dropping,
  new_collector, new_bucket, close_bucket, write_bucket, count_applied, count_dispatch, sent_bucket,
  sample_bucket, aggregate_of, apply_sample, record_dispatch, record_journey, record_inflight_drop,
  offer, consume, take_next, drain, close_all, step, run, bucket_start,
}
use braunrate.Metrics.Collector.Buckets.{over, write_bucket_frame, over-write_bucket}

module _ {ℓ} {H : Type ℓ} ⦃h : Hdr H⦄ where
  over-aggregates :
      (g : Aggregate H → ℕ) (s : Sample) (n : ℕ) (m : Map String (Aggregate H))
      → g (new_aggregate s.step s.key s.protocol) ≡ 0
      → ((a : Aggregate H) → g (record_sample s a) ≡ g a + n)
      → over g (insert s.step (record_sample s (aggregate_of s m)) m) ≡ over g m + n
  unfolding aggregate_of
  over-aggregates g s n m fresh adding = elim (Option-cases (lookup s.step m)) [
    | inl p ↦ ground (
      arith,
      p,
      fresh,
      adding (new_aggregate s.step s.key s.protocol),
      sum_values-insert g s.step (record_sample s (new_aggregate s.step s.key s.protocol)) m,
    )
    | inr q ↦
        (let (a, p) = q in
          ground (arith, p, adding a, sum_values-insert g s.step (record_sample s a) m))
  ]

module _ {ℓ κ} {H : Type ℓ} {W : Type κ} ⦃h : Hdr H⦄ ⦃f : Float64 W⦄ where
  pub record IsBalanced (c : Collector H W) : Type 0 where
    pub by_step : over (λ (a : Aggregate H). a.count) c.aggregates ≡ c.completed
    pub by_second : over (λ (b : Bucket H W). b.completed) c.buckets ≡ c.completed
    pub errors_by_second :
        over (λ (b : Bucket H W). b.errors) c.buckets
          + over (λ (a : Aggregate H). a.successes) c.aggregates
        ≡ c.completed
    pub sent_by_second : over (λ (b : Bucket H W). b.sent) c.buckets ≡ c.sent
    pub late_within : c.late_dispatches ≤ c.sent
    pub skews_of_sent : h.total_count c.scheduling_skew ≡ c.sent
    pub journeys_within : c.journeys_completed ≤ c.journeys_started
    pub journeys_recorded : h.total_count c.journeys ≡ c.journeys_started

  -- The numbers of a bucket that closing keeps.
  close_bucket_counters :
      (b : Bucket H W)
      → ((close_bucket b).sent ≡ b.sent)
        × ((close_bucket b).completed ≡ b.completed)
        × ((close_bucket b).errors ≡ b.errors)
  unfolding close_bucket
  close_bucket_counters b = (ground arith, ground arith, ground arith)

  sample_bucket_counters :
      (s : Sample) (b : Bucket H W)
      → ((sample_bucket s b).sent ≡ b.sent + 0)
        × ((sample_bucket s b).completed ≡ b.completed + 1)
        × ((sample_bucket s b).errors ≡ b.errors + (if is_success s.class then 0 else 1))
  unfolding sample_bucket
  sample_bucket_counters s b = (ground arith, ground arith, ground arith)

  -- A write to a bucket settles what was counted before it.
  write_bucket-IsBalanced :
      (start i j k : ℕ) (change : Bucket H W → Bucket H W) (c : Collector H W)
      → ((b : Bucket H W)
          → ((change b).sent ≡ b.sent + i)
            × ((change b).completed ≡ b.completed + j)
            × ((change b).errors ≡ b.errors + k))
      → over (λ (a : Aggregate H). a.count) c.aggregates ≡ c.completed
      → over (λ (b : Bucket H W). b.completed) c.buckets + j ≡ c.completed
      → over (λ (b : Bucket H W). b.errors) c.buckets
          + k
          + over (λ (a : Aggregate H). a.successes) c.aggregates
        ≡ c.completed
      → over (λ (b : Bucket H W). b.sent) c.buckets + i ≡ c.sent
      → c.late_dispatches ≤ c.sent
      → h.total_count c.scheduling_skew ≡ c.sent
      → c.journeys_completed ≤ c.journeys_started
      → h.total_count c.journeys ≡ c.journeys_started
      → IsBalanced (write_bucket start change c)
  write_bucket-IsBalanced start i j k change c changes steps seconds errs sends late skews within
        journeys =
      let d = write_bucket start change c in
      let e = write_bucket_frame start change c in
      let completed_e : d.completed ≡ c.completed = ap (λ (x : Collector H W). x.completed) e in
      let aggregates_e : d.aggregates ≡ c.aggregates = ap (λ (x : Collector H W). x.aggregates) e in
      let sent_e : d.sent ≡ c.sent = ap (λ (x : Collector H W). x.sent) e in
      let started_e : d.journeys_started ≡ c.journeys_started =
        ap (λ (x : Collector H W). x.journeys_started) e in
      record {
        by_step = rw (aggregates_e, completed_e) steps;
        by_second =
            over-write_bucket (λ (b : Bucket H W). b.completed) (λ b. (close_bucket_counters b).1)
              (λ n. unfold new_bucket in refl) start j change c (λ b. (changes b).1)
            ∙ seconds
            ∙ sym completed_e;
        errors_by_second = omega (
          arith,
          over-write_bucket (λ (b : Bucket H W). b.errors) (λ b. (close_bucket_counters b).2)
              (λ n. unfold new_bucket in refl) start k change c (λ b. (changes b).2),
          ap (over (λ (a : Aggregate H). a.successes)) aggregates_e,
        );
        sent_by_second =
            over-write_bucket (λ (b : Bucket H W). b.sent) (λ b. (close_bucket_counters b).0)
              (λ n. unfold new_bucket in refl) start i change c (λ b. (changes b).0)
            ∙ sends
            ∙ sym sent_e;
        late_within = omega (arith, ap (λ (x : Collector H W). x.late_dispatches) e);
        skews_of_sent =
            ap h.total_count (ap (λ (x : Collector H W). x.scheduling_skew) e) ∙ skews ∙ sym sent_e;
        journeys_within = omega (arith, ap (λ (x : Collector H W). x.journeys_completed) e);
        journeys_recorded =
            ap h.total_count (ap (λ (x : Collector H W). x.journeys) e) ∙ journeys ∙ sym started_e;
      }

  module _ (laws : CountsValues H) where
    apply_sample-IsBalanced :
        (s : Sample) (c : Collector H W) → IsBalanced c → IsBalanced (apply_sample s c)
    unfolding apply_sample count_applied new_aggregate
    apply_sample-IsBalanced s c b =
        let failure = if is_success s.class then 0 else 1 in
        write_bucket-IsBalanced (bucket_start s.scheduled_at) 0 1 failure (sample_bucket s)
          (count_applied s c) (sample_bucket_counters s)
          (omega (
            arith,
            over-aggregates (λ (a : Aggregate H). a.count) s 1 c.aggregates refl
                (λ a. (record_sample_frame s a).0),
          ))
          (omega arith)
          (ground (
            arith,
            over-aggregates (λ (a : Aggregate H). a.successes) s (succeeded s) c.aggregates refl
                (λ a. (record_sample_frame s a).1),
          ))
          (omega arith) b.late_within b.skews_of_sent b.journeys_within b.journeys_recorded

    total_count_of_dispatch :
        (delay : ℤ) (inflight : ℕ) (c : Collector H W)
        → h.total_count (count_dispatch delay inflight c).scheduling_skew
          ≡ h.total_count c.scheduling_skew + 1
    unfolding count_dispatch
    total_count_of_dispatch delay inflight c = ground (
      arith,
      Consistency.total_count-save laws c.scheduling_skew delay,
      laws.record_counts min_latency_us c.scheduling_skew,
    )

    record_dispatch-IsBalanced :
        (scheduled dispatch : ℕ) (rate : W) (inflight : ℕ) (c : Collector H W)
        → IsBalanced c
        → IsBalanced (record_dispatch scheduled dispatch rate inflight c)
    unfolding record_dispatch count_dispatch sent_bucket
    record_dispatch-IsBalanced scheduled dispatch rate inflight c b =
        let delay = sub_ℕ dispatch scheduled in
        write_bucket-IsBalanced (bucket_start scheduled) 1 0 0 (sent_bucket rate)
          (count_dispatch delay inflight c) (λ b. (refl, omega arith, omega arith)) b.by_step
          (omega arith) (omega arith) (omega arith) (ground arith)
          (omega (arith, total_count_of_dispatch delay inflight c)) b.journeys_within
          b.journeys_recorded

    record_journey-IsBalanced :
        (scheduled end : ℕ) (complete : Bool) (c : Collector H W)
        → IsBalanced c
        → IsBalanced (record_journey scheduled end complete c)
    unfolding record_journey
    record_journey-IsBalanced scheduled end complete c b =
        ground (arith, Consistency.total_count-save laws c.journeys (sub_ℕ end scheduled))

    -- What stands in the channel does not matter.
    input-IsBalanced :
        (input : List Sample) (c : Collector H W)
        → IsBalanced c
        → IsBalanced (record c { input = input })
    input-IsBalanced input c b = ground arith

    take_next-IsBalanced :
        (input : List Sample) (c : Collector H W) → IsBalanced c → IsBalanced (take_next input c)
    take_next-IsBalanced [] c b = b
    take_next-IsBalanced (s ∷ input) c b =
        apply_sample-IsBalanced s (record c { input = input }) (input-IsBalanced input c b)

    step-IsBalanced : (a : Action W) (c : Collector H W) → IsBalanced c → IsBalanced (step a c)
    unfolding step consume offer record_inflight_drop
    step-IsBalanced (offering s) c b = ground arith
    step-IsBalanced consuming c b = take_next-IsBalanced c.input c b
    step-IsBalanced (dispatching scheduled dispatch rate inflight) c b =
        record_dispatch-IsBalanced scheduled dispatch rate inflight c b
    step-IsBalanced (ending_journey scheduled end complete) c b =
        record_journey-IsBalanced scheduled end complete c b
    step-IsBalanced dropping c b = ground arith

    pub run-IsBalanced :
        (actions : List (Action W)) (c : Collector H W) → IsBalanced c → IsBalanced (run actions c)
    unfolding run
    run-IsBalanced [] c b = b
    run-IsBalanced (a ∷ actions) c b = run-IsBalanced actions (step a c) (step-IsBalanced a c b)

    pub drain-IsBalanced :
        (input : List Sample) (c : Collector H W) → IsBalanced c → IsBalanced (drain input c)
    unfolding drain
    drain-IsBalanced [] c b = b
    drain-IsBalanced (s ∷ input) c b =
        drain-IsBalanced input _
          (apply_sample-IsBalanced s (record c { input = input }) (input-IsBalanced input c b))

    pub new_collector-IsBalanced :
        (threshold : ℤ) (capacity : ℕ) → IsBalanced (new_collector {W = W} threshold capacity)
    unfolding new_collector
    new_collector-IsBalanced threshold capacity = ground (arith, laws.new_empty)

  over-close_all :
      (g : Bucket H W → ℕ)
      → ((b : Bucket H W) → g (close_bucket b) ≡ g b)
      → (m : Map ℕ (Bucket H W)) → over g (close_all m) ≡ over g m
  unfolding close_all
  over-close_all g closing [] = refl
  over-close_all g closing ((k, b) ∷ m) = omega (arith, closing b, over-close_all g closing m)

  pub close_all-IsBalanced :
      (c : Collector H W) → IsBalanced c → IsBalanced (record c { buckets = close_all c.buckets })
  close_all-IsBalanced c b = ground (
    arith,
    over-close_all (λ (b : Bucket H W). b.completed) (λ b. (close_bucket_counters b).1) c.buckets,
    over-close_all (λ (b : Bucket H W). b.errors) (λ b. (close_bucket_counters b).2) c.buckets,
    over-close_all (λ (b : Bucket H W). b.sent) (λ b. (close_bucket_counters b).0) c.buckets,
  )
