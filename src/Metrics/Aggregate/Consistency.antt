-- ===== src/Metrics/Aggregate/Consistency.antt =====
-- What always holds of the counters of a step.
use braunrate.Base.{
  ℕ_eq, ℕ, ◌+◌, ◌≤◌, ◌<◌, ◌≡◌, List, [], ◌∷◌, arith, length, total, total-add_count,
  length-add_count-le, String, string_eq, some, none, Option,
}
use braunrate.Base.Int.{ℤ, pos, negsuc, sub_ℕ}
use braunrate.Protocol.{class_eq}
use braunrate.Metrics.{Hdr, CountsValues, min_latency_us, max_latency_us}
use braunrate.Metrics.Aggregate.{
  Sample, Aggregate, clamp_latency, details_kept, save, new_aggregate, record_error, record_outcome,
  record_latency, record_sample, count_sample, record_all,
}

-- The value that is handed to the histogram lies in the range it was made for.
pub clamp_latency_bounds :
    (value : ℤ) → (min_latency_us ≤ clamp_latency value) × (clamp_latency value ≤ max_latency_us)
unfolding clamp_latency
clamp_latency_bounds (pos n) = ground arith
clamp_latency_bounds (negsuc n) = ground arith

module _ {ℓ} {H : Type ℓ} ⦃h : Hdr H⦄ where
  pub record IsConsistent (a : Aggregate H) : Type 0 where
    pub counted : a.count ≡ a.successes + total a.errors_by_class
    pub coded : total a.status_by_code ≤ a.count
    pub timed : h.total_count a.corrected ≤ a.count
    pub served : h.total_count a.service ≤ h.total_count a.corrected
    pub kept : length a.details ≤ details_kept
    pub detailed : total a.details ≤ total a.errors_by_class

  module _ (laws : CountsValues H) where
    pub total_count-save : (a : H) (value : ℤ) → h.total_count (save a value) ≡ h.total_count a + 1
    unfolding save
    total_count-save a value =
        let (low, high) = clamp_latency_bounds value in
        laws.record_counts (clamp_latency value) a low high

    new_aggregate-IsConsistent :
        (step key protocol : String) → IsConsistent (new_aggregate step key protocol)
    unfolding new_aggregate
    new_aggregate-IsConsistent step key protocol = ground (arith, laws.new_empty)

    record_latency-IsConsistent :
        (s : Sample) (finished sent : Option ℕ) (a : Aggregate H)
        → h.total_count a.corrected < a.count
        → IsConsistent a
        → IsConsistent (record_latency s finished sent a)
    unfolding record_latency
    record_latency-IsConsistent s none sent a room c = c
    record_latency-IsConsistent s (some f) none a room c =
        ground (arith, total_count-save a.corrected (sub_ℕ f s.scheduled_at))
    record_latency-IsConsistent s (some f) (some g) a room c = ground (
      arith,
      total_count-save a.corrected (sub_ℕ f s.scheduled_at),
      total_count-save a.service (sub_ℕ f g),
    )

    record_outcome_room :
        (s : Sample) (a : Aggregate H)
        → h.total_count a.corrected < a.count
        → h.total_count (record_outcome s a).corrected < (record_outcome s a).count
    unfolding record_outcome record_error
    record_outcome_room s a room = ground arith

    -- The outcome is counted once the sample itself has been.
    record_outcome-IsConsistent :
        (s : Sample) (a : Aggregate H)
        → a.count ≡ a.successes + total a.errors_by_class + 1
        → total a.status_by_code ≤ a.count
        → h.total_count a.corrected ≤ a.count
        → h.total_count a.service ≤ h.total_count a.corrected
        → length a.details ≤ details_kept
        → total a.details ≤ total a.errors_by_class
        → IsConsistent (record_outcome s a)
    unfolding record_outcome record_error
    record_outcome-IsConsistent s a p q r t u v = ground (
      arith,
      total-add_count s.class 1 a.errors_by_class,
      total-add_count s.detail 1 a.details,
      length-add_count-le s.detail 1 a.details,
    )

    -- One sample more, counted with its outcome and its times.
    pub record_sample-IsConsistent :
        (s : Sample) (a : Aggregate H) → IsConsistent a → IsConsistent (record_sample s a)
    unfolding record_sample count_sample
    record_sample-IsConsistent s a c =
        record_latency-IsConsistent s s.finished_at s.sent_at _
          (record_outcome_room s _ (omega arith))
          (record_outcome-IsConsistent s _ (omega arith)
            (ground (arith, total-add_count s.status 1 a.status_by_code)) (omega arith)
            (omega arith) (omega arith) (omega arith))

    pub record_all-IsConsistent :
        (samples : List Sample) (a : Aggregate H)
        → IsConsistent a
        → IsConsistent (record_all samples a)
    unfolding record_all
    record_all-IsConsistent [] a c = c
    record_all-IsConsistent (s ∷ samples) a c =
        record_all-IsConsistent samples (record_sample s a) (record_sample-IsConsistent s a c)
