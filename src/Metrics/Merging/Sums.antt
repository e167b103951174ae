-- ===== src/Metrics/Merging/Sums.antt =====
-- internal/metrics/merge.go: the sum of two steps.
use braunrate.Base.{
  ℕ, ◌+◌, ◌≤◌, ◌≡◌, refl, String, string_eq, ◌==◌, List, [], ◌∷◌, if◌then◌else◌, arith,
}
use braunrate.Base.Float.{Float64}
use braunrate.Metrics.{Hdr}
use braunrate.Metrics.Aggregate.{Aggregate, add, errors}
use braunrate.Metrics.Document.{Distribution}
use braunrate.Metrics.Distributions.{
  Codec, IsFaithful, IsReadable, merged-distribution_of, merged-IsReadable,
}
use braunrate.Metrics.Parts.{StepEntry, ok}
use braunrate.Metrics.Merging.{add_step, add_counters, convert_step}

-- The counters of a step that add up.
pub data Figure : Type 0 where
  of_count of_successes of_errors of_bytes of_messages : Figure

module _ {ℓ} {W : Type ℓ} where
  abbrev pub figure : Figure → StepEntry W → ℕ
  figure of_count s = s.result.count
  figure of_successes s = s.result.successes
  figure of_errors s = s.result.errors
  figure of_bytes s = s.result.bytes
  figure of_messages s = s.result.messages

  -- A counter over the steps of a name.
  abbrev pub at_name : Figure → String → List (StepEntry W) → ℕ
  at_name k name [] = 0
  at_name k name (s ∷ steps) =
      (if s.result.name == name then figure k s else 0) + at_name k name steps

  figure-add_counters :
      (d e : Distribution W) (into other : StepEntry W) (k : Figure)
      → figure k (add_counters d e into other) ≡ figure k into + figure k other
  figure-add_counters d e into other of_count = refl
  figure-add_counters d e into other of_successes = refl
  figure-add_counters d e into other of_errors = refl
  figure-add_counters d e into other of_bytes = refl
  figure-add_counters d e into other of_messages = refl

module _ {ℓ κ} {W : Type ℓ} {H : Type κ} ⦃f : Float64 W⦄ ⦃h : Hdr H⦄ (c : Codec W H) where
  abbrev pub IsReadableStep : StepEntry W → Type κ
  IsReadableStep s = IsReadable c s.result.latency × IsReadable c s.result.service_latency

  -- For a codec that reads back what it encodes, and aggregates with no more successes than
  -- samples, adding the steps of two documents is adding the aggregates they were made of: the
  -- counters, the counts by class, by status and by detail, and the distributions of the merged
  -- histograms.
  pub add_step-convert_step :
      (a b : Aggregate H) (share other : W)
      → IsFaithful W H c
      → a.successes ≤ a.count
      → b.successes ≤ b.count
      → add_step c (convert_step c a share) (convert_step c b other)
        ≡ ok (convert_step c (add a b) share)
  unfolding add_step convert_step add errors
  add_step-convert_step a b share other l p q =
      rw
        (
          merged-distribution_of c a.corrected b.corrected l,
          merged-distribution_of c a.service b.service l,
        )
        (ground (arith, p, q))

  -- The sum of readable steps is there.
  unfoldable pub IsStepSum : StepEntry W → StepEntry W → StepEntry W → Type κ
  IsStepSum into other s =
      IsReadableStep s
      × (s.result.name ≡ into.result.name)
      × ((k : Figure) → figure k s ≡ figure k into + figure k other)

  pub add_step_sum :
      (into other : StepEntry W)
      → IsFaithful W H c
      → IsReadableStep into
      → IsReadableStep other
      → (s : StepEntry W) × (add_step c into other ≡ ok s) × IsStepSum into other s
  unfolding add_step IsStepSum
  add_step_sum into other l (p, ps) (q, qs) =
      let (d, e, r) = merged-IsReadable c into.result.latency other.result.latency l p q in
      let (d', e', r') =
        merged-IsReadable c into.result.service_latency other.result.service_latency l ps qs in
      (
        add_counters d d' into other,
        rw (e, e') refl,
        ((r, r'), refl, figure-add_counters d d' into other),
      )
