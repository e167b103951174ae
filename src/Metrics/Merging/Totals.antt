-- ===== src/Metrics/Merging/Totals.antt =====
-- internal/metrics/merge.go: the counters of a sum against those of its documents.
use mathlib.Core.List.{Perm}
use braunrate.Base.{
  ◌∙◌, ap, Unique, all, lookup, eq_iff, ℕ, ◌+◌, ◌≡◌, refl, String, string_eq, List, [], ◌∷◌, map,
  All, sum, arith,
}
use braunrate.Base.Float.{Float64}
use braunrate.Metrics.{Hdr}
use braunrate.Metrics.Document.{Distribution, OverallResult, Journey}
use braunrate.Metrics.Distributions.{Codec, IsFaithful, IsReadable, merged-IsReadable}
use braunrate.Metrics.Parts.{Scheduling, Part, ok}
use braunrate.Metrics.Merging.{
  merge, first_table, StepEntry, result_format_version, merge_all, with_rates, check_formats,
  check_runs, sum_overall, sum_journey, sum_scheduling, with_sums, Table, add_overall, add_journey,
  add_scheduling, add_documents,
}
use braunrate.Metrics.Merging.Sums.{Figure, at_name, IsReadableStep}
use braunrate.Metrics.Merging.Tables.{
  first_table-IsTable, all-Perm, all-keys, is_there, held, each, named, listed-at_name, each-keys,
  each-Perm, IsTable, add_steps-IsTable,
}

-- The counters of a document, besides those of its steps.
pub data Total : Type 0 where
  overall_count overall_successes overall_errors : Total
  journeys_started journeys_completed : Total
  sent completed late_dispatches dropped lost_samples peak_inflight : Total

abbrev pub total_of {ℓ} : {W : Type ℓ} → Total → Part W → ℕ
total_of overall_count p = p.overall.count
total_of overall_successes p = p.overall.successes
total_of overall_errors p = p.overall.errors
total_of journeys_started p = p.journey.started
total_of journeys_completed p = p.journey.completed
total_of sent p = p.scheduling.sent
total_of completed p = p.scheduling.completed
total_of late_dispatches p = p.scheduling.late_dispatches
total_of dropped p = p.scheduling.dropped_by_inflight_limit
total_of lost_samples p = p.scheduling.lost_samples
total_of peak_inflight p = p.scheduling.peak_inflight

total_of-with_sums {ℓ} :
    {W : Type ℓ} (d1 d2 d3 d4 d5 : Distribution W) (into document : Part W) (k : Total)
    → total_of k (
        with_sums
          (sum_overall d1 d2 into.overall document.overall)
          (sum_journey d3 d4 into.journey document.journey)
          (sum_scheduling d5 into.scheduling document.scheduling)
          into
          document)
      ≡ total_of k into + total_of k document
total_of-with_sums d1 d2 d3 d4 d5 into document overall_count = refl
total_of-with_sums d1 d2 d3 d4 d5 into document overall_successes = refl
total_of-with_sums d1 d2 d3 d4 d5 into document overall_errors = refl
total_of-with_sums d1 d2 d3 d4 d5 into document journeys_started = refl
total_of-with_sums d1 d2 d3 d4 d5 into document journeys_completed = refl
total_of-with_sums d1 d2 d3 d4 d5 into document sent = refl
total_of-with_sums d1 d2 d3 d4 d5 into document completed = refl
total_of-with_sums d1 d2 d3 d4 d5 into document late_dispatches = refl
total_of-with_sums d1 d2 d3 d4 d5 into document dropped = refl
total_of-with_sums d1 d2 d3 d4 d5 into document lost_samples = refl
total_of-with_sums d1 d2 d3 d4 d5 into document peak_inflight = refl

-- The counters of a name over all documents.
abbrev pub at_name_all {ℓ} : {W : Type ℓ} → Figure → String → List (Part W) → ℕ
at_name_all k name [] = 0
at_name_all k name (d ∷ documents) = at_name k name d.steps + at_name_all k name documents

module _ {ℓ κ} {W : Type ℓ} {H : Type κ} ⦃f : Float64 W⦄ ⦃h : Hdr H⦄ (c : Codec W H) where
  -- Each histogram of the document is absent or can be decoded.
  pub record IsReadablePart (p : Part W) : Type (ℓ ⊔ κ) where
    pub steps : All (IsReadableStep c) p.steps
    pub overall : IsReadable c p.overall.latency × IsReadable c p.overall.service_latency
    pub journey : IsReadable c p.journey.latency × IsReadable c p.journey.service_latency
    pub skew : IsReadable c p.scheduling.skew

  -- What the loop has in hand before each document, besides the table.
  record IsGathered (p : Part W) : Type (ℓ ⊔ κ) where
    overall : IsReadable c p.overall.latency × IsReadable c p.overall.service_latency
    journey : IsReadable c p.journey.latency × IsReadable c p.journey.service_latency
    skew : IsReadable c p.scheduling.skew

  gather :
      (into document : Part W)
      → IsFaithful W H c
      → IsGathered into
      → IsReadablePart document
      → (overall : OverallResult W) × (journey : Journey W) × (scheduling : Scheduling W)
        × (add_overall c into.overall document.overall ≡ ok overall)
        × (add_journey c into.journey document.journey ≡ ok journey)
        × (add_scheduling c into.scheduling document.scheduling ≡ ok scheduling)
        × IsGathered (with_sums overall journey scheduling into document)
        × ((k : Total)
            → total_of k (with_sums overall journey scheduling into document)
              ≡ total_of k into + total_of k document)
  unfolding add_overall add_journey add_scheduling
  gather into document l g r =
      let (d1, e1, r1) =
        merged-IsReadable c into.overall.latency document.overall.latency l g.overall.0
          r.overall.0 in
      let (d2, e2, r2) =
        merged-IsReadable c into.overall.service_latency document.overall.service_latency l
          g.overall.1 r.overall.1 in
      let (d3, e3, r3) =
        merged-IsReadable c into.journey.latency document.journey.latency l g.journey.0
          r.journey.0 in
      let (d4, e4, r4) =
        merged-IsReadable c into.journey.service_latency document.journey.service_latency l
          g.journey.1 r.journey.1 in
      let (d5, e5, r5) =
        merged-IsReadable c into.scheduling.skew document.scheduling.skew l g.skew r.skew in
      (
        sum_overall d1 d2 into.overall document.overall,
        sum_journey d3 d4 into.journey document.journey,
        sum_scheduling d5 into.scheduling document.scheduling,
        rw (e1, e2) refl,
        rw (e3, e4) refl,
        rw e5 refl,
        record { overall = (r1, r2); journey = (r3, r4); skew = r5 },
        total_of-with_sums d1 d2 d3 d4 d5 into document,
      )

  add_documents-totals :
      (documents : List (Part W)) (into : Part W) (t : Table W)
      → IsFaithful W H c
      → All IsReadablePart documents
      → IsGathered into
      → IsTable c t
      → (sum' : Part W) × (t' : Table W) × (add_documents c documents into t ≡ ok (sum', t'))
        × IsTable c t'
        × ((k : Total) → total_of k sum' ≡ total_of k into + sum (map (total_of k) documents))
        × ((k : Figure) (name : String)
            → held k (lookup name t'.steps)
              ≡ held k (lookup name t.steps) + at_name_all k name documents)
  unfolding add_documents
  add_documents-totals [] into t l _ g i =
      (into, t, refl, i, λ k. omega arith, λ k name. omega arith)
  add_documents-totals (d ∷ documents) into t l (r, rs) g i =
      let (t1, e1, i1, s1) = add_steps-IsTable c d.steps t l r.steps i in
      let (overall, journey, scheduling, eo, ej, es, g1, totals) = gather into d l g r in
      let (sum', t2, e2, i2, totals2, s2) =
        add_documents-totals documents (with_sums overall journey scheduling into d) t1 l rs g1
          i1 in
      (
        sum',
        t2,
        rw (e1, eo, ej, es) e2,
        i2,
        λ k. omega (arith, totals k, totals2 k),
        λ k name. omega (arith, s1 k name, s2 k name),
      )

check_formats_lem {ℓ} :
    {W : Type ℓ} (documents : List (Part W))
    → All (λ (d : Part W). d.format_version ≡ result_format_version) documents
    → check_formats documents ≡ ok tt
unfolding check_formats
check_formats_lem [] _ = refl
check_formats_lem (d ∷ documents) (e, es) =
    rw ((eq_iff d.format_version result_format_version).1 e) (check_formats_lem documents es)

check_runs_lem {ℓ} :
    {W : Type ℓ} (first : Part W) (documents : List (Part W))
    → All
        (λ (d : Part W). (d.run.spec ≡ first.run.spec) × (d.run.model ≡ first.run.model))
        documents
    → check_runs first.run documents ≡ ok tt
unfolding check_runs
check_runs_lem first [] _ = refl
check_runs_lem first (d ∷ documents) ((e, e'), es) =
    rw ((eq_iff d.run.spec first.run.spec).1 e, (eq_iff d.run.model first.run.model).1 e')
      (check_runs_lem first documents es)

total_of-with_steps {ℓ} :
    {W : Type ℓ} ⦃f : Float64 W⦄ (k : Total) (p : Part W) (steps : List (StepEntry W))
    → total_of k (record p { steps = steps; overall = with_rates p.run p.overall }) ≡ total_of k p
unfolding with_rates
total_of-with_steps overall_count p steps = refl
total_of-with_steps overall_successes p steps = refl
total_of-with_steps overall_errors p steps = refl
total_of-with_steps journeys_started p steps = refl
total_of-with_steps journeys_completed p steps = refl
total_of-with_steps sent p steps = refl
total_of-with_steps completed p steps = refl
total_of-with_steps late_dispatches p steps = refl
total_of-with_steps dropped p steps = refl
total_of-with_steps lost_samples p steps = refl
total_of-with_steps peak_inflight p steps = refl

module _ {ℓ κ} {W : Type ℓ} {H : Type κ} ⦃f : Float64 W⦄ ⦃h : Hdr H⦄ (c : Codec W H)
    (sort_strings : List String → List String) where
  -- A document that holds the totals of the others.
  abbrev pub IsSumOf : List (Part W) → Part W → Type 0
  IsSumOf documents p =
      ((k : Total) → total_of k p ≡ sum (map (total_of k) documents))
      × ((k : Figure) (name : String) → at_name k name p.steps ≡ at_name_all k name documents)

  merge_all-totals :
      (first : Part W) (others : List (Part W))
      → IsFaithful W H c
      → ((names : List String) → Perm (sort_strings names) names)
      → All (IsReadablePart c) (first ∷ others)
      → All (λ d. d.format_version ≡ result_format_version) (first ∷ others)
      → All (λ d. (d.run.spec ≡ first.run.spec) × (d.run.model ≡ first.run.model)) others
      → Unique (named first.steps)
      → (p : Part W) × (merge_all c sort_strings first others ≡ ok p) × IsSumOf (first ∷ others) p
  unfolding merge_all
  merge_all-totals first others l sorts (r, rs) formats runs unique =
      let (i0, s0) = first_table-IsTable c first.steps l r.steps unique in
      let (sum', t, e, i, totals, s) =
        add_documents-totals c others first
          (first_table first.steps (record { steps = []; order = [] })) l rs
          (record { overall = r.overall; journey = r.journey; skew = r.skew }) i0 in
      let names = sort_strings t.order in
      let (steps, listed_steps, same) =
        listed-at_name c names t.steps
          (all-Perm (is_there t.steps) (sorts t.order)
            ∙ ap (all (is_there t.steps)) i.in_order
            ∙ all-keys t.steps)
          i.entries in
      (
        record sum' { steps = steps; overall = with_rates sum'.run sum'.overall },
        rw
            (
              check_formats_lem (first ∷ others) formats,
              check_runs_lem first others runs,
              e,
              listed_steps,
            )
            refl,
        (
          λ k. total_of-with_steps k sum' steps ∙ totals k,
          λ k name.
              same k name
              ∙ each-Perm name (held k (lookup name t.steps)) (sorts t.order)
              ∙ ap (each name (held k (lookup name t.steps))) i.in_order
              ∙ each-keys name k t.steps (lookup name t.steps) i.unique refl
              ∙ s k name
              ∙ ap (λ n. n + at_name_all k name others) (s0 k name),
        ),
      )

  -- Documents of the current format, of one scenario and one model, whose histograms can be read
  -- and whose first one names no step twice, have a sum, for a sort that rearranges the names and a
  -- codec that reads back what it encodes: each counter of the whole, of the journey and of the
  -- scheduling is the sum of the documents', and so is each counter of the steps of a name, in
  -- whichever documents that name has a step.
  pub merge-totals :
      (first : Part W) (others : List (Part W))
      → IsFaithful W H c
      → ((names : List String) → Perm (sort_strings names) names)
      → All (IsReadablePart c) (first ∷ others)
      → All (λ d. d.format_version ≡ result_format_version) (first ∷ others)
      → All (λ d. (d.run.spec ≡ first.run.spec) × (d.run.model ≡ first.run.model)) others
      → Unique (named first.steps)
      → (p : Part W) × (merge c sort_strings (first ∷ others) ≡ ok p) × IsSumOf (first ∷ others) p
  unfolding merge
  merge-totals first [] l sorts r formats runs unique =
      (first, refl, (λ k. omega arith, λ k name. omega arith))
  merge-totals first (second ∷ others) l sorts r formats runs unique =
      merge_all-totals first (second ∷ others) l sorts r formats runs unique
