-- ===== src/Metrics/Building/Sums.antt =====
-- The counts of a document, and those of the run that it was made of.
use mathlib.Core.List.{Perm, Permᴰ}
use mathlib.Core.Logic.{∥∥₁_elim}
use native.Mathlib.Nat.{ℕ_set}
use braunrate.Base.{
  ℕ, ◌+◌, ◌-◌, ◌≤◌, ◌≡◌, refl, ◌∙◌, List, [], ◌∷◌, Map, map, sum, String, arith, Bool-cases, inl,
  inr,
}
use braunrate.Base.Int.{ℤ}
use braunrate.Base.Float.{Float64}
use braunrate.Metrics.{Hdr, CountsValues}
use braunrate.Metrics.Aggregate.{Aggregate, new_aggregate, add, errors}
use braunrate.Metrics.Collector.{Collector, Action, new_collector, run, close}
use braunrate.Metrics.Collector.Buckets.{over}
use braunrate.Metrics.Collector.Ledger.{IsBalanced}
use braunrate.Metrics.Collector.Settled.{offered, close-run-IsBalanced}
use braunrate.Metrics.Distributions.{Codec}
use braunrate.Metrics.Document.{
  without_corrected, Document, StepResult, Warning, drop_corrected_latency, is_closed,
}
use braunrate.Metrics.Merging.{convert_step}
use braunrate.Metrics.Building.{
  convert_step, BuildInput, add_all, step_results, counted_document, if_closed, build_document,
}

module _ {ℓ κ} {A : Type ℓ} {K : Type κ} where
  over-Permᴰ : (g : A → ℕ) {xs ys : Map K A} → Permᴰ xs ys → over g xs ≡ over g ys
  over-Permᴰ g Permᴰ.nil = refl
  over-Permᴰ g (Permᴰ.cons e d) = rw (e, over-Permᴰ g d) refl
  over-Permᴰ g (Permᴰ.swap p q) = rw (p, q) (omega arith)
  over-Permᴰ g (Permᴰ.trans d e) = over-Permᴰ g d ∙ over-Permᴰ g e

  pub over-Perm : (g : A → ℕ) {xs ys : Map K A} → Perm xs ys → over g xs ≡ over g ys
  over-Perm g p = ∥∥₁_elim p (ℕ_set _ _) (over-Permᴰ g)

module _ {ℓ κ} {H : Type ℓ} {W : Type κ} ⦃h : Hdr H⦄ ⦃f : Float64 W⦄ (codec : Codec W H) where
  add_all-counts :
      (m : Map String (Aggregate H)) (a : Aggregate H)
      → ((add_all codec m a).count ≡ a.count + over (λ (b : Aggregate H). b.count) m)
        × ((add_all codec m a).successes ≡ a.successes + over (λ (b : Aggregate H). b.successes) m)
  unfolding add_all add
  add_all-counts [] a = (omega arith, omega arith)
  add_all-counts ((key, b) ∷ m) a =
      let (counts, successes) = add_all-counts m (add a b) in
      (omega (arith, counts), omega (arith, successes))

  step_results-counts :
      (shares : Map String W) (m : Map String (Aggregate H))
      → (sum (map (λ (s : StepResult W). s.count) (step_results codec shares m))
          ≡ over (λ (b : Aggregate H). b.count) m)
        × (sum (map (λ (s : StepResult W). s.successes) (step_results codec shares m))
            ≡ over (λ (b : Aggregate H). b.successes) m)
  unfolding step_results convert_step
  step_results-counts shares [] = (refl, refl)
  step_results-counts shares ((key, b) ∷ m) =
      let (counts, successes) = step_results-counts shares m in
      (omega (arith, counts), omega (arith, successes))

  -- What a document says of its collector.
  pub record Accounts (c : Collector H W) (d : Document W) : Type 0 where
    pub whole : d.overall.count ≡ c.completed
    pub of_steps : sum (map (λ (s : StepResult W). s.count) d.steps) ≡ d.overall.count
    pub successes_of_steps :
        sum (map (λ (s : StepResult W). s.successes) d.steps) ≡ d.overall.successes
    pub failures : d.overall.errors ≡ d.overall.count - d.overall.successes
    pub dispatched : d.sent ≡ c.sent
    pub dropped : d.dropped_by_inflight_limit ≡ c.dropped_by_inflight_limit
    pub journeys : d.journey.started ≡ c.journeys_started
    pub journeys_completed : d.journey.completed ≡ c.journeys_completed
    pub journeys_within : d.journey.completed ≤ d.journey.started

  counted_document-Accounts :
      (c : Collector H W) (input : BuildInput W) (ordered : Map String (Aggregate H))
      → Perm ordered c.aggregates
      → IsBalanced c
      → Accounts c (counted_document codec ordered c input)
  unfolding new_aggregate errors
  counted_document-Accounts c input ordered p balanced =
      let overall = add_all-counts ordered (new_aggregate "global" "global" "") in
      let steps = step_results-counts input.declared_shares ordered in
      let counts = over-Perm (λ (b : Aggregate H). b.count) p in
      record {
        whole = omega (arith, overall.0, counts, balanced.by_step);
        of_steps = omega (arith, steps.0, overall.0);
        successes_of_steps = omega (arith, steps.1, overall.1);
        failures = refl;
        dispatched = refl;
        dropped = refl;
        journeys = refl;
        journeys_completed = refl;
        journeys_within = balanced.journeys_within;
      }

  -- Dropping the corrected latency of a closed loop changes no count.
  counts-without_corrected :
      (g : StepResult W → ℕ) (steps : List (StepResult W))
      → ((s : StepResult W) → g (without_corrected s) ≡ g s)
      → sum (map g (map without_corrected steps)) ≡ sum (map g steps)
  counts-without_corrected g [] same = refl
  counts-without_corrected g (s ∷ steps) same =
      omega (arith, same s, counts-without_corrected g steps same)

  if_closed-Accounts :
      (c : Collector H W) (d : Document W) → Accounts c d → Accounts c (if_closed codec d)
  unfolding if_closed drop_corrected_latency
  if_closed-Accounts c d a = elim (Bool-cases (is_closed d)) [
    | inl e ↦ rw e (record {
      whole = a.whole;
      of_steps =
          counts-without_corrected (λ (s : StepResult W). s.count) d.steps (λ s. refl) ∙ a.of_steps;
      successes_of_steps =
          counts-without_corrected (λ (s : StepResult W). s.successes) d.steps (λ s. refl)
          ∙ a.successes_of_steps;
      failures = a.failures;
      dispatched = a.dispatched;
      dropped = a.dropped;
      journeys = a.journeys;
      journeys_completed = a.journeys_completed;
      journeys_within = a.journeys_within;
    })
    | inr e ↦ rw e a
  ]

  -- For a histogram that counts its values and a sort that rearranges, whatever the goroutines of a
  -- run do to the collector and in whatever order: the document of the closed collector counts every
  -- sample that was recorded and not lost; the counts and the successes of its steps add up to those
  -- of the whole, and its errors are the rest; and it has the dispatches, the drops, the
  -- started journeys and the completed journeys of the collector, of which no more are complete than
  -- were started.
  pub build_document-Accounts :
      (laws : CountsValues H) (sort_keys : Map String (Aggregate H) → Map String (Aggregate H))
      (evaluate_warnings : Collector H W → Document W → List Warning) (threshold : ℤ) (capacity : ℕ)
      (actions : List (Action W)) (input : BuildInput W)
      → ((m : Map String (Aggregate H)) → Perm (sort_keys m) m)
      → let c = close {H = H} (run actions (new_collector threshold capacity)) in
        let d = build_document codec sort_keys evaluate_warnings c input in
        Accounts c d × (d.overall.count + c.lost_samples ≡ offered actions)
  unfolding build_document
  build_document-Accounts laws sort_keys evaluate_warnings threshold capacity actions input sorts =
      let c = close {H = H} (run actions (new_collector threshold capacity)) in
      let (balanced, settled, empty) = close-run-IsBalanced laws threshold capacity actions in
      let a = if_closed-Accounts c (counted_document codec (sort_keys c.aggregates) c input) (
        counted_document-Accounts c input (sort_keys c.aggregates) (sorts c.aggregates) balanced) in
      (
        record {
          whole = a.whole;
          of_steps = a.of_steps;
          successes_of_steps = a.successes_of_steps;
          failures = a.failures;
          dispatched = a.dispatched;
          dropped = a.dropped;
          journeys = a.journeys;
          journeys_completed = a.journeys_completed;
          journeys_within = a.journeys_within;
        },
        omega (arith, a.whole, settled),
      )
