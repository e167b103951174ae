-- ===== src/Slo/Gate.antt =====
-- What fails a regression rule, and what no rule covers.
use braunrate.Base.{
  Map, ◌∙◌, ◌<◌, ◌≡◌, ◌≢◌, ◌↔◌, refl, Bool, true, false, not, ◌&&◌, ◌++◌, String, string_eq, ◌==◌,
  Option, none, some, List, [], ◌∷◌, map, length, All, lookup, insert, lookup-insert, ltb, arith,
  Option-cases, Bool-cases, inl, inr,
}
use braunrate.Base.Float.{Float64}
use braunrate.Scenario.{SloRule, scope_step, scope_overall, scope_journey, scope_regression}
use braunrate.Metrics.Document.{
  steps_without_criterion, no_overall_criterion, no_journey_criterion, Document, StepResult,
  no_distribution, without_corrected, drop_corrected_latency,
}
use braunrate.Slo.{
  regression_missing, one_if, Baseline, Difference, Reading, is_latency_metric, index_steps,
  compare, reading_of, obtained_of, blank_evaluation, judge_reading, judge_difference, is_same,
  worse_percentage, evaluate_regression, evaluate_rule, declares, steps_without_rule, undeclared,
}

module _ {ℓ} {W : Type ℓ} ⦃f : Float64 W⦄ where
  judge_difference_fails :
      (rule : SloRule W) (blocking : List String) (o : Option (Difference W))
      → ((judge_difference rule blocking o).passed ≡ false) ↔ (
          (change : Difference W) × (o ≡ some change)
          × (blocking ≡ [])
          × (is_same change ≡ false)
          × (compare (worse_percentage change) rule.operator rule.limit ≡ false))
  judge_difference_fails rule blocking none =
      (λ p. ground (arith, p), λ (c, e, _, _, _). ground (arith, e))
  judge_difference_fails rule [] (some d) = (
    λ p. (d, refl, refl, ground (arith, p), ground (arith, p)),
    λ (c, e, _, same, missed). ground (arith, e, same, missed),
  )
  judge_difference_fails rule (text ∷ blocking) (some d) =
      (λ p. ground (arith, p), λ (c, e, none_blocks, _, _). ground (arith, none_blocks))

  -- A regression rule fails the build only against a baseline that has the metric, that no blocking
  -- caveat makes untrustworthy, with a change above the noise that misses the limit; and then it
  -- does fail.
  pub evaluate_regression_fails :
      (rule : SloRule W) (baseline : Option (Baseline W))
      → ((evaluate_regression rule baseline).passed ≡ false) ↔ (
          (b : Baseline W) × (change : Difference W) × (baseline ≡ some b)
          × (b.difference_of rule.metric ≡ some change)
          × (b.blocking ≡ [])
          × (is_same change ≡ false)
          × (compare (worse_percentage change) rule.operator rule.limit ≡ false))
  unfolding evaluate_regression
  evaluate_regression_fails rule none =
      (λ p. ground (arith, p), λ (b, c, e, _, _, _, _). ground (arith, e))
  evaluate_regression_fails rule (some b) =
      let found = judge_difference_fails rule b.blocking (b.difference_of rule.metric) in
      (
        λ p.
            (let (c, gets, free, same, missed) = found.0 p in
              (b, c, refl, gets, free, same, missed)),
        λ (b', c, e, gets, free, same, missed). found.1 (c, cc, cc, same, missed),
      )

  -- Every step that the index finds is one of the steps, where a field has one value in all.
  latency_of_indexed :
      (name : String) (steps : List (StepResult W)) (by_step : Map String (StepResult W))
      → All (λ s. s.latency ≡ no_distribution) steps
      → ((s : StepResult W) → lookup name by_step ≡ some s → s.latency ≡ no_distribution)
      → (s : StepResult W) → lookup name (index_steps steps by_step) ≡ some s
      → s.latency ≡ no_distribution
  unfolding index_steps
  latency_of_indexed name [] by_step _ known = known
  latency_of_indexed name (t ∷ steps) by_step (p, ps) known =
      latency_of_indexed name steps (insert t.name t by_step) ps (λ s e.
        let found = lookup-insert t.name name t by_step in
        elim (Bool-cases (t.name == name)) [
          | inl q ↦ (let h : some t ≡ some s = rw (found, q) at e in cc)
          | inr q ↦ known s (rw (found, q) at e)
        ])

  obtained_of_absent :
      (metric : String) (rate : W) (r : Reading W)
      → r.distribution ≡ no_distribution
      → is_latency_metric metric ≡ true
      → obtained_of metric rate r ≡ f.of_ℕ 0
  unfolding obtained_of is_latency_metric
  obtained_of_absent metric rate r absent named = ground (arith, named, absent)

  judge_reading_absent :
      (rule : SloRule W) (rate : W) (o : Option (Reading W))
      → ((r : Reading W) → o ≡ some r → r.distribution ≡ no_distribution)
      → is_latency_metric rule.metric ≡ true
      → (judge_reading rule rate o).obtained ≡ f.of_ℕ 0
  unfolding judge_reading blank_evaluation
  judge_reading_absent rule rate none absent named = refl
  judge_reading_absent rule rate (some r) absent named =
      ground (arith, obtained_of_absent rule.metric rate r (absent r refl) named)

  lookup_nothing :
      (name : String) (s : StepResult W) → lookup name [] ≡ some s → s.latency ≡ no_distribution
  unfolding lookup
  lookup_nothing name s e = ground (arith, e)

  All-without_corrected :
      (steps : List (StepResult W))
      → All (λ s. s.latency ≡ no_distribution) (map without_corrected steps)
  All-without_corrected [] = _
  All-without_corrected (s ∷ steps) = (refl, All-without_corrected steps)

  reading_of_absent :
      (rule : SloRule W) (d : Document W) (by_step : Map String (StepResult W))
      → rule.scope ≡ scope_step
      → ((s : StepResult W) → lookup rule.step by_step ≡ some s → s.latency ≡ no_distribution)
      → (r : Reading W) → reading_of rule d by_step ≡ some r
      → r.distribution ≡ no_distribution
  unfolding reading_of
  reading_of_absent rule d by_step scope absent r e =
      elim (Option-cases (lookup rule.step by_step)) [
        | inl q ↦ ground (arith, e, scope, q)
        | inr (s, q) ↦ ground (arith, e, scope, q, absent s q)
      ]

  evaluate_rule_step :
      (rule : SloRule W) (d : Document W) (by_step : Map String (StepResult W))
      (baseline : Option (Baseline W))
      → rule.scope ≡ scope_step
      → (evaluate_rule rule d by_step baseline).obtained
        ≡ (judge_reading rule d.overall.effective_rate (reading_of rule d by_step)).obtained
  unfolding evaluate_rule
  evaluate_rule_step rule d by_step baseline scope = ground (arith, scope)

  -- In the document of a closed loop a percentile rule on a step obtains 0, whatever the steps
  -- measured: it reads the corrected latency, which is not there.
  pub evaluate_rule_closed :
      (rule : SloRule W) (d : Document W) (baseline : Option (Baseline W))
      → rule.scope ≡ scope_step
      → is_latency_metric rule.metric ≡ true
      → let closed = drop_corrected_latency d in
        (evaluate_rule rule closed (index_steps closed.steps []) baseline).obtained ≡ f.of_ℕ 0
  unfolding drop_corrected_latency
  evaluate_rule_closed rule d baseline scope metric =
      let closed = drop_corrected_latency d in
      let by_step = index_steps closed.steps [] in
      let judged =
        judge_reading_absent rule closed.overall.effective_rate (reading_of rule closed by_step)
          (reading_of_absent rule closed by_step scope (
            latency_of_indexed rule.step closed.steps [] (All-without_corrected d.steps)
              (lookup_nothing rule.step)))
          metric in
      evaluate_rule_step rule closed by_step baseline scope ∙ judged

  missing_none :
      (a b : Bool) (names : List String) (compared : Bool) (baseline : Option (Baseline W))
      → (one_if a no_journey_criterion
            ++ one_if b no_overall_criterion
            ++ one_if (ltb 0 (length names)) (steps_without_criterion names)
            ++ regression_missing compared baseline
          ≡ [])
        ↔ ((a ≡ false) × (b ≡ false) × (names ≡ []) × (compared ≡ true) × (baseline ≢ none))
  missing_none true b names compared baseline = ground arith
  missing_none false true names compared baseline = ground arith
  missing_none false false (n ∷ names) compared baseline = ground arith
  missing_none false false [] false baseline = ground arith
  missing_none false false [] true none = ground arith
  missing_none false false [] true (some b) = ground arith

  -- Nothing is left undeclared exactly when the rules cover the whole run: the journey where one of
  -- more than one step started, the totals, every step that has a result, and the comparison with
  -- an earlier run that was given.
  pub undeclared_none :
      (rule : SloRule W) (others : List (SloRule W)) (d : Document W)
      (baseline : Option (Baseline W))
      → let rules = rule ∷ others in
        (undeclared rules d baseline ≡ []) ↔ (
          (0 < d.journey.started → 1 < length d.steps → declares scope_journey rules ≡ true)
          × (declares scope_overall rules ≡ true)
          × (steps_without_rule d.steps rules ≡ [])
          × (declares scope_regression rules ≡ true)
          × (baseline ≢ none))
  unfolding undeclared
  undeclared_none rule others d baseline =
      let missed =
        missing_none
          (not (declares scope_journey (rule ∷ others))
            && ltb 0 d.journey.started
            && ltb 1 (length d.steps))
          (not (declares scope_overall (rule ∷ others)))
          (steps_without_rule d.steps (rule ∷ others)) (declares scope_regression (rule ∷ others))
          baseline in
      (
        (λ p.
            (let (journeys, overalls, steps, regression, given) = missed.0 p in
              (ground (arith, journeys), ground (arith, overalls), steps, regression, given))),
        λ (journeys, overalls, steps, regression, given).
            missed.1 (ground (arith, journeys), ground (arith, overalls), steps, regression, given),
      )
