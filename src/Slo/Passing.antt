-- ===== src/Slo/Passing.antt =====
-- internal/slo/slo.go: when a percentile rule on a step passes.
use braunrate.Base.{
  ap, sym, eq_iff, ◌⊎◌, ◌-◌, if◌then◌else◌, Map, ◌∙◌, ◌*◌, ◌≤◌, ◌≡◌, ◌≢◌, ◌↔◌, refl, true, false,
  ◌++◌, String, string_eq, ◌==◌, Option, none, some, List, [], ◌∷◌, All, lookup, insert,
  lookup-insert, arith, Option-cases, Bool-cases, inl, inr,
}
use braunrate.Base.Float.{Float64}
use braunrate.Scenario.{
  Operator, op_less, op_less_or_equal, op_greater, op_greater_or_equal, op_not_equal, SloRule,
  scope_step,
}
use braunrate.Metrics.Document.{Distribution, Document, StepResult}
use braunrate.Slo.{
  Baseline, Reading, is_latency_metric, index_steps, refuses_latency, compare, reading_of,
  obtained_of, judge_reading, evaluate_rule,
}

eq_sym : (a b : String) → (a == b) ≡ (b == a)
eq_sym a b = elim (Bool-cases (a == b)) [
  | inl p ↦ p ∙ sym ((eq_iff b a).1 (sym ((eq_iff a b).0 p)))
  | inr p ↦ elim (Bool-cases (b == a)) [
    | inl q ↦ (eq_iff a b).1 (sym ((eq_iff b a).0 q)) ∙ sym q
    | inr q ↦ p ∙ sym q
  ]
]

module _ {ℓ} {W : Type ℓ} ⦃f : Float64 W⦄ where
  -- The percentiles and the maximum of a distribution, by the names that a rule gives them.
  abbrev pub percentiles : Distribution W → Map String W
  percentiles d =
      ("p50", d.p50)
      ∷ ("p75", d.p75)
      ∷ ("p90", d.p90)
      ∷ ("p95", d.p95)
      ∷ ("p99", d.p99)
      ∷ ("p99.9", d.p999)
      ∷ ("max", d.max)
      ∷ []

  abbrev pub Meets : W → Operator → W → Type 0
  Meets obtained op_less limit = f.lt obtained limit ≡ true
  Meets obtained op_less_or_equal limit = f.le obtained limit ≡ true
  Meets obtained op_greater limit = f.lt limit obtained ≡ true
  Meets obtained op_greater_or_equal limit = f.le limit obtained ≡ true
  Meets obtained op_not_equal limit = f.eq obtained limit ≡ false
  Meets obtained _ limit = f.eq obtained limit ≡ true

  -- A step of the list that no later one shares its name with.
  abbrev pub IsLastNamed : String → List (StepResult W) → StepResult W → Type ℓ
  IsLastNamed name steps s =
      (before : List (StepResult W)) × (after : List (StepResult W)) × (steps ≡ before ++ s ∷ after)
      × (s.name ≡ name)
      × All (λ t. t.name ≢ name) after

  -- At least half of its requests worked, and the percentile of the rule meets the limit.
  abbrev pub PassesOn : SloRule W → StepResult W → Type ℓ
  PassesOn rule s =
      (s.count ≤ (s.count - s.errors) * 2)
      × (value : W) × (lookup rule.metric (percentiles s.latency) ≡ some value)
      × Meets value rule.operator rule.limit

  compare-Meets :
      (obtained limit : W) (operator : Operator)
      → (compare obtained operator limit ≡ true) ↔ Meets obtained operator limit
  unfolding compare
  compare-Meets obtained limit operator = elim operator [
    | op_less ↦ ground arith
    | op_less_or_equal ↦ ground arith
    | op_greater ↦ ground arith
    | op_greater_or_equal ↦ ground arith
    | op_not_equal ↦ ground arith
    | _ ↦ ground arith
  ]

  lookup-index_steps_others :
      (name : String) (steps : List (StepResult W)) (by_step : Map String (StepResult W))
      → All (λ t. t.name ≢ name) steps
      → lookup name (index_steps steps by_step) ≡ lookup name by_step
  unfolding index_steps
  lookup-index_steps_others name [] by_step _ = refl
  lookup-index_steps_others name (t ∷ steps) by_step (other, others) =
      lookup-index_steps_others name steps (insert t.name t by_step) others
      ∙ ground (arith, other, eq_iff t.name name, lookup-insert t.name name t by_step)

  lookup-index_steps :
      (name : String) (before : List (StepResult W)) (s : StepResult W)
      (after : List (StepResult W)) (by_step : Map String (StepResult W))
      → s.name ≡ name
      → All (λ t. t.name ≢ name) after
      → lookup name (index_steps (before ++ s ∷ after) by_step) ≡ some s
  unfolding index_steps
  lookup-index_steps name (t ∷ before) s after by_step named others =
      lookup-index_steps name before s after (insert t.name t by_step) named others
  lookup-index_steps name [] s after by_step named others =
      lookup-index_steps_others name after (insert s.name s by_step) others
      ∙ lookup-insert s.name name s by_step
      ∙ ap (λ b. if b then some s else lookup name by_step) ((eq_iff s.name name).1 named)

  index_steps-IsLastNamed :
      (name : String) (steps : List (StepResult W)) (by_step : Map String (StepResult W))
      (s : StepResult W)
      → lookup name (index_steps steps by_step) ≡ some s
      → IsLastNamed name steps s ⊎ (All (λ t. t.name ≢ name) steps × (lookup name by_step ≡ some s))
  unfolding index_steps
  index_steps-IsLastNamed name [] by_step s e = inr (_, e)
  index_steps-IsLastNamed name (t ∷ steps) by_step s e =
      elim (index_steps-IsLastNamed name steps (insert t.name t by_step) s e) [
        | inl (before, after, parts, named, others) ↦
            inl (t ∷ before, after, ap (λ l. t ∷ l) parts, named, others)
        | inr (others, found) ↦
            (let inserted = lookup-insert t.name name t by_step in
              elim (Bool-cases (t.name == name)) [
                | inl q ↦
                    (let same : some t ≡ some s = rw (inserted, q) at found in
                      let is_it : t ≡ s = cc in
                      inl (
                        [],
                        steps,
                        ap (λ u. u ∷ steps) is_it,
                        ap (λ u. u.name) (sym is_it) ∙ (eq_iff t.name name).0 q,
                        others,
                      ))
                | inr q ↦ inr (
                  ((λ named. ground (arith, q, (eq_iff t.name name).1 named)), others),
                  rw (inserted, q) at found,
                )
              ])
      ]

  some_of : {x y : W} → some x ≡ some y → x ≡ y
  some_of {x} e = ap (λ o. elim o [ none ↦ x | some z ↦ z ]) e

  lookup_empty : (name : String) (s : StepResult W) → lookup name [] ≡ some s → ⊥
  unfolding lookup
  lookup_empty name s e = ground (arith, e)

  lookup-percentiles :
      (metric : String) (rate : W) (r : Reading W)
      → is_latency_metric metric ≡ true
      → lookup metric (percentiles r.distribution) ≡ some (obtained_of metric rate r)
  unfolding lookup obtained_of is_latency_metric
  lookup-percentiles metric rate r named = ground (
    arith,
    named,
    eq_sym "p50" metric,
    eq_sym "p75" metric,
    eq_sym "p90" metric,
    eq_sym "p95" metric,
    eq_sym "p99" metric,
    eq_sym "p99.9" metric,
    eq_sym "max" metric,
  )

  passed_on_step :
      (rule : SloRule W) (d : Document W) (by_step : Map String (StepResult W))
      (baseline : Option (Baseline W)) (s : StepResult W)
      → rule.scope ≡ scope_step
      → is_latency_metric rule.metric ≡ true
      → lookup rule.step by_step ≡ some s
      → ((evaluate_rule rule d by_step baseline).passed ≡ true) ↔ PassesOn rule s
  unfolding evaluate_rule reading_of judge_reading refuses_latency
  passed_on_step rule d by_step baseline s scope metric found =
      let r : Reading W = record {
        distribution = s.latency;
        count = s.count;
        errors = s.errors;
        successes = s.successes;
        sampled = s.count;
        worked = s.count - s.errors;
      } in
      let rate = d.overall.effective_rate in
      let obtained = obtained_of rule.metric rate r in
      let quantile = lookup-percentiles rule.metric rate r metric in
      let meets = compare-Meets obtained rule.limit rule.operator in
      (
        λ p. (
          ground (arith, p, scope, metric, found),
          obtained,
          quantile,
          meets.0 (ground (arith, p, scope, metric, found)),
        ),
        λ (worked, value, named, met).
            (let same : value ≡ obtained = some_of (sym named ∙ quantile) in
              let compared = meets.1 (rw same at met) in
              ground (arith, worked, compared, scope, metric, found)),
      )

  not_passed_without :
      (rule : SloRule W) (d : Document W) (by_step : Map String (StepResult W))
      (baseline : Option (Baseline W))
      → rule.scope ≡ scope_step
      → lookup rule.step by_step ≡ none
      → (evaluate_rule rule d by_step baseline).passed ≡ false
  unfolding evaluate_rule reading_of judge_reading
  not_passed_without rule d by_step baseline scope missing = ground (arith, scope, missing)

  -- A percentile rule on a step passes exactly when the document has a step of that name, and of the
  -- last one of that name at least half of the requests worked and the percentile of the corrected
  -- latency that the rule names meets the limit.
  pub evaluate_rule-PassesOn :
      (rule : SloRule W) (d : Document W) (baseline : Option (Baseline W))
      → rule.scope ≡ scope_step
      → is_latency_metric rule.metric ≡ true
      → ((evaluate_rule rule d (index_steps d.steps []) baseline).passed ≡ true)
        ↔ ((s : StepResult W) × IsLastNamed rule.step d.steps s × PassesOn rule s)
  evaluate_rule-PassesOn rule d baseline scope metric =
      let by_step = index_steps d.steps [] in
      (
        λ p. elim (Option-cases (lookup rule.step by_step)) [
          | inl missing ↦
              absurd (ground (arith, p, not_passed_without rule d by_step baseline scope missing))
          | inr (s, found) ↦ elim (index_steps-IsLastNamed rule.step d.steps [] s found) [
            | inl last ↦
                (s, last, (passed_on_step rule d by_step baseline s scope metric found).0 p)
            | inr (_, nowhere) ↦ absurd (lookup_empty rule.step s nowhere)
          ]
        ],
        λ (s, last, passes).
            (let (before, after, parts, named, others) = last in
              let found : lookup rule.step by_step ≡ some s =
                ap (λ steps. lookup rule.step (index_steps steps [])) parts
                ∙ lookup-index_steps rule.step before s after [] named others in
              (passed_on_step rule d by_step baseline s scope metric found).1 passes),
      )
