-- ===== src/Engine/Iteration/Reports.antt =====
-- What an iteration gives the collector.
use Prim.Native.String.{◌++◌ as ◌<>◌}
use braunrate.Base.{
  ap, ◌∙◌, ℕ, ◌+◌, ◌≤◌, ◌≡◌, refl, true, String, List, [], ◌∷◌, ◌++◌, map, length, arith, ◌⊎◌, inl,
  inr,
}
use braunrate.Scenario.{Step}
use braunrate.Protocol.{err_config}
use braunrate.Metrics.Aggregate.{Sample}
use braunrate.Metrics.Collector.Settled.{offered}
use braunrate.Metrics.{Hdr}
use braunrate.Base.Float.{Float64}
use braunrate.Metrics.Collector.{
  record_journey, offer, step, run, Collector, Action, offering, ending_journey,
}
use braunrate.Engine.Iteration.{run_steps}
use braunrate.Engine.Iteration.Chain.{run_steps-IsIteration}
use braunrate.Engine.Iteration.Start.{
  offerings, Source, IterationSetting, Prepared, failed, prepared, SourceAnswer, drawn, draw_error,
  prepare, set_all, failed_sample, reports, run_iteration,
}

module _ {ℓ κ} {H : Type ℓ} {W : Type κ} ⦃h : Hdr H⦄ ⦃f : Float64 W⦄ where
  -- Samples that are offered leave the journeys as they are.
  run-offerings :
      (samples : List Sample) (actions : List (Action W)) (c : Collector H W)
      → (d : Collector H W) × (run (map offering samples ++ actions) c ≡ run actions d)
        × (d.journeys_started ≡ c.journeys_started)
        × (d.journeys_completed ≡ c.journeys_completed)
  unfolding run step offer
  run-offerings [] actions c = (c, refl, refl, refl)
  run-offerings (s ∷ samples) actions c =
      let (d, runs, started, completed) = run-offerings samples actions (offer s c) in
      (d, runs, ground (arith, started), ground (arith, completed))

  -- One sample of a failure, or at most n samples and a journey that is complete or not.
  abbrev pub Reported : ℕ → List (Action W) → (before after : Collector H W) → Type 0
  Reported n actions before after =
      (offered actions ≡ 1)
        × (after.journeys_started ≡ before.journeys_started)
        × (after.journeys_completed ≡ before.journeys_completed)
      ⊎ (offered actions ≤ n)
        × (after.journeys_started ≡ before.journeys_started + 1)
        × (before.journeys_completed ≤ after.journeys_completed)
        × (after.journeys_completed ≤ before.journeys_completed + 1)

module _ {ℓ κ μ} {C : Type ℓ} {V : Type κ} {S : Type μ} (setting : IterationSetting C V S) where
  -- Sources that each draw a record, one after another, with the values and the state they leave.
  pub data AllDraw : ℕ → List (Source V S) → V → S → V → S → Type (ℓ ⊔ κ ⊔ μ) where
    none_left :
        {iteration : ℕ} {values : V} {state : S} → AllDraw iteration [] values state values state
    one_draws :
        {iteration : ℕ} {source : Source V S} {sources : List (Source V S)} {values last : V}
        {state after end : S} {row : List (String × String)}
        → source.next iteration state ≡ (drawn row, after)
        → AllDraw iteration sources (source.set_per_use (set_all setting row values)) after last end
        → AllDraw iteration (source ∷ sources) values state last end

  -- What follows the answer of a source.
  abbrev answered_by : Source V S → List (Source V S) → ℕ → V → SourceAnswer × S → Prepared V × S
  answered_by source sources iteration values answer = elim answer.0 [
    | drawn row ↦
        prepare setting sources iteration (source.set_per_use (set_all setting row values)) answer.1
    | draw_error text ↦
        (failed ("data: " <> source.name) source.name "data" err_config text, answer.1)
  ]

  prepare-answered :
      (source : Source V S) (sources : List (Source V S)) (iteration : ℕ) (values : V) (state : S)
      {answer : SourceAnswer × S}
      → source.next iteration state ≡ answer
      → prepare setting (source ∷ sources) iteration values state
        ≡ answered_by source sources iteration values answer
  unfolding prepare
  prepare-answered source sources iteration values state e =
      ap (answered_by source sources iteration values) e

  prepare-AllDraw :
      {iteration : ℕ} {before : List (Source V S)} {values last : V} {state end : S}
      → AllDraw iteration before values state last end
      → (sources : List (Source V S))
      → prepare setting (before ++ sources) iteration values state
        ≡ prepare setting sources iteration last end
  prepare-AllDraw none_left sources = refl
  prepare-AllDraw (one_draws e draws) sources =
      prepare-answered _ _ _ _ _ e ∙ prepare-AllDraw draws sources

  -- An iteration whose first sources each draw a record and whose next one does not gives the
  -- collector one sample and nothing else: the failure of that source, by its name. No step runs, no
  -- journey is counted, and neither a later source nor the credential is asked.
  pub run_iteration-fails {ω} :
      {W : Type ω} (before after : List (Source V S)) (source : Source V S)
      (user iteration scheduled now : ℕ) (timed : List (Step C × ℕ × ℕ)) (state end failing : S)
      (last : V) (text : String)
      → setting.sources ≡ before ++ source ∷ after
      → AllDraw iteration before (setting.new_values user iteration) state last end
      → source.next iteration end ≡ (draw_error text, failing)
      → run_iteration setting {W = W} user iteration scheduled now timed state ≡ (
        offering (
              failed_sample setting
                ("data: " <> source.name)
                source.name
                "data"
                err_config
                text
                scheduled
                now)
            ∷ [],
        failing,
      )
  unfolding run_iteration
  run_iteration-fails before after source user iteration scheduled now timed state end failing last
        text sources draws fails =
      ap (λ (start : Prepared V × S). (reports setting start.0 scheduled now timed, start.1))
        (ap (λ all. prepare setting all iteration (setting.new_values user iteration) state) sources
          ∙ prepare-AllDraw draws (source ∷ after)
          ∙ prepare-answered source after iteration last end fails)

  offered-offerings {ω} :
      {W : Type ω} (samples : List Sample) (actions : List (Action W))
      → offered (offerings setting samples ++ actions) ≡ length samples + offered actions
  offered-offerings [] actions = omega arith
  offered-offerings (s ∷ samples) actions = omega (arith, offered-offerings samples actions)

  reports-Reported {ω ν} :
      (H : Type ω) {W : Type ν} ⦃h : Hdr H⦄ ⦃f : Float64 W⦄ (start : Prepared V) (scheduled now : ℕ)
      (timed : List (Step C × ℕ × ℕ)) (c : Collector H W)
      → let actions = reports setting start scheduled now timed in
        Reported (length timed) actions c (run actions c)
  unfolding run step offer record_journey
  reports-Reported H (failed step key protocol class text) scheduled now timed c =
      inl (refl, ground arith, ground arith)
  reports-Reported H (prepared values header) scheduled now timed c =
      let ran = run_steps setting.services setting.closed true timed scheduled values header in
      let (chain, complete, fits, succeeded, stops) =
        run_steps-IsIteration setting.services setting.closed true timed scheduled values header in
      let ending = ending_journey scheduled ran.1 ran.2 ∷ [] in
      let (d, runs, started, completed) = run-offerings ran.0 ending c in
      inr (
        omega (arith, offered-offerings ran.0 ending, fits),
        rw runs (omega (arith, started)),
        rw runs (ground (arith, completed)),
        rw runs (ground (arith, completed)),
      )

  -- An iteration gives the collector one sample and no journey, when its data or its credential
  -- fails; or at most one sample for each of its steps and exactly one journey, complete or not.
  pub run_iteration-Reported {ω ν} :
      (H : Type ω) {W : Type ν} ⦃h : Hdr H⦄ ⦃f : Float64 W⦄ (user iteration scheduled now : ℕ)
      (timed : List (Step C × ℕ × ℕ)) (state : S) (c : Collector H W)
      → let actions = (run_iteration setting user iteration scheduled now timed state).0 in
        Reported (length timed) actions c (run actions c)
  unfolding run_iteration
  run_iteration-Reported H user iteration scheduled now timed state c =
      reports-Reported H _ scheduled now timed c
