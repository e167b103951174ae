-- ===== src/Lib.antt =====
-- braunrate, a load generator: a scenario declares steps and a load; the engine dispatches
-- iterations at the instants of a plan; a collector counts what the steps measured; a document is
-- built of it, checked for sanity, judged by the rules of the scenario, and turned into an exit code.
-- A server starts such runs and lets clients follow and cancel them.
--
-- Which file models which part (paths are from the repository's root):
--   Scenario, Scenario/Mix: internal/scenario/model.go, correlation.go and mix.go, with stepsOf of
--     internal/engine/executor.go. HasMix is has_mix, MixOrder mix_order, DeclaredShare
--     declared_share, greatestCommonDivisor greatest_common_divisor.
--   Engine: driveOpen of internal/engine/executor.go and the virtual clock of clock.go. A turn of the
--     loop is drive_open; the end of an iteration, passing time and the end of the context are turns
--     of their own, in any order.
--   Engine/Profile: internal/engine/plan.go. CompilePlan is compile_plan, InstantOf instant_of, RateAt
--     rate_at; Scenario/Load has the load of internal/scenario/model.go.
--   Engine/Closed: driveClosed of internal/engine/executor.go, a turn for each point at which another
--     user may come in between.
--   Engine/Iteration/Start: the sources and the credential of runIteration, and the whole of it.
--   Engine/Iteration: runStep, check and the loop over the steps of runIteration in the same file. What
--     a step calls outside the executor (protocols, substitution, captures, assertions) is a record
--     of functions, Services.
--   Scenario/References, Scenario/Secrets: interpolacao.go and credentials.go of internal/scenario.
--     expandEnvironment is expand_environment, refuseLiteralCredentials refuse_literal_credentials.
--   Scenario/Validation: Validate of internal/scenario/validation.go with checkMix, checkBrokers and
--     checkSLOSteps of mix.go and brokers.go; a problem stands for its sentence.
--   Recorder, Recorder/Flow: groupByRoute and correlate of internal/recorder/build.go.
--   Correlation: internal/correlation/correlation.go. Extract is extract.
--   Correlation/Assertions: internal/correlation/assertion.go, Evaluate is evaluate_assertion.
--   Values: internal/runtime/values.go. Resolve is resolve, the function it hands to the regular
--     expression substitute.
--   Metrics/Aggregate: internal/metrics/aggregate.go. Record is record_sample, Add is add.
--   Metrics/Collector: internal/metrics/collector.go. Record is offer, apply apply_sample, bucketDe
--     open_bucket, Close close; an Action is what one goroutine does under the mutex.
--   Metrics/Document, Metrics/Sanity: internal/metrics/result.go, verdict.go and sanity.go.
--   Metrics/Building: BuildDocument of internal/metrics/result.go.
--   Comparison: internal/report/comparison/comparison.go. collectCaveats is collect_caveats,
--     compareDistribution compare_distribution, compareSteps compare_steps; baseline_of is what the
--     regression rules get of it.
--   Slo: internal/slo/slo.go. Evaluate is evaluate, evaluateRule evaluate_rule.
--   Runner: the end of ExecuteSpec and verdict of internal/runner/runner.go.
--   Server, Server/Turns: internal/server/runs.go. finish is a sequence of critical sections, one for
--     each turn of finish_step, between which the handlers and the progress of the executor take
--     theirs.
--   Data: Next of the file source and the documents of internal/data/data.go.
--   Credential: ensureToken of internal/auth/auth.go; the auth request is given by what it leads to.
--   Subscription: deliver and await of internal/protocol/wait/subscription.go. deliver is deliver and
--     send_pending; await is await_arrival, give_up and take_message.
--   Texts: Grouped of internal/text/plural.go; Texts/Nearest: internal/text/nearest.go, Closest is
--     closest, editDistance edit_distance.
--   Importer: internal/importer/curl.go. split is Importer/Splitting, interpretar Importer/Curl;
--     FromCurl is from_curl up to the request it has read.
--   Metrics/Distributions: Merged of a distribution in internal/metrics/aggregate.go, with the
--     encoding of its histogram. Metrics/Parts, Metrics/Merging: internal/metrics/merge.go, Merge is
--     merge; convertStep of result.go is convert_step.
--   Metrics/Variety: internal/metrics/variety.go and shape.go. varietyCounter.record is
--     record_value, a round of buildVarieties build_variety, one of VarietyWarnings warnings_of.
--   Base: shared helpers; a Go map is a list of entries, a float64 an interface, an int64 that is
--     never negative a natural number.
--   Examples, GateExamples, RunExamples, IterationExamples, NameExamples, MergeExamples,
--     VarietyExamples, CompareExamples, ValueExamples, EngineExamples, ScenarioExamples: the theorems
--     at concrete inputs.
--
-- What the code calls of other libraries is a parameter with the laws it relies on: the HDR
-- histogram (it counts every value in its range, merging adds the counts, and its encoding is read
-- back), sort.Slice and sort.Strings (they rearrange), math/rand (it draws below its bound). Case
-- folding, url.Parse, ParseFloat, JSON paths and regular expressions are parameters without laws.
-- No function runs on fuel: the loops are structural, and the common divisor
-- recurses on the well-founded order. Not modelled: the protocols, which are network clients; the
-- reading of the fields of a scenario; and the sentences that reports print.
pub mod Base
pub mod Scenario
pub mod Protocol
pub mod Metrics
pub mod Slo
pub mod Runner
pub mod Server
pub mod Data
pub mod Subscription
pub mod Engine
pub mod Texts
pub mod Correlation
pub mod Values
pub mod Comparison
pub mod Importer
pub mod Credential
pub mod Recorder
mod Examples
mod RunExamples
mod GateExamples
mod IterationExamples
mod NameExamples
mod MergeExamples
mod VarietyExamples
mod CompareExamples
mod ValueExamples
mod EngineExamples
mod ScenarioExamples
