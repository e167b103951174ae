-- ===== src/Runner.antt =====
-- internal/runner/runner.go: what a run is worth to the caller, from its document.
pub mod Verdicts
use braunrate.Base.{ℕ, Bool, Option, List, if◌then◌else◌}
use braunrate.Base.Float.{Float64}
use braunrate.Scenario.{SloRule}
use braunrate.Metrics.Document.{Document, valid}
use braunrate.Slo.{Baseline, evaluate}

abbrev pub exit_passed : ℕ
exit_passed = 0

abbrev pub exit_slo : ℕ
exit_slo = 1

abbrev pub exit_bad_file : ℕ
exit_bad_file = 2

abbrev pub exit_invalid : ℕ
exit_invalid = 3

unfoldable pub verdict {ℓ} : {W : Type ℓ} → Document W → ℕ
verdict d = if valid d then (if d.slo.passed then exit_passed else exit_slo) else exit_invalid

-- The end of `ExecuteSpec`, from the document that the executor returned.
unfoldable pub judge {ℓ} :
    {W : Type ℓ} ⦃f : Float64 W⦄
    → List (SloRule W)
    → Option (Baseline W)
    → Document W
    → Document W × ℕ
judge rules baseline d =
    let judged = if valid d then record d { slo = evaluate rules d baseline } else d in
    (judged, verdict judged)
