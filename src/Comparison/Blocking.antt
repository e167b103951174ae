-- ===== src/Comparison/Blocking.antt =====
-- internal/report/comparison/comparison.go and internal/slo/slo.go: the caveats of a comparison and
-- the regression rules.
use braunrate.Base.{◌≡◌, true, String, string_eq, Option, none, some, List, []}
use braunrate.Metrics.Document.{Document, valid}
use braunrate.Slo.{Difference, Baseline}
use braunrate.Comparison.{Setting, difference_of}

-- Two runs that measured the same thing the same way.
pub record AreAlike {ℓ} {W : Type ℓ} (before : Setting) (old : Document W) (after : Setting)
    (new : Document W) : Type 0 where
  pub same_spec : before.spec ≡ after.spec
  pub same_target : before.target ≡ after.target
  pub same_host : before.host ≡ after.host
  pub same_cores : before.cores ≡ after.cores
  pub same_plan : before.plan ≡ after.plan
  pub same_version : before.version ≡ after.version
  pub same_model : before.model ≡ after.model
  pub valid_before : valid old ≡ true
  pub valid_after : valid new ≡ true

module _ {ℓ} {W : Type ℓ} where
  abbrev blocking_in : Option (Baseline W) → List String
  blocking_in none = []
  blocking_in (some b) = b.blocking

  abbrev difference_in : String → Option (Baseline W) → Option (Difference W)
  difference_in metric none = none
  difference_in metric (some b) = b.difference_of metric
