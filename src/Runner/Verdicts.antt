-- ===== src/Runner/Verdicts.antt =====
-- What the exit code of a run says.
use braunrate.Base.{◌≡◌, ◌↔◌, refl, Bool, true, false, Option, List, [], ◌∷◌, map, all, All, arith}
use braunrate.Base.Float.{Float64}
use braunrate.Scenario.{SloRule}
use braunrate.Metrics.Document.{Document, DocumentInput, valid}
use braunrate.Metrics.Sanity.{check_sanity}
use braunrate.Metrics.Sanity.Measured.{IsMeasured, check_sanity-IsMeasured}
use braunrate.Slo.{Baseline, evaluate, evaluate_rule, index_steps}
use braunrate.Runner.{verdict, judge, exit_passed, exit_slo, exit_invalid}

all_iff {ℓ κ} :
    {A : Type ℓ} {B : Type κ} (g : A → B) (p : B → Bool) (xs : List A)
    → (all p (map g xs) ≡ true) ↔ All (λ x. p (g x) ≡ true) xs
all_iff g p [] = ground arith
all_iff g p (x ∷ xs) = ground (arith, all_iff g p xs)

module _ {ℓ} {W : Type ℓ} ⦃f : Float64 W⦄ where
  -- Every rule passes on the document.
  pub PassesAll : List (SloRule W) → Option (Baseline W) → Document W → Type 0
  PassesAll rules baseline d =
      All (λ rule. (evaluate_rule rule d (index_steps d.steps []) baseline).passed ≡ true) rules

  -- The document as `BuildDocument` leaves it.
  abbrev checked_document : Document W → DocumentInput → Document W
  checked_document d input = record d { sanity = check_sanity d input }

  valid_checked :
      (d : Document W) (input : DocumentInput)
      → valid (checked_document d input) ≡ (check_sanity d input).valid
  unfolding valid check_sanity
  valid_checked d input = refl

  passed_iff :
      (rules : List (SloRule W)) (baseline : Option (Baseline W)) (d : Document W)
      → ((evaluate rules d baseline).passed ≡ true) ↔ PassesAll rules baseline d
  unfolding evaluate PassesAll
  passed_iff rules baseline d =
      all_iff (λ rule. evaluate_rule rule d (index_steps d.steps []) baseline) (λ e. e.passed) rules

  exits_iff :
      (rules : List (SloRule W)) (baseline : Option (Baseline W)) (d : Document W)
      → (((judge rules baseline d).1 ≡ exit_passed)
          ↔ ((valid d ≡ true) × ((evaluate rules d baseline).passed ≡ true)))
        × (((judge rules baseline d).1 ≡ exit_slo)
            ↔ ((valid d ≡ true) × ((evaluate rules d baseline).passed ≡ false)))
        × (((judge rules baseline d).1 ≡ exit_invalid) ↔ (valid d ≡ false))
        × (valid d ≡ false → (judge rules baseline d).0 ≡ d)
  unfolding judge verdict valid
  exits_iff rules baseline d = (ground arith, ground arith, ground arith, λ v. ground (arith, v))

  -- A run is worth 0 exactly when it measured what it set out to measure and every rule passed, 1
  -- exactly when it measured and some rule did not pass, and 3 exactly when it did not measure; then
  -- its document keeps the verdict it had, since no rule is read.
  pub judge_exit :
      (rules : List (SloRule W)) (baseline : Option (Baseline W)) (d : Document W)
      (input : DocumentInput)
      → let checked = record d { sanity = check_sanity d input } in
        let result = judge rules baseline checked in
        ((result.1 ≡ exit_passed) ↔ (IsMeasured d input × PassesAll rules baseline checked))
        × ((result.1 ≡ exit_slo) ↔ (IsMeasured d input × (PassesAll rules baseline checked → ⊥)))
        × ((result.1 ≡ exit_invalid) ↔ (IsMeasured d input → ⊥))
        × ((IsMeasured d input → ⊥) → result.0 ≡ checked)
  judge_exit rules baseline d input =
      let checked = checked_document d input in
      let (zero_iff, one_iff, three_iff, kept) = exits_iff rules baseline checked in
      let same = valid_checked d input in
      let measured = check_sanity-IsMeasured d input in
      let passed = passed_iff rules baseline checked in
      (
        ground (arith, zero_iff, same, measured, passed),
        ground (arith, one_iff, same, measured, passed),
        ground (arith, three_iff, same, measured),
        λ m. kept (ground (arith, m, same, measured)),
      )
