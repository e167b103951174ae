-- ===== src/Server/Words.antt =====
-- The verdict that a client reads, from the stream, from the list of the runs and from the exit code.
use braunrate.Base.{◌≡◌, ◌↔◌, refl, Bool, true, false, length, eqb, arith}
use braunrate.Metrics.Document.{Document, valid}
use braunrate.Runner.{verdict, exit_passed, exit_slo, exit_invalid}
use braunrate.Server.{
  Result, measured, failure, invalid_result, described, failed_slo, passed_slo, outcome_of,
  verdict_of, word_of_document, last_word,
}

module _ {ℓ} {W : Type ℓ} where
  -- The list of the runs and the last line of the stream give an ended run the same word.
  pub verdict_of-outcome_of :
      (canceled : Bool) (result : Result W)
      → verdict_of (outcome_of canceled result) ≡ last_word canceled result
  unfolding verdict_of outcome_of last_word
  verdict_of-outcome_of canceled (failure message exit) = refl
  verdict_of-outcome_of true (measured d exit) = refl
  verdict_of-outcome_of false (measured d exit) = refl

  -- The word of a measured document and its exit code agree: 3 is an invalid result, 1 a verdict
  -- that failed, and a run passed only if its code is 0 and a criterion was evaluated. Where no
  -- criterion was evaluated, nothing is said to have passed.
  pub word_of_verdict :
      (d : Document W)
      → ((word_of_document d ≡ invalid_result) ↔ (verdict d ≡ exit_invalid))
        × ((word_of_document d ≡ passed_slo)
            ↔ ((verdict d ≡ exit_passed) × (eqb (length d.slo.evaluations) 0 ≡ false)))
        × (word_of_document d ≡ failed_slo → verdict d ≡ exit_slo)
        × (word_of_document d ≡ described → eqb (length d.slo.evaluations) 0 ≡ true)
  unfolding word_of_document verdict valid
  word_of_verdict d = (ground arith, ground arith, ground arith, ground arith)
