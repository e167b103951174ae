-- ===== src/Metrics.antt =====
-- internal/metrics: what a run measured. `Hdr` is the histogram library, which the code only calls.
pub mod Aggregate
pub mod Collector
pub mod Document
pub mod Building
pub mod Distributions
pub mod Variety
pub mod Parts
pub mod Merging
pub mod Sanity
use braunrate.Base.{ℕ, ◌+◌, ◌≤◌, ◌≡◌, refl, List, [], ◌∷◌, ◌++◌, arith, length, length-append}

-- Values are microseconds, a quantile is given in thousandths.
pub record Hdr {ℓ} (H : Type ℓ) : Type ℓ where
  pub new : H
  pub record_value : ℕ → H → H
  pub merge : H → H → H
  pub total_count : H → ℕ
  pub value_at_quantile : ℕ → H → ℕ

abbrev pub min_latency_us : ℕ
min_latency_us = 1

abbrev pub max_latency_us : ℕ
max_latency_us = 600_000_000

-- What the code relies on: a histogram made for the range counts every value inside it (a value
-- outside is refused), and merging adds the counts.
pub record CountsValues {ℓ} (H : Type ℓ) ⦃h : Hdr H⦄ : Type ℓ where
  pub new_empty : h.total_count h.new ≡ 0
  pub record_counts :
      (v : ℕ) (a : H)
      → min_latency_us ≤ v
      → v ≤ max_latency_us
      → h.total_count (h.record_value v a) ≡ h.total_count a + 1
  pub merge_adds : (a b : H) → h.total_count (h.merge a b) ≡ h.total_count a + h.total_count b

-- The values themselves meet the laws.
instance abbrev pub list_hdr : Hdr (List ℕ)
list_hdr = record {
  new = [];
  record_value = λ v a. v ∷ a;
  merge = λ a b. a ++ b;
  total_count = length;
  value_at_quantile = λ q a. 0;
}

pub list-CountsValues : CountsValues (List ℕ)
list-CountsValues = record {
  new_empty = refl;
  record_counts = λ v a p q. omega arith;
  merge_adds = λ a b. length-append a b;
}
