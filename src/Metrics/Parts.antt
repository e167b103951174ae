-- ===== src/Metrics/Parts.antt =====
-- internal/metrics/result.go: the documents that internal/metrics/merge.go adds up, and the errors of
-- the sum. A document is here the fields that the sum reads or changes; the values that it resets
-- and the sentence of the journey are left out.
use braunrate.Base.{ℕ, Bool, true, false, String, Option, none, some, List, Map}
use braunrate.Base.Int.{ℤ}
use braunrate.Metrics.Aggregate.{LatencyKind}
use braunrate.Metrics.Document.{Distribution, StepResult, OverallResult, Journey}

-- A `StepResult` with the fields that the sanity check does not read. A status is a number here, and
-- its decimal text in the program.
pub record StepEntry {ℓ} (W : Type ℓ) : Type ℓ where
  pub result : StepResult W
  pub latency_kind : Option LatencyKind
  pub status_by_code : Map ℕ ℕ
  pub details : Map String ℕ

pub record Scheduling {ℓ} (W : Type ℓ) : Type ℓ where
  pub sent : ℕ
  pub completed : ℕ
  pub late_dispatches : ℕ
  pub dropped_by_inflight_limit : ℕ
  pub lost_samples : ℕ
  pub peak_inflight : ℕ
  pub skew : Distribution W

-- Instants are nanoseconds since 1970.
pub record RunWindow : Type 0 where
  pub spec : String
  pub model : String
  pub start : ℕ
  pub end : ℕ
  pub duration_ms : ℤ
  pub max_inflight : ℕ
  pub auth_obtains : ℕ

pub record Part {ℓ} (W : Type ℓ) : Type ℓ where
  pub format_version : String
  pub run : RunWindow
  pub scheduling : Scheduling W
  pub journey : Journey W
  pub steps : List (StepEntry W)
  pub overall : OverallResult W

pub data Failure : Type 0 where
  nothing_to_add other_format other_scenario other_model unreadable_histogram nil_step : Failure

pub data Sum {ℓ} (A : Type ℓ) : Type ℓ where
  ok : A → Sum A
  fail : Failure → Sum A

infixl 5 ◌>>=◌
abbrev pub ◌>>=◌ {ℓ κ} : {A : Type ℓ} {B : Type κ} → Sum A → (A → Sum B) → Sum B
ok a >>= f = f a
fail e >>= f = fail e

abbrev pub guard : Bool → Failure → Sum (Unit {0})
guard true e = ok tt
guard false e = fail e

infixl 5 ◌>>◌
abbrev pub ◌>>◌ {ℓ} : {B : Type ℓ} → Sum (Unit {0}) → Sum B → Sum B
m >> k = m >>= λ _. k

abbrev pub present {ℓ} : {A : Type ℓ} → Option A → Sum A
present none = fail nil_step
present (some a) = ok a

abbrev pub readable {ℓ} : {A : Type ℓ} → Option A → Sum A
readable none = fail unreadable_histogram
readable (some a) = ok a
