-- ===== src/Scenario.antt =====
-- internal/scenario/model.go and internal/scenario/correlation.go: what a scenario declares.
-- A Go string that is compared with named constants is an enumeration of those constants.
pub mod Load
pub mod References
pub mod Secrets
pub mod Validation
pub mod Mix
use braunrate.Base.{ℕ, Bool, String, List, Map}

pub data Operator : Type 0 where
  op_equal op_not_equal op_less op_less_or_equal op_greater op_greater_or_equal : Operator
  op_contains op_exists op_unset : Operator

pub data Check : Type 0 where
  check_status : ℕ → Check
  check_body : String → Check

pub data CaptureOrigin : Type 0 where
  capture_json capture_header capture_cookie capture_regex capture_body : CaptureOrigin
  capture_status capture_unknown : CaptureOrigin

pub record Capture : Type 0 where
  pub variable : String
  pub origin : CaptureOrigin
  pub expression : String
  pub required : Bool
  pub default : String

pub data AssertionKind : Type 0 where
  assert_status assert_body_contains assert_json assert_regex assert_header : AssertionKind
  assert_unknown : AssertionKind

pub record Assertion : Type 0 where
  pub kind : AssertionKind
  pub target : String
  pub operator : Operator
  pub value : String

-- A step over the protocol's own configuration type. The weight is a whole number above zero
-- where it is declared (the parser and the DSL refuse any other), and 0 where it is not.
pub record Step {ℓ} (C : Type ℓ) : Type ℓ where
  pub name : String
  pub protocol : String
  pub config : C
  pub weight : ℕ
  pub checks : List Check
  pub captures : List Capture
  pub assertions : List Assertion

pub data SloScope : Type 0 where
  scope_step scope_overall scope_journey scope_regression : SloScope

-- The metric is the text of the rule; `W` is the type of the limit.
pub record SloRule {ℓ} (W : Type ℓ) : Type ℓ where
  pub scope : SloScope
  pub step : String
  pub metric : String
  pub operator : Operator
  pub limit : W
  pub unit : String
  pub text : String

pub data ConsumePolicy : Type 0 where
  consume_sequential consume_random consume_circular consume_unique_per_user : ConsumePolicy
