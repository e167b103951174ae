-- ===== src/CompareExamples.antt =====
-- The theorems on the comparison of two runs at concrete inputs. Whole numbers stand for the floats.
use braunrate.Base.{ℕ, String}
use braunrate.Base.Float.{whole_float}
use braunrate.Scenario.{SloRule, scope_regression, op_less}
use braunrate.Comparison.{Setting, Caveat}

abbrev setting_at : String → Setting
setting_at version = record {
  spec = "orders";
  target = "http://shop";
  host = "ci";
  cores = 8;
  plan = "constant up to 10/s for 10s";
  version = version;
  model = "open";
  auth_obtains = 0;
}

abbrev journey_rule : SloRule ℕ
journey_rule = record {
  scope = scope_regression;
  step = "";
  metric = "journeyP95";
  operator = op_less;
  limit = 5;
  unit = "%";
  text = "";
}

-- A reader of the caveats that writes the same text for all.
abbrev any_text : Caveat → String
any_text _ = "caveat"
