-- ===== src/Correlation/Assertions/Passing.antt =====
-- When an assertion on a field of JSON holds.
use braunrate.Base.{◌≡◌, ◌≢◌, true, Option, none, some}
use braunrate.Base.Codes.{Text, text_eq, contains}
use braunrate.Base.Float.{Float64}
use braunrate.Scenario.{Operator, op_not_equal, op_contains, op_exists}
use braunrate.Correlation.Assertions.{JsonResult, AssertionLibrary, serves, number_of}

-- What a text has to be: the very text expected, unless the assertion is that it differs from it or
-- contains it.
abbrev pub TextHolds : Operator → Text → Text → Type 0
TextHolds op_not_equal obtained expected = obtained ≢ expected
TextHolds op_contains obtained expected = contains obtained expected ≡ true
TextHolds _ obtained expected = obtained ≡ expected

module _ {ℓ κ} {R : Type ℓ} {W : Type κ} ⦃f : Float64 W⦄ (library : AssertionLibrary R W) where
  -- What the field has to be: where it and the expected value are both numbers, they compare as the
  -- operator says.
  abbrev pub NumberHolds : Operator → Text → JsonResult W → Option (W × W) → Type 0
  NumberHolds operator expected found none = TextHolds operator found.text expected
  NumberHolds operator expected found (some (number, obtained)) =
      serves library operator obtained number ≡ true

  abbrev pub FieldHolds : Operator → Text → Option (JsonResult W) → Type 0
  FieldHolds operator expected none = ⊥
  FieldHolds operator expected (some found) = elim operator [
    | op_exists ↦ Unit
    | other ↦
        NumberHolds other expected found
          (number_of library (library.parse_float expected) found.number)
  ]
