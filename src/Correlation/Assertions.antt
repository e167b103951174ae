-- ===== src/Correlation/Assertions.antt =====
-- internal/correlation/assertion.go and ParseComparison of internal/scenario/yaml_correlation.go: the
-- assertions on a response. The sentences of a failure are left out. Parsing and printing of floats,
-- and what the libraries find in a body, are parameters.
pub mod Passing
use braunrate.Base.{
  ℕ, Bool, true, false, not, ◌&&◌, ◌||◌, String, Option, none, some, List, [], ◌∷◌, any, ◌==◌,
  if◌then◌else◌, drop, length,
}
use braunrate.Base.Codes.{Text, codes, text_eq, contains, has_prefix, trim_space}
use braunrate.Base.Float.{Float64}
use braunrate.Scenario.{
  Operator, op_equal, op_not_equal, op_less, op_less_or_equal, op_greater, op_greater_or_equal,
  op_contains, op_exists, op_unset, AssertionKind, assert_status, assert_body_contains, assert_json,
  assert_regex, assert_header, assert_unknown,
}
use braunrate.Protocol.{Response}
use braunrate.Correlation.{Library, trim_prefix, path_to_gjson, headers_of}

-- A value that is found in JSON: its number, if it is one, and its text.
pub record JsonResult {ℓ} (W : Type ℓ) : Type ℓ where
  pub number : Option W
  pub text : Text

pub record AssertionLibrary {ℓ κ} (R : Type ℓ) (W : Type κ) : Type (ℓ ⊔ κ) where
  pub base : Library R
  pub get_bytes : Text → Text → Option (JsonResult W)
  pub matches : R → Text → Bool
  pub parse_float : Text → Option W
  pub format_float : W → Text

-- What is asserted, its value with the variables resolved.
pub record Expectation : Type 0 where
  pub kind : AssertionKind
  pub target : Text
  pub operator : Operator
  pub expected : Text

pub data AssertionFailure : Type 0 where
  number_differs not_a_number body_lacks header_differs header_absent : AssertionFailure
  bad_expression no_match unknown_kind field_absent text_differs : AssertionFailure

abbrev pub failing_with : AssertionFailure → Bool → Option AssertionFailure
failing_with failure serves = if serves then none else some failure

-- The operators that a comparison may begin with, in the order in which they are tried.
abbrev prefixes : List (Operator × Text)
prefixes =
    (op_less_or_equal, codes "<=")
    ∷ (op_greater_or_equal, codes ">=")
    ∷ (op_not_equal, codes "!=")
    ∷ (op_less, codes "<")
    ∷ (op_greater, codes ">")
    ∷ []

abbrev parsed_from : List (Operator × Text) → Text → Option (Operator × Text)
parsed_from [] text = none
parsed_from ((operator, prefix) ∷ others) text =
    let rest = parsed_from others text in
    if has_prefix text prefix then some (operator, trim_space (trim_prefix prefix text)) else rest

module _ {ℓ κ} {R : Type ℓ} {W : Type κ} ⦃f : Float64 W⦄ (library : AssertionLibrary R W) where
  abbrev pub serves : Operator → W → W → Bool
  serves operator obtained expected = elim operator [
    | op_less ↦ f.lt obtained expected
    | op_less_or_equal ↦ f.le obtained expected
    | op_greater ↦ f.lt expected obtained
    | op_greater_or_equal ↦ f.le expected obtained
    | op_not_equal ↦ not (f.eq obtained expected)
    | _ ↦ f.eq obtained expected
  ]

  abbrev pub compared : Operator → W → Option W → Option AssertionFailure
  compared operator obtained none = some not_a_number
  compared operator obtained (some expected) =
      failing_with number_differs (serves operator obtained expected)

  -- `compareNumbers`
  unfoldable pub compare_numbers : Operator → W → Text → Option AssertionFailure
  compare_numbers operator obtained expected_text =
      compared operator obtained (library.parse_float (trim_space expected_text))

  abbrev pub compared_texts : Operator → Text → Text → Option AssertionFailure
  compared_texts operator obtained expected = elim operator [
    | op_not_equal ↦ failing_with text_differs (not (obtained == expected))
    | op_contains ↦ failing_with text_differs (contains obtained expected)
    | _ ↦ failing_with text_differs (obtained == expected)
  ]

  abbrev pub number_of : Option W → Option W → Option (W × W)
  number_of (some number) (some obtained) = some (number, obtained)
  number_of (some number) none = none
  number_of none obtained = none

  abbrev pub judged : Operator → Text → JsonResult W → Option (W × W) → Option AssertionFailure
  judged operator expected found none = compared_texts operator found.text expected
  judged operator expected found (some (number, obtained)) =
      compare_numbers operator obtained (library.format_float number)

  abbrev pub judge_found : Operator → Text → Option (JsonResult W) → Option AssertionFailure
  judge_found operator expected none = some field_absent
  judge_found operator expected (some found) = elim operator [
    | op_exists ↦ none
    | other ↦ judged other expected found (number_of (library.parse_float expected) found.number)
  ]

  -- `evaluateJSON`
  unfoldable pub evaluate_json : Expectation → Text → Option AssertionFailure
  evaluate_json e body =
      judge_found e.operator e.expected (library.get_bytes body (path_to_gjson e.target))

  -- The case of a header: the first one of the name decides.
  unfoldable pub evaluate_header : Expectation → List (Text × List Text) → Option AssertionFailure
  evaluate_header e [] = some header_absent
  evaluate_header e ((name, values) ∷ headers) =
      let rest = evaluate_header e headers in
      if library.base.equal_fold name e.target
      then failing_with header_differs (
          any
            (λ value.
              value == e.expected
              || (elim e.operator [ op_contains ↦ contains value e.expected | _ ↦ false ]))
            values)
      else rest

  abbrev matched : Text → Option R → Option AssertionFailure
  matched body none = some bad_expression
  matched body (some expression) = failing_with no_match (library.matches expression body)

  -- Evaluate
  unfoldable pub evaluate_assertion : Expectation → Response → Option AssertionFailure
  evaluate_assertion e r = elim e.kind [
    | assert_status ↦ compare_numbers e.operator (f.of_ℕ r.status) e.expected
    | assert_body_contains ↦ failing_with body_lacks (contains r.body e.expected)
    | assert_header ↦ evaluate_header e (headers_of library.base r)
    | assert_regex ↦ matched r.body (library.base.compile e.expected)
    | assert_json ↦ evaluate_json e r.body
    | assert_unknown ↦ some unknown_kind
  ]

-- `ParseComparison`
abbrev or_plain : Text → Option (Operator × Text) → Operator × Text
or_plain text (some parsed) = parsed
or_plain text none =
    if text == codes "exists"
    then (op_exists, [])
    else if text == codes "contains"
    then (op_contains, text)
    else if has_prefix text (codes "contains ")
    then (op_contains, trim_space (trim_prefix (codes "contains ") text))
    else (op_equal, text)

unfoldable pub parse_comparison : Text → Operator × Text
parse_comparison raw = let text = trim_space raw in or_plain text (parsed_from prefixes text)
