-- ===== src/VarietyExamples.antt =====
-- The theorems on the variety of the values at concrete inputs. Whole numbers stand for the floats.
use braunrate.Base.{
  ℕ, ◌≡◌, ◌≤◌, ◌↔◌, true, false, Option, none, some, List, [], ◌∷◌, Map, length, any, lookup,
}
use braunrate.Base.Codes.{text_eq, Text, codes}
use braunrate.Base.Float.{whole_float}
use braunrate.Base.Int.{ℤ, pos}
use braunrate.Metrics.Variety.{
  build_variety, record_values, new_counter, warnings_of, body_shape, is_available, available_of,
}
use braunrate.Metrics.Variety.Counting.{distinct_of}
use braunrate.Metrics.Variety.Concentration.{invalidates, warnings_of-build_variety}

-- One digit is a number.
abbrev parse_digit : Text → Option ℕ
parse_digit [] = none
parse_digit (c ∷ []) = some c
parse_digit (c ∷ d ∷ text) = none

abbrev one_customer : List Text
one_customer = codes "cust-1" ∷ codes "cust-1" ∷ []

abbrev offered : Map Text ℤ
offered = (codes "customer", pos 500) ∷ []

warnings_of-build_variety_example :
    (any invalidates (
        warnings_of (
          build_variety
            (λ s. s)
            offered
            (codes "customer")
            (record_values parse_digit one_customer (new_counter none))))
      ≡ true)
    ↔ (body_shape (codes "customer") ≡ false)
      × (length (distinct_of one_customer) ≡ 1)
      × (2 ≤ 2)
      × (is_available (available_of (lookup (codes "customer") offered)) 1 ≡ false)
      × (is_available (available_of (lookup (codes "customer") offered)) 0 ≡ false)
      × (false ≡ false)
warnings_of-build_variety_example =
    warnings_of-build_variety parse_digit (λ s. s) offered (codes "customer") none one_customer
