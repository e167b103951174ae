-- ===== src/Metrics/Variety/Concentration.antt =====
-- internal/metrics/variety.go: the warnings against the values of a variable.
use braunrate.Base.{
  ◌||◌, ◌≤◌, ◌≡◌, ◌↔◌, refl, sym, ap, ◌∙◌, Bool, true, false, not, ◌&&◌, Option, none, some, List,
  [], ◌∷◌, Map, lookup, length, any, arith, eqb, ltb, if◌then◌else◌, keep,
}
use braunrate.Base.Codes.{Text, text_eq}
use braunrate.Base.Float.{Float64}
use braunrate.Base.Int.{ℤ}
use braunrate.Metrics.Document.{severity_high}
use braunrate.Metrics.Variety.{
  missing_variety, fixed_value, Variety, Collapse, VarietyWarning, severity_of, warnings_of,
  empty_field_warnings, warn_of_shapes, empty_field, body_shape, is_available, available_of,
  collapse_severity, build_variety, record_values, new_counter,
}
use braunrate.Metrics.Variety.Counting.{record_values-collapse, distinct_of, build_variety-counts}

-- A warning of high severity makes the result invalid.
abbrev pub invalidates : VarietyWarning → Bool
invalidates w = elim (severity_of w) [ severity_high ↦ true | _ ↦ false ]

abbrev pub is_declared : Option Collapse → Bool
is_declared none = false
is_declared (some note) = note.declared

warn_of_shapes-harmless :
    (name : Text) (shapes : List Text) → any invalidates (warn_of_shapes name shapes) ≡ false
unfolding severity_of
warn_of_shapes-harmless name [] = refl
warn_of_shapes-harmless name (shape ∷ shapes) = refl

collapse_severity-high :
    (name : Text) (collapse : Option Collapse)
    → invalidates (missing_variety name (collapse_severity collapse)) ≡ not (is_declared collapse)
unfolding severity_of
collapse_severity-high name none = refl
collapse_severity-high name (some note) = ground arith

-- The cases of the switch, as conditions.
switched :
    (a b c d e : Bool) (shapes last : List VarietyWarning) (name : Text)
    → any invalidates shapes ≡ false
    → any invalidates last ≡ not e
    → any invalidates (
        if a
        then shapes
        else if b
        then []
        else if c
        then []
        else if d
        then fixed_value name ∷ []
        else last)
      ≡ (not a && not b && not c && not d && not e)
unfolding severity_of
switched a b c d e shapes last name p q = ground (arith, p, q)

module _ {ℓ} {W : Type ℓ} where
  -- What a variety must be to invalidate the result.
  abbrev is_defect : Variety W → Bool
  is_defect v =
      not (body_shape v.name)
      && eqb v.distinct 1
      && ltb 1 v.uses
      && not (is_available v.available 1)
      && not (is_available v.available 0)
      && not (is_declared v.collapse)

  warnings_of-is_defect : (v : Variety W) → any invalidates (warnings_of v) ≡ is_defect v
  unfolding warnings_of empty_field_warnings
  warnings_of-is_defect v =
      switched (body_shape v.name) (not (eqb v.distinct 1) || ltb v.uses 2)
        (is_available v.available 1) (is_available v.available 0) (is_declared v.collapse)
        (warn_of_shapes v.name (keep empty_field v.shapes))
        (missing_variety v.name (collapse_severity v.collapse) ∷ []) v.name
        (warn_of_shapes-harmless v.name (keep empty_field v.shapes))
        (ground (arith, collapse_severity-high v.name v.collapse))
      ∙ ground arith

  is_defect_iff :
      (v : Variety W)
      → (is_defect v ≡ true)
        ↔ (body_shape v.name ≡ false)
          × (v.distinct ≡ 1)
          × (2 ≤ v.uses)
          × (is_available v.available 1 ≡ false)
          × (is_available v.available 0 ≡ false)
          × (is_declared v.collapse ≡ false)
  is_defect_iff v = ground arith

-- The warnings about a variable invalidate the result exactly when it is not the shape of a body, its
-- uses are two or more and all of one value, what is noted as the number of values that its source
-- can offer is neither one nor zero, which stands for no note, and the scenario did not declare the
-- concentration. A number that is noted as unknown, -1, does not keep the result valid.
pub warnings_of-build_variety {ℓ} :
    {W : Type ℓ} ⦃f : Float64 W⦄ (parse_number : Text → Option W)
    (sort_strings : List Text → List Text) (available : Map Text ℤ) (name : Text)
    (collapse : Option Collapse) (values : List Text)
    → (any invalidates (
          warnings_of (
            build_variety sort_strings available name
              (record_values parse_number values (new_counter collapse))))
        ≡ true)
      ↔ (body_shape name ≡ false)
        × (length (distinct_of values) ≡ 1)
        × (2 ≤ length values)
        × (is_available (available_of (lookup name available)) 1 ≡ false)
        × (is_available (available_of (lookup name available)) 0 ≡ false)
        × (is_declared collapse ≡ false)
unfolding build_variety new_counter
warnings_of-build_variety parse_number sort_strings available name collapse values =
    let v =
      build_variety sort_strings available name
        (record_values parse_number values (new_counter collapse)) in
    let (distinct, uses) =
      build_variety-counts parse_number sort_strings available name collapse values in
    let (there, back) = is_defect_iff v in
    let same = record_values-collapse parse_number values (new_counter collapse) in
    rw (warnings_of-is_defect v) (
      λ d.
          let (body, one, twice, not_one, not_fixed, undeclared) = there d in
          (
            body,
            omega (arith, distinct, one),
            omega (arith, uses, twice),
            not_one,
            not_fixed,
            ap is_declared (sym same) ∙ undeclared,
          ),
      λ (body, one, twice, not_one, not_fixed, undeclared). back (
        body,
        omega (arith, distinct, one),
        omega (arith, uses, twice),
        not_one,
        not_fixed,
        ap is_declared same ∙ undeclared,
      ),
    )
