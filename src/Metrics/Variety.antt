-- ===== src/Metrics/Variety.antt =====
-- internal/metrics/variety.go and internal/metrics/shape.go: how many different values each variable
-- of a run had, and the warnings about a load that concentrated on one. A text is the list of its
-- bytes. strconv.ParseFloat behind parseNumber and sort.Strings are parameters; the sentences are
-- left out, and so are the messages of the warnings.
pub mod Counting
pub mod Concentration
use braunrate.Base.{
  ℕ, suc, ◌+◌, ◌≤◌, Bool, true, false, not, ◌&&◌, ◌||◌, Option, none, some, List, [], ◌∷◌, ◌++◌,
  Map, lookup, insert, ◌==◌, any, take, length, eqb, ltb, leb, if◌then◌else◌, keep,
}
use braunrate.Base.Codes.{Text, codes, text_eq, has_prefix}
use braunrate.Base.Float.{Float64}
use braunrate.Base.Int.{ℤ, pos, negsuc}
use braunrate.Metrics.Document.{Severity, severity_high, severity_medium}

abbrev pub distinct_values_cap : ℕ
distinct_values_cap = 1024

abbrev pub meaningful_prefix : ℕ
meaningful_prefix = 4

abbrev pub shapes_kept : ℕ
shapes_kept = 5

-- Whether the scenario declared the concentration; the texts of the note are left out.
pub record Collapse : Type 0 where
  pub declared : Bool

pub data Range {ℓ} (W : Type ℓ) : Type ℓ where
  numeric_range : W → W → Range W
  prefix_range : Text → Range W

-- `seen` is a set: no value stands twice in it.
pub record VarietyCounter {ℓ} (W : Type ℓ) : Type ℓ where
  pub seen : List Text
  pub uses : ℕ
  pub capped : Bool
  pub collapse : Option Collapse
  pub numeric : Bool
  pub first : Bool
  pub min : W
  pub max : W
  pub prefix : Text

unfoldable pub common_prefix : Text → Text → Text
common_prefix [] second = []
common_prefix (x ∷ first) [] = []
common_prefix (x ∷ first) (y ∷ second) =
    let rest = common_prefix first second in if eqb x y then x ∷ rest else []

-- `seen[value] = struct{}{}`
abbrev pub is_seen : Text → List Text → Bool
is_seen value seen = any (λ other. other == value) seen

unfoldable pub add_seen : Text → List Text → List Text
add_seen value seen = if is_seen value seen then seen else seen ++ value ∷ []

-- What record does after the use is counted and the span is widened.
unfoldable pub note_seen {ℓ} : {W : Type ℓ} → Text → VarietyCounter W → VarietyCounter W
note_seen value c =
    if c.capped
    then c
    else if leb distinct_values_cap (length c.seen)
    then record c { capped = true }
    else record c { seen = add_seen value c.seen }

module _ {ℓ} {W : Type ℓ} ⦃f : Float64 W⦄ where
  -- The case of a value after the first one; `none` is a text that is not a number.
  abbrev pub widen : Option W → VarietyCounter W → VarietyCounter W
  widen none c = record c { numeric = false }
  widen (some number) c =
      if c.numeric
      then record c {
        min = if f.lt number c.min then number else c.min;
        max = if f.lt c.max number then number else c.max;
      }
      else record c { numeric = false }

  -- The case of the first value: what is not a number counts as 0.
  abbrev pub start_span : Text → Option W → VarietyCounter W → VarietyCounter W
  start_span value none c = record c {
    first = true;
    numeric = false;
    min = f.of_ℕ 0;
    max = f.of_ℕ 0;
    prefix = value;
  }
  start_span value (some number) c = record c {
    first = true;
    numeric = true;
    min = number;
    max = number;
    prefix = value;
  }

  module _ (parse_number : Text → Option W) where
    unfoldable pub span : Text → VarietyCounter W → VarietyCounter W
    span value c =
        if not c.first
        then start_span value (parse_number value) c
        else let widened = widen (parse_number value) c in
          record widened { prefix = common_prefix c.prefix value }

    -- `varietyCounter.record`
    unfoldable pub record_value : Text → VarietyCounter W → VarietyCounter W
    record_value value c = note_seen value (span value (record c { uses = c.uses + 1 }))

    unfoldable pub record_values : List Text → VarietyCounter W → VarietyCounter W
    record_values [] c = c
    record_values (value ∷ values) c = record_values values (record_value value c)

  unfoldable pub new_counter : Option Collapse → VarietyCounter W
  new_counter collapse = record {
    seen = [];
    uses = 0;
    capped = false;
    collapse = collapse;
    numeric = false;
    first = false;
    min = f.of_ℕ 0;
    max = f.of_ℕ 0;
    prefix = [];
  }

  unfoldable pub observed_range : VarietyCounter W → Option (Range W)
  observed_range c =
      if not c.first || ltb c.uses 2
      then none
      else if c.numeric
      then some (numeric_range c.min c.max)
      else if leb meaningful_prefix (length c.prefix)
      then some (prefix_range c.prefix)
      else none

pub record Variety {ℓ} (W : Type ℓ) : Type ℓ where
  pub name : Text
  pub distinct : ℕ
  pub uses : ℕ
  pub available : ℤ
  pub capped : Bool
  pub range : Option (Range W)
  pub shapes : List Text
  pub collapse : Option Collapse

abbrev pub body_shape : Text → Bool
body_shape name = has_prefix name (codes "body.")

-- `available[name]` leaves 0 where there is none; -1 is unknown.
abbrev pub available_of : Option ℤ → ℤ
available_of none = pos 0
available_of (some how_many) = how_many

module _ {ℓ} {W : Type ℓ} ⦃f : Float64 W⦄ (sort_strings : List Text → List Text) where
  unfoldable pub shapes_seen : VarietyCounter W → List Text
  shapes_seen c = take shapes_kept (sort_strings c.seen)

  -- One round of the loop of buildVarieties.
  unfoldable pub build_variety : Map Text ℤ → Text → VarietyCounter W → Variety W
  build_variety available name c =
      let distinct = if c.capped then distinct_values_cap else length c.seen in
      let range = if ltb 1 distinct || c.capped then observed_range c else none in
      record {
        name = name;
        distinct = distinct;
        uses = c.uses;
        available = available_of (lookup name available);
        capped = c.capped;
        range = if body_shape name then none else range;
        shapes = if body_shape name then shapes_seen c else [];
        collapse = c.collapse;
      }

-- The entries of a shape, which are separated by a comma and a space.
unfoldable pub split_entries : Text → Text → List Text
split_entries [] current = current ∷ []
split_entries (c ∷ []) current = (current ++ c ∷ []) ∷ []
split_entries (c ∷ d ∷ rest) current = elim (eqb c 44 && eqb d 32) [
  | true ↦ current ∷ split_entries rest []
  | false ↦ split_entries (d ∷ rest) (current ++ c ∷ [])
]

-- `strings.Cut(entry, ": ")`; without the separator nothing is found.
unfoldable pub cut_entry : Text → Text × Text × Bool
cut_entry [] = ([], [], false)
cut_entry (c ∷ []) = (c ∷ [], [], false)
cut_entry (c ∷ d ∷ rest) =
    let (name, kind, separated) = cut_entry (d ∷ rest) in
    if eqb c 58 && eqb d 32 then ([], rest, true) else (c ∷ name, kind, separated)

abbrev pub is_empty_kind : Text → Bool
is_empty_kind kind = kind == codes "empty" || kind == codes "null" || kind == codes "empty object"

abbrev pub is_empty_entry : Text → Bool
is_empty_entry entry =
    let (name, kind, separated) = cut_entry entry in
    separated && not (name == []) && is_empty_kind kind

unfoldable pub empty_field : Text → Bool
empty_field shape = any is_empty_entry (split_entries shape [])

-- The warnings of VarietyWarnings, with what their texts name: the variable, or the step and the
-- shapes with an empty field.
pub data VarietyWarning : Type 0 where
  fixed_value : Text → VarietyWarning
  missing_variety : Text → Severity → VarietyWarning
  body_with_empty_field : Text → List Text → VarietyWarning

unfoldable pub severity_of : VarietyWarning → Severity
severity_of (fixed_value name) = severity_medium
severity_of (missing_variety name severity) = severity
severity_of (body_with_empty_field step shapes) = severity_medium

abbrev pub collapse_severity : Option Collapse → Severity
collapse_severity none = severity_high
collapse_severity (some note) = if note.declared then severity_medium else severity_high

-- `variety.Available == n`
abbrev pub is_available : ℤ → ℕ → Bool
is_available (pos m) n = eqb m n
is_available (negsuc m) n = false

abbrev pub warn_of_shapes : Text → List Text → List VarietyWarning
warn_of_shapes name [] = []
warn_of_shapes name (shape ∷ shapes) = body_with_empty_field name (shape ∷ shapes) ∷ []

module _ {ℓ} {W : Type ℓ} where
  unfoldable pub empty_field_warnings : Variety W → List VarietyWarning
  empty_field_warnings variety = warn_of_shapes variety.name (keep empty_field variety.shapes)

  -- One round of the loop of VarietyWarnings.
  unfoldable pub warnings_of : Variety W → List VarietyWarning
  warnings_of variety =
      if body_shape variety.name
      then empty_field_warnings variety
      else if not (eqb variety.distinct 1) || ltb variety.uses 2
      then []
      else if is_available variety.available 1
      then []
      else if is_available variety.available 0
      then fixed_value variety.name ∷ []
      else missing_variety variety.name (collapse_severity variety.collapse) ∷ []

  unfoldable pub variety_warnings : List (Variety W) → List VarietyWarning
  variety_warnings [] = []
  variety_warnings (variety ∷ varieties) = warnings_of variety ++ variety_warnings varieties
