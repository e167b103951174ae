-- ===== src/Scenario/References.antt =====
-- The references ${name} and ${name:-fallback} of a scenario's texts: varPattern of
-- internal/scenario/yaml.go read as a scanner from the left, referencesIn of references.go, and the
-- expansion from the environment of interpolacao.go. The environment is a parameter.
pub mod Kept
use braunrate.Base.{
  ℕ, zero, suc, ◌+◌, ◌-◌, Bool, true, false, not, ◌&&◌, ◌||◌, Option, none, some, List, [], ◌∷◌,
  ◌++◌, Map, lookup, eqb, leb, if◌then◌else◌, length, take, all,
}
use braunrate.Base.Codes.{Text, text_eq}
use braunrate.Values.{is_letter, starts_name, take_fallback}

-- [A-Za-z0-9_.]
abbrev pub continues_reference : ℕ → Bool
continues_reference c = starts_name c || leb 48 c && leb c 57 || eqb c 46

-- A reference with the text that it is written as.
pub record Reference : Type 0 where
  pub name : Text
  pub fallback : Option Text
  pub source : Text

pub data ReferencePiece : Type 0 where
  plain : ℕ → ReferencePiece
  referring : Reference → ReferencePiece

unfoldable pub name_at : Text → Text × Text
name_at [] = ([], [])
name_at (c ∷ text) =
    let (name, rest) = name_at text in
    if continues_reference c then (c ∷ name, rest) else ([], c ∷ text)

abbrev pub with_default : Text → Option Text → Option (Text × Option Text × ℕ)
with_default name none = none
with_default name (some fallback) = some (name, some fallback, length name + length fallback + 5)

-- After the name: a brace, or a fallback. The number is how many characters the reference has.
unfoldable pub closing_at : Text → Text → Option (Text × Option Text × ℕ)
closing_at name [] = none
closing_at name (c ∷ []) = if eqb c 125 then some (name, none, length name + 3) else none
closing_at name (c ∷ d ∷ rest) =
    if eqb c 125
    then some (name, none, length name + 3)
    else if eqb c 58 && eqb d 45
    then with_default name (take_fallback rest)
    else none

-- A match of the pattern at the front of a text.
unfoldable pub match_at : Text → Option (Text × Option Text × ℕ)
match_at [] = none
match_at (a ∷ []) = none
match_at (a ∷ b ∷ []) = none
match_at (a ∷ b ∷ c ∷ text) =
    if eqb a 36 && eqb b 123 && starts_name c
    then (let (name, rest) = name_at (c ∷ text) in closing_at name rest)
    else none

abbrev pub reference_of : Text → Text × Option Text × ℕ → Reference
reference_of text (name, fallback, size) = record {
  name = name;
  fallback = fallback;
  source = take (suc (size - 1)) text;
}

-- The matches from the left and the characters between them; the number counts the characters of a
-- match that are passed over.
unfoldable pub pieces_from : ℕ → Text → List ReferencePiece
pieces_from skipped [] = []
pieces_from (suc skipped) (c ∷ text) = pieces_from skipped text
pieces_from zero (c ∷ text) = elim (match_at (c ∷ text)) [
  | none ↦ plain c ∷ pieces_from 0 text
  | some (name, fallback, size) ↦
      referring (reference_of (c ∷ text) (name, fallback, size)) ∷ pieces_from (size - 1) text
]

abbrev pub references_of : List ReferencePiece → List Reference
references_of [] = []
references_of (plain c ∷ pieces) = references_of pieces
references_of (referring r ∷ pieces) = r ∷ references_of pieces

-- `referencesIn`
abbrev pub references_in : Text → List Reference
references_in text = references_of (pieces_from 0 text)

-- ReplaceAllStringFunc
abbrev pub replaced_with : (Reference → Text) → List ReferencePiece → Text
replaced_with f [] = []
replaced_with f (plain c ∷ pieces) = c ∷ replaced_with f pieces
replaced_with f (referring r ∷ pieces) = f r ++ replaced_with f pieces

abbrev is_upper : ℕ → Bool
is_upper c = leb 65 c && leb c 90

-- environmentName: [A-Z][A-Z0-9_]*
abbrev pub environment_name : Text → Bool
environment_name [] = false
environment_name (c ∷ name) =
    is_upper c && all (λ d. is_upper d || leb 48 d && leb d 57 || eqb d 95) name

abbrev pub or_source : Reference → Option Text → Text
or_source r none = r.source
or_source r (some fallback) = fallback

abbrev pub or_fallback : Reference → Option Text → Text
or_fallback r none = or_source r r.fallback
or_fallback r (some value) = value

abbrev pub is_default : Option Text → Bool
is_default none = false
is_default (some fallback) = true

module _ (environment : Text → Option Text) where
  abbrev pub expanded_reference : Reference → Text
  expanded_reference r =
      if environment_name r.name then or_fallback r (environment r.name) else r.source

  -- `expandDefinedEnvironment`
  unfoldable pub expand_defined_environment : Text → Text
  expand_defined_environment text = replaced_with expanded_reference (pieces_from 0 text)

  abbrev known_reference : Option Text → Reference → Text
  known_reference none r = or_fallback r (environment r.name)
  known_reference (some value) r = value

  -- `interpolateKnown`
  unfoldable pub interpolate_known : Map Text Text → Text → Text
  interpolate_known vars text =
      replaced_with (λ r. known_reference (lookup r.name vars) r) (pieces_from 0 text)

  abbrev is_unset : Reference → Bool
  is_unset r =
      not
        (is_default r.fallback || not (environment_name r.name) || is_default (environment r.name))

  abbrev missing_among : List Reference → List Text
  missing_among [] = []
  missing_among (r ∷ references) =
      let rest = missing_among references in if is_unset r then r.name ∷ rest else rest

  -- `UnresolvedEnvironment`
  unfoldable pub unresolved_environment : Text → List Text
  unresolved_environment text = missing_among (references_in text)
