-- ===== src/Values.antt =====
-- internal/runtime/values.go: the values of an iteration and the substitution of ${name} and
-- ${name:-fallback} in its texts. A text is the list of its characters; varPattern is read as a
-- scanner from the left. A generator of SetPerUse passes on a state of its own; the environment is a
-- parameter. The mutexes are left out: each method is one step here.
pub mod Templates
use braunrate.Base.{
  ℕ, zero, suc, ◌+◌, ◌-◌, Bool, true, false, not, ◌&&◌, ◌||◌, Option, none, some, List, [], ◌∷◌,
  ◌++◌, Map, insert, lookup, eqb, leb, if◌then◌else◌, length,
}
use braunrate.Base.Codes.{Text, text_eq}

-- A generator answers a value, or none where the program has an error.
abbrev pub Generator {ℓ} : Type ℓ → Type ℓ
Generator S = S → Option Text × S

pub record Values {ℓ} (S : Type ℓ) : Type ℓ where
  pub values : Map Text Text
  pub uses : Map Text Text
  pub per_use : Map Text (Generator S)

module _ {ℓ} {S : Type ℓ} where
  unfoldable pub new_values : Map Text Text → Values S
  new_values base = record { values = base; uses = []; per_use = [] }

  unfoldable pub set : Text → Text → Values S → Values S
  set name value v = record v { values = insert name value v.values }

  unfoldable pub set_per_use : Text → Generator S → Values S → Values S
  set_per_use name generate v = record v { per_use = insert name generate v.per_use }

  unfoldable pub note_use : Text → Text → Values S → Values S
  note_use name value v = record v { uses = insert name value v.uses }

abbrev pub is_letter : ℕ → Bool
is_letter c = leb 65 c && leb c 90 || leb 97 c && leb c 122

-- [A-Za-z_]
abbrev pub starts_name : ℕ → Bool
starts_name c = is_letter c || eqb c 95

-- [A-Za-z0-9_.-]
abbrev pub continues_name : ℕ → Bool
continues_name c = starts_name c || leb 48 c && leb c 57 || eqb c 46 || eqb c 45

-- The longest name at the front, and what follows it.
unfoldable pub take_name : Text → Text × Text
take_name [] = ([], [])
take_name (c ∷ text) =
    let (name, rest) = take_name text in
    if continues_name c then (c ∷ name, rest) else ([], c ∷ text)

-- [^}]* and the brace that ends it.
unfoldable pub take_fallback : Text → Option Text
take_fallback [] = none
take_fallback (c ∷ text) = elim (eqb c 125) [
  | true ↦ some []
  | false ↦ elim (take_fallback text) [ none ↦ none | some fallback ↦ some (c ∷ fallback) ]
]

-- An occurrence of the pattern: its name, its fallback and how many characters it has.
pub record Occurrence : Type 0 where
  pub name : Text
  pub fallback : Text
  pub size : ℕ

abbrev pub with_fallback : Text → Option Text → Option Occurrence
with_fallback name none = none
with_fallback name (some fallback) =
    some (record { name = name; fallback = fallback; size = length name + length fallback + 5 })

-- After the name: a brace, or a fallback.
unfoldable pub end_occurrence : Text → Text → Option Occurrence
end_occurrence name [] = none
end_occurrence name (c ∷ []) =
    if eqb c 125 then some (record { name = name; fallback = []; size = length name + 3 }) else none
end_occurrence name (c ∷ d ∷ rest) =
    if eqb c 125
    then some (record { name = name; fallback = []; size = length name + 3 })
    else if eqb c 58 && eqb d 45
    then with_fallback name (take_fallback rest)
    else none

-- What stands at the front, behind `$`.
unfoldable pub match_braces : Text → Option Occurrence
match_braces [] = none
match_braces (c ∷ []) = none
match_braces (c ∷ d ∷ text) =
    if eqb c 123 && starts_name d
    then (let (name, rest) = take_name (d ∷ text) in end_occurrence name rest)
    else none

abbrev pub or_else : Text → Option Text → Text
or_else fallback none = fallback
or_else fallback (some value) = value

module _ {ℓ} {S : Type ℓ} (environment : Text → Option Text) where
  -- The value of an occurrence without a generator: the iteration's, the environment's, the fallback.
  abbrev pub stored : Text → Text → Option Text → Values S → Text × Values S
  stored name fallback none v = (or_else fallback (environment name), v)
  stored name fallback (some value) v = (value, note_use name value v)

  abbrev pub generated : Text → Text → Option Text × S → Values S → Text × Values S × S
  generated name fallback (some value, state) v = (value, note_use name value v, state)
  generated name fallback (none, state) v =
      let (value, after) = stored name fallback (lookup name v.values) v in (value, after, state)

  -- The function that Resolve hands to ReplaceAllStringFunc.
  unfoldable pub substitute : Text → Text → Values S → S → Text × Values S × S
  substitute name fallback v state = elim (lookup name v.per_use) [
    | none ↦
        let (value, after) = stored name fallback (lookup name v.values) v in (value, after, state)
    | some generate ↦ generated name fallback (generate state) v
  ]

  -- Resolve; the number counts the characters of an occurrence that is replaced already.
  unfoldable pub resolve_from : ℕ → Text → Values S → S → Text × Values S × S
  resolve_from skipped [] v state = ([], v, state)
  resolve_from (suc skipped) (c ∷ text) v state = resolve_from skipped text v state
  resolve_from zero (c ∷ text) v state = elim (if eqb c 36 then match_braces text else none) [
    | none ↦ let (rest, after, last) = resolve_from 0 text v state in (c ∷ rest, after, last)
    | some found ↦
        let (value, between, next) = substitute found.name found.fallback v state in
        let (rest, after, last) = resolve_from (found.size - 1) text between next in
        (value ++ rest, after, last)
  ]

  unfoldable pub resolve : Text → Values S → S → Text × Values S × S
  resolve text v state = resolve_from 0 text v state
