-- ===== src/Recorder/Flow.antt =====
-- internal/recorder/build.go: the values that flow from a response into later calls. Of a group, the
-- recorder looks at the first call.
pub mod Order
use braunrate.Base.{
  ℕ, zero, suc, ◌+◌, Bool, true, false, not, ◌&&◌, ◌||◌, Option, none, some, List, [], ◌∷◌, ◌++◌,
  any, map, ◌==◌, eqb, leb, if◌then◌else◌,
}
use braunrate.Base.Codes.{Text, codes, text_eq, contains, cut, trim_space}
use braunrate.Recorder.{
  Json, Items, Fields, text_value, number_value, array_value, object_value, other_value, last_item,
  item, last_field, field, Entry, RecorderLibrary, Group, byte_length, split_at,
}

pub record Candidate : Type 0 where
  pub path : Text
  pub name : Text
  pub value : Text

pub record ImportedCapture : Type 0 where
  pub variable : Text
  pub expression : Text

pub record Substitution : Type 0 where
  pub value : Text
  pub variable : Text

-- What correlate has found so far: captures and substitutions by the position of their group, and
-- the values that have a capture.
pub record Found : Type 0 where
  pub captures : List (ℕ × ImportedCapture)
  pub substitutions : List (ℕ × Substitution)
  pub claimed : List Text

pub record Head : Type 0 where
  pub entry : Entry
  pub subject : Text

abbrev last_of : List Text → Text
last_of [] = []
last_of (part ∷ []) = part
last_of (part ∷ next ∷ parts) = last_of (next ∷ parts)

abbrev leaf : Text → Text
leaf path = last_of (split_at 46 path)

abbrev long_enough : Text → Text → List Candidate
long_enough path value =
    if leb 4 (byte_length value)
    then record { path = path; name = leaf path; value = value } ∷ []
    else []

-- The closure `walk` of flatten: of an array the first three items. The text of a number is the one
-- that is printed of it, without `.0`.
unfoldable mutual
  pub walk : Text → Json → List Candidate
  walk path (text_value value) = long_enough path value
  walk path (number_value value) = long_enough path value
  walk path (array_value items) = walk_items path 0 items
  walk path (object_value fields) = walk_fields path fields
  walk path other_value = []

  pub walk_items : Text → ℕ → Items → List Candidate
  walk_items path index last_item = []
  walk_items path index (item value items) =
      let rest = walk_items path (suc index) items in
      let here = walk (path ++ 46 ∷ (48 + index) ∷ []) value in
      if leb index 2 then here ++ rest else []

  pub walk_fields : Text → Fields → List Candidate
  walk_fields path last_field = []
  walk_fields path (field key value fields) =
      walk (path ++ 46 ∷ key) value ++ walk_fields path fields

unfoldable pub flatten : Option Json → List Candidate
flatten none = []
flatten (some decoded) = walk (codes "$") decoded

abbrev cookie_candidate : Text → List Candidate
cookie_candidate header =
    let (pair, _, _) = cut 59 header in
    let (name, value, split) = cut 61 (trim_space pair) in
    if not split || value == []
    then []
    else record { path = codes "cookie:" ++ name; name = name; value = value } ∷ []

unfoldable pub cookie_candidates : List Text → List Candidate
cookie_candidates [] = []
cookie_candidates (header ∷ headers) = cookie_candidate header ++ cookie_candidates headers

unfoldable pub uses : Entry → Text → Bool
uses e value =
    any (λ segment. segment == value) (split_at 47 e.path)
    || any (λ other. other == value) e.query
    || any (λ header. contains header value) e.headers
    || not (e.body == []) && contains e.body value

abbrev drop_underscores : Text → Text
drop_underscores [] = []
drop_underscores (c ∷ text) =
    let rest = drop_underscores text in if eqb c 95 then rest else c ∷ text

-- strings.Trim(text, "_") at the right.
abbrev end_underscores : Text → Text
end_underscores [] = []
end_underscores (c ∷ text) =
    let rest = end_underscores text in
    elim rest [ [] ↦ if eqb c 95 then [] else c ∷ [] | d ∷ ds ↦ c ∷ d ∷ ds ]

abbrev plain_letters : Text → Text
plain_letters [] = []
plain_letters (c ∷ text) =
    let rest = plain_letters text in
    if leb 97 c && leb c 122 || leb 48 c && leb c 57
    then c ∷ rest
    else if eqb c 32 || eqb c 45 || eqb c 95
    then 95 ∷ rest
    else rest

abbrev or_value : Text → Text
or_value [] = codes "value"
or_value (c ∷ name) = c ∷ name

module _ (library : RecorderLibrary) where
  unfoldable pub candidates_of : Entry → List Candidate
  candidates_of e =
      cookie_candidates e.response_cookies
      ++ (if contains (library.to_lower e.content_type) (codes "json")
          then flatten (library.decode e.response_body)
          else [])

  unfoldable pub sanitize : Text → Text
  sanitize text = end_underscores (drop_underscores (plain_letters (library.to_lower text)))

  unfoldable pub variable_name : Text → Text → List (ℕ × ImportedCapture) → Text
  variable_name candidate_name subject taken =
      let name = or_value (sanitize candidate_name) in
      if any (λ (c : ℕ × ImportedCapture). c.1.variable == name) taken
      then sanitize subject ++ 95 ∷ name
      else name

  -- The groups from a position on whose first call sends the value.
  unfoldable pub consumers_from : ℕ → Text → List Head → List ℕ
  consumers_from position value [] = []
  consumers_from position value (h ∷ heads) =
      let rest = consumers_from (suc position) value heads in
      if uses h.entry value then position ∷ rest else rest

  abbrev pub claim : ℕ → Text → Candidate → List ℕ → Found → Found
  claim producer subject candidate consumers s =
      let variable = variable_name candidate.name subject s.captures in
      let put : Substitution = record { value = candidate.value; variable = variable } in
      record {
        captures =
            s.captures
            ++ (producer, record { variable = variable; expression = candidate.path }) ∷ [];
        substitutions = s.substitutions ++ map (λ consumer. (consumer, put)) consumers;
        claimed = candidate.value ∷ s.claimed;
      }

  abbrev pub claim_if_used : ℕ → Text → Candidate → List ℕ → Found → Found
  claim_if_used producer subject candidate [] s = s
  claim_if_used producer subject candidate (consumer ∷ consumers) s =
      claim producer subject candidate (consumer ∷ consumers) s

  -- A round of the loop over the candidates of a response.
  unfoldable pub try_candidate : ℕ → Text → List Head → Candidate → Found → Found
  try_candidate producer subject later candidate s =
      if any (λ value. value == candidate.value) s.claimed
      then s
      else claim_if_used producer subject candidate
          (consumers_from (suc producer) candidate.value later) s

  unfoldable pub try_candidates : ℕ → Text → List Head → List Candidate → Found → Found
  try_candidates producer subject later [] s = s
  try_candidates producer subject later (candidate ∷ candidates) s =
      try_candidates producer subject later candidates
        (try_candidate producer subject later candidate s)

  unfoldable pub correlate_from : ℕ → List Head → Found → Found
  correlate_from producer [] s = s
  correlate_from producer (h ∷ heads) s =
      correlate_from (suc producer) heads
        (try_candidates producer h.subject heads (candidates_of h.entry) s)

  -- `correlate`
  abbrev pub correlate : List Head → Found
  correlate heads =
      correlate_from 0 heads (record { captures = []; substitutions = []; claimed = [] })
