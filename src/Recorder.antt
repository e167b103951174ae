-- ===== src/Recorder.antt =====
-- internal/recorder/build.go: what the recorder infers of the calls that it saw. Calls of one route
-- become one step, and a value that a response carries and a later call sends becomes a capture. A
-- text is the list of its characters. The JSON and URL libraries, the regular expression of GraphQL,
-- the folding of letters and the classes of characters are parameters.
pub mod Groups
pub mod Flow
use braunrate.Base.{
  ℕ, zero, suc, ◌+◌, Bool, true, false, not, ◌&&◌, ◌||◌, Option, none, some, List, [], ◌∷◌, ◌++◌,
  Map, any, map, sum, ◌==◌, eqb, leb, ltb, if◌then◌else◌, length,
}
use braunrate.Base.Codes.{Text, codes, text_eq, contains, cut, trim_space}

-- A decoded JSON value; the fields of an object are in the order of their sorted keys.
mutual
  pub data Json : Type 0 where
    text_value : Text → Json
    number_value : Text → Json
    array_value : Items → Json
    object_value : Fields → Json
    other_value : Json

  pub data Items : Type 0 where
    last_item : Items
    item : Json → Items → Items

  pub data Fields : Type 0 where
    last_field : Fields
    field : Text → Json → Fields → Fields

pub record Entry : Type 0 where
  pub method : Text
  pub path : Text
  pub query : List Text
  pub headers : List Text
  pub body : Text
  pub response_body : Text
  pub response_cookies : List Text
  pub content_type : Text

pub record RecorderLibrary : Type 0 where
  pub to_lower : Text → Text
  pub is_digit : ℕ → Bool
  pub decode : Text → Option Json
  pub graphql_operation : Entry → Option Text

-- len of a string, in bytes.
abbrev pub byte_length : Text → ℕ
byte_length [] = 0
byte_length (c ∷ text) =
    (if ltb c 128 then 1 else if ltb c 2048 then 2 else if ltb c 65536 then 3 else 4)
    + byte_length text

-- strings.Split, for a separator of one character.
abbrev pub onto_first : ℕ → List Text → List Text
onto_first c [] = (c ∷ []) ∷ []
onto_first c (part ∷ parts) = (c ∷ part) ∷ parts

unfoldable pub split_at : ℕ → Text → List Text
split_at separator [] = [] ∷ []
split_at separator (c ∷ text) =
    let rest = split_at separator text in if eqb c separator then [] ∷ rest else onto_first c rest

-- strings.Join
abbrev pub joined_by : Text → List Text → Text
joined_by separator [] = []
joined_by separator (part ∷ []) = part
joined_by separator (part ∷ next ∷ parts) = part ++ separator ++ joined_by separator (next ∷ parts)

module _ (library : RecorderLibrary) where
  abbrev digits_in : Text → ℕ
  digits_in [] = 0
  digits_in (c ∷ text) = let rest = digits_in text in if library.is_digit c then rest + 1 else rest

  -- `LooksLikeIdentifier` of internal/importer/render.go
  unfoldable pub looks_like_identifier : Text → Bool
  looks_like_identifier part = leb 3 (digits_in part) || leb 16 (byte_length part)

  abbrev all_digits : Text → Bool
  all_digits [] = true
  all_digits (c ∷ text) = library.is_digit c && all_digits text

  -- `looksLikeVersion`
  unfoldable pub looks_like_version : Text → Bool
  looks_like_version [] = false
  looks_like_version (c ∷ []) = false
  looks_like_version (c ∷ d ∷ rest) = (eqb c 118 || eqb c 86) && all_digits (d ∷ rest)

  abbrev named_parts : List Text → List Text
  named_parts [] = []
  named_parts (part ∷ parts) =
      let rest = named_parts parts in
      if part == [] || looks_like_identifier part || looks_like_version part
      then rest
      else part ∷ rest

  abbrev or_root : List Text → Text
  or_root [] = codes "raiz"
  or_root (part ∷ parts) = joined_by (codes " ") (part ∷ parts)

  -- `Resource`
  unfoldable pub resource : Text → Text
  resource path = let (plain, _, _) = cut 63 path in or_root (named_parts (split_at 47 plain))

pub record Group : Type 0 where
  pub key : Text
  pub method : Text
  pub subject : Text
  pub entries : List Entry

module _ (library : RecorderLibrary) where
  abbrev subject_of : Entry → Option Text → Text
  subject_of e none = resource library e.path
  subject_of e (some operation) = operation

  abbrev key_from : Entry → Option Text → Text
  key_from e none = library.to_lower e.method ++ codes " " ++ resource library e.path
  key_from e (some operation) = codes "graphql " ++ operation

  -- The key of `groupByRoute` for a call.
  unfoldable pub route_key : Entry → Text
  route_key e = key_from e (library.graphql_operation e)

  abbrev group_from : Entry → Group
  group_from e = record {
    key = route_key e;
    method = library.to_lower e.method;
    subject = subject_of e (library.graphql_operation e);
    entries = e ∷ [];
  }

  -- The group of its key takes a call, or a new group does at the end.
  unfoldable pub place : Entry → List Group → List Group
  place e [] = group_from e ∷ []
  place e (g ∷ groups) =
      let rest = place e groups in
      if g.key == route_key e then record g { entries = g.entries ++ e ∷ [] } ∷ groups else g ∷ rest

  unfoldable pub place_all : List Entry → List Group → List Group
  place_all [] groups = groups
  place_all (e ∷ entries) groups = place_all entries (place e groups)

  -- `groupByRoute`
  abbrev pub group_by_route : List Entry → List Group
  group_by_route entries = place_all entries []
