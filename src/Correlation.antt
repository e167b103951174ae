-- ===== src/Correlation.antt =====
-- internal/correlation/correlation.go: the value that a capture takes out of a response. A text is the
-- list of its characters. The JSON paths, the regular expressions, the folding of letters and the
-- digits of a number are those of libraries, and are parameters.
pub mod Cookies
pub mod Assertions
use braunrate.Base.{
  ℕ, Bool, true, false, not, ◌&&◌, String, Option, none, some, List, [], ◌∷◌, Map, map, eqb,
  if◌then◌else◌, drop, length,
}
use braunrate.Base.Codes.{Text, codes, cut, has_prefix, trim_space}
use braunrate.Scenario.{
  Capture, CaptureOrigin, capture_json, capture_header, capture_cookie, capture_regex,
  capture_status, capture_body, capture_unknown,
}
use braunrate.Protocol.{Response}

-- `R` is a compiled expression. `find_submatch` answers the match and its groups.
pub record Library {ℓ} (R : Type ℓ) : Type ℓ where
  pub equal_fold : Text → Text → Bool
  pub find_json : Text → Text → Option Text
  pub valid_json : Text → Bool
  pub compile : Text → Option R
  pub find_submatch : R → Text → Option (Text × List Text)
  pub digits : ℕ → Text

-- The reasons of a CaptureError; the variable and the expression are those of the capture.
pub data Reason : Type 0 where
  no_header no_cookie invalid_expression no_match invalid_json no_path unknown_origin : Reason

pub data Captured : Type 0 where
  captured : Text → Captured
  refused : Reason → Captured

abbrev pub or_refused : Reason → Option Text → Captured
or_refused reason none = refused reason
or_refused reason (some value) = captured value

-- strings.TrimPrefix
abbrev pub trim_prefix : Text → Text → Text
trim_prefix prefix text = if has_prefix text prefix then drop (length prefix) text else text

-- The two ReplaceAll of PathToGJSON, from the left.
unfoldable pub dotted : Text → Text
dotted [] = []
dotted (c ∷ text) =
    let rest = dotted text in if eqb c 91 then 46 ∷ rest else if eqb c 93 then rest else c ∷ rest

unfoldable pub path_to_gjson : Text → Text
path_to_gjson expression =
    dotted (trim_prefix (codes ".") (trim_prefix (codes "$") (trim_space expression)))

abbrev pub first_of : List Text → Option Text → Option Text
first_of [] otherwise = otherwise
first_of (value ∷ values) otherwise = some value

abbrev pub or_next : Option Text → Option Text → Option Text
or_next none next = next
or_next (some value) next = some value

abbrev pub group_of : Option (Text × List Text) → Captured
group_of none = refused no_match
group_of (some (whole, [])) = captured whole
group_of (some (whole, group ∷ groups)) = captured group

module _ {ℓ} {R : Type ℓ} (library : Library R) where
  -- The case of a header.
  unfoldable pub find_header : Text → List (Text × List Text) → Option Text
  find_header expression [] = none
  find_header expression ((name, values) ∷ headers) =
      let rest = find_header expression headers in
      if library.equal_fold name expression then first_of values rest else rest

  -- The loop over the values of one Set-Cookie header.
  unfoldable pub find_cookie : Text → List Text → Option Text
  find_cookie expression [] = none
  find_cookie expression (value ∷ values) =
      let rest = find_cookie expression values in
      let (pair, _, _) = cut 59 value in
      let (cookie, content, found) = cut 61 (trim_space pair) in
      if found && library.equal_fold (trim_space cookie) expression
      then some (trim_space content)
      else rest

  unfoldable pub extract_cookie : Text → List (Text × List Text) → Option Text
  extract_cookie expression [] = none
  extract_cookie expression ((name, values) ∷ headers) =
      let rest = extract_cookie expression headers in
      if library.equal_fold name (codes "Set-Cookie")
      then or_next (find_cookie expression values) rest
      else rest

  abbrev pub json_of : Text → Option Text → Captured
  json_of body none = refused (if library.valid_json body then no_path else invalid_json)
  json_of body (some value) = captured value

  abbrev pub matched_in : Text → Option R → Captured
  matched_in body none = refused invalid_expression
  matched_in body (some expression) = group_of (library.find_submatch expression body)

  abbrev pub headers_of : Response → List (Text × List Text)
  headers_of r = map (λ (h : String × List String). (codes h.0, map codes h.1)) r.headers

  -- Extract
  unfoldable pub extract : Capture → Response → Captured
  extract capture r =
      let expression = codes capture.expression in
      elim capture.origin [
        | capture_json ↦ json_of r.body (library.find_json r.body (path_to_gjson expression))
        | capture_header ↦ or_refused no_header (find_header expression (headers_of r))
        | capture_cookie ↦ or_refused no_cookie (extract_cookie expression (headers_of r))
        | capture_regex ↦ matched_in r.body (library.compile expression)
        | capture_status ↦ captured (library.digits r.status)
        | capture_body ↦ captured r.body
        | capture_unknown ↦ refused unknown_origin
      ]
