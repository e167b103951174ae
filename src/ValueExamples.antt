-- ===== src/ValueExamples.antt =====
-- The theorems on substitution, captures and assertions at concrete inputs. The state of the generators is a counter.
use braunrate.Base.{
  ◌+◌, ◌-◌, leb, if◌then◌else◌, false, ◌==◌, ℕ, suc, ◌≡◌, refl, Option, none, some, List, [], ◌∷◌,
  lookup, insert, All,
}
use braunrate.Base.Codes.{trim_space, trim_left, trim_right, cut, without, Text, codes, text_eq}
use braunrate.Correlation.Assertions.{AssertionLibrary, Expectation}
use braunrate.Scenario.{assert_json, op_less}
use braunrate.Base.Float.{whole_float}
use braunrate.Correlation.{Library, find_cookie, extract_cookie}
use braunrate.Correlation.Cookies.{IsCookie, set_cookie, extract_cookie-set_cookie}
use braunrate.Values.{
  Values, Generator, resolve, resolve_from, substitute, new_values, set, set_per_use, note_use,
  match_braces, take_name, take_fallback, end_occurrence,
}
use braunrate.Values.Templates.{Piece, literal, variable, written, filled, IsPiece, resolve-written}

-- A digit that goes up at each use.
abbrev counting : Generator ℕ
counting n = (some ((48 + n) ∷ []), suc n)

abbrev no_environment : Text → Option Text
no_environment _ = none

abbrev iteration_values : Values ℕ
iteration_values =
    set_per_use (codes "id") counting (set (codes "user") (codes "ana") (new_values []))

-- /u/${user}/${id}/${id}?p=${page:-1}
abbrev path_pieces : List Piece
path_pieces =
    literal (codes "/u/")
    ∷ variable (codes "user") none
    ∷ literal (codes "/")
    ∷ variable (codes "id") none
    ∷ literal (codes "/")
    ∷ variable (codes "id") none
    ∷ literal (codes "?p=")
    ∷ variable (codes "page") (some (codes "1"))
    ∷ []

path_written : written path_pieces ≡ codes "/u/${user}/${id}/${id}?p=${page:-1}"
unfolding written
path_written = refl

path_resolved :
    (resolve no_environment (codes "/u/${user}/${id}/${id}?p=${page:-1}") iteration_values 7).0
    ≡ codes "/u/ana/7/8?p=1"
unfolding resolve resolve_from substitute new_values set set_per_use note_use match_braces take_name
    take_fallback end_occurrence lookup insert
path_resolved = refl

id-IsPiece : IsPiece (variable (codes "id") none)
id-IsPiece = ((refl, (refl, (refl, tt))), tt)

path_pieces-IsPiece : All IsPiece path_pieces
path_pieces-IsPiece = (
  without 36 (codes "/u/") refl,
  (
    ((refl, (refl, (refl, (refl, (refl, tt))))), tt),
    (
      without 36 (codes "/") refl,
      (
        id-IsPiece,
        (
          without 36 (codes "/") refl,
          (
            id-IsPiece,
            (
              without 36 (codes "?p=") refl,
              (((refl, (refl, (refl, (refl, (refl, tt))))), without 125 (codes "1") refl), tt),
            ),
          ),
        ),
      ),
    ),
  ),
)

resolve-written_example :
    resolve no_environment (written path_pieces) iteration_values 7
    ≡ filled no_environment path_pieces iteration_values 7
resolve-written_example =
    resolve-written no_environment path_pieces iteration_values 7 path_pieces-IsPiece

-- Letters are compared as they are, and nothing is found in a body.
abbrev plain_library : Library ℕ
plain_library = record {
  equal_fold = λ a b. a == b;
  find_json = λ body path. none;
  valid_json = λ body. false;
  compile = λ expression. none;
  find_submatch = λ expression body. none;
  digits = λ n. [];
}

session-IsCookie : IsCookie (codes "sid") (codes "a=1")
unfolding trim_space trim_left trim_right
session-IsCookie = record {
  plain_name = without 61 (codes "sid") refl;
  plain_pair = without 59 (codes "sid=a=1") refl;
  trimmed_pair = refl;
  trimmed_name = refl;
  trimmed_content = refl;
}

extract_cookie-set_cookie_example :
    extract_cookie plain_library (codes "sid") (
      (codes "Date", codes "x" ∷ [])
      ∷ (
        codes "Set-Cookie",
        codes "lang=pt" ∷ set_cookie (codes "sid") (codes "a=1") (codes " Path=/") ∷ [],
      )
      ∷ [])
    ≡ some (codes "a=1")
extract_cookie-set_cookie_example =
    extract_cookie-set_cookie plain_library (codes "sid") (codes "a=1") (codes " Path=/")
      (codes "sid") (codes "Set-Cookie") (codes "lang=pt" ∷ []) []
      ((codes "Date", codes "x" ∷ []) ∷ []) [] session-IsCookie refl refl
      (unfold find_cookie cut trim_space trim_left trim_right in refl)
      (unfold extract_cookie in refl)

-- A number is one character, far above the spaces.
abbrev number_from : Text → Option ℕ
number_from [] = none
number_from (c ∷ []) = if leb 20_000 c then some (c - 20_000) else none
number_from (c ∷ d ∷ text) = none

abbrev number_library : AssertionLibrary ℕ ℕ
number_library = record {
  base = plain_library;
  get_bytes = λ body path. some (record { number = some 12; text = codes "12" });
  matches = λ expression body. false;
  parse_float = number_from;
  format_float = λ n. (20_000 + n) ∷ [];
}

abbrev below_twenty : Expectation
below_twenty = record {
  kind = assert_json;
  target = codes "$.total";
  operator = op_less;
  expected = 20_020 ∷ [];
}
