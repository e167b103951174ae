-- ===== src/ScenarioExamples.antt =====
-- The theorems on the documents of scenarios and on what the recorder infers, at concrete inputs: a
-- login with a password from the environment, and a call whose answer a later call sends back.
use braunrate.Base.{
  ℕ, String, eqb, arith, ◌==◌, ◌&&◌, if◌then◌else◌, leb, ◌≡◌, refl, true, none, some, List, [], ◌∷◌,
  inl, inr, Option,
}
use braunrate.Base.Codes.{
  trim_right, trim_left, trim_space, has_prefix, contains, Text, codes, text_eq,
}
use braunrate.Scenario.References.{
  closing_at, name_at, match_at, pieces_from, expand_defined_environment,
}
use braunrate.Scenario.References.Kept.{expand_defined_environment-kept}
use braunrate.Scenario.Secrets.{
  expand_environment, is_credential_header, is_secret_name, credential_name, refuse_literal_text,
  sweep_credentials, Entries, scalar, mapping, no_entries, entry, written_safely,
  refuse_literal_credentials,
}
use braunrate.Scenario.Secrets.Fields.{SweptField, below, in_mapping, here}
use braunrate.Scenario.Secrets.Expanded.{expand_entries-written}
use mathlib.Core.List.Perm
use braunrate.Scenario.Mix.{SortSlice, Slot}
use braunrate.Scenario.{Step}
use braunrate.Scenario.Load.{open_arrival, phase_steady}
use braunrate.Scenario.Validation.{Spec, Surroundings}
use braunrate.Base.Float.{whole_float}
use braunrate.Recorder.{
  last_field, text_value, field, object_value, Entry, RecorderLibrary, group_by_route,
}
use braunrate.Recorder.Groups.{IsGrouped, group_by_route-IsGrouped}
use braunrate.Recorder.Flow.{Head}

-- One variable is set.
abbrev environment : Text → Option Text
environment name = if name == codes "PASS" then some (codes "s3cret") else none

-- A name in small letters and a variable that is not set.
abbrev sentence : Text
sentence = codes "a ${user.id} ${HOST}"

expand_defined_environment-kept_example : expand_defined_environment environment sentence ≡ sentence
unfolding pieces_from match_at name_at closing_at
expand_defined_environment-kept_example =
    expand_defined_environment-kept environment sentence (inl refl, (inr (refl, refl), tt))

abbrev fields_of : Text → Entries
fields_of value = entry (codes "password") (scalar value) no_entries

abbrev login : Text → Entries
login value = entry (codes "auth") (mapping (fields_of value)) no_entries

expand_entries-written_example :
    SweptField (codes "password") (codes "${PASS}") (login (codes "${PASS}"))
    × (written_safely (codes "${PASS}") ≡ true)
unfolding refuse_literal_credentials sweep_credentials refuse_literal_text written_safely
    credential_name is_secret_name contains has_prefix trim_space trim_left trim_right
    is_credential_header expand_environment
expand_entries-written_example =
    expand_entries-written (λ text. text) environment (login (codes "${PASS}")) (codes "password")
      (codes "${PASS}") (λ text. refl) refl refl
      (below (λ e. absurd (ground (arith, e))) (λ e. absurd (ground (arith, e))) (in_mapping here))

abbrev digits_library : RecorderLibrary
digits_library = record {
  to_lower = λ text. text;
  is_digit = λ c. leb 48 c && leb c 57;
  decode = λ text. some (object_value (field (codes "id") (text_value (codes "a77b")) last_field));
  graphql_operation = λ e. none;
}

abbrev call : Text → Entry
call path = record {
  method = codes "get";
  path = path;
  query = [];
  headers = [];
  body = [];
  response_body = [];
  response_cookies = [];
  content_type = codes "json";
}

group_by_route-IsGrouped_example :
    let calls =
      call (codes "/orders/1001") ∷ call (codes "/users") ∷ call (codes "/orders/1002") ∷ [] in
    IsGrouped digits_library calls (group_by_route digits_library calls)
group_by_route-IsGrouped_example =
    group_by_route-IsGrouped digits_library
      (call (codes "/orders/1001") ∷ call (codes "/users") ∷ call (codes "/orders/1002") ∷ [])

abbrev visited : List Head
visited =
    record { entry = call (codes "/orders"); subject = codes "orders" }
    ∷ record { entry = call (codes "/orders/a77b"); subject = codes "orders" }
    ∷ []

-- Two alternatives of a mix, the second one with a text of its own.
abbrev alternative : String → ℕ → ℕ → Step ℕ
alternative name config weight = record {
  name = name;
  protocol = "http";
  config = config;
  weight = weight;
  checks = [];
  captures = [];
  assertions = [];
}

abbrev small_spec : Spec ℕ ℕ
small_spec = record {
  name = codes "shop";
  target = codes "http://shop";
  steps = alternative "browse" 0 3 ∷ alternative "buy" 1 1 ∷ [];
  load = record {
    model = open_arrival;
    phases = record { kind = phase_steady; from_rate = 0; to_rate = 5; lasting = 60 } ∷ [];
    users = 0;
    lasting = 0;
    think_time = 0;
  };
  slo = [];
  messaging = [];
}

abbrev around : Surroundings ℕ
around = record {
  texts_of = λ config. if eqb config 0 then [] else codes "/orders/${user}" ∷ [];
  broker_technology = λ config. "";
  declared_brokers = λ config. [];
  parse_url = λ text. some (codes "http", codes "shop");
  environment = λ name. none;
}

abbrev keep_slots : SortSlice (Slot ℕ)
keep_slots less slots = slots
