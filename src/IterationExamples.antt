-- ===== src/IterationExamples.antt =====
-- The theorems on iterations and credentials at concrete inputs: two steps, of which the second one
-- fails a check, and a login whose token lasts.
use braunrate.Credential.{Call, responded, ready, new_manager, ensure_all, produced}
use braunrate.Credential.Freshness.{ensure_all_once}
use braunrate.Base.{
  ◌+◌, refl, All, string_eq, arith, ℕ, ◌≡◌, ◌↔◌, true, false, none, some, List, [], ◌∷◌, length,
}
use braunrate.Scenario.{Step, check_status}
use braunrate.Protocol.{success, Response, is_success}
use braunrate.Engine.Iteration.{Services, value_of, run_step, run_steps}
use braunrate.Engine.Iteration.Chain.{
  IsIteration, Succeeds, run_steps-IsIteration, run_step-Succeeds,
}

abbrev answer : Response
answer = record {
  status = 201;
  body = [];
  headers = [];
  bytes = 12;
  messages = 0;
  class = success;
  detail = "";
  key = "";
}

-- One protocol, whose every answer is the same; the values of an iteration are counted.
abbrev pub services : Services ℕ ℕ
services = record {
  protocol_of = λ name. some (λ config values. answer);
  resolve = λ values config. config;
  with_header = λ name value config. config;
  aggregation_key = λ step. step.name;
  contains = λ body text. true;
  explain_check = λ check r. "unexpected status";
  evaluate = λ assertion r values. none;
  extract = λ capture r. value_of "token";
  set = λ name value values. values;
}

abbrev expecting : ℕ → Step ℕ
expecting status = record {
  name = "pay";
  protocol = "http";
  config = 0;
  weight = 0;
  checks = check_status status ∷ [];
  captures = [];
  assertions = [];
}

abbrev pub timed : List (Step ℕ × ℕ × ℕ)
timed = (expecting 201, 1000, 1200) ∷ (expecting 200, 1200, 1300) ∷ []

run_steps-IsIteration_example :
    IsIteration (length timed) 900 (run_steps services false true timed 900 0 ("", ""))
run_steps-IsIteration_example = run_steps-IsIteration services false true timed 900 0 ("", "")

run_step-Succeeds_example :
    (is_success (run_step services (expecting 200) 900 0 ("", "") 1000 1200).0.class ≡ true)
    ↔ Succeeds services (services.protocol_of "http") (expecting 200) 0 ("", "")
run_step-Succeeds_example = run_step-Succeeds services (expecting 200) 900 0 ("", "") 1000 1200

-- A login that answers with a token, and two calls before it expires.
abbrev login_call : ℕ → Call
login_call at = record {
  now = at;
  finished = at + 5;
  input = ("user", "ana") ∷ [];
  answer = responded 200 (("user", "ana") ∷ ("token", "t1") ∷ []);
}

ensure_all_once_example :
    let (m, results) =
      ensure_all (login_call 10 ∷ login_call 20 ∷ login_call 60 ∷ []) (new_manager 100) in
    (m.obtains ≡ 1)
    × (m.values ≡ produced (("user", "ana") ∷ []) (("user", "ana") ∷ ("token", "t1") ∷ []))
    × All (λ r. r ≡ ready) results
ensure_all_once_example =
    ensure_all_once (login_call 10) (login_call 20 ∷ login_call 60 ∷ []) 100 200
      (("user", "ana") ∷ ("token", "t1") ∷ []) refl (omega arith)
      ((λ _. omega arith), ((λ _. omega arith), _))
