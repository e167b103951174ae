-- ===== src/Engine/Iteration/Start.antt =====
-- runIteration of internal/engine/executor.go: what comes before the steps, the records of the data
-- sources and the credential, and the whole of an iteration with what it gives the collector. `S` is
-- the state of the sources and of the authenticator, which the iterations share. What a source, the
-- authenticator and the values do is a parameter.
use Prim.Native.String.{◌++◌ as ◌<>◌}
use braunrate.Base.{ℕ, Bool, true, String, Option, none, some, List, [], ◌∷◌, ◌++◌, map, Map}
use braunrate.Scenario.{Step}
use braunrate.Protocol.{ErrorClass, err_config, err_auth}
use braunrate.Metrics.Aggregate.{Sample}
use braunrate.Metrics.Collector.{Action, offering, ending_journey}
use braunrate.Engine.Iteration.{Services, run_steps}

-- What Next of a source answers: a record, or the text of its error.
pub data SourceAnswer : Type 0 where
  drawn : Map String String → SourceAnswer
  draw_error : String → SourceAnswer

-- A source: its name, Next, and SetPerUse of what it generates for each use.
pub record Source {ℓ κ} (V : Type ℓ) (S : Type κ) : Type (ℓ ⊔ κ) where
  pub name : String
  pub next : ℕ → S → SourceAnswer × S
  pub set_per_use : V → V

-- What Header of the authenticator answers: a name and a value, or the sample's text of its error.
pub data Authorized : Type 0 where
  authorized : String → String → Authorized
  auth_error : String → Authorized

-- What an iteration has of the executor.
pub record IterationSetting {ℓ κ μ} (C : Type ℓ) (V : Type κ) (S : Type μ) : Type (ℓ ⊔ κ ⊔ μ) where
  pub services : Services C V
  pub sources : List (Source V S)
  pub authenticator : Option (V → S → Authorized × S)
  pub new_values : ℕ → ℕ → V
  pub closed : Bool

-- The iteration has failed before its steps, with the sample of it, or has its values and header.
pub data Prepared {ℓ} (V : Type ℓ) : Type ℓ where
  failed : (step key protocol : String) → ErrorClass → String → Prepared V
  prepared : V → String × String → Prepared V

module _ {ℓ κ μ} {C : Type ℓ} {V : Type κ} {S : Type μ} (setting : IterationSetting C V S) where
  -- SetAll
  unfoldable pub set_all : Map String String → V → V
  set_all [] values = values
  set_all ((name, value) ∷ record_of) values =
      set_all record_of (setting.services.set name value values)

  abbrev pub authorize : Option (V → S → Authorized × S) → V → S → Prepared V × S
  authorize none values state = (prepared values ("", ""), state)
  authorize (some header) values state =
      let (answer, after) = header values state in
      elim answer [
        | authorized name value ↦ (prepared values (name, value), after)
        | auth_error text ↦ (failed "authentication" "authentication" "http" err_auth text, after)
      ]

  -- The loop over the sources, and the header behind it.
  unfoldable pub prepare : List (Source V S) → ℕ → V → S → Prepared V × S
  prepare [] iteration values state = authorize setting.authenticator values state
  prepare (source ∷ sources) iteration values state =
      let (answer, after) = source.next iteration state in
      elim answer [
        | drawn row ↦ prepare sources iteration (source.set_per_use (set_all row values)) after
        | draw_error text ↦
            (failed ("data: " <> source.name) source.name "data" err_config text, after)
      ]

  abbrev pub failed_sample : String → String → String → ErrorClass → String → ℕ → ℕ → Sample
  failed_sample step key protocol class text scheduled finished = record {
    latency_kind = none;
    step = step;
    key = key;
    protocol = protocol;
    scheduled_at = scheduled;
    sent_at = some scheduled;
    finished_at = some finished;
    class = class;
    detail = text;
    status = 0;
    bytes = 0;
    messages = 0;
  }

  abbrev pub offerings {ω} : {W : Type ω} → List Sample → List (Action W)
  offerings samples = map offering samples

  -- What an iteration gives the collector, with the reading of the clock at a failure before the
  -- steps and the steps of the iteration with theirs.
  abbrev pub reports {ω} :
      {W : Type ω} → Prepared V → (scheduled now : ℕ) → List (Step C × ℕ × ℕ) → List (Action W)
  reports (failed step key protocol class text) scheduled now timed =
      offering (failed_sample step key protocol class text scheduled now) ∷ []
  reports (prepared values header) scheduled now timed =
      let (samples, last, complete) =
        run_steps setting.services setting.closed true timed scheduled values header in
      offerings samples ++ ending_journey scheduled last complete ∷ []

  -- `runIteration`
  unfoldable pub run_iteration {ω} :
      {W : Type ω}
      → (user iteration scheduled now : ℕ) → List (Step C × ℕ × ℕ)
      → S
      → List (Action W) × S
  run_iteration user iteration scheduled now timed state =
      let (start, after) =
        prepare setting.sources iteration (setting.new_values user iteration) state in
      (reports start scheduled now timed, after)
