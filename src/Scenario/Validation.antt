-- ===== src/Scenario/Validation.antt =====
-- Validate of internal/scenario/validation.go with the checks of mix.go and brokers.go: the problems of
-- a scenario before it runs. A problem has what its sentence is made of. What a protocol's
-- configuration says of itself, and url.Parse, are parameters.
pub mod Parts
pub mod Mixed
pub mod Accepted
pub mod Alternatives
use braunrate.Base.{
  ℕ, zero, suc, ◌+◌, Bool, true, false, not, ◌&&◌, ◌||◌, String, string_eq, Option, none, some,
  List, [], ◌∷◌, ◌++◌, Map, insert, lookup, add_count, count_of, any, all, ◌==◌, eqb, ltb, leb,
  if◌then◌else◌,
}
use braunrate.Base.Codes.{Text, codes, text_eq, cut, has_prefix, trim_space}
use braunrate.Base.Float.{Float64}
use braunrate.Scenario.{Step, Capture, SloRule, SloScope, scope_step}
use braunrate.Scenario.Load.{
  LoadPlan, LoadPhase, PhaseKind, phase_ramp, phase_steady, phase_spike, is_closed_model,
}
use braunrate.Scenario.References.{Reference, references_in, unresolved_environment}

pub data Problem : Type 0 where
  no_name no_target invalid_target no_steps no_users no_duration no_profile : Problem
  missing_environment : List Text → Problem
  repeated_name : String → Problem
  silent_steps : ℕ → List String → Problem
  chained_capture : (step : ℕ) (name : Text) (origin : ℕ) → Problem
  no_broker_address : (step technology : String) → Problem
  unknown_step : String → Problem
  phase_without_duration phase_without_rate : PhaseKind → Problem

pub record Spec {ℓ κ} (C : Type ℓ) (W : Type κ) : Type (ℓ ⊔ κ) where
  pub name : Text
  pub target : Text
  pub steps : List (Step C)
  pub load : LoadPlan W
  pub slo : List (SloRule W)
  pub messaging : Map String (List String)

-- The texts of a configuration, the technology of its broker, if it has one, and the addresses that
-- it declares.
pub record Surroundings {ℓ} (C : Type ℓ) : Type ℓ where
  pub texts_of : C → List Text
  pub broker_technology : C → String
  pub declared_brokers : C → List String
  pub parse_url : Text → Option (Text × Text)
  pub environment : Text → Option Text

abbrev all_decimal : Text → Bool
all_decimal port = all (λ c. leb 48 c && leb c 57) port

abbrev names_url : Option (Text × Text) → Bool
names_url none = false
names_url (some (scheme, host)) = not (scheme == []) && not (host == [])

unfoldable pub broker_target : Text → Bool
broker_target target =
    not (target == [])
    && not (has_prefix target (codes "http://"))
    && not (has_prefix target (codes "https://"))

abbrev pub is_step_scope : SloScope → Bool
is_step_scope scope = elim scope [ scope_step ↦ true | _ ↦ false ]

abbrev pub is_ramp : PhaseKind → Bool
is_ramp phase_ramp = true
is_ramp phase_steady = false
is_ramp phase_spike = false

abbrev has_any {ℓ} : {A : Type ℓ} → List A → Bool
has_any [] = false
has_any (x ∷ xs) = true

abbrev has_addresses : Option (List String) → Bool
has_addresses none = false
has_addresses (some addresses) = has_any addresses

abbrev produce : ℕ → List Capture → Map Text ℕ → Map Text ℕ
produce index [] produced = produced
produce index (c ∷ captures) produced =
    produce index captures (insert (codes c.variable) index produced)

abbrev pub or_chained : Option Problem → Option Problem → Option Problem
or_chained none rest = rest
or_chained (some problem) rest = some problem

abbrev from_other : ℕ → Text → Option ℕ → Option Problem
from_other index name none = none
from_other index name (some origin) =
    if eqb origin index then none else some (chained_capture index name origin)

unfoldable pub chained_references : ℕ → Map Text ℕ → List Reference → Option Problem
chained_references index produced [] = none
chained_references index produced (r ∷ references) =
    or_chained (from_other index r.name (lookup r.name produced))
      (chained_references index produced references)

unfoldable pub chained_texts : ℕ → Map Text ℕ → List Text → Option Problem
chained_texts index produced [] = none
chained_texts index produced (text ∷ texts) =
    or_chained (chained_references index produced (references_in text))
      (chained_texts index produced texts)

abbrev pub silent_problem : ℕ → List String → List Problem
silent_problem declared [] = []
silent_problem declared (name ∷ names) = silent_steps declared (name ∷ names) ∷ []

abbrev pub problem_of : Option Problem → List Problem
problem_of none = []
problem_of (some problem) = problem ∷ []

unfoldable pub check_name : Text → List Problem
check_name name = if trim_space name == [] then no_name ∷ [] else []

module _ {ℓ} {C : Type ℓ} where
  unfoldable pub check_steps : List (Step C) → List Problem
  check_steps steps = if has_any steps then [] else no_steps ∷ []

  unfoldable pub repeated_names : Map String ℕ → List (Step C) → List Problem
  repeated_names seen [] = []
  repeated_names seen (s ∷ steps) =
      let counted = add_count s.name 1 seen in
      let rest = repeated_names counted steps in
      if eqb (count_of s.name counted) 2 then repeated_name s.name ∷ rest else rest

  -- The step that captures each variable, the last one if there are more.
  unfoldable pub produced_from : ℕ → List (Step C) → Map Text ℕ → Map Text ℕ
  produced_from index [] produced = produced
  produced_from index (s ∷ steps) produced =
      produced_from (suc index) steps (produce index s.captures produced)

  abbrev pub declared_weights : List (Step C) → ℕ
  declared_weights [] = 0
  declared_weights (s ∷ steps) =
      let rest = declared_weights steps in if ltb 0 s.weight then rest + 1 else rest

  abbrev pub silent_names : List (Step C) → List String
  silent_names [] = []
  silent_names (s ∷ steps) =
      let rest = silent_names steps in if ltb 0 s.weight then rest else s.name ∷ rest

module _ {ℓ} {C : Type ℓ} (around : Surroundings C) where
  unfoldable pub valid_target : Text → Bool
  valid_target target =
      let (hostname, port, found) = cut 58 target in
      names_url (around.parse_url target)
      || found && not (hostname == []) && not (port == []) && all_decimal port

  -- The target of the scenario.
  unfoldable pub check_target : Text → List Problem
  check_target target = elim (unresolved_environment around.environment target) [
    | name ∷ names ↦ missing_environment (name ∷ names) ∷ []
    | [] ↦
        if trim_space target == []
        then no_target ∷ []
        else if valid_target target
        then []
        else invalid_target ∷ []
  ]

  unfoldable pub chained_from : ℕ → Map Text ℕ → List (Step C) → Option Problem
  chained_from index produced [] = none
  chained_from index produced (s ∷ steps) =
      or_chained (chained_texts index produced (around.texts_of s.config))
        (chained_from (suc index) produced steps)

  -- `chainedCaptures`
  unfoldable pub chained_captures : List (Step C) → Option Problem
  chained_captures steps = chained_from 0 (produced_from 0 steps []) steps

  -- `checkMix`
  unfoldable pub check_mix : List (Step C) → List Problem
  check_mix steps =
      if eqb (declared_weights steps) 0
      then []
      else silent_problem (declared_weights steps) (silent_names steps)
        ++ problem_of (chained_captures steps)

  -- Whether a step has an address for its broker, or needs none.
  abbrev pub reaches_broker : Text → Map String (List String) → Step C → Bool
  reaches_broker target messaging s =
      around.broker_technology s.config == ""
      || has_any (around.declared_brokers s.config)
      || has_addresses (lookup (around.broker_technology s.config) messaging)
      || broker_target target

  -- `checkBrokers`; a technology is said once.
  unfoldable pub check_brokers :
      Text → Map String (List String) → List String → List (Step C) → List Problem
  check_brokers target messaging said [] = []
  check_brokers target messaging said (s ∷ steps) =
      let technology = around.broker_technology s.config in
      elim (any (λ other. other == technology) said || reaches_broker target messaging s) [
        | true ↦ check_brokers target messaging said steps
        | false ↦
            no_broker_address s.name technology
            ∷ check_brokers target messaging (technology ∷ said) steps
      ]

module _ {ℓ} {W : Type ℓ} ⦃f : Float64 W⦄ where
  unfoldable pub check_load : LoadPlan W → List Problem
  check_load load =
      if is_closed_model load.model && leb load.users 0
      then no_users ∷ []
      else if is_closed_model load.model && leb load.lasting 0
      then no_duration ∷ []
      else if not (is_closed_model load.model) && not (has_any load.phases)
      then no_profile ∷ []
      else []

  abbrev check_phase : LoadPhase W → List Problem
  check_phase phase =
      (if leb phase.lasting 0 then phase_without_duration phase.kind ∷ [] else [])
      ++ (if not (is_ramp phase.kind) && f.le phase.to_rate (f.of_ℕ 0)
          then phase_without_rate phase.kind ∷ []
          else [])

  unfoldable pub check_phases : List (LoadPhase W) → List Problem
  check_phases [] = []
  check_phases (phase ∷ phases) = check_phase phase ++ check_phases phases

module _ {ℓ κ} {C : Type ℓ} {W : Type κ} ⦃f : Float64 W⦄ where
  -- `checkSLOSteps`
  unfoldable pub check_slo_steps : List (Step C) → List (SloRule W) → List Problem
  check_slo_steps steps [] = []
  check_slo_steps steps (rule ∷ rules) =
      let rest = check_slo_steps steps rules in
      if not (is_step_scope rule.scope) || any (λ s. s.name == rule.step) steps
      then rest
      else unknown_step rule.step ∷ rest

  -- `Validate`
  unfoldable pub validate : Surroundings C → Spec C W → List Problem
  validate around spec =
      check_name spec.name
      ++ check_target around spec.target
      ++ check_steps spec.steps
      ++ check_load spec.load
      ++ repeated_names [] spec.steps
      ++ check_mix around spec.steps
      ++ check_brokers around spec.target spec.messaging [] spec.steps
      ++ check_slo_steps spec.steps spec.slo
      ++ check_phases spec.load.phases
