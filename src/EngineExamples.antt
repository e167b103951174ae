-- ===== src/EngineExamples.antt =====
-- The theorems on the plan, on the closed loop and on whole iterations at concrete inputs: a ramp
-- and a steady phase, two users, and a data file that has run out.
use braunrate.Base.{
  ℕ, zero, suc, ◌+◌, ◌-◌, ◌*◌, ◌≤◌, ◌≡◌, refl, true, false, none, some, List, [], ◌∷◌, ◌⊎◌, All,
  map, sum, leb, if◌then◌else◌, arith, get_elem?, Bool-cases, inl, inr, ltb,
}
use braunrate.Base.Int.{ℤ, pos, pos_part}
use braunrate.Base.Float.{whole_float}
use braunrate.Metrics.{list_hdr}
use braunrate.Metrics.Collector.{new_collector}
use braunrate.Scenario.Load.{
  total_lasting, LoadPlan, open_arrival, phase_ramp, phase_steady, is_closed_model,
  declared_duration,
}
use braunrate.Engine
use braunrate.IterationExamples.{services, timed}
use braunrate.Protocol.{err_config}
use braunrate.Metrics.Collector.{offering}
use braunrate.Engine.Iteration.Start.{
  Source, IterationSetting, drawn, draw_error, authorized, failed_sample, set_all, run_iteration,
}
use braunrate.Engine.Iteration.Reports.{one_draws, none_left, run_iteration-fails}
use braunrate.Engine.Closed
use braunrate.Engine.Closed.Users.{in_iteration, closed_turns-new_closed}
use braunrate.Engine.Closed.Ending.{about_to, closed_turns-over}
use braunrate.Engine.Profile.Phases.{Follows, compile_plan_lem, rate_at-compile_plan}
use braunrate.Engine.Profile.Instants.{take_turns-compiled}
use braunrate.Engine.Profile.{
  CompiledPhase, CompiledPlan, instant_in_phase, instant_among, count_in_phase, clamped, add_ℤ,
  compile_phases, FloatMath, compile_plan, rate_at, instant_of,
}

-- The largest number up to a bound whose square is not above another.
abbrev root_below : ℕ → ℕ → ℕ
root_below zero n = 0
root_below (suc k) n = let rest = root_below k n in if leb (suc k * suc k) n then suc k else rest

-- Whole numbers in place of floats, and nanoseconds that count as seconds.
abbrev whole_math : FloatMath ℕ
whole_math = record {
  seconds = pos_part;
  nanoseconds = pos;
  floor = pos;
  abs = λ n. n;
  sqrt = λ n. root_below n n;
  negate = λ n. 0;
  max = λ a b. if leb a b then b else a;
  flat = 1;
}

abbrev declared : LoadPlan ℕ
declared = record {
  model = open_arrival;
  phases =
      record { kind = phase_ramp; from_rate = 2; to_rate = 10; lasting = 4 }
      ∷ record { kind = phase_steady; from_rate = 0; to_rate = 10; lasting = 3 }
      ∷ [];
  users = 0;
  lasting = 0;
  think_time = 0;
}

compile_plan_lem_example :
    let plan = compile_plan whole_math declared in
    (plan.duration ≡ 7)
    × ((is_closed_model declared.model ≡ true) × (plan.phases ≡ []) × (plan.total_requests ≡ pos 0)
        ⊎ (is_closed_model declared.model ≡ false)
          × ((total : ℕ) × Follows whole_math 0 0 declared.phases plan.phases plan.duration total
              × (plan.total_requests ≡ pos total)))
unfolding declared_duration total_lasting
compile_plan_lem_example = compile_plan_lem whole_math declared

rate_at-compile_plan_example :
    rate_at whole_math (compile_plan whole_math declared).phases (pos 3) ≡ 8
rate_at-compile_plan_example = rate_at-compile_plan whole_math declared 3 refl

-- The loop given the instants of that plan.
abbrev seven_long : Engine.Plan ℕ
seven_long = record {
  total_requests = 54;
  instant_of = λ index. pos_part (instant_of whole_math (compile_plan whole_math declared) index);
  rate_at = λ offset. 2;
  max_inflight = 1;
  start = 100;
}

abbrev closed_load : Closed.ClosedLoad
closed_load = record { deadline = 50; think_time = 5 }

abbrev user_turns : List Closed.ClosedTurn
user_turns =
    Closed.of_user 0
    ∷ Closed.of_user 0
    ∷ Closed.of_user 1
    ∷ Closed.passing 60
    ∷ Closed.of_user 1
    ∷ Closed.of_user 0
    ∷ []

closed_turns-new_closed_example :
    let d = Closed.closed_turns closed_load user_turns (Closed.new_closed 0 2) in
    (map (λ (b : Closed.Begun). b.number) d.log ≡ 0 ∷ 1 ∷ [])
    × (d.finished + sum (map in_iteration d.users) ≡ 2)
    × (sum (map in_iteration d.users) ≤ 2)
unfolding Closed.closed_turns Closed.closed_turn Closed.user_turn Closed.begin Closed.new_closed
    Closed.put
closed_turns-new_closed_example = closed_turns-new_closed closed_load 0 2 user_turns

-- The first user ends an iteration, waits, and finds that the time is up.
abbrev last_turns : List Closed.ClosedTurn
last_turns = Closed.of_user 1 ∷ Closed.of_user 1 ∷ Closed.of_user 1 ∷ Closed.of_user 1 ∷ []

closed_turns-over_example :
    let d = Closed.closed_turns closed_load user_turns (Closed.new_closed 0 2) in
    let e = Closed.closed_turns closed_load last_turns d in
    ((get_elem? e.users 1 ≡ none) ⊎ (get_elem? e.users 1 ≡ some Closed.ended))
    × (e.iterations ≤ d.iterations + sum (map about_to d.users))
unfolding Closed.closed_turns Closed.closed_turn Closed.user_turn Closed.begin Closed.new_closed
    Closed.put Engine.advance
closed_turns-over_example =
    closed_turns-over closed_load last_turns
      (Closed.closed_turns closed_load user_turns (Closed.new_closed 0 2)) 1 refl (omega arith)

-- A data file that has one record, and one that has run out.
abbrev full_source : Source ℕ ℕ
full_source = record {
  name = "users";
  next = λ iteration state. (drawn (("user", "ana") ∷ []), state + 1);
  set_per_use = λ values. values;
}

abbrev empty_source : Source ℕ ℕ
empty_source = record {
  name = "orders";
  next = λ iteration state. (draw_error "out of records", state + 1);
  set_per_use = λ values. values;
}

abbrev setting : IterationSetting ℕ ℕ ℕ
setting = record {
  services = services;
  sources = full_source ∷ empty_source ∷ full_source ∷ [];
  authenticator = some (λ values state. (authorized "Authorization" "t", state + 10));
  new_values = λ user iteration. 0;
  closed = false;
}

run_iteration-fails_example : run_iteration setting {W = ℕ} 0 4 900 950 timed 0 ≡ (
  offering
        (failed_sample setting "data: orders" "orders" "data" err_config "out of records" 900 950)
      ∷ [],
  2,
)
unfolding set_all
run_iteration-fails_example =
    run_iteration-fails setting (full_source ∷ []) (full_source ∷ []) empty_source 0 4 900 950 timed
      0 1 2 0 "out of records" refl (one_draws refl none_left) refl

-- Over whole numbers no instant is before the start.
instant_in_phase_whole :
    (phase : CompiledPhase ℕ) (count : ℕ)
    → (n : ℕ) × (instant_in_phase whole_math phase count ≡ pos n)
unfolding instant_in_phase
instant_in_phase_whole phase count = elim (Bool-cases (leb count 0)) [
  | inl e ↦ (0, rw e refl)
  | inr e ↦ (pos_part (instant_in_phase whole_math phase count), rw e refl)
]

clamped_whole :
    (start n duration : ℕ) (instant : ℤ)
    → instant ≡ pos n
    → (m : ℕ) × (clamped (add_ℤ start instant) duration ≡ pos m)
clamped_whole start n duration instant e = elim (Bool-cases (ltb duration (start + n))) [
  | inl h ↦ (duration, ground (arith, e, h))
  | inr h ↦ (start + n, ground (arith, e, h))
]

instant_among_whole :
    (phases : List (CompiledPhase ℕ)) (duration target : ℕ)
    → (n : ℕ) × (instant_among whole_math phases duration target ≡ pos n)
unfolding instant_among
instant_among_whole [] duration target = (duration, refl)
instant_among_whole (phase ∷ []) duration target =
    let (n, e) = instant_in_phase_whole phase (target - phase.accumulated_until) in
    clamped_whole phase.start n duration _ e
instant_among_whole (phase ∷ next ∷ phases) duration target =
    let count = target - phase.accumulated_until in
    let (n, e) = instant_in_phase_whole phase count in
    elim (Bool-cases (leb (count_in_phase whole_math phase phase.duration) count)) [
      | inl h ↦ rw h (instant_among_whole (next ∷ phases) duration target)
      | inr h ↦ rw h (clamped_whole phase.start n duration _ e)
    ]

instant_of_whole :
    (plan : CompiledPlan ℕ) (index : ℕ)
    → instant_of whole_math plan index ≡ pos (pos_part (instant_of whole_math plan index))
unfolding instant_of
instant_of_whole plan index =
    let (n, e) = instant_among_whole plan.phases plan.duration index in rw e refl

take_turns-compiled_example :
    let d =
      Engine.take_turns seven_long
        (Engine.dispatching ∷ Engine.ending ∷ Engine.dispatching ∷ [])
        (Engine.new_drive 0 (new_collector {H = List ℕ} (pos 5) 8)) in
    All (λ instant. instant ≤ 107) d.clock.waits
unfolding compile_plan compile_phases
take_turns-compiled_example =
    take_turns-compiled (List ℕ) whole_math (compile_plan whole_math declared) seven_long 0 (pos 5)
      8 (Engine.dispatching ∷ Engine.ending ∷ Engine.dispatching ∷ [])
      (λ index. instant_of_whole (compile_plan whole_math declared) index)
