-- ===== src/Engine.antt =====
-- internal/engine/executor.go and internal/engine/clock.go: the loop that dispatches iterations at
-- the instants of the plan, whatever the target does. `InstantOf` and `RateAt` of the plan, which
-- compute with floats, are functions that the loop is given; times are nanoseconds.
pub mod Schedule
pub mod Iteration
pub mod Closed
pub mod Profile
use braunrate.Base.{
  ℕ, ◌+◌, ◌-◌, Bool, true, false, List, [], ◌∷◌, ◌++◌, ◌||◌, ltb, leb, if◌then◌else◌,
}
use braunrate.Base.Float.{Float64}
use braunrate.Metrics.{Hdr}
use braunrate.Metrics.Collector.{Collector, record_dispatch, record_inflight_drop}

pub record VirtualClock : Type 0 where
  pub now : ℕ
  pub waits : List ℕ

unfoldable pub wait_until : ℕ → VirtualClock → VirtualClock
wait_until instant clock = record {
  now = if ltb clock.now instant then instant else clock.now;
  waits = clock.waits ++ instant ∷ [];
}

unfoldable pub advance : ℕ → VirtualClock → VirtualClock
advance duration clock = record clock { now = clock.now + duration }

-- What the loop reads of the plan and of the options.
pub record Plan {ℓ} (W : Type ℓ) : Type ℓ where
  pub total_requests : ℕ
  pub instant_of : ℕ → ℕ
  pub rate_at : ℕ → W
  pub max_inflight : ℕ
  pub start : ℕ

-- The loop and the goroutines that it started; `ended` counts those that have ended.
pub record Drive {ℓ κ} (H : Type ℓ) (W : Type κ) : Type (ℓ ⊔ κ) where
  pub index : ℕ
  pub clock : VirtualClock
  pub inflight : ℕ
  pub ended : ℕ
  pub stopped : Bool
  pub collector : Collector H W

-- A turn of the loop, the end of an iteration, time that passes, or the end of the context.
pub data Turn : Type 0 where
  dispatching ending canceling : Turn
  passing : ℕ → Turn

module _ {ℓ κ} {H : Type ℓ} {W : Type κ} ⦃h : Hdr H⦄ ⦃f : Float64 W⦄ where
  unfoldable pub new_drive : ℕ → Collector H W → Drive H W
  new_drive now collector = record {
    index = 0;
    clock = record { now = now; waits = [] };
    inflight = 0;
    ended = 0;
    stopped = false;
    collector = collector;
  }

  -- What follows the wait: the drop at the limit, or the dispatch.
  unfoldable pub dispatch_at : Plan W → ℕ → Drive H W → Drive H W
  dispatch_at plan offset d =
      if leb plan.max_inflight d.inflight
      then record d { collector = record_inflight_drop d.collector }
      else record d {
        inflight = d.inflight + 1;
        collector =
            record_dispatch (plan.start + offset) d.clock.now (plan.rate_at offset) (d.inflight + 1)
              d.collector;
      }

  -- One turn of the loop of `driveOpen`.
  unfoldable pub drive_open : Plan W → Drive H W → Drive H W
  drive_open plan d =
      let offset = plan.instant_of d.index in
      if d.stopped || leb plan.total_requests d.index
      then d
      else dispatch_at plan offset
          (record d { index = d.index + 1; clock = wait_until (plan.start + offset) d.clock })

  unfoldable pub take_turn : Plan W → Turn → Drive H W → Drive H W
  take_turn plan dispatching d = drive_open plan d
  take_turn plan ending d =
      if leb d.inflight 0 then d else record d { inflight = d.inflight - 1; ended = d.ended + 1 }
  take_turn plan canceling d = record d { stopped = true }
  take_turn plan (passing duration) d = record d { clock = advance duration d.clock }

  unfoldable pub take_turns : Plan W → List Turn → Drive H W → Drive H W
  take_turns plan [] d = d
  take_turns plan (turn ∷ turns) d = take_turns plan turns (take_turn plan turn d)
