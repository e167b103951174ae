-- ===== src/Engine/Schedule.antt =====
-- The loop dispatches by the plan and not by the target, within the limit of iterations in flight.
use braunrate.Base.Int.{ℤ}
use braunrate.Metrics.Collector.{new_collector}
use braunrate.Engine.{new_drive}
use braunrate.Base.{
  refl, false, ℕ, ◌+◌, ◌≤◌, ◌≡◌, ap, List, [], ◌∷◌, ◌++◌, ltb, if◌then◌else◌, arith,
}
use braunrate.Base.Int.{sub_ℕ}
use braunrate.Base.Float.{Float64}
use braunrate.Metrics.{Hdr}
use braunrate.Metrics.Collector.{
  Collector, record_dispatch, record_inflight_drop, count_dispatch, bucket_start, sent_bucket,
}
use braunrate.Metrics.Collector.Buckets.{write_bucket_frame}
use braunrate.Engine.{
  wait_until, advance, Plan, Drive, Turn, dispatching, ending, canceling, passing, dispatch_at,
  drive_open, take_turn, take_turns,
}

-- The first instants of a plan, from its start.
abbrev pub planned {ℓ} : {W : Type ℓ} → Plan W → ℕ → List ℕ
planned plan ℕ.zero = []
planned plan (ℕ.suc n) = planned plan n ++ (plan.start + plan.instant_of n) ∷ []

planned_next {ℓ} :
    {W : Type ℓ} (plan : Plan W) (n : ℕ)
    → planned plan (n + 1) ≡ planned plan n ++ (plan.start + plan.instant_of n) ∷ []
planned_next plan n = (let e : n + 1 ≡ ℕ.suc n = omega arith in ap (planned plan) e)

-- The turns of the loop, and the cancellations.
abbrev pub dispatches : List Turn → ℕ
dispatches [] = 0
dispatches (dispatching ∷ turns) = dispatches turns + 1
dispatches (_ ∷ turns) = dispatches turns

abbrev pub cancels : List Turn → ℕ
cancels [] = 0
cancels (canceling ∷ turns) = cancels turns + 1
cancels (_ ∷ turns) = cancels turns

turns_cons :
    (turn : Turn) (turns : List Turn)
    → (cancels (turn ∷ turns) ≡ cancels (turn ∷ []) + cancels turns)
      × (dispatches (turn ∷ turns) ≡ dispatches (turn ∷ []) + dispatches turns)
turns_cons dispatching turns = (omega arith, omega arith)
turns_cons ending turns = (omega arith, omega arith)
turns_cons canceling turns = (omega arith, omega arith)
turns_cons (passing duration) turns = (omega arith, omega arith)

dispatches_le : (turn : Turn) → dispatches (turn ∷ []) ≤ 1
dispatches_le dispatching = omega arith
dispatches_le ending = omega arith
dispatches_le canceling = omega arith
dispatches_le (passing duration) = omega arith

module _ {ℓ κ} {H : Type ℓ} {W : Type κ} ⦃h : Hdr H⦄ ⦃f : Float64 W⦄ where
  -- What the loop and the collector agree on.
  pub record IsScheduled (plan : Plan W) (d : Drive H W) : Type 0 where
    pub waited : d.clock.waits ≡ planned plan d.index
    pub accounted : d.collector.sent + d.collector.dropped_by_inflight_limit ≡ d.index
    pub within_total : d.index ≤ plan.total_requests
    pub in_flight : d.collector.sent ≡ d.ended + d.inflight
    pub within_limit : d.inflight ≤ plan.max_inflight
    pub peak : d.collector.peak_inflight ≤ plan.max_inflight

  record_dispatch_counters :
      (scheduled now : ℕ) (rate : W) (inflight : ℕ) (c : Collector H W)
      → let e = record_dispatch scheduled now rate inflight c in
        (e.sent ≡ c.sent + 1)
        × (e.dropped_by_inflight_limit ≡ c.dropped_by_inflight_limit)
        × (e.peak_inflight ≡ (if ltb c.peak_inflight inflight then inflight else c.peak_inflight))
  unfolding record_dispatch count_dispatch
  record_dispatch_counters scheduled now rate inflight c =
      let e =
        write_bucket_frame (bucket_start scheduled) (sent_bucket rate)
          (count_dispatch (sub_ℕ now scheduled) inflight c) in
      (
        ap (λ (x : Collector H W). x.sent) e,
        ap (λ (x : Collector H W). x.dropped_by_inflight_limit) e,
        ap (λ (x : Collector H W). x.peak_inflight) e,
      )

  drive_open-IsScheduled :
      (plan : Plan W) (d : Drive H W) → IsScheduled plan d → IsScheduled plan (drive_open plan d)
  unfolding drive_open dispatch_at wait_until record_inflight_drop
  drive_open-IsScheduled plan d s =
      let scheduled = plan.start + plan.instant_of d.index in
      let now = if ltb d.clock.now scheduled then scheduled else d.clock.now in
      let (sent, dropped, peak) =
        record_dispatch_counters scheduled now (plan.rate_at (plan.instant_of d.index))
          (d.inflight + 1) d.collector in
      ground (arith, sent, dropped, peak, planned_next plan d.index)

  take_turn-IsScheduled :
      (plan : Plan W) (turn : Turn) (d : Drive H W)
      → IsScheduled plan d
      → IsScheduled plan (take_turn plan turn d)
  unfolding take_turn advance
  take_turn-IsScheduled plan dispatching d s = drive_open-IsScheduled plan d s
  take_turn-IsScheduled plan ending d s = ground arith
  take_turn-IsScheduled plan canceling d s = ground arith
  take_turn-IsScheduled plan (passing duration) d s = ground arith

  take_turns-IsScheduled :
      (plan : Plan W) (turns : List Turn) (d : Drive H W)
      → IsScheduled plan d
      → IsScheduled plan (take_turns plan turns d)
  unfolding take_turns
  take_turns-IsScheduled plan [] d s = s
  take_turns-IsScheduled plan (turn ∷ turns) d s =
      take_turns-IsScheduled plan turns _ (take_turn-IsScheduled plan turn d s)

  new_drive-IsScheduled :
      (plan : Plan W) (now : ℕ) (threshold : ℤ) (capacity : ℕ)
      → IsScheduled plan (new_drive now (new_collector {H = H} threshold capacity))
  unfolding new_drive new_collector
  new_drive-IsScheduled plan now threshold capacity = ground arith

  index-take_turn :
      (plan : Plan W) (turn : Turn) (d : Drive H W)
      → d.stopped ≡ false
      → cancels (turn ∷ []) ≡ 0
      → ((take_turn plan turn d).stopped ≡ false)
        × ((take_turn plan turn d).index ≡ (
            if ltb d.index plan.total_requests then d.index + dispatches (turn ∷ []) else d.index))
  unfolding take_turn drive_open dispatch_at
  index-take_turn plan dispatching d going none_cancels = ground (arith, going)
  index-take_turn plan ending d going none_cancels = ground (arith, going)
  index-take_turn plan canceling d going none_cancels = ground (arith, none_cancels)
  index-take_turn plan (passing duration) d going none_cancels = ground (arith, going)

  index-take_turns :
      (plan : Plan W) (turns : List Turn) (d : Drive H W)
      → d.stopped ≡ false
      → cancels turns ≡ 0
      → d.index ≤ plan.total_requests
      → plan.total_requests ≤ d.index + dispatches turns
      → (take_turns plan turns d).index ≡ plan.total_requests
  unfolding take_turns
  index-take_turns plan [] d going none_cancels below enough = omega (arith, below, enough)
  index-take_turns plan (turn ∷ turns) d going none_cancels below enough =
      let first = turns_cons turn turns in
      let (going', moved) =
        index-take_turn plan turn d going (omega (arith, first.0, none_cancels)) in
      index-take_turns plan turns (take_turn plan turn d) going'
        (omega (arith, first.0, none_cancels)) (ground (arith, moved, below, dispatches_le turn))
        (ground (arith, moved, below, enough, first.1, dispatches_le turn))

  -- From a fresh start, whatever iterations end, however much time passes and whenever the run is
  -- canceled: the loop has waited for exactly the first instants of the plan, in order, so that
  -- what the target does moves none of them; every turn is counted as sent or as dropped; what was
  -- sent has ended or is in flight; and never are more in flight than the limit. Without a
  -- cancellation, as many turns as the plan has requests dispatch or drop them all.
  pub take_turns-new_drive :
      (plan : Plan W) (now : ℕ) (threshold : ℤ) (capacity : ℕ) (turns : List Turn)
      → let d = take_turns plan turns (new_drive now (new_collector {H = H} threshold capacity)) in
        IsScheduled plan d
        × (cancels turns ≡ 0
            → plan.total_requests ≤ dispatches turns
            → d.index ≡ plan.total_requests)
  unfolding new_drive
  take_turns-new_drive plan now threshold capacity turns =
      let fresh = new_drive now (new_collector {H = H} threshold capacity) in
      (
        take_turns-IsScheduled plan turns fresh (new_drive-IsScheduled plan now threshold capacity),
        λ none_cancels enough.
            index-take_turns plan turns fresh refl none_cancels (omega arith)
              (omega (arith, enough)),
      )
