-- ===== src/Server/Lives.antt =====
-- What holds of a run after any turns: at most one cancellation is accepted, none is lost, and the
-- outcome is the one that `finish` decided on.
use braunrate.Base.{
  ℕ, ◌-◌, ◌+◌, ◌≤◌, ◌≡◌, Bool, true, false, String, List, [], ◌∷◌, if◌then◌else◌, arith,
}
use braunrate.Metrics.Document.{Document}
use braunrate.Server.{
  measured, done, Document, Result, running, new_run, cancel, arm, settle, append, close, follow,
  outcome_of,
}
use braunrate.Server.Turns.{
  take_turns, Phase, executing, decided, settled, announced, finished, Turn, canceling, arming,
  following, ending, progressing, receiving, Life, finish_step, progress, try_cancel, take_turn,
  born,
}

abbrev pub found_canceled : Phase → Bool
found_canceled executing = false
found_canceled (decided c) = c
found_canceled (settled c) = c
found_canceled (announced c) = c
found_canceled (finished c) = c

abbrev pub has_settled : Phase → Bool
has_settled executing = false
has_settled (decided c) = false
has_settled _ = true

abbrev pub has_finished : Phase → Bool
has_finished (finished c) = true
has_finished _ = false

-- The turns of `finish` that are left.
abbrev turns_left : Phase → ℕ
turns_left executing = 4
turns_left (decided c) = 3
turns_left (settled c) = 2
turns_left (announced c) = 1
turns_left (finished c) = 0

abbrev pub endings : List Turn → ℕ
endings [] = 0
endings (ending ∷ turns) = endings turns + 1
endings (_ ∷ turns) = endings turns

finished_of_none_left : (p : Phase) → turns_left p ≡ 0 → has_finished p ≡ true
finished_of_none_left p e = ground (arith, e)

endings_cons :
    (turn : Turn) (turns : List Turn) → endings (turn ∷ turns) ≡ endings (turn ∷ []) + endings turns
endings_cons canceling turns = omega arith
endings_cons arming turns = omega arith
endings_cons following turns = omega arith
endings_cons ending turns = omega arith
endings_cons (progressing line) turns = omega arith
endings_cons (receiving i) turns = omega arith

module _ {ℓ} {W : Type ℓ} where
  pub record IsLife (result : Result W) (life : Life W) : Type ℓ where
    pub accepted_once : life.accepted ≤ (if life.run.canceled then 1 else 0)
    pub reaches_context : life.run.armed ≡ true → life.run.canceled ≡ true → life.run.stopped ≡ true
    pub decided_on : found_canceled life.phase ≡ true → life.run.canceled ≡ true
    pub unsettled : has_settled life.phase ≡ false → life.run.outcome.status ≡ running
    pub settled_as :
        has_settled life.phase ≡ true
        → life.run.outcome ≡ outcome_of (found_canceled life.phase) result
    pub closed_iff : life.run.closed ≡ has_finished life.phase

  born-IsLife : (result : Result W) (headline : String) → IsLife result (born headline)
  unfolding born new_run
  born-IsLife result headline = ground arith

  finish_step-IsLife :
      (result : Result W) (last : String) (life : Life W)
      → IsLife result life
      → IsLife result (finish_step result last life)
  unfolding finish_step settle append close
  finish_step-IsLife result last life h = ground arith

  take_turn-IsLife :
      (result : Result W) (last : String) (turn : Turn) (life : Life W)
      → IsLife result life
      → IsLife result (take_turn result last turn life)
  unfolding take_turn try_cancel cancel arm follow progress append
  take_turn-IsLife result last canceling life h = ground arith
  take_turn-IsLife result last arming life h = ground arith
  take_turn-IsLife result last following life h = ground arith
  take_turn-IsLife result last ending life h = finish_step-IsLife result last life h
  take_turn-IsLife result last (progressing line) life h = ground arith
  take_turn-IsLife result last (receiving i) life h = ground arith

  take_turns-IsLife :
      (result : Result W) (last : String) (turns : List Turn) (life : Life W)
      → IsLife result life
      → IsLife result (take_turns result last turns life)
  unfolding take_turns
  take_turns-IsLife result last [] life h = h
  take_turns-IsLife result last (turn ∷ turns) life h =
      take_turns-IsLife result last turns _ (take_turn-IsLife result last turn life h)

  turns_left-take_turn :
      (result : Result W) (last : String) (turn : Turn) (life : Life W)
      → turns_left (take_turn result last turn life).phase
        ≡ turns_left life.phase - endings (turn ∷ [])
  unfolding take_turn finish_step progress try_cancel
  turns_left-take_turn result last canceling life = omega arith
  turns_left-take_turn result last arming life = omega arith
  turns_left-take_turn result last following life = omega arith
  turns_left-take_turn result last ending life = ground arith
  turns_left-take_turn result last (progressing line) life = ground arith
  turns_left-take_turn result last (receiving i) life = omega arith

  turns_left-take_turns :
      (result : Result W) (last : String) (turns : List Turn) (life : Life W)
      → turns_left (take_turns result last turns life).phase ≡ turns_left life.phase - endings turns
  unfolding take_turns
  turns_left-take_turns result last [] life = omega arith
  turns_left-take_turns result last (turn ∷ turns) life = omega (
    arith,
    turns_left-take_turns result last turns (take_turn result last turn life),
    turns_left-take_turn result last turn life,
    endings_cons turn turns,
  )

  -- Whatever turns the handlers and the executor take and in whatever order: of all the calls that
  -- cancel a run at most one is told that it canceled it; once the context exists and a
  -- cancellation was asked for, in either order, the context is stopped; the run is in progress
  -- until `finish` settles what it decided on, and what it finds then is final; its stream is closed
  -- exactly at the end. After four turns of `finish` the run is finished.
  pub take_turns-born-IsLife :
      (result : Result W) (headline last : String) (turns : List Turn)
      → let life = take_turns result last turns (born headline) in
        IsLife result life × (4 ≤ endings turns → has_finished life.phase ≡ true)
  unfolding born
  take_turns-born-IsLife result headline last turns = (
    take_turns-IsLife result last turns (born headline) (born-IsLife result headline),
    λ enough.
        finished_of_none_left _
          (omega (arith, turns_left-take_turns result last turns (born headline))),
  )

  -- A cancellation that comes between the moment `finish` looks for one and the moment it settles
  -- is accepted, and the run is done all the same.
  pub cancel_after_decided :
      (d : Document W) (exit : ℕ) (last : String) (life : Life W)
      → IsLife (measured d exit) life
      → life.phase ≡ decided false
      → life.run.canceled ≡ false
      → let after = take_turns (measured d exit) last (canceling ∷ ending ∷ []) life in
        (after.accepted ≡ life.accepted + 1) × (after.run.outcome.status ≡ done)
  unfolding take_turns take_turn try_cancel cancel finish_step settle outcome_of
  cancel_after_decided d exit last life h looked free = ground (arith, looked, free, h.unsettled)
