-- ===== src/Server/Turns.antt =====
-- The turns that the goroutines take at a run: those of `finish`, each a critical section, and
-- those of the handlers and of the executor between them.
use braunrate.Base.{ℕ, ◌+◌, Bool, String, List, [], ◌∷◌, if◌then◌else◌}
use braunrate.Server.{
  Run, Result, new_run, cancel, arm, settle, append, close, follow, receive_at, outcome_of,
}

-- How far `finish` has come, and whether it found the run canceled. After an error it does not
-- look, and what it settles does not depend on it.
pub data Phase : Type 0 where
  executing : Phase
  decided settled announced finished : Bool → Phase

pub data Turn : Type 0 where
  canceling arming following ending : Turn
  progressing : String → Turn
  receiving : ℕ → Turn

-- `accepted` counts the calls of `cancel` that returned true.
pub record Life {ℓ} (W : Type ℓ) : Type ℓ where
  pub run : Run W
  pub phase : Phase
  pub accepted : ℕ

module _ {ℓ} {W : Type ℓ} where
  -- The next critical section of `finish`; `last` is its line for the stream.
  unfoldable pub finish_step : Result W → String → Life W → Life W
  finish_step result last life = elim life.phase [
    | executing ↦ record life { phase = decided life.run.canceled }
    | decided c ↦ record life { phase = settled c; run = settle (outcome_of c result) life.run }
    | settled c ↦ record life { phase = announced c; run = append last life.run }
    | announced c ↦ record life { phase = finished c; run = close life.run }
    | finished c ↦ life
  ]

  -- The executor does not wait for the goroutine that reports progress: a line may come in any
  -- phase, also after the end.
  unfoldable pub progress : String → Life W → Life W
  progress line life = record life { run = append line life.run }

  unfoldable pub try_cancel : Life W → Life W
  try_cancel life =
      let (canceled, mine) = cancel life.run in
      record life { run = canceled; accepted = if mine then life.accepted + 1 else life.accepted }

  abbrev pub receive_line : ℕ → Run W → Run W
  receive_line i r = record r { watchers = receive_at i r.watchers }

  unfoldable pub take_turn : Result W → String → Turn → Life W → Life W
  take_turn result last canceling life = try_cancel life
  take_turn result last arming life = record life { run = arm life.run }
  take_turn result last following life = record life { run = follow life.run }
  take_turn result last ending life = finish_step result last life
  take_turn result last (progressing line) life = progress line life
  take_turn result last (receiving i) life = record life { run = receive_line i life.run }

  unfoldable pub take_turns : Result W → String → List Turn → Life W → Life W
  take_turns result last [] life = life
  take_turns result last (turn ∷ turns) life =
      take_turns result last turns (take_turn result last turn life)

  unfoldable pub born : String → Life W
  born headline = record { run = new_run headline; phase = executing; accepted = 0 }
