-- ===== src/Server.antt =====
-- internal/server/runs.go and internal/server/server.go: a run that the server started, written by
-- its goroutine and by the HTTP handlers under one mutex. Each operation is one critical section;
-- `finish` is a sequence of them, between which others may come.
pub mod Turns
pub mod Lives
pub mod Followers
pub mod Words
use braunrate.Base.{
  suc, ℕ, ◌+◌, ◌-◌, Bool, true, false, not, ◌||◌, String, Option, none, some, List, [], ◌∷◌, ◌++◌,
  map, length, ltb, eqb, if◌then◌else◌,
}
use braunrate.Metrics.Document.{Document, valid}

pub data Status : Type 0 where
  running done failed interrupted : Status

abbrev pub is_running : Status → Bool
is_running running = true
is_running _ = false

-- The document is there once the run has ended without an error.
pub record Outcome {ℓ} (W : Type ℓ) : Type ℓ where
  pub status : Status
  pub exit : ℕ
  pub message : String
  pub document : Option (Document W)

-- What a client of the stream of a run has: the lines it was given at first, those sent to its
-- channel after that, how many of them still wait there, and how many found the channel full.
pub record Watcher : Type 0 where
  pub replay : List String
  pub live : List String
  pub waiting : ℕ
  pub missed : ℕ

abbrev pub channel_capacity : ℕ
channel_capacity = 64

-- `armed` tells that `stop` is set, `stopped` that it was called.
pub record Run {ℓ} (W : Type ℓ) : Type ℓ where
  pub outcome : Outcome W
  pub closed : Bool
  pub canceled : Bool
  pub armed : Bool
  pub stopped : Bool
  pub lines : List String
  pub watchers : List Watcher
  pub left : List Watcher

-- The result of the execution: an error with the exit code it is worth, or a document with one.
pub data Result {ℓ} (W : Type ℓ) : Type ℓ where
  failure : String → ℕ → Result W
  measured : Document W → ℕ → Result W

-- The word of a verdict; `verdictLine` adds the exit code and says what the word means.
pub data Word : Type 0 where
  in_progress was_interrupted did_not_run invalid_result described failed_slo passed_slo : Word

unfoldable pub send : String → Watcher → Watcher
send line w =
    if ltb w.waiting channel_capacity
    then record w { live = w.live ++ line ∷ []; waiting = w.waiting + 1 }
    else record w { missed = w.missed + 1 }

-- A client takes a line from its channel.
abbrev pub receive : Watcher → Watcher
receive w = record w { waiting = w.waiting - 1 }

abbrev pub receive_at : ℕ → List Watcher → List Watcher
receive_at i [] = []
receive_at ℕ.zero (w ∷ ws) = receive w ∷ ws
receive_at (suc i) (w ∷ ws) = w ∷ receive_at i ws

module _ {ℓ} {W : Type ℓ} where
  -- The run that `start` puts in the store, with its headline.
  unfoldable pub new_run : String → Run W
  new_run headline = record {
    outcome = record { status = running; exit = 0; message = ""; document = none };
    closed = false;
    canceled = false;
    armed = false;
    stopped = false;
    lines = headline ∷ [];
    watchers = [];
    left = [];
  }

  -- The run after `cancel`, and whether this call is the one that canceled it.
  unfoldable pub cancel : Run W → Run W × Bool
  cancel r =
      let already = r.canceled || not (is_running r.outcome.status) in
      (record r { canceled = true; stopped = r.stopped || r.armed }, not already)

  unfoldable pub arm : Run W → Run W
  arm r = record r { armed = true; stopped = r.stopped || r.canceled }

  unfoldable pub settle : Outcome W → Run W → Run W
  settle outcome r = record r { outcome = outcome }

  unfoldable pub append : String → Run W → Run W
  append line r = record r { lines = r.lines ++ line ∷ []; watchers = map (send line) r.watchers }

  -- The closed channels keep what they hold for their readers.
  unfoldable pub close : Run W → Run W
  close r = record r { closed = true; left = r.left ++ r.watchers; watchers = [] }

  -- `follow` up to the goroutine that it starts: the lines so far, and a channel if more may come.
  unfoldable pub follow : Run W → Run W
  follow r =
      let w : Watcher = record { replay = r.lines; live = []; waiting = 0; missed = 0 } in
      if r.closed
      then record r { left = r.left ++ w ∷ [] }
      else record r { watchers = r.watchers ++ w ∷ [] }

  -- What `finish` settles, from whether the run was canceled.
  unfoldable pub outcome_of : Bool → Result W → Outcome W
  outcome_of canceled (failure message exit) = record {
    status = failed;
    exit = exit;
    message = message;
    document = none;
  }
  outcome_of canceled (measured d exit) = record {
    status = if canceled then interrupted else done;
    exit = exit;
    message = "";
    document = some d;
  }

  unfoldable pub word_of_document : Document W → Word
  word_of_document d =
      if not (valid d)
      then invalid_result
      else if eqb (length d.slo.evaluations) 0
      then described
      else if not d.slo.passed
      then failed_slo
      else passed_slo

  -- `verdictOf`
  unfoldable pub verdict_of : Outcome W → Word
  verdict_of o = elim o.status [
    | running ↦ in_progress
    | interrupted ↦ was_interrupted
    | failed ↦ did_not_run
    | done ↦ elim o.document [ none ↦ described | some d ↦ word_of_document d ]
  ]

  -- The word of the last line of the stream.
  unfoldable pub last_word : Bool → Result W → Word
  last_word canceled (failure message exit) = did_not_run
  last_word canceled (measured d exit) = if canceled then was_interrupted else word_of_document d
