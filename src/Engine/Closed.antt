-- ===== src/Engine/Closed.antt =====
-- driveClosed of internal/engine/executor.go: the users of a closed load, each a goroutine that asks
-- again after the answer before. A turn is what one of them does between two points at which the
-- others may come in between; who takes the next turn is open. Times are nanoseconds.
pub mod Users
pub mod Ending
use braunrate.Base.{
  ℕ, zero, suc, ◌+◌, Bool, true, false, Option, none, some, List, [], ◌∷◌, ◌++◌, ◌||◌, ltb, leb,
  if◌then◌else◌, get_elem?,
}
use braunrate.Engine.{VirtualClock, wait_until, advance}

-- Where a user is: before the test of the loop, after it, in an iteration, before its think time, or
-- past the loop.
pub data UserState : Type 0 where
  testing entering : UserState
  iterating : ℕ → UserState
  thinking ended : UserState

-- An iteration that began: of which user, with which number, scheduled when.
pub record Begun : Type 0 where
  pub user : ℕ
  pub number : ℕ
  pub scheduled : ℕ

pub record ClosedDrive : Type 0 where
  pub clock : VirtualClock
  pub stopped : Bool
  pub iterations : ℕ
  pub finished : ℕ
  pub users : List UserState
  pub log : List Begun

-- What the loop reads of the load.
pub record ClosedLoad : Type 0 where
  pub deadline : ℕ
  pub think_time : ℕ

-- A turn of a user, time that passes, or the end of the context.
pub data ClosedTurn : Type 0 where
  of_user passing : ℕ → ClosedTurn
  canceling : ClosedTurn

abbrev pub testers : ℕ → List UserState
testers zero = []
testers (suc n) = testing ∷ testers n

-- `go func` for each user.
unfoldable pub new_closed : ℕ → ℕ → ClosedDrive
new_closed now users = record {
  clock = record { now = now; waits = [] };
  stopped = false;
  iterations = 0;
  finished = 0;
  users = testers users;
  log = [];
}

unfoldable pub put : ℕ → UserState → List UserState → List UserState
put user state [] = []
put zero state (old ∷ users) = state ∷ users
put (suc user) state (old ∷ users) = old ∷ put user state users

-- The test of the loop.
abbrev pub is_over : ClosedLoad → ClosedDrive → Bool
is_over load d = d.stopped || leb load.deadline d.clock.now

abbrev pub moved : ℕ → UserState → ClosedDrive → ClosedDrive
moved user state d = record d { users = put user state d.users }

-- `iterations.Add(1)-1` with the reading of the clock beside it.
unfoldable pub begin : ℕ → ClosedDrive → ClosedDrive
begin user d = record d {
  iterations = d.iterations + 1;
  users = put user (iterating d.iterations) d.users;
  log = d.log ++ record { user = user; number = d.iterations; scheduled = d.clock.now } ∷ [];
}

unfoldable pub user_turn : ClosedLoad → ℕ → Option UserState → ClosedDrive → ClosedDrive
user_turn load user none d = d
user_turn load user (some testing) d =
    if is_over load d then moved user ended d else moved user entering d
user_turn load user (some entering) d = begin user d
user_turn load user (some (iterating number)) d = record d {
  finished = d.finished + 1;
  users = put user (if ltb 0 load.think_time then thinking else testing) d.users;
}
user_turn load user (some thinking) d = record d {
  clock = wait_until (d.clock.now + load.think_time) d.clock;
  users = put user testing d.users;
}
user_turn load user (some ended) d = d

unfoldable pub closed_turn : ClosedLoad → ClosedTurn → ClosedDrive → ClosedDrive
closed_turn load (of_user user) d = user_turn load user (get_elem? d.users user) d
closed_turn load (passing duration) d = record d { clock = advance duration d.clock }
closed_turn load canceling d = record d { stopped = true }

unfoldable pub closed_turns : ClosedLoad → List ClosedTurn → ClosedDrive → ClosedDrive
closed_turns load [] d = d
closed_turns load (turn ∷ turns) d = closed_turns load turns (closed_turn load turn d)
