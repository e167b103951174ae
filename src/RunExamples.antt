-- ===== src/RunExamples.antt =====
-- The theorems on dispatching, on the server's runs, on the data and on the messages that are
-- waited for, at concrete inputs.
use braunrate.Server.{new_run}
use braunrate.Base.{
  ℕ_eq, ◌==◌, eq_iff, string_eq, lookup, ◌*◌, ℕ, ◌+◌, ◌≤◌, ◌≡◌, ◌≢◌, refl, true, false, String,
  none, some, List, [], ◌∷◌, ◌++◌, length, get_elem?, All, arith,
}
use braunrate.Base.Int.{pos}
use braunrate.Base.Float.{whole_float}
use braunrate.Scenario.{consume_sequential}
use braunrate.Metrics.{list_hdr}
use braunrate.Metrics.Collector.{new_collector}
use braunrate.GateExamples.{short_document}
use braunrate.Engine.{Plan, take_turns, new_drive}
use braunrate.Engine
use braunrate.Engine.Schedule.{IsScheduled, cancels, dispatches, take_turns-new_drive}
use braunrate.Server.{Result, measured, done}
use braunrate.Server.Turns
use braunrate.Server.Turns.{Turn, Life, born}
use braunrate.Server.Lives.{
  IsLife, has_finished, endings, take_turns-born-IsLife, cancel_after_decided,
}
use braunrate.Server.Followers.{HasAll, HasUntil, take_turns-HasAll}
use braunrate.Data.{Random, CsvSource, next_all, brazilian_document, random_digits, cpf_weights}
use braunrate.Data.Rows.{drawn_at, next_all-drawn_at}
use braunrate.Data.Documents.{Fits, Checks, brazilian_document-Checks}
use braunrate.Subscription.{
  Subscription, new_subscription, deliver, deliver_all, await_arrival, send_pending, give_up,
  take_message,
}
use braunrate.Subscription.Meeting.{deliver-await_arrival}

abbrev two_a_second : Plan ℕ
two_a_second = record {
  total_requests = 2;
  instant_of = λ n. n * 500;
  rate_at = λ offset. 2;
  max_inflight = 1;
  start = 7000;
}

-- The second dispatch comes while the first iteration is in flight.
abbrev busy_turns : List Engine.Turn
busy_turns = Engine.dispatching ∷ Engine.passing 900 ∷ Engine.dispatching ∷ Engine.ending ∷ []

take_turns-new_drive_example :
    let d =
      take_turns two_a_second busy_turns (new_drive 0 (new_collector {H = List ℕ} (pos 5) 8)) in
    IsScheduled two_a_second d × (cancels busy_turns ≡ 0 → 2 ≤ dispatches busy_turns → d.index ≡ 2)
take_turns-new_drive_example = take_turns-new_drive two_a_second 0 (pos 5) 8 busy_turns

abbrev answer : Result ℕ
answer = measured short_document 1

abbrev server_turns : List Turn
server_turns =
    Turns.following
    ∷ Turns.canceling
    ∷ Turns.arming
    ∷ Turns.progressing "10 of 20"
    ∷ Turns.canceling
    ∷ Turns.ending
    ∷ Turns.ending
    ∷ Turns.ending
    ∷ Turns.following
    ∷ Turns.ending
    ∷ Turns.progressing "20 of 20"
    ∷ []

take_turns-born-IsLife_example :
    let life = Turns.take_turns answer "interrupted" server_turns (born "running") in
    IsLife answer life × (4 ≤ endings server_turns → has_finished life.phase ≡ true)
take_turns-born-IsLife_example = take_turns-born-IsLife answer "running" "interrupted" server_turns

take_turns-HasAll_example :
    let r = (Turns.take_turns answer "interrupted" server_turns (born "running")).run in
    All (HasAll r.lines) r.watchers × All (HasUntil "interrupted" r.lines) r.left
take_turns-HasAll_example = take_turns-HasAll answer "running" "interrupted" server_turns

abbrev looked_at : Life ℕ
looked_at = Turns.take_turns answer "done" (Turns.ending ∷ []) (born "running")

looked_at-IsLife : IsLife answer looked_at
looked_at-IsLife = (take_turns-born-IsLife answer "running" "done" (Turns.ending ∷ [])).0

looked_at_uncanceled : (looked_at.phase ≡ Turns.decided false) × (looked_at.run.canceled ≡ false)
unfolding Turns.take_turns Turns.take_turn Turns.finish_step born new_run
looked_at_uncanceled = (refl, refl)

cancel_after_decided_example :
    let after = Turns.take_turns answer "done" (Turns.canceling ∷ Turns.ending ∷ []) looked_at in
    (after.accepted ≡ looked_at.accepted + 1) × (after.run.outcome.status ≡ done)
cancel_after_decided_example =
    cancel_after_decided short_document 1 "done" looked_at looked_at-IsLife looked_at_uncanceled.0
      looked_at_uncanceled.1

-- A generator that always draws 0.
instance abbrev zeros : Random ℕ
zeros = record { below = λ n r. (0, r) }

abbrev two_rows : CsvSource ℕ
two_rows = record {
  name = "users";
  columns = "name" ∷ [];
  records = ("ana" ∷ []) ∷ ("bia" ∷ []) ∷ [];
  consume = consume_sequential;
  position = 0;
  exhausted = false;
  random = 0;
}

next_all-drawn_at_example :
    get_elem? (next_all (4 ∷ 9 ∷ 4 ∷ []) two_rows) 2
    ≡ some (drawn_at consume_sequential two_rows.records 0 4 2)
next_all-drawn_at_example =
    next_all-drawn_at (4 ∷ 9 ∷ 4 ∷ []) two_rows 2 4 (λ e. ground (arith, e)) refl

cpf_weights-Fits : Fits 9 cpf_weights
cpf_weights-Fits = (refl, (refl, _))

brazilian_document-Checks_example :
    (rest : List ℕ) × (brazilian_document {R = ℕ} 9 cpf_weights 0
      ≡ some (random_digits {R = ℕ} 9 0 ++ rest))
    × Checks cpf_weights (random_digits {R = ℕ} 9 0) rest
brazilian_document-Checks_example = brazilian_document-Checks 9 cpf_weights 0 cpf_weights-Fits

abbrev idle : Subscription ℕ
idle = new_subscription

abbrev other_messages : List (String × ℕ)
other_messages = ("b", 5) ∷ []

abbrev order_a : String
order_a = "a"

abbrev order_b : String
order_b = "b"

a_named : order_a ≢ ""
a_named e = (let same : (order_a == "") ≡ true = (eq_iff order_a "").1 e in ground (arith, same))

b_other : order_b ≢ order_a
b_other e =
    (let same : (order_b == order_a) ≡ true = (eq_iff order_b order_a).1 e in ground (arith, same))

nothing_held :
    (lookup "a" idle.arrivals ≡ none) × (lookup "a" idle.waiting ≡ none) × (length idle.order ≡ 0)
unfolding new_subscription lookup
nothing_held = (refl, refl, refl)

empty_channel : lookup 1 idle.channels ≡ none
unfolding new_subscription lookup
empty_channel = refl

deliver-await_arrival_example :
    let registered = await_arrival "a" 1 idle in
    let reached = deliver "a" 7 (deliver_all other_messages registered.0) in
    let left = take_message 1 (give_up "a" reached) in
    (registered.1 ≡ none)
    × ((take_message 1 (send_pending 1 reached)).1 ≡ some 7)
    × ((take_message 1 (give_up "a" (send_pending 1 reached))).1 ≡ some 7)
    × ((take_message 1 (send_pending 1 (give_up "a" reached))).1 ≡ some 7)
    × (left.1 ≡ none)
    × (lookup "a" (send_pending 1 left.0).arrivals ≡ none)
deliver-await_arrival_example =
    deliver-await_arrival "a" 7 other_messages 1 idle a_named nothing_held.0 empty_channel
      (b_other, _) (omega (arith, nothing_held.2))
