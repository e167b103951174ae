-- ===== src/Subscription.antt =====
-- internal/protocol/wait/subscription.go: the meeting of the messages that a broker delivers with
-- the iterations that wait for them. `M` is the type of a message; a channel of one place is named
-- by a number, which `make` gives each call of `await` anew. A critical section is one step, and
-- what follows it, the send of a delivery or the last look of `await`, is a step of its own, before
-- which other steps may come. The readers of the brokers are not modelled.
pub mod Meeting
use braunrate.Base.{
  ℕ, ◌+◌, Bool, String, string_eq, ℕ_eq, ◌==◌, Option, none, some, List, [], ◌∷◌, ◌++◌, Map, lookup,
  insert, erase, length, ltb, if◌then◌else◌,
}

abbrev pub held_messages_cap : ℕ
held_messages_cap = 50_000

-- `sending` has the deliveries between their critical section and their send.
pub record Subscription {ℓ} (M : Type ℓ) : Type ℓ where
  pub arrivals : Map String M
  pub order : List String
  pub waiting : Map String ℕ
  pub sending : Map ℕ M
  pub channels : Map ℕ M

module _ {ℓ} {M : Type ℓ} where
  unfoldable pub new_subscription : Subscription M
  new_subscription = record { arrivals = []; order = []; waiting = []; sending = []; channels = [] }

  abbrev pub evict : List String → Map String M → Subscription M → Subscription M
  evict [] arrivals s = s
  evict (oldest ∷ order) arrivals s = record s { arrivals = erase oldest arrivals; order = order }

  -- A message that nobody waits for is held, and the oldest is dropped above the cap.
  unfoldable pub hold : String → M → Subscription M → Subscription M
  hold correlation message s =
      let arrivals = insert correlation message s.arrivals in
      let order = s.order ++ correlation ∷ [] in
      if ltb held_messages_cap (length order)
      then evict order arrivals s
      else record s { arrivals = arrivals; order = order }

  -- The critical section of a delivery: the place of one that waits is taken, and its channel is the
  -- one to send on.
  unfoldable pub deliver : String → M → Subscription M → Subscription M
  deliver correlation message s =
      if correlation == "" then s else elim (lookup correlation s.waiting) [
        | none ↦ hold correlation message s
        | some channel ↦ record s {
          waiting = erase correlation s.waiting;
          sending = insert channel message s.sending;
        }
      ]

  -- `canal <- received`: the channel has a place, since it is sent on once.
  unfoldable pub send_pending : ℕ → Subscription M → Subscription M
  send_pending channel s = elim (lookup channel s.sending) [
    | none ↦ s
    | some message ↦ record s {
      sending = erase channel s.sending;
      channels = insert channel message s.channels;
    }
  ]

  -- The first critical section of `await`: a message that has arrived, or a place among those that
  -- wait.
  unfoldable pub await_arrival : String → ℕ → Subscription M → Subscription M × Option M
  await_arrival correlation channel s = elim (lookup correlation s.arrivals) [
    | none ↦ (record s { waiting = insert correlation channel s.waiting }, none)
    | some message ↦ (record s { arrivals = erase correlation s.arrivals }, some message)
  ]

  -- The second critical section of `await`, after the timeout or the end of the run.
  unfoldable pub give_up : String → Subscription M → Subscription M
  give_up correlation s = record s { waiting = erase correlation s.waiting }

  -- What `await` takes from its channel, when it is woken by it and when it looks a last time.
  unfoldable pub take_message : ℕ → Subscription M → Subscription M × Option M
  take_message channel s =
      (record s { channels = erase channel s.channels }, lookup channel s.channels)

  unfoldable pub deliver_all : List (String × M) → Subscription M → Subscription M
  deliver_all [] s = s
  deliver_all ((correlation, message) ∷ rest) s = deliver_all rest (deliver correlation message s)
