-- ===== src/Subscription/Meeting.antt =====
-- A message and the iteration that waits for it meet, whichever comes first.
use braunrate.Base.{
  ap, Option-cases, inl, inr, ℕ, ◌+◌, ◌≤◌, ◌<◌, ◌≡◌, ◌≢◌, refl, ◌∙◌, String, string_eq, ℕ_eq,
  eq_iff, eq_refl, none, some, List, [], ◌∷◌, lookup, lookup-insert, lookup-erase, length,
  length-append, All, arith,
}
use braunrate.Subscription.{
  Subscription, held_messages_cap, hold, deliver, await_arrival, send_pending, give_up,
  take_message, deliver_all,
}

module _ {ℓ} {M : Type ℓ} where
  -- Below the cap, a delivery leaves what is held for another correlation, and holds at most one
  -- message more.
  deliver_other :
      (c k : String) (m : M) (s : Subscription M)
      → k ≢ c
      → length s.order < held_messages_cap
      → (lookup c (deliver k m s).arrivals ≡ lookup c s.arrivals)
        × (lookup c (deliver k m s).waiting ≡ lookup c s.waiting)
        × (length (deliver k m s).order ≤ length s.order + 1)
        × ((deliver k m s).channels ≡ s.channels)
  unfolding deliver hold
  deliver_other c k m s other room = (
    ground (
      arith,
      other,
      room,
      eq_iff k c,
      length-append s.order (k ∷ []),
      lookup-insert k c m s.arrivals,
    ),
    ground (
      arith,
      other,
      room,
      eq_iff k c,
      length-append s.order (k ∷ []),
      lookup-erase k c s.waiting,
    ),
    ground (arith, room, length-append s.order (k ∷ [])),
    ground (arith, room),
  )

  deliver_others :
      (c : String) (others : List (String × M)) (s : Subscription M)
      → All (λ p. p.0 ≢ c) others
      → length s.order + length others ≤ held_messages_cap
      → (lookup c (deliver_all others s).arrivals ≡ lookup c s.arrivals)
        × (lookup c (deliver_all others s).waiting ≡ lookup c s.waiting)
        × ((deliver_all others s).channels ≡ s.channels)
  unfolding deliver_all
  deliver_others c [] s _ room = (refl, refl, refl)
  deliver_others c ((k, m) ∷ others) s (other, rest) room =
      let (arrived, waits, longer, same) = deliver_other c k m s other (omega (arith, room)) in
      let (held, waiting, kept) =
        deliver_others c others (deliver k m s) rest (omega (arith, room, longer)) in
      (held ∙ arrived, waiting ∙ waits, kept ∙ same)

  deliver_held :
      (c : String) (m : M) (s : Subscription M)
      → c ≢ ""
      → lookup c s.waiting ≡ none
      → length s.order < held_messages_cap
      → (lookup c (deliver c m s).arrivals ≡ some m)
        × (length (deliver c m s).order ≤ length s.order + 1)
  unfolding deliver hold
  deliver_held c m s named free room =
      let fits = length-append s.order (c ∷ []) in
      (
        ground (
          arith,
          named,
          free,
          room,
          fits,
          eq_iff c "",
          eq_refl c,
          lookup-insert c c m s.arrivals,
        ),
        ground (arith, named, free, room, fits, eq_iff c ""),
      )

  -- The delivery to one that waits: its message is on the way, and nothing else is changed.
  deliver_waiting :
      (c : String) (m : M) (channel : ℕ) (s : Subscription M)
      → c ≢ ""
      → lookup c s.waiting ≡ some channel
      → (lookup channel (deliver c m s).sending ≡ some m)
        × ((deliver c m s).channels ≡ s.channels)
        × ((deliver c m s).arrivals ≡ s.arrivals)
  unfolding deliver
  deliver_waiting c m channel s named waits = (
    ground (
      arith,
      named,
      waits,
      eq_iff c "",
      eq_refl channel,
      lookup-insert channel channel m s.sending,
    ),
    ground (arith, named, waits, eq_iff c ""),
    ground (arith, named, waits, eq_iff c ""),
  )

  -- A channel has the message that was on the way to it.
  take_message-send_pending :
      (channel : ℕ) (m : M) (s : Subscription M)
      → lookup channel s.sending ≡ some m
      → (take_message channel (send_pending channel s)).1 ≡ some m
  unfolding take_message send_pending
  take_message-send_pending channel m s sent =
      ground (arith, sent, eq_refl channel, lookup-insert channel channel m s.channels)

  take_message-give_up :
      (c : String) (channel : ℕ) (s : Subscription M)
      → (take_message channel (give_up c s)).1 ≡ (take_message channel s).1
  unfolding take_message give_up
  take_message-give_up c channel s = refl

  arrivals-send_pending :
      (channel : ℕ) (s : Subscription M) → (send_pending channel s).arrivals ≡ s.arrivals
  unfolding send_pending
  arrivals-send_pending channel s = elim (Option-cases (lookup channel s.sending)) [
    | inl e ↦ rw (e, send_pending) refl
    | inr e ↦ rw (e.1, send_pending) refl
  ]

  registers :
      (c : String) (channel : ℕ) (s : Subscription M)
      → lookup c s.arrivals ≡ none
      → let registered = await_arrival c channel s in
        (registered.1 ≡ none)
        × (lookup c registered.0.waiting ≡ some channel)
        × (registered.0.order ≡ s.order)
        × (registered.0.channels ≡ s.channels)
        × (registered.0.arrivals ≡ s.arrivals)
  unfolding await_arrival
  registers c channel s absent = (
    ground (arith, absent),
    ground (arith, absent, eq_refl c, lookup-insert c c channel s.waiting),
    ground (arith, absent),
    ground (arith, absent),
    ground (arith, absent),
  )

  -- A message that arrives before its iteration is held for it: after any other deliveries that do
  -- not fill what may be held, the iteration is given that message at once.
  pub await_arrival-deliver :
      (c : String) (m : M) (others : List (String × M)) (channel : ℕ) (s : Subscription M)
      → c ≢ ""
      → lookup c s.waiting ≡ none
      → All (λ p. p.0 ≢ c) others
      → length s.order + 1 + length others ≤ held_messages_cap
      → (await_arrival c channel (deliver_all others (deliver c m s))).1 ≡ some m
  unfolding await_arrival
  await_arrival-deliver c m others channel s named free other room =
      let (held, longer) = deliver_held c m s named free (omega (arith, room)) in
      let (still, _, _) =
        deliver_others c others (deliver c m s) other (omega (arith, room, longer)) in
      ground (arith, still, held)

  -- An iteration that comes first is told to wait, and after any other deliveries a message comes
  -- for it. It takes that message from its channel if the send is done before it looks: when it is
  -- woken, and when its timeout has passed, before or after the send, and it looks a last time. If
  -- it looks for the last time between the critical section of the delivery and the send, it takes
  -- nothing, and the message is not held for a later iteration either, even after the send.
  pub deliver-await_arrival :
      (c : String) (m : M) (others : List (String × M)) (channel : ℕ) (s : Subscription M)
      → c ≢ ""
      → lookup c s.arrivals ≡ none
      → lookup channel s.channels ≡ none
      → All (λ p. p.0 ≢ c) others
      → length s.order + length others ≤ held_messages_cap
      → let registered = await_arrival c channel s in
        let reached = deliver c m (deliver_all others registered.0) in
        let left = take_message channel (give_up c reached) in
        (registered.1 ≡ none)
        × ((take_message channel (send_pending channel reached)).1 ≡ some m)
        × ((take_message channel (give_up c (send_pending channel reached))).1 ≡ some m)
        × ((take_message channel (send_pending channel (give_up c reached))).1 ≡ some m)
        × (left.1 ≡ none)
        × (lookup c (send_pending channel left.0).arrivals ≡ none)
  unfolding take_message give_up
  deliver-await_arrival c m others channel s named absent fresh other room =
      let (told, waits, same, kept, held) = registers c channel s absent in
      let registered = (await_arrival c channel s).0 in
      let (arrived, still, untouched) = deliver_others c others registered other (rw same room) in
      let (sent, silent, quiet) =
        deliver_waiting c m channel (deliver_all others registered) named (still ∙ waits) in
      let reached = deliver c m (deliver_all others registered) in
      let left = take_message channel (give_up c reached) in
      (
        told,
        take_message-send_pending channel m reached sent,
        take_message-give_up c channel (send_pending channel reached)
            ∙ take_message-send_pending channel m reached sent,
        take_message-send_pending channel m (give_up c reached) sent,
        ap (lookup channel) (silent ∙ untouched ∙ kept) ∙ fresh,
        ap (lookup c) (arrivals-send_pending channel left.0 ∙ quiet)
            ∙ arrived
            ∙ ap (lookup c) held
            ∙ absent,
      )
