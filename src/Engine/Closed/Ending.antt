-- ===== src/Engine/Closed/Ending.antt =====
-- The end of a closed load.
use braunrate.Base.{
  sym, ◌⊎◌, ℕ, ◌+◌, ◌-◌, ◌≤◌, ◌≡◌, refl, true, Option, none, some, List, [], ◌∷◌, eqb,
  if◌then◌else◌, get_elem?, sum, map, arith, Option-cases, inl, inr, Bool-cases, eqb_iff,
}
use braunrate.Engine.{wait_until, advance}
use braunrate.Engine.Closed.{
  UserState, testing, entering, iterating, thinking, ended, ClosedDrive, ClosedLoad, ClosedTurn,
  of_user, passing, canceling, is_over, begin, user_turn, closed_turn, closed_turns,
}
use braunrate.Engine.Closed.Users.{sum-put, get_elem?-put}

abbrev pub about_to : UserState → ℕ
about_to entering = 1
about_to _ = 0

-- How many turns of its own a user still takes once the loop is over.
abbrev pub turns_left : UserState → ℕ
turns_left ended = 0
turns_left testing = 1
turns_left thinking = 2
turns_left (iterating _) = 3
turns_left entering = 4

abbrev pub left_of : Option UserState → ℕ
left_of none = 0
left_of (some state) = turns_left state

abbrev pub turns_of : ℕ → List ClosedTurn → ℕ
turns_of user [] = 0
turns_of user (of_user other ∷ turns) =
    let rest = turns_of user turns in if eqb other user then rest + 1 else rest
turns_of user (_ ∷ turns) = turns_of user turns

turns_cons :
    (user : ℕ) (turn : ClosedTurn) (turns : List ClosedTurn)
    → turns_of user (turn ∷ turns) ≡ turns_of user turns + turns_of user (turn ∷ [])
turns_cons user (of_user other) turns = ground arith
turns_cons user (passing duration) turns = omega arith
turns_cons user canceling turns = omega arith

-- What a turn does once the loop is over.
record Settles (load : ClosedLoad) (d e : ClosedDrive) : Type 0 where
  over : is_over load e ≡ true
  begun : e.iterations + sum (map about_to e.users) ≤ d.iterations + sum (map about_to d.users)

module _ (load : ClosedLoad) where
  user_turn-Settles :
      (user : ℕ) (state : UserState) (d : ClosedDrive)
      → get_elem? d.users user ≡ some state
      → is_over load d ≡ true
      → Settles load d (user_turn load user (some state) d)
  unfolding user_turn begin wait_until
  user_turn-Settles user testing d e o = ground (arith, o, sum-put about_to user ended d.users e)
  user_turn-Settles user entering d e o =
      ground (arith, o, sum-put about_to user (iterating d.iterations) d.users e)
  user_turn-Settles user (iterating number) d e o =
      ground (
        arith,
        o,
        sum-put about_to user thinking d.users e,
        sum-put about_to user testing d.users e,
      )
  user_turn-Settles user thinking d e o = ground (arith, o, sum-put about_to user testing d.users e)
  user_turn-Settles user ended d e o = ground (arith, o)

  left-user_turn :
      (user other : ℕ) (state : UserState) (d : ClosedDrive)
      → get_elem? d.users user ≡ some state
      → is_over load d ≡ true
      → left_of (get_elem? (user_turn load user (some state) d).users other)
        ≤ left_of (get_elem? d.users other) - (if eqb user other then 1 else 0)
  unfolding user_turn begin
  left-user_turn user other testing d e o =
      ground (arith, o, e, get_elem?-put user other ended d.users e)
  left-user_turn user other entering d e o =
      ground (arith, e, get_elem?-put user other (iterating d.iterations) d.users e)
  left-user_turn user other (iterating number) d e o = ground (
    arith,
    e,
    get_elem?-put user other thinking d.users e,
    get_elem?-put user other testing d.users e,
  )
  left-user_turn user other thinking d e o =
      ground (arith, e, get_elem?-put user other testing d.users e)
  left-user_turn user other ended d e o = ground (arith, e)

  closed_turn-Settles :
      (turn : ClosedTurn) (d : ClosedDrive)
      → is_over load d ≡ true
      → Settles load d (closed_turn load turn d)
  unfolding closed_turn user_turn advance
  closed_turn-Settles (of_user user) d o = elim (Option-cases (get_elem? d.users user)) [
    | inl e ↦ rw e (record { over = o; begun = omega arith })
    | inr e ↦ rw e.1 (user_turn-Settles user e.0 d e.1 o)
  ]
  closed_turn-Settles (passing duration) d o = ground (arith, o)
  closed_turn-Settles canceling d o = ground (arith, o)

  left-closed_turn :
      (turn : ClosedTurn) (user : ℕ) (d : ClosedDrive)
      → is_over load d ≡ true
      → left_of (get_elem? (closed_turn load turn d).users user)
        ≤ left_of (get_elem? d.users user) - turns_of user (turn ∷ [])
  unfolding closed_turn user_turn
  left-closed_turn (of_user other) user d o = elim (Option-cases (get_elem? d.users other)) [
    | inl e ↦ rw e (elim (Bool-cases (eqb other user)) [
      | inl t ↦ rw (sym ((eqb_iff other user).0 t), e) (omega arith)
      | inr t ↦ rw t (omega arith)
    ])
    | inr e ↦ rw e.1 (ground (arith, left-user_turn other user e.0 d e.1 o))
  ]
  left-closed_turn (passing duration) user d o = omega arith
  left-closed_turn canceling user d o = omega arith

  left-closed_turns :
      (turns : List ClosedTurn) (user : ℕ) (d : ClosedDrive)
      → is_over load d ≡ true
      → left_of (get_elem? (closed_turns load turns d).users user)
        ≤ left_of (get_elem? d.users user) - turns_of user turns
  unfolding closed_turns
  left-closed_turns [] user d o = omega arith
  left-closed_turns (turn ∷ turns) user d o =
      let settles = closed_turn-Settles turn d o in
      let rest = left-closed_turns turns user (closed_turn load turn d) settles.over in
      let first = left-closed_turn turn user d o in
      omega (arith, rest, first, turns_cons user turn turns)

  begun-closed_turns :
      (turns : List ClosedTurn) (d : ClosedDrive)
      → is_over load d ≡ true
      → (closed_turns load turns d).iterations ≤ d.iterations + sum (map about_to d.users)
  unfolding closed_turns
  begun-closed_turns [] d o = omega arith
  begun-closed_turns (turn ∷ turns) d o =
      let settles = closed_turn-Settles turn d o in
      omega (arith, begun-closed_turns turns (closed_turn load turn d) settles.over, settles.begun)

left_none : (o : Option UserState) → left_of o ≤ 4
left_none none = omega arith
left_none (some testing) = omega arith
left_none (some entering) = omega arith
left_none (some (iterating n)) = omega arith
left_none (some thinking) = omega arith
left_none (some ended) = omega arith

left-ended : (o : Option UserState) → left_of o ≤ 0 → (o ≡ none) ⊎ (o ≡ some ended)
left-ended none h = inl refl
left-ended (some testing) h = absurd (omega (arith, h))
left-ended (some entering) h = absurd (omega (arith, h))
left-ended (some (iterating n)) h = absurd (omega (arith, h))
left-ended (some thinking) h = absurd (omega (arith, h))
left-ended (some ended) h = inr refl

-- Once the deadline of a closed load has come or the run is canceled, whatever turns follow: a user
-- that takes four turns of its own, or is none, has ended; and no iteration begins but for the users
-- that had passed the test of the loop before.
pub closed_turns-over :
    (load : ClosedLoad) (turns : List ClosedTurn) (d : ClosedDrive) (user : ℕ)
    → is_over load d ≡ true
    → 4 ≤ turns_of user turns
    → let e = closed_turns load turns d in
      ((get_elem? e.users user ≡ none) ⊎ (get_elem? e.users user ≡ some ended))
      × (e.iterations ≤ d.iterations + sum (map about_to d.users))
closed_turns-over load turns d user o enough = (
  left-ended _ (
      omega
        (arith, left-closed_turns load turns user d o, left_none (get_elem? d.users user), enough)),
  begun-closed_turns load turns d o,
)
