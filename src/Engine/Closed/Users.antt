-- ===== src/Engine/Closed/Users.antt =====
-- What the users of a closed load do between them, and that they end.
use braunrate.Base.{
  inr, inl, sym, Option-cases, ap, ℕ, zero, suc, ◌+◌, ◌≤◌, ◌≡◌, refl, ◌∙◌, some, List, [], ◌∷◌,
  ◌++◌, eqb, if◌then◌else◌, get_elem?, length, sum, map, arith,
}
use braunrate.Engine.Closed.{
  canceling, passing, begin, of_user, ClosedTurn, closed_turn, closed_turns, user_turn, testers,
  ClosedLoad, new_closed, UserState, testing, entering, iterating, thinking, ended, Begun,
  ClosedDrive, put,
}

abbrev pub upto : ℕ → List ℕ
upto zero = []
upto (suc n) = upto n ++ n ∷ []

abbrev pub in_iteration : UserState → ℕ
in_iteration (iterating _) = 1
in_iteration _ = 0

pub sum-put :
    (f : UserState → ℕ) (user : ℕ) (new : UserState) (users : List UserState) {old : UserState}
    → get_elem? users user ≡ some old
    → sum (map f (put user new users)) + f old ≡ sum (map f users) + f new
unfolding put
sum-put f user new [] e = absurd (ground (arith, e))
sum-put f zero new (x ∷ users) e = ground (arith, e)
sum-put f (suc user) new (x ∷ users) e = omega (arith, sum-put f user new users e)

pub length-put :
    (user : ℕ) (new : UserState) (users : List UserState)
    → length (put user new users) ≡ length users
unfolding put
length-put user new [] = refl
length-put zero new (x ∷ users) = refl
length-put (suc user) new (x ∷ users) = omega (arith, length-put user new users)

pub get_elem?-put :
    (user other : ℕ) (new : UserState) (users : List UserState) {old : UserState}
    → get_elem? users user ≡ some old
    → get_elem? (put user new users) other
      ≡ (if eqb user other then some new else get_elem? users other)
unfolding put
get_elem?-put user other new [] e = absurd (ground (arith, e))
get_elem?-put zero zero new (x ∷ users) e = refl
get_elem?-put zero (suc other) new (x ∷ users) e = ground arith
get_elem?-put (suc user) zero new (x ∷ users) e = ground arith
get_elem?-put (suc user) (suc other) new (x ∷ users) e =
    get_elem?-put user other new users e ∙ ground arith

sum-in_iteration-le : (users : List UserState) → sum (map in_iteration users) ≤ length users
sum-in_iteration-le [] = omega arith
sum-in_iteration-le (testing ∷ users) = omega (arith, sum-in_iteration-le users)
sum-in_iteration-le (entering ∷ users) = omega (arith, sum-in_iteration-le users)
sum-in_iteration-le (iterating n ∷ users) = omega (arith, sum-in_iteration-le users)
sum-in_iteration-le (thinking ∷ users) = omega (arith, sum-in_iteration-le users)
sum-in_iteration-le (ended ∷ users) = omega (arith, sum-in_iteration-le users)

-- The iterations are numbered one after another, each has ended or is that of one user, and there
-- are as many users as were started.
pub record IsNumbered (users : ℕ) (d : ClosedDrive) : Type 0 where
  pub numbered : map (λ (b : Begun). b.number) d.log ≡ upto d.iterations
  pub accounted : d.finished + sum (map in_iteration d.users) ≡ d.iterations
  pub same_users : length d.users ≡ users

upto_next : (n : ℕ) → upto (n + 1) ≡ upto n ++ n ∷ []
upto_next n = (let e : n + 1 ≡ suc n = omega arith in ap upto e)

numbers_begun :
    (log : List Begun) (b : Begun)
    → map (λ (b : Begun). b.number) (log ++ b ∷ [])
      ≡ map (λ (b : Begun). b.number) log ++ b.number ∷ []
numbers_begun [] b = refl
numbers_begun (x ∷ log) b = ap (λ rest. x.number ∷ rest) (numbers_begun log b)

module _ (load : ClosedLoad) where
  module _ {users : ℕ} where
    user_turn-IsNumbered :
        (user : ℕ) (state : UserState) (d : ClosedDrive)
        → get_elem? d.users user ≡ some state
        → IsNumbered users d
        → IsNumbered users (user_turn load user (some state) d)
    unfolding user_turn begin
    user_turn-IsNumbered user testing d e s = ground (
      arith,
      sum-put in_iteration user ended d.users e,
      sum-put in_iteration user entering d.users e,
      length-put user ended d.users,
      length-put user entering d.users,
    )
    user_turn-IsNumbered user entering d e s = record {
      numbered =
          numbers_begun d.log _
          ∙ ap (λ numbers. numbers ++ d.iterations ∷ []) s.numbered
          ∙ sym (upto_next d.iterations);
      accounted =
          omega (arith, sum-put in_iteration user (iterating d.iterations) d.users e, s.accounted);
      same_users = length-put user (iterating d.iterations) d.users ∙ s.same_users;
    }
    user_turn-IsNumbered user (iterating number) d e s = ground (
      arith,
      sum-put in_iteration user thinking d.users e,
      sum-put in_iteration user testing d.users e,
      length-put user thinking d.users,
      length-put user testing d.users,
    )
    user_turn-IsNumbered user thinking d e s =
        ground (arith, sum-put in_iteration user testing d.users e, length-put user testing d.users)
    user_turn-IsNumbered user ended d e s = s

    closed_turn-IsNumbered :
        (turn : ClosedTurn) (d : ClosedDrive)
        → IsNumbered users d
        → IsNumbered users (closed_turn load turn d)
    unfolding closed_turn user_turn
    closed_turn-IsNumbered (of_user user) d s = elim (Option-cases (get_elem? d.users user)) [
      | inl e ↦ rw e s
      | inr e ↦ rw e.1 (user_turn-IsNumbered user e.0 d e.1 s)
    ]
    closed_turn-IsNumbered (passing duration) d s = ground arith
    closed_turn-IsNumbered canceling d s = ground arith

    closed_turns-IsNumbered :
        (turns : List ClosedTurn) (d : ClosedDrive)
        → IsNumbered users d
        → IsNumbered users (closed_turns load turns d)
    unfolding closed_turns
    closed_turns-IsNumbered [] d s = s
    closed_turns-IsNumbered (turn ∷ turns) d s =
        closed_turns-IsNumbered turns _ (closed_turn-IsNumbered turn d s)

testers_fresh :
    (users : ℕ) → (sum (map in_iteration (testers users)) ≡ 0) × (length (testers users) ≡ users)
testers_fresh zero = (refl, refl)
testers_fresh (suc users) = omega (arith, testers_fresh users)

-- Whatever turns the users of a closed load take, however much time passes and whenever the run is
-- canceled: the iterations are numbered from 0 on, each number once, in the order in which they
-- begin; each has ended or is in flight; and never are more in flight than there are users.
pub closed_turns-new_closed :
    (load : ClosedLoad) (now users : ℕ) (turns : List ClosedTurn)
    → let d = closed_turns load turns (new_closed now users) in
      (map (λ (b : Begun). b.number) d.log ≡ upto d.iterations)
      × (d.finished + sum (map in_iteration d.users) ≡ d.iterations)
      × (sum (map in_iteration d.users) ≤ users)
unfolding new_closed
closed_turns-new_closed load now users turns =
    let fresh = testers_fresh users in
    let s =
      closed_turns-IsNumbered load {users = users} turns (new_closed now users)
        (record { numbered = refl; accounted = omega (arith, fresh.0); same_users = fresh.1 }) in
    let fits = sum-in_iteration-le (closed_turns load turns (new_closed now users)).users in
    (s.numbered, s.accounted, omega (arith, fits, s.same_users))
