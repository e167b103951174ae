-- ===== src/Metrics/Merging/Tables.antt =====
-- internal/metrics/merge.go: the steps of a sum, which the code keeps by name.
use mathlib.Core.List.{Perm, Permᴰ}
use mathlib.Core.Logic.{∥∥₁_elim}
use native.Mathlib.Nat.{ℕ_set}
use braunrate.Base.{
  all, Bool, eq_refl, lookup-before, ℕ, ◌+◌, ◌≡◌, refl, sym, ap, ◌∙◌, String, string_eq, ◌==◌,
  eq_iff, Option, none, some, List, [], ◌∷◌, ◌++◌, Map, Unique, insert, lookup, All, if◌then◌else◌,
  keys, arith, true, false, Bool-cases, Option-cases, inl, inr, lookup-insert, insert-Unique,
  keys-insert_new, keys-insert_old, lookup-All, insert-All, insert-append, append_assoc,
}
use braunrate.Base.Float.{Float64}
use braunrate.Metrics.{Hdr}
use braunrate.Metrics.Distributions.{Codec, IsFaithful}
use braunrate.Metrics.Parts.{StepEntry, ok}
use braunrate.Metrics.Merging.{fail, Sum, Table, first_table, listed, place_step, add_steps}
use braunrate.Metrics.Merging.Sums.{
  Figure, figure, at_name, IsReadableStep, IsStepSum, add_step_sum,
}

-- A value once for each time that the name stands in the list.
abbrev pub each : String → ℕ → List String → ℕ
each name value [] = 0
each name value (n ∷ names) = (if n == name then value else 0) + each name value names

each-Permᴰ :
    (name : String) (value : ℕ) {xs ys : List String}
    → Permᴰ xs ys
    → each name value xs ≡ each name value ys
each-Permᴰ name value Permᴰ.nil = refl
each-Permᴰ name value (Permᴰ.cons e d) = rw (e, each-Permᴰ name value d) refl
each-Permᴰ name value (Permᴰ.swap p q) = rw (p, q) (omega arith)
each-Permᴰ name value (Permᴰ.trans d e) = each-Permᴰ name value d ∙ each-Permᴰ name value e

pub each-Perm :
    (name : String) (value : ℕ) {xs ys : List String}
    → Perm xs ys
    → each name value xs ≡ each name value ys
each-Perm name value p = ∥∥₁_elim p (ℕ_set _ _) (each-Permᴰ name value)

all-Permᴰ : (p : String → Bool) {xs ys : List String} → Permᴰ xs ys → all p xs ≡ all p ys
all-Permᴰ p Permᴰ.nil = refl
all-Permᴰ p (Permᴰ.cons e d) = rw (e, all-Permᴰ p d) refl
all-Permᴰ p (Permᴰ.swap {a} {b} e e') = rw (e, e') (ground arith)
all-Permᴰ p (Permᴰ.trans d e) = all-Permᴰ p d ∙ all-Permᴰ p e

Bool-IsSet : IsSet Bool
Bool-IsSet = hlevel

pub all-Perm : (p : String → Bool) {xs ys : List String} → Perm xs ys → all p xs ≡ all p ys
all-Perm p q = ∥∥₁_elim q (Bool-IsSet _ _) (all-Permᴰ p)

module _ {ℓ} {W : Type ℓ} where
  -- A counter of the entry of a name, 0 where there is none.
  abbrev pub held : Figure → Option (StepEntry W) → ℕ
  held k none = 0
  held k (some s) = figure k s

  each-keys-none :
      (name : String) (value : ℕ) (m : Map String (StepEntry W))
      → lookup name m ≡ none
      → each name value (keys m) ≡ 0
  unfolding lookup
  each-keys-none name value [] h = refl
  each-keys-none name value ((n, s) ∷ m) h = ground (arith, each-keys-none name value m, h)

  each-first :
      (name n : String) (value : ℕ) (m : Map String (StepEntry W))
      → (n == name) ≡ true
      → lookup name m ≡ none
      → each name value (n ∷ keys m) ≡ value
  each-first name n value m e apart = rw e (omega (arith, each-keys-none name value m apart))

  lookup-rest :
      (n name : String) (s : StepEntry W) (m : Map String (StepEntry W))
      → (n == name) ≡ false
      → lookup name ((n, s) ∷ m) ≡ lookup name m
  unfolding lookup
  lookup-rest n name s m e = rw e refl

  abbrev pub named : List (StepEntry W) → Map String (StepEntry W)
  named [] = []
  named (s ∷ steps) = (s.result.name, s) ∷ named steps

  abbrev pub is_there : Map String (StepEntry W) → String → Bool
  is_there m n = elim (lookup n m) [ none ↦ false | some s ↦ true ]

  all-is_there :
      (n : String) (s : StepEntry W) (m : Map String (StepEntry W)) (names : List String)
      → all (is_there m) names ≡ true
      → all (is_there ((n, s) ∷ m)) names ≡ true
  unfolding lookup
  all-is_there n s m [] h = refl
  all-is_there n s m (name ∷ names) h = ground (arith, all-is_there n s m names, h)

  pub all-keys : (m : Map String (StepEntry W)) → all (is_there m) (keys m) ≡ true
  unfolding lookup
  all-keys [] = refl
  all-keys ((n, s) ∷ m) = ground (arith, eq_refl n, all-is_there n s m (keys m) (all-keys m))

  pub each-keys :
      (name : String) (k : Figure) (m : Map String (StepEntry W)) (o : Option (StepEntry W))
      → Unique m
      → lookup name m ≡ o
      → each name (held k o) (keys m) ≡ held k o
  each-keys name k [] none u at = refl
  each-keys name k [] (some s) u at = unfold lookup in ground (arith, at)
  each-keys name k ((n, s) ∷ m) o (apart, u) at = elim (Bool-cases (n == name)) [
    | inl e ↦ each-first name n (held k o) m e (rw (sym ((eq_iff n name).0 e)) apart)
    | inr e ↦
        let rest = each-keys name k m o u (sym (lookup-rest n name s m e) ∙ at) in
        ground (arith, e, rest)
  ]

  at_name-cons :
      (k : Figure) (n name : String) (s : StepEntry W) (steps : List (StepEntry W))
      (names : List String) (o : Option (StepEntry W))
      → s.result.name ≡ n
      → (n ≡ name → o ≡ some s)
      → at_name k name steps ≡ each name (held k o) names
      → at_name k name (s ∷ steps) ≡ each name (held k o) (n ∷ names)
  at_name-cons k n name s steps names o same at rest = elim (Bool-cases (n == name)) [
    | inl e ↦
        let here = ap (λ x. x == name) same in
        let value = ap (held k) (at ((eq_iff n name).0 e)) in ground (arith, here, e, value, rest)
    | inr e ↦ let here = ap (λ x. x == name) same in ground (arith, here, e, rest)
  ]

module _ {ℓ κ} {W : Type ℓ} {H : Type κ} ⦃f : Float64 W⦄ ⦃h : Hdr H⦄ (c : Codec W H) where
  -- The order lists the keys, no name stands twice, and each entry is a readable step of its name.
  pub record IsTable (t : Table W) : Type (ℓ ⊔ κ) where
    pub in_order : t.order ≡ keys t.steps
    pub unique : Unique t.steps
    pub entries :
        All (λ (p : String × StepEntry W). IsReadableStep c p.1 × (p.1.result.name ≡ p.0)) t.steps

  -- The table has what it had, and the counters of the step under its name.
  abbrev HasStep : StepEntry W → Table W → Table W → Type 0
  HasStep step t t' =
      (k : Figure) (name : String)
      → held k (lookup name t'.steps)
        ≡ held k (lookup name t.steps) + (if step.result.name == name then figure k step else 0)

  place_step-IsTable :
      (step : StepEntry W) (t : Table W) (o : Option (StepEntry W))
      → lookup step.result.name t.steps ≡ o
      → IsFaithful W H c
      → IsReadableStep c step
      → IsTable t
      → (t' : Table W) × (place_step c step t o ≡ ok t') × IsTable t' × HasStep step t t'
  place_step-IsTable step t none at l p i = (
    record {
      steps = insert step.result.name step t.steps;
      order = t.order ++ step.result.name ∷ [];
    },
    refl,
    record {
      in_order =
          rw (keys-insert_new step.result.name step t.steps at)
            (ap (λ names. names ++ step.result.name ∷ []) i.in_order);
      unique = insert-Unique step.result.name step t.steps i.unique;
      entries =
          insert-All (λ n s. IsReadableStep c s × (s.result.name ≡ n)) step.result.name step t.steps
            (p, refl) i.entries;
    },
    λ k name.
        ground (
          arith,
          lookup-insert step.result.name name step t.steps,
          at,
          eq_iff step.result.name name,
        ),
  )
  place_step-IsTable step t (some existing) at l p i =
      let (readable, same) =
        lookup-All (λ n s. IsReadableStep c s × (s.result.name ≡ n)) step.result.name t.steps
          i.entries at in
      let (s, e, q) = add_step_sum c existing step l readable p in
      unfold IsStepSum in
      (
        record t { steps = insert step.result.name s t.steps },
        rw e refl,
        record {
          in_order = i.in_order ∙ sym (keys-insert_old step.result.name s t.steps at);
          unique = insert-Unique step.result.name s t.steps i.unique;
          entries =
              insert-All (λ n s. IsReadableStep c s × (s.result.name ≡ n)) step.result.name s
                t.steps (q.0, q.1 ∙ same) i.entries;
        },
        λ k name. ground (
          arith,
          lookup-insert step.result.name name s t.steps,
          at,
          eq_iff step.result.name name,
          q.2 k,
        ),
      )

  pub add_steps-IsTable :
      (steps : List (StepEntry W)) (t : Table W)
      → IsFaithful W H c
      → All (IsReadableStep c) steps
      → IsTable t
      → (t' : Table W) × (add_steps c steps t ≡ ok t')
        × IsTable t'
        × ((k : Figure) (name : String)
            → held k (lookup name t'.steps) ≡ held k (lookup name t.steps) + at_name k name steps)
  unfolding add_steps
  add_steps-IsTable [] t l _ i = (t, refl, i, λ k name. omega arith)
  add_steps-IsTable (step ∷ steps) t l (p, ps) i =
      let (t1, e1, i1, h1) =
        place_step-IsTable step t (lookup step.result.name t.steps) refl l p i in
      let (t2, e2, i2, h2) = add_steps-IsTable steps t1 l ps i1 in
      (t2, rw e1 e2, i2, λ k name. omega (arith, h1 k name, h2 k name))

  pub first_table-add_steps :
      (steps : List (StepEntry W)) (t : Table W)
      → Unique (t.steps ++ named steps)
      → add_steps c steps t ≡ ok (first_table steps t)
  unfolding add_steps first_table
  first_table-add_steps [] t u = refl
  first_table-add_steps (s ∷ steps) t u =
      rw (lookup-before s.result.name s t.steps (named steps) u) (
        first_table-add_steps steps
          (record { steps = insert s.result.name s t.steps; order = t.order ++ s.result.name ∷ [] })
          (rw
            (
              insert-append s.result.name s t.steps (named steps) u,
              append_assoc t.steps ((s.result.name, s) ∷ []) (named steps),
            )
            u))

  unwrapped : Table W → Sum (Table W) → Table W
  unwrapped other (ok t) = t
  unwrapped other (fail e) = other

  pub first_table-IsTable :
      (steps : List (StepEntry W))
      → IsFaithful W H c
      → All (IsReadableStep c) steps
      → Unique (named steps)
      → IsTable (first_table steps (record { steps = []; order = [] }))
        × ((k : Figure) (name : String)
            → held k (lookup name (first_table steps (record { steps = []; order = [] })).steps)
              ≡ at_name k name steps)
  unfolding unwrapped lookup
  first_table-IsTable steps l readable unique =
      let (t, e, i, same) =
        add_steps-IsTable steps (record { steps = []; order = [] }) l readable
          (record { in_order = refl; unique = tt; entries = tt }) in
      rw
        (ap (unwrapped t)
          (sym (first_table-add_steps steps (record { steps = []; order = [] }) unique) ∙ e))
        (i, λ k name. omega (arith, same k name))

  pub listed-at_name :
      (names : List String) (m : Map String (StepEntry W))
      → all (is_there m) names ≡ true
      → All (λ (p : String × StepEntry W). IsReadableStep c p.1 × (p.1.result.name ≡ p.0)) m
      → (steps : List (StepEntry W)) × (listed m names ≡ ok steps)
        × ((k : Figure) (name : String)
            → at_name k name steps ≡ each name (held k (lookup name m)) names)
  unfolding listed
  listed-at_name [] m _ q = ([], refl, λ k name. refl)
  listed-at_name (n ∷ names) m there q =
      let (steps, e, same) = listed-at_name names m (ground (arith, there)) q in
      elim (Option-cases (lookup n m)) [
        | inl gone ↦ absurd (ground (arith, there, gone))
        | inr (s, at) ↦ (
          s ∷ steps,
          rw (at, e) refl,
          λ k name.
              at_name-cons k n name s steps names (lookup name m)
                (lookup-All (λ n s. IsReadableStep c s × (s.result.name ≡ n)) n m q at).1
                (λ e. rw e at at) (same k name),
        )
      ]
