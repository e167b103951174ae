-- ===== src/Comparison/Steps.antt =====
-- internal/report/comparison/comparison.go: compareSteps and the names of both runs.
use mathlib.Core.List.{Perm, Permᴰ}
use mathlib.Core.Logic.{∥∥₁_elim}
use native.Mathlib.Nat.{ℕ_set}
use braunrate.Base.{
  All, ℕ, ◌+◌, ◌≡◌, refl, sym, ap, ◌∙◌, Bool, true, false, not, ◌||◌, String, string_eq, ◌==◌,
  eq_iff, none, List, [], ◌∷◌, map, Map, insert, lookup, keys, Unique, lookup-insert, insert-Unique,
  any, if◌then◌else◌, arith, Bool-cases, inl, inr,
}
use braunrate.Base.Float.{Float64}
use braunrate.Metrics.Document.{StepResult}
use braunrate.Comparison.{
  StepDifference, by_name, add_names, is_missing, step_difference, compare_steps,
}

-- How often a text stands in a list.
abbrev times : String → List String → ℕ
times name [] = 0
times name (n ∷ names) = (if n == name then 1 else 0) + times name names

times-Permᴰ : (name : String) {xs ys : List String} → Permᴰ xs ys → times name xs ≡ times name ys
times-Permᴰ name Permᴰ.nil = refl
times-Permᴰ name (Permᴰ.cons e d) = rw (e, times-Permᴰ name d) refl
times-Permᴰ name (Permᴰ.swap p q) = rw (p, q) (omega arith)
times-Permᴰ name (Permᴰ.trans d e) = times-Permᴰ name d ∙ times-Permᴰ name e

times-Perm : (name : String) {xs ys : List String} → Perm xs ys → times name xs ≡ times name ys
times-Perm name p = ∥∥₁_elim p (ℕ_set _ _) (times-Permᴰ name)

module _ {ℓ} {V : Type ℓ} where
  times-keys-none :
      (name : String) (m : Map String V) → lookup name m ≡ none → times name (keys m) ≡ 0
  unfolding lookup
  times-keys-none name [] h = refl
  times-keys-none name ((n, v) ∷ m) h = ground (arith, times-keys-none name m, h)

  -- A key of a map stands once among its keys.
  times-keys :
      (name : String) (m : Map String V)
      → Unique m
      → times name (keys m) ≡ (if is_missing (lookup name m) then 0 else 1)
  unfolding lookup
  times-keys name [] u = refl
  times-keys name ((n, v) ∷ m) (apart, u) = elim (Bool-cases (n == name)) [
    | inl e ↦ ground (arith, e, times-keys-none name m (rw (sym ((eq_iff n name).0 e)) apart))
    | inr e ↦ ground (arith, e, times-keys name m u)
  ]

  -- Whether a name is one of the keys.
  any-keys :
      (name : String) (m : Map String V)
      → any (λ n. n == name) (keys m) ≡ not (is_missing (lookup name m))
  unfolding lookup
  any-keys name [] = refl
  any-keys name ((n, v) ∷ m) = ground (arith, any-keys name m)

add_names-Unique :
    (more : List String) (names : Map String Bool) → Unique names → Unique (add_names more names)
unfolding add_names
add_names-Unique [] names u = u
add_names-Unique (n ∷ more) names u =
    add_names-Unique more (insert n true names) (insert-Unique n true names u)

lookup-add_names :
    (name : String) (more : List String) (names : Map String Bool)
    → is_missing (lookup name (add_names more names))
      ≡ (if any (λ n. n == name) more then false else is_missing (lookup name names))
unfolding add_names
lookup-add_names name [] names = refl
lookup-add_names name (n ∷ more) names =
    ground
      (arith, lookup-add_names name more (insert n true names), lookup-insert n name true names)

module _ {ℓ} {W : Type ℓ} where
  -- Whether a step of that name is in the list.
  abbrev pub has_step : String → List (StepResult W) → Bool
  has_step name steps = any (λ s. s.name == name) steps

  lookup-by_name :
      (name : String) (steps : List (StepResult W)) (table : Map String (StepResult W))
      → is_missing (lookup name (by_name steps table))
        ≡ (if has_step name steps then false else is_missing (lookup name table))
  unfolding by_name
  lookup-by_name name [] table = refl
  lookup-by_name name (s ∷ steps) table =
      ground (
        arith,
        lookup-by_name name steps (insert s.name s table),
        lookup-insert s.name name s table,
      )

  by_name-missing :
      (name : String) (steps : List (StepResult W))
      → is_missing (lookup name (by_name steps [])) ≡ not (has_step name steps)
  by_name-missing name steps = lookup-by_name name steps [] ∙ (unfold lookup in ground arith)

  all_names-missing :
      (name : String) (before after : List (StepResult W))
      → is_missing (
          lookup name
            (add_names (keys (by_name after [])) (add_names (keys (by_name before [])) [])))
        ≡ not (has_step name before || has_step name after)
  all_names-missing name before after =
      unfold lookup in
      ground (
        arith,
        lookup-add_names name (keys (by_name after [])) (add_names (keys (by_name before [])) []),
        lookup-add_names name (keys (by_name before [])) [],
        any-keys name (by_name after []),
        any-keys name (by_name before []),
        by_name-missing name after,
        by_name-missing name before,
      )

  -- The entries of a name, and whether each of them says truly where its step is missing.
  abbrev pub entries_of : String → List (StepDifference W) → ℕ
  entries_of name [] = 0
  entries_of name (d ∷ entries) = (if d.step == name then 1 else 0) + entries_of name entries

module _ {ℓ} {W : Type ℓ} ⦃f : Float64 W⦄ where
  entries_of-map :
      (name : String) (names : List String) (old recent : Map String (StepResult W))
      → entries_of name (map (λ n. step_difference n (lookup n old) (lookup n recent)) names)
        ≡ times name names
  entries_of-map name [] old recent = refl
  entries_of-map name (n ∷ names) old recent =
      ap (λ k. (if n == name then 1 else 0) + k) (entries_of-map name names old recent)

  abbrev pub SaysWhere : List (StepResult W) → List (StepResult W) → StepDifference W → Type 0
  SaysWhere before after d =
      (d.new ≡ not (has_step d.step before)) × (d.vanished ≡ not (has_step d.step after))

  map-SaysWhere :
      (before after : List (StepResult W)) (names : List String)
      → All (SaysWhere before after) (
          map
            (λ n. step_difference n (lookup n (by_name before [])) (lookup n (by_name after [])))
            names)
  map-SaysWhere before after [] = tt
  map-SaysWhere before after (n ∷ names) =
      ((by_name-missing n before, by_name-missing n after), map-SaysWhere before after names)

  -- For a sort that rearranges the names, the comparison has one entry for each name that either run
  -- has a step of and none for any other, and an entry says that its step is new exactly when the
  -- run before had none of that name, and that it is gone exactly when the run after has none.
  pub compare_steps_lem :
      (sort_strings : List String → List String) (before after : List (StepResult W))
      → ((names : List String) → Perm (sort_strings names) names)
      → ((name : String)
          → entries_of name (compare_steps sort_strings before after)
            ≡ (if has_step name before || has_step name after then 1 else 0))
        × All (SaysWhere before after) (compare_steps sort_strings before after)
  unfolding compare_steps
  compare_steps_lem sort_strings before after sorts =
      let old = by_name before [] in
      let recent = by_name after [] in
      let names = add_names (keys recent) (add_names (keys old) []) in
      (
        λ name.
            entries_of-map name (sort_strings (keys names)) old recent
            ∙ times-Perm name (sorts (keys names))
            ∙ times-keys name names (
                add_names-Unique (keys recent) (add_names (keys old) [])
                  (add_names-Unique (keys old) [] tt))
            ∙ ground (arith, all_names-missing name before after),
        map-SaysWhere before after (sort_strings (keys names)),
      )
