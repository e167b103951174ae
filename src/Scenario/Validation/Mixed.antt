-- ===== src/Scenario/Validation/Mixed.antt =====
-- The check of a mix.
use braunrate.Base.{
  any, ◌==◌, insert, lookup-insert, if◌then◌else◌, Bool, ℕ, suc, ◌<◌, ◌≡◌, ◌↔◌, ◌⊎◌, refl, String,
  Option, none, some, List, [], ◌∷◌, Map, All, arith, inl, inr, Bool-cases, Option-cases, eqb,
  lookup,
}
use braunrate.Base.Codes.{Text, codes, text_eq}
use braunrate.Scenario.{Step, Capture}
use braunrate.Scenario.References.{Reference, references_in}
use braunrate.Scenario.Validation.{
  silent_problem, problem_of, Problem, Surroundings, or_chained, chained_references, chained_texts,
  chained_from, chained_captures, produced_from, produce, declared_weights, silent_names, check_mix,
}
use braunrate.Scenario.Validation.Parts.{append-none}

or_chained-none : (a b : Option Problem) → (or_chained a b ≡ none) ↔ ((a ≡ none) × (b ≡ none))
or_chained-none none b = ground arith
or_chained-none (some problem) b = ground arith

silent_problem-none : (n : ℕ) (names : List String) → silent_problem n names ≡ [] → names ≡ []
silent_problem-none n [] e = refl
silent_problem-none n (name ∷ names) e = absurd (ground (arith, e))

problem_of-none : (o : Option Problem) → problem_of o ≡ [] → o ≡ none
problem_of-none none e = refl
problem_of-none (some problem) e = absurd (ground (arith, e))

abbrev captures_name : Text → List Capture → Bool
captures_name name captures = any (λ c. codes c.variable == name) captures

abbrev or_last : Option ℕ → Option ℕ → Option ℕ
or_last none before = before
or_last (some index) before = some index

lookup-produce :
    (name : Text) (index : ℕ) (captures : List Capture) (produced : Map Text ℕ)
    → lookup name (produce index captures produced)
      ≡ (if captures_name name captures then some index else lookup name produced)
lookup-produce name index [] produced = refl
lookup-produce name index (c ∷ captures) produced = ground (
  arith,
  lookup-produce name index captures (insert (codes c.variable) index produced),
  lookup-insert (codes c.variable) name index produced,
)

module _ {ℓ} {C : Type ℓ} where
  -- The last of the steps that capture a variable, counted from a position.
  abbrev pub last_capturer : Text → ℕ → List (Step C) → Option ℕ
  last_capturer name index [] = none
  last_capturer name index (s ∷ steps) =
      or_last (last_capturer name (suc index) steps)
        (if captures_name name s.captures then some index else none)

  lookup-produced_from :
      (name : Text) (index : ℕ) (steps : List (Step C)) (produced : Map Text ℕ)
      → lookup name (produced_from index steps produced)
        ≡ or_last (last_capturer name index steps) (lookup name produced)
  unfolding produced_from
  lookup-produced_from name index [] produced = refl
  lookup-produced_from name index (s ∷ steps) produced = ground (
    arith,
    lookup-produced_from name (suc index) steps (produce index s.captures produced),
    lookup-produce name index s.captures produced,
  )

  produced_from-last_capturer :
      (name : Text) (steps : List (Step C))
      → lookup name (produced_from 0 steps []) ≡ last_capturer name 0 steps
  unfolding lookup
  produced_from-last_capturer name steps = ground (arith, lookup-produced_from name 0 steps [])

module _ {ℓ} {C : Type ℓ} (around : Surroundings C) where
  -- What a reference names is captured by no step, or last of all by the step that it stands in.
  abbrev pub IsOwn : List (Step C) → ℕ → Reference → Type 0
  IsOwn all index r =
      (last_capturer r.name 0 all ≡ none) ⊎ (last_capturer r.name 0 all ≡ some index)

  chained_references-none :
      (all : List (Step C)) (index : ℕ) (references : List Reference)
      → (chained_references index (produced_from 0 all []) references ≡ none)
        ↔ All (IsOwn all index) references
  unfolding chained_references
  chained_references-none all index [] = ground arith
  chained_references-none all index (r ∷ references) =
      elim (Option-cases (lookup r.name (produced_from 0 all []))) [
        | inl e ↦ ground (
          arith,
          e,
          produced_from-last_capturer r.name all,
          chained_references-none all index references,
        )
        | inr e ↦ ground (
          arith,
          e.1,
          produced_from-last_capturer r.name all,
          chained_references-none all index references,
        )
      ]

  chained_texts-none :
      (all : List (Step C)) (index : ℕ) (texts : List Text)
      → (chained_texts index (produced_from 0 all []) texts ≡ none)
        ↔ All (λ text. All (IsOwn all index) (references_in text)) texts
  unfolding chained_texts
  chained_texts-none all index [] = ground arith
  chained_texts-none all index (text ∷ texts) = ground (
    arith,
    or_chained-none (chained_references index (produced_from 0 all []) (references_in text))
        (chained_texts index (produced_from 0 all []) texts),
    chained_references-none all index (references_in text),
    chained_texts-none all index texts,
  )

  -- Each step from a position on refers only to what is its own or captured by none.
  abbrev pub AreIndependent : List (Step C) → ℕ → List (Step C) → Type 0
  AreIndependent all index [] = Unit
  AreIndependent all index (s ∷ steps) =
      All (λ text. All (IsOwn all index) (references_in text)) (around.texts_of s.config)
      × AreIndependent all (suc index) steps

  chained_from-none :
      (all : List (Step C)) (index : ℕ) (steps : List (Step C))
      → (chained_from around index (produced_from 0 all []) steps ≡ none)
        ↔ AreIndependent all index steps
  unfolding chained_from
  chained_from-none all index [] = ground arith
  chained_from-none all index (s ∷ steps) = ground (
    arith,
    or_chained-none (chained_texts index (produced_from 0 all []) (around.texts_of s.config))
        (chained_from around (suc index) (produced_from 0 all []) steps),
    chained_texts-none all index (around.texts_of s.config),
    chained_from-none all (suc index) steps,
  )

  silent_names-none :
      (steps : List (Step C)) → (silent_names steps ≡ []) ↔ All (λ s. 0 < s.weight) steps
  silent_names-none [] = ground arith
  silent_names-none (s ∷ steps) = ground (arith, silent_names-none steps)

  declared_weights-none :
      (steps : List (Step C)) → (declared_weights steps ≡ 0) ↔ All (λ s. s.weight ≡ 0) steps
  declared_weights-none [] = ground arith
  declared_weights-none (s ∷ steps) = ground (arith, declared_weights-none steps)

  -- No step has a weight, or every step has one and refers only to what is captured by no step or last by
  -- itself.
  abbrev pub IsMix : List (Step C) → Type 0
  IsMix steps =
      All (λ s. s.weight ≡ 0) steps ⊎ All (λ s. 0 < s.weight) steps × AreIndependent steps 0 steps

  pub check_mix-none : (steps : List (Step C)) → check_mix around steps ≡ [] → IsMix steps
  unfolding check_mix chained_captures
  check_mix-none steps e = elim (Bool-cases (eqb (declared_weights steps) 0)) [
    | inl z ↦ inl ((declared_weights-none steps).0 (ground (arith, z)))
    | inr z ↦
        (let (silent, chained) = append-none _ _ (rw z at e) in
          inr (
            (silent_names-none steps).0 (silent_problem-none _ (silent_names steps) silent),
            (chained_from-none steps 0 steps).0 (problem_of-none _ chained),
          ))
  ]
