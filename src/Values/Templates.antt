-- ===== src/Values/Templates.antt =====
-- internal/runtime/values.go: Resolve on texts that are written from literals and variables.
use braunrate.Base.{
  Option-cases, inl, inr, lookup, insert, ℕ, ◌+◌, ◌-◌, ◌≡◌, ◌≢◌, refl, sym, ap, ◌∙◌, true, false,
  Option, none, some, List, [], ◌∷◌, ◌++◌, append_assoc, All, length, length-append, eqb, arith,
}
use braunrate.Base.Codes.{Text, text_eq}
use braunrate.Values.{
  Generator, stored, generated, note_use, Values, Occurrence, starts_name, continues_name,
  take_name, take_fallback, end_occurrence, match_braces, substitute, resolve_from, resolve,
}

-- A text without a dollar sign, or a variable with its fallback if it has one.
pub data Piece : Type 0 where
  literal : Text → Piece
  variable : Text → Option Text → Piece

-- What stands between a variable's name and the text after it.
abbrev ending : Option Text → Text → Text
ending none rest = 125 ∷ rest
ending (some fallback) rest = 58 ∷ 45 ∷ fallback ++ 125 ∷ rest

unfoldable pub written : List Piece → Text
written [] = []
written (literal text ∷ pieces) = text ++ written pieces
written (variable name fallback ∷ pieces) = 36 ∷ 123 ∷ name ++ ending fallback (written pieces)

abbrev IsName : Text → Type 0
IsName [] = ⊥
IsName (c ∷ name) = (starts_name c ≡ true) × All (λ d. continues_name d ≡ true) (c ∷ name)

abbrev IsFallback : Option Text → Type 0
IsFallback none = Unit
IsFallback (some fallback) = All (λ c. c ≢ 125) fallback

abbrev pub IsPiece : Piece → Type 0
IsPiece (literal text) = All (λ c. c ≢ 36) text
IsPiece (variable name fallback) = IsName name × IsFallback fallback

abbrev fallback_of : Option Text → Text
fallback_of none = []
fallback_of (some fallback) = fallback

abbrev size_of : Text → Option Text → ℕ
size_of name none = length name + 3
size_of name (some fallback) = length name + length fallback + 5

-- The first that there is, and the fallback if there is none.
abbrev first_present : (answer own declared : Option Text) → Text → Text
first_present (some value) own declared fallback = value
first_present none (some value) declared fallback = value
first_present none none (some value) fallback = value
first_present none none none fallback = fallback

module _ {ℓ} {S : Type ℓ} where
  abbrev answer_of : Option (Generator S) → S → Option Text × S
  answer_of none state = (none, state)
  answer_of (some generate) state = generate state

  -- A generator's value and the iteration's count as used.
  abbrev noted : Text → (answer own : Option Text) → Values S → Values S
  noted name (some value) own v = record v { uses = insert name value v.uses }
  noted name none (some value) v = record v { uses = insert name value v.uses }
  noted name none none v = v

module _ {ℓ} {S : Type ℓ} (environment : Text → Option Text) where
  -- The pieces one after another, each variable replaced by its value.
  unfoldable pub filled : List Piece → Values S → S → Text × Values S × S
  filled [] v state = ([], v, state)
  filled (literal text ∷ pieces) v state =
      let (rest, after, last) = filled pieces v state in (text ++ rest, after, last)
  filled (variable name fallback ∷ pieces) v state =
      let (answer, next) = answer_of (lookup name v.per_use) state in
      let own = lookup name v.values in
      let (rest, after, last) = filled pieces (noted name answer own v) next in
      (first_present answer own (environment name) (fallback_of fallback) ++ rest, after, last)

  stored_lem :
      (name fallback : Text) (own declared : Option Text) (v : Values S)
      → environment name ≡ declared
      → stored environment name fallback own v
        ≡ (first_present none own declared fallback, noted name none own v)
  unfolding note_use
  stored_lem name fallback (some value) declared v e = refl
  stored_lem name fallback none (some value) v e = rw e refl
  stored_lem name fallback none none v e = rw e refl

  generated_lem :
      (name fallback : Text) (answer : Option Text) (next : S) (v : Values S)
      → generated environment name fallback (answer, next) v ≡ (
        first_present answer (lookup name v.values) (environment name) fallback,
        noted name answer (lookup name v.values) v,
        next,
      )
  unfolding note_use
  generated_lem name fallback (some value) next v = refl
  generated_lem name fallback none next v =
      ap (λ found. (found.0, found.1, next))
        (stored_lem name fallback (lookup name v.values) (environment name) v refl)

  substitute_lem :
      (name fallback : Text) (v : Values S) (state : S)
      → substitute environment name fallback v state ≡ (
          let (answer, next) = answer_of (lookup name v.per_use) state in
          (
            first_present answer (lookup name v.values) (environment name) fallback,
            noted name answer (lookup name v.values) v,
            next,
          ))
  unfolding substitute
  substitute_lem name fallback v state = elim (Option-cases (lookup name v.per_use)) [
    | inl e ↦ rw (e, substitute) (generated_lem name fallback none state v)
    | inr (generate, e) ↦
        rw (e, substitute) (generated_lem name fallback (generate state).0 (generate state).1 v)
  ]

take_name-append :
    (name : Text) (d : ℕ) (rest : Text)
    → All (λ c. continues_name c ≡ true) name
    → continues_name d ≡ false
    → take_name (name ++ d ∷ rest) ≡ (name, d ∷ rest)
unfolding take_name
take_name-append [] d rest _ stops = rw stops refl
take_name-append (c ∷ name) d rest (e, es) stops =
    rw (take_name-append name d rest es stops, e) refl

take_fallback-append :
    (fallback rest : Text)
    → All (λ c. c ≢ 125) fallback
    → take_fallback (fallback ++ 125 ∷ rest) ≡ some fallback
unfolding take_fallback
take_fallback-append [] rest _ = refl
take_fallback-append (c ∷ fallback) rest (other, others) =
    ground (arith, take_fallback-append fallback rest others, other)

end_occurrence-ending :
    (name : Text) (fallback : Option Text) (rest : Text)
    → IsFallback fallback
    → end_occurrence name (ending fallback rest)
      ≡ some (record { name = name; fallback = fallback_of fallback; size = size_of name fallback })
unfolding end_occurrence
end_occurrence-ending name none [] _ = refl
end_occurrence-ending name none (c ∷ rest) _ = refl
end_occurrence-ending name (some fallback) rest plain =
    rw (take_fallback-append fallback rest plain) refl

match_braces-ending :
    (name : Text) (fallback : Option Text) (rest : Text)
    → IsName name
    → IsFallback fallback
    → match_braces (123 ∷ name ++ ending fallback rest)
      ≡ some (record { name = name; fallback = fallback_of fallback; size = size_of name fallback })
unfolding match_braces
match_braces-ending [] fallback rest bad plain = elim bad [ ]
match_braces-ending (c ∷ name) none rest (e, es) plain =
    rw (e, take_name-append (c ∷ name) 125 rest es refl)
      (end_occurrence-ending (c ∷ name) none rest plain)
match_braces-ending (c ∷ name) (some fallback) rest (e, es) plain =
    rw (e, take_name-append (c ∷ name) 58 (45 ∷ fallback ++ 125 ∷ rest) es refl)
      (end_occurrence-ending (c ∷ name) (some fallback) rest plain)

not_dollar : (c : ℕ) → c ≢ 36 → eqb c 36 ≡ false
not_dollar c other = ground (arith, other)

size_of-ending :
    (name : Text) (fallback : Option Text)
    → size_of name fallback - 1 ≡ length (123 ∷ name ++ ending fallback [])
size_of-ending name none = omega (arith, length-append name (125 ∷ []))
size_of-ending name (some fallback) =
    omega (
      arith,
      length-append name (58 ∷ 45 ∷ fallback ++ 125 ∷ []),
      length-append fallback (125 ∷ []),
    )

ending-append :
    (name : Text) (fallback : Option Text) (rest : Text)
    → (123 ∷ name ++ ending fallback rest) ≡ (123 ∷ name ++ ending fallback []) ++ rest
ending-append name none rest = ap (λ t. 123 ∷ t) (sym (append_assoc name (125 ∷ []) rest))
ending-append name (some fallback) rest =
    ap (λ t. 123 ∷ t)
      (ap (λ t. name ++ 58 ∷ 45 ∷ t) (sym (append_assoc fallback (125 ∷ []) rest))
        ∙ sym (append_assoc name (58 ∷ 45 ∷ fallback ++ 125 ∷ []) rest))

module _ {ℓ} {S : Type ℓ} (environment : Text → Option Text) where
  resolve_from-skip :
      (before rest : Text) (v : Values S) (state : S)
      → resolve_from environment (length before) (before ++ rest) v state
        ≡ resolve_from environment 0 rest v state
  unfolding resolve_from
  resolve_from-skip [] rest v state = refl
  resolve_from-skip (c ∷ before) rest v state = resolve_from-skip before rest v state

  -- Some text before what a resolution gives.
  abbrev behind : Text → Text × Values S × S → Text × Values S × S
  behind text (rest, after, last) = (text ++ rest, after, last)

  resolve_from-plain :
      (c : ℕ) (text : Text) (v : Values S) (state : S)
      → c ≢ 36
      → resolve_from environment 0 (c ∷ text) v state
        ≡ behind (c ∷ []) (resolve_from environment 0 text v state)
  unfolding resolve_from
  resolve_from-plain c text v state other = rw (resolve_from, not_dollar c other) refl

  resolve_from-literal :
      (text rest : Text) (v : Values S) (state : S)
      → All (λ c. c ≢ 36) text
      → resolve_from environment 0 (text ++ rest) v state
        ≡ behind text (resolve_from environment 0 rest v state)
  resolve_from-literal [] rest v state _ = refl
  resolve_from-literal (c ∷ text) rest v state (other, others) =
      resolve_from-plain c (text ++ rest) v state other
      ∙ ap (behind (c ∷ [])) (resolve_from-literal text rest v state others)

  -- What an occurrence leaves.
  abbrev replaced : Text → Occurrence → Values S → S → Text × Values S × S
  replaced text found v state =
      let (value, between, next) = substitute environment found.name found.fallback v state in
      behind value (resolve_from environment (found.size - 1) text between next)

  resolve_from-match :
      (text : Text) (found : Occurrence) (v : Values S) (state : S)
      → match_braces text ≡ some found
      → resolve_from environment 0 (36 ∷ text) v state ≡ replaced text found v state
  unfolding resolve_from
  resolve_from-match text found v state e = rw (resolve_from, e) refl

  resolve_from-variable :
      (name : Text) (fallback : Option Text) (rest : Text) (v : Values S) (state : S)
      → resolve_from environment
          (size_of name fallback - 1)
          (123 ∷ name ++ ending fallback rest)
          v
          state
        ≡ resolve_from environment 0 rest v state
  resolve_from-variable name fallback rest v state =
      ap (λ k. resolve_from environment k (123 ∷ name ++ ending fallback rest) v state)
        (size_of-ending name fallback)
      ∙ ap
          (λ text.
            resolve_from environment (length (123 ∷ name ++ ending fallback [])) text v state)
          (ending-append name fallback rest)
      ∙ resolve_from-skip (123 ∷ name ++ ending fallback []) rest v state

  -- A text that is written from literals without a dollar sign and from variables, with names of
  -- the pattern and fallbacks without a brace, is resolved piece by piece: a literal stays, and a
  -- variable becomes the value that its generator answers, else the value of the iteration, else
  -- that of the environment, else its fallback. A generator's value and the iteration's are noted as
  -- used, and a generator moves on even when it has none.
  pub resolve-written :
      (pieces : List Piece) (v : Values S) (state : S)
      → All IsPiece pieces
      → resolve environment (written pieces) v state ≡ filled environment pieces v state
  unfolding resolve written filled
  resolve-written [] v state _ = unfold resolve_from in refl
  resolve-written (literal text ∷ pieces) v state (plain, others) =
      resolve_from-literal text (written pieces) v state plain
      ∙ ap (behind text) (resolve-written pieces v state others)
  resolve-written (variable name fallback ∷ pieces) v state ((named, plain), others) =
      let found = substitute environment name (fallback_of fallback) v state in
      let (value, between, next) = found in
      resolve_from-match (123 ∷ name ++ ending fallback (written pieces)) _ v state
        (match_braces-ending name fallback (written pieces) named plain)
      ∙ ap (behind value) (
          resolve_from-variable name fallback (written pieces) between next
          ∙ resolve-written pieces between next others)
      ∙ ap
          (λ (found : Text × Values S × S).
            behind found.0 (filled environment pieces found.1 found.2))
          (substitute_lem environment name (fallback_of fallback) v state)
