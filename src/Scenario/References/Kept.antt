-- ===== src/Scenario/References/Kept.antt =====
-- What an expansion leaves as it stands.
use braunrate.Base.{
  ◌⊎◌, ℕ, zero, suc, ◌-◌, ◌≡◌, refl, ap, ◌∙◌, false, Option, none, List, [], ◌∷◌, ◌++◌, take, drop,
  arith, Option-cases, inl, inr, All,
}
use braunrate.Base.Codes.{Text}
use braunrate.Scenario.References.{
  Reference, ReferencePiece, plain, referring, match_at, pieces_from, references_of, references_in,
  replaced_with, expanded_reference, expand_defined_environment, environment_name,
}

take-drop : (n : ℕ) (text : Text) → take n text ++ drop n text ≡ text
take-drop zero text = refl
take-drop (suc n) [] = refl
take-drop (suc n) (c ∷ text) = ap (λ rest. c ∷ rest) (take-drop n text)

-- Whatever the characters, the pieces of a text are the text.
replaced_with-source :
    (skipped : ℕ) (text : Text)
    → replaced_with (λ r. r.source) (pieces_from skipped text) ≡ drop skipped text
unfolding pieces_from
replaced_with-source zero [] = refl
replaced_with-source (suc skipped) [] = refl
replaced_with-source (suc skipped) (c ∷ text) = replaced_with-source skipped text
replaced_with-source zero (c ∷ text) = elim (Option-cases (match_at (c ∷ text))) [
  | inl e ↦ rw (e, replaced_with) (ap (λ rest. c ∷ rest) (replaced_with-source 0 text))
  | inr e ↦
      rw (e.1, replaced_with)
        (ap (λ rest. c ∷ rest)
          (ap (λ rest. take (e.0.2 - 1) text ++ rest) (replaced_with-source (e.0.2 - 1) text)
            ∙ take-drop (e.0.2 - 1) text))
]

-- A reference that the environment leaves alone: its name is not that of an environment variable, or
-- the variable is not set and there is no fallback.
abbrev pub IsKept : (Text → Option Text) → Reference → Type 0
IsKept environment r =
    (environment_name r.name ≡ false) ⊎ (environment r.name ≡ none) × (r.fallback ≡ none)

expanded_reference-kept :
    (environment : Text → Option Text) (r : Reference)
    → IsKept environment r
    → expanded_reference environment r ≡ r.source
expanded_reference-kept environment r (inl e) = rw e refl
expanded_reference-kept environment r (inr (e, f)) = ground (arith, e, f)

replaced_with-kept :
    (environment : Text → Option Text) (pieces : List ReferencePiece)
    → All (IsKept environment) (references_of pieces)
    → replaced_with (expanded_reference environment) pieces ≡ replaced_with (λ r. r.source) pieces
replaced_with-kept environment [] _ = refl
replaced_with-kept environment (plain c ∷ pieces) kept =
    ap (λ rest. c ∷ rest) (replaced_with-kept environment pieces kept)
replaced_with-kept environment (referring r ∷ pieces) (k, kept) =
    rw (expanded_reference-kept environment r k)
      (ap (λ rest. r.source ++ rest) (replaced_with-kept environment pieces kept))

-- A text stays as it is, character by character, when each of its references is one that the
-- environment leaves alone: its name is not that of an environment variable, or the variable is not
-- set and there is no fallback.
pub expand_defined_environment-kept :
    (environment : Text → Option Text) (text : Text)
    → All (IsKept environment) (references_in text)
    → expand_defined_environment environment text ≡ text
unfolding expand_defined_environment
expand_defined_environment-kept environment text kept =
    replaced_with-kept environment (pieces_from 0 text) kept ∙ replaced_with-source 0 text
