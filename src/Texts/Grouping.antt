-- ===== src/Texts/Grouping.antt =====
-- What grouping leaves of a number.
use braunrate.Base.{
  ℕ, ◌+◌, ◌-◌, ◌/◌, ◌≡◌, ◌≢◌, refl, List, [], ◌∷◌, eqb, length, keep, not, All, arith,
}
use braunrate.Texts.{comma, group_rest, grouped}

abbrev pub without_commas : List ℕ → List ℕ
without_commas text = keep (λ c. not (eqb c comma)) text

group_rest_lem :
    (digits : List ℕ)
    → All (λ d. d ≢ comma) digits
    → (without_commas (group_rest digits) ≡ digits)
      × (length (group_rest digits) ≡ length digits + length digits / 3)
unfolding group_rest
group_rest_lem [] _ = (refl, omega arith)
group_rest_lem (d ∷ digits) (plain, others) =
    let (same, longer) = group_rest_lem digits others in
    (ground (arith, same, plain), ground (arith, longer))

-- Without its commas, a grouped number is the digits it was made of, and it has one comma for each
-- three digits after the first.
pub grouped_lem :
    (digits : List ℕ)
    → All (λ d. d ≢ comma) digits
    → (without_commas (grouped digits) ≡ digits)
      × (length (grouped digits) ≡ length digits + (length digits - 1) / 3)
unfolding grouped
grouped_lem [] _ = (refl, omega arith)
grouped_lem (d ∷ digits) (plain, others) =
    let (same, longer) = group_rest_lem digits others in
    (ground (arith, same, plain), ground (arith, longer))
