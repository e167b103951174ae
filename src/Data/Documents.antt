-- ===== src/Data/Documents.antt =====
-- The check digits of a made-up document, and that it is made without a panic.
use braunrate.Base.{
  append-nil, append_assoc, ap, sym, ℕ, ◌+◌, ◌*◌, ◌%◌, ◌≤◌, ◌<◌, ◌≡◌, ◌⊎◌, refl, some, List, [],
  ◌∷◌, ◌++◌, length, length-append, arith,
}
use braunrate.Data.{
  Random, weighted_total, digit_of_total, check_digit, add_check_digits, random_digits,
  brazilian_document,
}

-- A check digit completes the weighted sum to a multiple of 11, unless that took the digit 10.
abbrev pub Completes : ℕ → ℕ → Type 0
Completes total d = (d < 10) × (((total + d) % 11 ≡ 0) ⊎ ((total % 11 ≡ 1) × (d ≡ 0)))

digit_of_total-Completes : (total : ℕ) → Completes total (digit_of_total total)
digit_of_total-Completes total = ground arith

weighted_total-some :
    (digits weights : List ℕ)
    → length weights ≤ length digits
    → (t : ℕ) × (weighted_total digits weights ≡ some t)
weighted_total-some digits [] h = (0, refl)
weighted_total-some [] (w ∷ weights) h = ground (arith, h)
weighted_total-some (d ∷ digits) (w ∷ weights) h =
    let (t, e) = weighted_total-some digits weights (omega (arith, h)) in (d * w + t, rw e refl)

-- There are as many weights as digits each time that a check digit is added.
abbrev pub Fits : ℕ → List (List ℕ) → Type 0
Fits n [] = Unit
Fits n (w ∷ weights) = (length w ≡ n) × Fits (n + 1) weights

Fits-at : (m n : ℕ) (weights : List (List ℕ)) → m ≡ n → Fits n weights → Fits m weights
Fits-at m n weights e h = rw e h

-- The digits that stand after the first ones complete the weighted sums of those before them.
abbrev pub Checks : List (List ℕ) → List ℕ → List ℕ → Type 0
Checks [] digits rest = rest ≡ []
Checks (w ∷ weights) digits [] = ⊥
Checks (w ∷ weights) digits (d ∷ rest) =
    ((t : ℕ) × (weighted_total digits w ≡ some t) × Completes t d)
    × Checks weights (digits ++ d ∷ []) rest

add_check_digits-Checks :
    (weights : List (List ℕ)) (digits : List ℕ)
    → Fits (length digits) weights
    → (rest : List ℕ) × (add_check_digits weights digits ≡ some (digits ++ rest))
      × Checks weights digits rest
unfolding add_check_digits check_digit
add_check_digits-Checks [] digits _ = ([], ap some (sym (append-nil digits)), refl)
add_check_digits-Checks (w ∷ weights) digits (fits, more) =
    let (t, e) = weighted_total-some digits w (omega (arith, fits)) in
    let d = digit_of_total t in
    let (rest, made, checks) = add_check_digits-Checks weights (digits ++ d ∷ []) (
      Fits-at (length (digits ++ d ∷ [])) (length digits + 1) weights
        (length-append digits (d ∷ [])) more) in
    (
      d ∷ rest,
      ground (arith, e, made, append_assoc digits (d ∷ []) rest),
      ((t, e, digit_of_total-Completes t), checks),
    )

module _ {ℓ} {R : Type ℓ} ⦃rand : Random R⦄ where
  length-random_digits : (n : ℕ) (r : R) → length (random_digits n r) ≡ n
  unfolding random_digits
  length-random_digits ℕ.zero r = refl
  length-random_digits (ℕ.suc n) r = omega (arith, length-random_digits n (rand.below 10 r).1)

  -- A document is always made: from as many drawn digits as asked for, and one more digit for each
  -- list of weights, each of which completes the weighted sum of the digits before it to a multiple
  -- of 11, or is 0 where it would have to be 10.
  pub brazilian_document-Checks :
      (n : ℕ) (weights : List (List ℕ)) (r : R)
      → Fits n weights
      → (rest : List ℕ) × (brazilian_document n weights r ≡ some (random_digits n r ++ rest))
        × Checks weights (random_digits n r) rest
  unfolding brazilian_document
  brazilian_document-Checks n weights r fits =
      add_check_digits-Checks weights (random_digits n r)
        (Fits-at (length (random_digits n r)) n weights (length-random_digits n r) fits)
