-- ===== src/Texts/Nearest/Answer.antt =====
-- internal/text/nearest.go: what Closest and abbreviation answer.
use braunrate.Base.Codes.{Text, has_prefix}
use braunrate.Base.{
  All-imp, if◌then◌else◌, Bool, ap, ◌∙◌, sym, ℕ, ◌^◌, ◌≤◌, ◌<◌, ◌≡◌, refl, List, [], ◌∷◌, true,
  false, Option, none, some, length, All, inl, inr, ◌⊎◌, arith, leb, ltb, Bool-cases,
}
use braunrate.Texts.Nearest.{
  replaces, distance_to, search_nearest, search_prefixed, is_empty, tolerance, abbreviation,
  closest,
}

abbrev pub IsAmong : Text → List Text → Type 0
IsAmong w [] = ⊥
IsAmong w (v ∷ vs) = (v ≡ w) ⊎ IsAmong w vs

All-among : (P : Text → Type 0) (w : Text) (valid : List Text) → IsAmong w valid → All P valid → P w
All-among P w [] among _ = elim among [ ]
All-among P w (v ∷ valid) (inl e) (p, _) = rw (sym e) p
All-among P w (v ∷ valid) (inr among) (_, ps) = All-among P w valid among ps

module _ (to_lower : Text → Text) (received : Text) where
  -- The candidate is at the distance and no nearer than any other.
  abbrev pub IsNearest : List Text → Text → Type 0
  IsNearest valid w =
      IsAmong w valid
      × All (λ v. distance_to to_lower received w ≤ distance_to to_lower received v) valid

  -- The state after the loop, as its state before it allows.
  Searched : List Text → Text → ℕ → Text × ℕ → Type 0
  Searched valid best shortest (found, least) =
      ((found ≡ best) × (least ≡ shortest)
        ⊎ IsAmong found valid × (least ≡ distance_to to_lower received found))
      × (least ≤ shortest)
      × All (λ v. least ≤ distance_to to_lower received v) valid

  Searched-nearer :
      (valid : List Text) (v best : Text) (shortest : ℕ) (r : Text × ℕ)
      → ltb (distance_to to_lower received v) shortest ≡ true
      → Searched valid v (distance_to to_lower received v) r
      → Searched (v ∷ valid) best shortest r
  unfolding Searched
  Searched-nearer valid v best shortest (found, least) e (inl (same, at), below, rest) = (
    inr (inl (sym same), at ∙ ap (distance_to to_lower received) (sym same)),
    ground arith,
    (below, rest),
  )
  Searched-nearer valid v best shortest (found, least) e (inr (among, at), below, rest) =
      (inr (inr among, at), ground arith, (below, rest))

  Searched-farther :
      (valid : List Text) (v best : Text) (shortest : ℕ) (r : Text × ℕ)
      → ltb (distance_to to_lower received v) shortest ≡ false
      → Searched valid best shortest r
      → Searched (v ∷ valid) best shortest r
  unfolding Searched
  Searched-farther valid v best shortest (found, least) e (inl start, below, rest) =
      (inl start, below, (ground arith, rest))
  Searched-farther valid v best shortest (found, least) e (inr (among, at), below, rest) =
      (inr (inr among, at), below, (ground arith, rest))

  search_nearest-cons :
      (v : Text) (valid : List Text) (best : Text) (shortest : ℕ)
      → search_nearest to_lower received (v ∷ valid) best shortest ≡ (
          if ltb (distance_to to_lower received v) shortest
          then search_nearest to_lower received valid v (distance_to to_lower received v)
          else search_nearest to_lower received valid best shortest)
  unfolding search_nearest
  search_nearest-cons v valid best shortest = ground arith

  search_nearest-Searched :
      (valid : List Text) (best : Text) (shortest : ℕ)
      → Searched valid best shortest (search_nearest to_lower received valid best shortest)
  search_nearest-Searched [] best shortest =
      unfold search_nearest Searched in (inl (refl, refl), omega arith, tt)
  search_nearest-Searched (v ∷ valid) best shortest =
      rw (search_nearest-cons v valid best shortest)
        (elim (Bool-cases (ltb (distance_to to_lower received v) shortest)) [
          | inl e ↦ rw e (
              Searched-nearer valid v best shortest _ e
                (search_nearest-Searched valid v (distance_to to_lower received v)))
          | inr e ↦ rw e (
              Searched-farther valid v best shortest _ e
                (search_nearest-Searched valid best shortest))
        ])

  abbrev pub starts : Text → Bool
  starts v = has_prefix (to_lower v) (to_lower received)

  -- What the loop of abbreviation finds, after the state it had.
  Prefixed : List Text → Text → Text → Type 0
  Prefixed valid best found =
      ((found ≡ best) ⊎ IsAmong found valid × (starts found ≡ true))
      × (0 < length best → (0 < length found) × (length found ≤ length best))
      × All (λ v. starts v ≡ true → (0 < length found) × (length found ≤ length v)) valid

  Prefixed-skipped :
      (valid : List Text) (v best found : Text)
      → starts v ≡ false
      → Prefixed valid best found
      → Prefixed (v ∷ valid) best found
  unfolding Prefixed
  Prefixed-skipped valid v best found e (inl same, below, rest) =
      (inl same, below, (λ h. ground arith, rest))
  Prefixed-skipped valid v best found e (inr (among, at), below, rest) =
      (inr (inr among, at), below, (λ h. ground arith, rest))

  Prefixed-taken :
      (valid : List Text) (v best taken found : Text)
      → starts v ≡ true
      → (taken ≡ v) ⊎ (taken ≡ best)
      → (0 < length taken) × (length taken ≤ length v)
      → (0 < length best → length taken ≤ length best)
      → Prefixed valid taken found
      → Prefixed (v ∷ valid) best found
  unfolding Prefixed
  Prefixed-taken valid v best taken found e from short shorter (inr (among, at), below, rest) = (
    inr (inr among, at),
    λ h. ground (arith, below short.0, shorter h),
    (λ h. ground (arith, below short.0), rest),
  )
  Prefixed-taken valid v best taken found e (inl new) short shorter (inl same, below, rest) = (
    inr (inl (sym (same ∙ new)), ap starts (same ∙ new) ∙ e),
    λ h. ground (arith, below short.0, shorter h),
    (λ h. ground (arith, below short.0), rest),
  )
  Prefixed-taken valid v best taken found e (inr old) short shorter (inl same, below, rest) = (
    inl (same ∙ old),
    λ h. ground (arith, below short.0, shorter h),
    (λ h. ground (arith, below short.0), rest),
  )

  abbrev taken_of : Text → Text → Text
  taken_of v best = if replaces to_lower v best then v else best

  taken_of-cases :
      (v best : Text)
      → 0 < length v
      → ((taken_of v best ≡ v) ⊎ (taken_of v best ≡ best))
        × (0 < length (taken_of v best))
        × (length (taken_of v best) ≤ length v)
        × (0 < length best → length (taken_of v best) ≤ length best)
  taken_of-cases v best h = elim (Bool-cases (replaces to_lower v best)) [
    | inl e ↦ (inl (rw e), ground arith, ground arith, λ p. ground arith)
    | inr e ↦ (inr (rw e), ground arith, ground arith, λ p. ground arith)
  ]

  search_prefixed-cons :
      (v : Text) (valid : List Text) (best : Text)
      → search_prefixed to_lower received (v ∷ valid) best
        ≡ search_prefixed to_lower received valid (if starts v then taken_of v best else best)
  unfolding search_prefixed
  search_prefixed-cons v valid best = refl

  search_prefixed-Prefixed :
      (valid : List Text) (best : Text)
      → All (λ v. 0 < length v) valid
      → Prefixed valid best (search_prefixed to_lower received valid best)
  search_prefixed-Prefixed [] best _ =
      unfold search_prefixed Prefixed in (inl refl, λ h. omega arith, tt)
  search_prefixed-Prefixed (v ∷ valid) best (full, others) =
      rw (search_prefixed-cons v valid best) (elim (Bool-cases (starts v)) [
        | inl e ↦
            let (from, some_byte, short, shorter) = taken_of-cases v best full in
            rw e (
              Prefixed-taken valid v best (taken_of v best) _ e from (some_byte, short) shorter
                (search_prefixed-Prefixed valid (taken_of v best) others))
        | inr e ↦
            rw e (Prefixed-skipped valid v best _ e (search_prefixed-Prefixed valid best others))
      ])

  -- Which answers are right.
  pub IsAnswer : List Text → Option Text → Type 0
  IsAnswer valid none =
      All (λ v. tolerance received < distance_to to_lower received v) valid
      × ((length received < 3) ⊎ All (λ v. starts v ≡ false) valid)
  IsAnswer valid (some w) =
      IsAmong w valid
      × ((distance_to to_lower received w ≤ tolerance received)
            × All (λ v. distance_to to_lower received w ≤ distance_to to_lower received v) valid
          ⊎ All (λ v. tolerance received < distance_to to_lower received v) valid
            × (3 ≤ length received)
            × (starts w ≡ true)
            × All (λ v. (starts v ≡ false) ⊎ (length w ≤ length v)) valid)

  Prefixed-IsAnswer :
      (valid : List Text) (found : Text)
      → 3 ≤ length received
      → All (λ v. tolerance received < distance_to to_lower received v) valid
      → Prefixed valid [] found
      → IsAnswer valid (if is_empty found then none else some found)
  unfolding IsAnswer Prefixed
  Prefixed-IsAnswer valid [] useful far (from, below, rest) = (
    far,
    inr (
        All-imp _ (λ v. starts v ≡ false)
          (λ v h. elim (Bool-cases (starts v)) [
            | inl e ↦ absurd (omega (arith, (h e).0))
            | inr e ↦ e
          ])
          valid rest),
  )
  Prefixed-IsAnswer valid (x ∷ xs) useful far (inl same, below, rest) =
      absurd (omega (arith, ap length same))
  Prefixed-IsAnswer valid (x ∷ xs) useful far (inr (among, at), below, rest) = (
    among,
    inr (
      far,
      useful,
      at,
      All-imp _ (λ v. (starts v ≡ false) ⊎ (length (x ∷ xs) ≤ length v))
          (λ v h. elim (Bool-cases (starts v)) [ inl e ↦ inr ((h e).1) | inr e ↦ inl e ]) valid
          rest,
    ),
  )

  -- When no word is near enough, what is left is the abbreviation.
  abbreviation-IsAnswer :
      (valid : List Text)
      → All (λ v. 0 < length v) valid
      → All (λ v. tolerance received < distance_to to_lower received v) valid
      → IsAnswer valid (abbreviation to_lower received valid)
  unfolding abbreviation
  abbreviation-IsAnswer valid full far = elim (Bool-cases (ltb (length received) 3)) [
    | inl e ↦ rw e (unfold IsAnswer in (far, inl (ground arith)))
    | inr e ↦
        rw e (Prefixed-IsAnswer valid _ (ground arith) far (search_prefixed-Prefixed valid [] full))
  ]

  tolerance-le : tolerance received ≤ 3
  unfolding tolerance
  tolerance-le = ground arith

  Searched-IsAnswer :
      (valid : List Text) (r : Text × ℕ)
      → All (λ v. 0 < length v) valid
      → Searched valid [] (2 ^ 30) r
      → IsAnswer valid (
          if is_empty r.0
          then abbreviation to_lower received valid
          else if leb r.1 (tolerance received)
          then some r.0
          else abbreviation to_lower received valid)
  unfolding Searched
  Searched-IsAnswer valid ([], least) full (inl (same, at), below, rest) =
      abbreviation-IsAnswer valid full
        (All-imp _ _ (λ v h. omega (arith, tolerance-le, h)) valid rest)
  Searched-IsAnswer valid ([], least) full (inr (among, at), below, rest) =
      absurd (omega (arith, All-among (λ v. 0 < length v) [] valid among full))
  Searched-IsAnswer valid (x ∷ xs, least) full (inl (same, at), below, rest) =
      absurd (omega (arith, ap length same))
  Searched-IsAnswer valid (x ∷ xs, least) full (inr (among, at), below, rest) =
      elim (Bool-cases (leb least (tolerance received))) [
        | inl e ↦ rw e (
            unfold IsAnswer in
            (among, inl (ground arith, All-imp _ _ (λ v h. omega (arith, h, at)) valid rest)))
        | inr e ↦
            rw e
              (abbreviation-IsAnswer valid full (All-imp _ _ (λ v h. ground (arith, h)) valid rest))
      ]

  -- The answer of Closest: a word of the list that is within the tolerance and no farther than any
  -- other; or, where no word is within it, the shortest one that continues the received word of at
  -- least three bytes; or none, and then there is neither. No valid word is empty.
  pub closest-IsAnswer :
      (valid : List Text)
      → All (λ v. 0 < length v) valid
      → IsAnswer valid (closest to_lower received valid)
  unfolding closest
  closest-IsAnswer valid full =
      Searched-IsAnswer valid (search_nearest to_lower received valid [] (2 ^ 30)) full
        (search_nearest-Searched valid [] (2 ^ 30))
