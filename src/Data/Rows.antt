-- ===== src/Data/Rows.antt =====
-- Which record of the file each call is given.
use braunrate.Base.{
  ℕ, ◌+◌, ◌%◌, ◌<◌, ◌≡◌, ◌≢◌, refl, String, some, List, [], ◌∷◌, length, get_elem?, leb,
  if◌then◌else◌, arith, All,
}
use braunrate.Scenario.{
  ConsumePolicy, consume_sequential, consume_random, consume_circular, consume_unique_per_user,
}
use braunrate.Data.{next_all, panicked, Random, CsvSource, Drawn, ran_out, record_at, next}

-- The record that the i-th of the calls is given.
abbrev pub drawn_at : ConsumePolicy → List (List String) → ℕ → ℕ → ℕ → Drawn
drawn_at consume_sequential records start u i =
    if leb (length records) (start + i) then ran_out else record_at records (start + i)
drawn_at consume_circular records start u i = record_at records ((start + i) % length records)
drawn_at consume_unique_per_user records start u i = record_at records (u % length records)
drawn_at consume_random records start u i = ran_out

get_elem?-some {ℓ} :
    {A : Type ℓ} (xs : List A) (i : ℕ) → i < length xs → (x : A) × (get_elem? xs i ≡ some x)
get_elem?-some [] i h = ground (arith, h)
get_elem?-some (x ∷ xs) ℕ.zero h = (x, refl)
get_elem?-some (x ∷ xs) (ℕ.suc i) h = get_elem?-some xs i (omega (arith, h))

record_at_inside :
    (records : List (List String)) (i : ℕ) → i < length records → record_at records i ≢ panicked
unfolding record_at
record_at_inside records i h = let (r, e) = get_elem?-some records i h in ground (arith, e)

module _ {ℓ} {R : Type ℓ} ⦃rand : Random R⦄ where
  first_draw :
      (u : ℕ) (s : CsvSource R)
      → s.consume ≢ consume_random
      → (next u s).1 ≡ drawn_at s.consume s.records s.position u 0
  unfolding next
  first_draw u s ordered = ground (arith, ordered)

  later_draws :
      (u v i : ℕ) (s : CsvSource R)
      → s.consume ≢ consume_random
      → let after = (next u s).0 in
        (after.consume ≡ s.consume)
        × (drawn_at after.consume after.records after.position v i
            ≡ drawn_at s.consume s.records s.position v (i + 1))
  unfolding next
  later_draws u v i s ordered = ground (arith, ordered)

  -- Whatever users call and in whatever order the calls arrive, the i-th call is given the record
  -- that the policy says: of a sequential source the one i places after the position, until the file
  -- runs out; of a circular one the same place, started over; of a unique one the record of the
  -- user.
  pub next_all-drawn_at :
      (users : List ℕ) (s : CsvSource R) (i u : ℕ)
      → s.consume ≢ consume_random
      → get_elem? users i ≡ some u
      → get_elem? (next_all users s) i ≡ some (drawn_at s.consume s.records s.position u i)
  unfolding next_all
  next_all-drawn_at [] s i u ordered e = ground (arith, e)
  next_all-drawn_at (v ∷ users) s ℕ.zero u ordered e = ground (arith, e, first_draw v s ordered)
  next_all-drawn_at (v ∷ users) s (ℕ.suc i) u ordered e =
      let (same, later) = later_draws v u i s ordered in
      ground (arith, later, next_all-drawn_at users (next v s).0 i u (λ q. ordered (cc)) e)

  module _ (in_range : (n : ℕ) (r : R) → 0 < n → (rand.below n r).0 < n) where
    next_inside :
        (u : ℕ) (s : CsvSource R)
        → 0 < length s.records
        → ((next u s).1 ≢ panicked) × ((next u s).0.records ≡ s.records)
    unfolding next
    next_inside u s some_records =
        let total = length s.records in
        ground (
          arith,
          record_at_inside s.records (rand.below total s.random).0
              (in_range total s.random some_records),
          record_at_inside s.records (u % total),
          record_at_inside s.records s.position,
          record_at_inside s.records (s.position % total),
        )

    -- A source with a record, as every source is that was opened, never reads out of range: a call
    -- is given a record, or is told that the file ran out.
    pub next_all_inside :
        (users : List ℕ) (s : CsvSource R)
        → 0 < length s.records
        → All (λ d. d ≢ panicked) (next_all users s)
    unfolding next_all
    next_all_inside [] s some_records = _
    next_all_inside (u ∷ users) s some_records =
        let (here, kept) = next_inside u s some_records in
        (here, next_all_inside users (next u s).0 (rw kept some_records))
