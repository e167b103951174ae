-- ===== src/Data.antt =====
-- internal/data/data.go: the rows that the iterations consume from a file, and the Brazilian
-- documents that a synthetic source makes up. `Random` is the generator of math/rand. The position
-- is an int64 in the code, which no run counts past.
pub mod Rows
pub mod Documents
use braunrate.Base.{
  ℕ, ◌+◌, ◌-◌, ◌*◌, ◌%◌, Bool, true, false, String, Option, none, some, List, [], ◌∷◌, ◌++◌, Map,
  length, get_elem?, ltb, leb, if◌then◌else◌,
}
use braunrate.Scenario.{
  ConsumePolicy, consume_sequential, consume_random, consume_circular, consume_unique_per_user,
}

-- `Int63n` and `Intn`: a number and the generator after it.
pub record Random {ℓ} (R : Type ℓ) : Type ℓ where
  pub below : ℕ → R → ℕ × R

pub record CsvSource {ℓ} (R : Type ℓ) : Type ℓ where
  pub name : String
  pub columns : List String
  pub records : List (List String)
  pub consume : ConsumePolicy
  pub position : ℕ
  pub exhausted : Bool
  pub random : R

-- What `Next` answers: a record of the file (which it pairs with the columns' names), the error of a file that ran out, or a panic on an
-- index out of range or on a file without records.
pub data Drawn : Type 0 where
  drawn : List String → Drawn
  ran_out panicked : Drawn

unfoldable pub record_at : List (List String) → ℕ → Drawn
record_at records i = elim (get_elem? records i) [ none ↦ panicked | some r ↦ drawn r ]

module _ {ℓ} {R : Type ℓ} ⦃rand : Random R⦄ where
  unfoldable pub next : ℕ → CsvSource R → CsvSource R × Drawn
  next virtual_user s =
      let total = length s.records in
      elim s.consume [
        | consume_random ↦ (
          record s { random = (rand.below total s.random).1 },
          record_at s.records (rand.below total s.random).0,
        )
        | consume_unique_per_user ↦ (s, record_at s.records (virtual_user % total))
        | consume_sequential ↦
            if leb total s.position
            then (record s { position = s.position + 1; exhausted = true }, ran_out)
            else (record s { position = s.position + 1 }, record_at s.records s.position)
        | consume_circular ↦
            (record s { position = s.position + 1 }, record_at s.records (s.position % total))
      ]

  -- The calls of the virtual users, in the order in which they reach the source.
  unfoldable pub next_all : List ℕ → CsvSource R → List Drawn
  next_all [] s = []
  next_all (u ∷ users) s = (next u s).1 ∷ next_all users (next u s).0

abbrev pub weighted_total : List ℕ → List ℕ → Option ℕ
weighted_total digits [] = some 0
weighted_total [] (w ∷ weights) = none
weighted_total (d ∷ digits) (w ∷ weights) = elim (weighted_total digits weights) [
  | none ↦ none
  | some t ↦ some (d * w + t)
]

abbrev digit_of_total : ℕ → ℕ
digit_of_total total = let remainder = total % 11 in if leb 2 remainder then 11 - remainder else 0

-- `none` stands for the panic on fewer digits than weights.
unfoldable pub check_digit : List ℕ → List ℕ → Option ℕ
check_digit digits weights = elim (weighted_total digits weights) [
  | none ↦ none
  | some t ↦ some (digit_of_total t)
]

unfoldable pub add_check_digits : List (List ℕ) → List ℕ → Option (List ℕ)
add_check_digits [] digits = some digits
add_check_digits (w ∷ weights) digits = elim (check_digit digits w) [
  | none ↦ none
  | some d ↦ add_check_digits weights (digits ++ d ∷ [])
]

module _ {ℓ} {R : Type ℓ} ⦃rand : Random R⦄ where
  unfoldable pub random_digits : ℕ → R → List ℕ
  random_digits ℕ.zero r = []
  random_digits (ℕ.suc n) r = (rand.below 10 r).0 ∷ random_digits n (rand.below 10 r).1

  -- `brazilianDocument`, as its list of digits.
  unfoldable pub brazilian_document : ℕ → List (List ℕ) → R → Option (List ℕ)
  brazilian_document length weights r = add_check_digits weights (random_digits length r)

abbrev pub cpf_weights : List (List ℕ)
cpf_weights =
    (10 ∷ 9 ∷ 8 ∷ 7 ∷ 6 ∷ 5 ∷ 4 ∷ 3 ∷ 2 ∷ []) ∷ (11 ∷ 10 ∷ 9 ∷ 8 ∷ 7 ∷ 6 ∷ 5 ∷ 4 ∷ 3 ∷ 2 ∷ []) ∷ []

abbrev pub cnpj_weights : List (List ℕ)
cnpj_weights =
    (5 ∷ 4 ∷ 3 ∷ 2 ∷ 9 ∷ 8 ∷ 7 ∷ 6 ∷ 5 ∷ 4 ∷ 3 ∷ 2 ∷ [])
    ∷ (6 ∷ 5 ∷ 4 ∷ 3 ∷ 2 ∷ 9 ∷ 8 ∷ 7 ∷ 6 ∷ 5 ∷ 4 ∷ 3 ∷ 2 ∷ [])
    ∷ []
