-- ===== src/Metrics/Variety/Counting.antt =====
-- internal/metrics/variety.go: the bounded counter of a variable against the values it was given.
use Prim.Native.Nat.{min}
use braunrate.Base.Int.{ℤ}
use braunrate.Base.{
  Map, leb, if◌then◌else◌, ◌+◌, ◌≤◌, ◌≡◌, refl, ap, ◌∙◌, Bool, true, false, ◌&&◌, Option, none,
  some, List, [], ◌∷◌, All, all, length, length-append, arith, Bool-cases, inl, inr, ◌⊎◌, eqb_iff,
}
use braunrate.Base.Codes.{Text, has_prefix}
use braunrate.Base.Float.{Float64}
use braunrate.Metrics.Variety.{
  build_variety, note_seen, VarietyCounter, Collapse, common_prefix, add_seen, span, record_value,
  record_values, new_counter, distinct_values_cap,
}

-- The different values, in the order in which they came first, after those of `seen`.
unfoldable pub distinct_after : List Text → List Text → List Text
distinct_after [] seen = seen
distinct_after (value ∷ values) seen = distinct_after values (add_seen value seen)

-- The different values of a list.
unfoldable pub distinct_of : List Text → List Text
distinct_of values = distinct_after values []

add_seen-grows :
    (value : Text) (seen : List Text)
    → (length seen ≤ length (add_seen value seen))
      × (length (add_seen value seen) ≤ length seen + 1)
unfolding add_seen
add_seen-grows value seen = ground (arith, length-append seen (value ∷ []))

distinct_after-grows : (values seen : List Text) → length seen ≤ length (distinct_after values seen)
unfolding distinct_after
distinct_after-grows [] seen = omega arith
distinct_after-grows (value ∷ values) seen =
    omega (arith, (add_seen-grows value seen).0, distinct_after-grows values (add_seen value seen))

has_prefix_self : (text : Text) → has_prefix text text ≡ true
unfolding has_prefix
has_prefix_self [] = refl
has_prefix_self (c ∷ text) = ground (arith, has_prefix_self text)

has_prefix-common :
    (first second : Text)
    → (has_prefix first (common_prefix first second) ≡ true)
      × (has_prefix second (common_prefix first second) ≡ true)
unfolding has_prefix common_prefix
has_prefix-common [] [] = (refl, refl)
has_prefix-common [] (y ∷ second) = (refl, refl)
has_prefix-common (x ∷ first) [] = (refl, refl)
has_prefix-common (x ∷ first) (y ∷ second) =
    let (p, q) = has_prefix-common first second in ground (arith, p, q, eqb_iff x y)

has_prefix_trans :
    (a b c : Text) → has_prefix a b ≡ true → has_prefix b c ≡ true → has_prefix a c ≡ true
unfolding has_prefix
has_prefix_trans a b [] p q = refl
has_prefix_trans a [] (z ∷ c) p q = absurd (ground arith)
has_prefix_trans [] (y ∷ b) (z ∷ c) p q = absurd (ground arith)
has_prefix_trans (x ∷ a) (y ∷ b) (z ∷ c) p q =
    ground (arith, has_prefix_trans a b c, eqb_iff x y, eqb_iff y z)

-- What has been seen, against all the different values so far.
abbrev IsSeen {ℓ} : {W : Type ℓ} → List Text → VarietyCounter W → Type 0
IsSeen different c =
    ((c.seen ≡ different) × (length different ≤ distinct_values_cap) × (c.capped ≡ false))
    ⊎ (length c.seen ≡ distinct_values_cap) × (distinct_values_cap ≤ length different)

module _ {ℓ} {W : Type ℓ} where
  note_seen-IsSeen :
      (value : Text) (different : List Text) (c : VarietyCounter W)
      → IsSeen different c
      → IsSeen (add_seen value different) (note_seen value c)
  unfolding note_seen
  note_seen-IsSeen value different c (inl (same, below, capped)) =
      elim (Bool-cases (leb distinct_values_cap (length c.seen))) [
        | inl e ↦
            rw (capped, e)
              (inr (
                ground (arith, ap length same),
                ground (arith, ap length same, (add_seen-grows value different).0),
              ))
        | inr e ↦
            rw (capped, e)
              (inl (
                ap (add_seen value) same,
                ground (arith, ap length same, (add_seen-grows value different).1),
                refl,
              ))
      ]
  note_seen-IsSeen value different c (inr (full, above)) =
      inr (ground (arith, full), omega (arith, (add_seen-grows value different).0))

  note_seen-uses : (value : Text) (c : VarietyCounter W) → (note_seen value c).uses ≡ c.uses
  unfolding note_seen
  note_seen-uses value c = ground arith

module _ {ℓ} {W : Type ℓ} ⦃f : Float64 W⦄ (parse_number : Text → Option W) where
  abbrev pub is_number : Text → Bool
  is_number value = elim (parse_number value) [ none ↦ false | some number ↦ true ]

  -- What the span leaves as it was.
  span-keeps :
      (value : Text) (c : VarietyCounter W)
      → ((span parse_number value c).seen ≡ c.seen)
        × ((span parse_number value c).capped ≡ c.capped)
        × ((span parse_number value c).uses ≡ c.uses)
  unfolding span
  span-keeps value c = ground arith

  record_value-IsSeen :
      (value : Text) (different : List Text) (c : VarietyCounter W)
      → IsSeen different c
      → IsSeen (add_seen value different) (record_value parse_number value c)
  unfolding record_value
  record_value-IsSeen value different c s =
      let (seen, capped, _) = span-keeps value (record c { uses = c.uses + 1 }) in
      note_seen-IsSeen value different (span parse_number value (record c { uses = c.uses + 1 }))
        (rw (seen, capped) s)

  record_value-uses :
      (value : Text) (c : VarietyCounter W) → (record_value parse_number value c).uses ≡ c.uses + 1
  unfolding record_value
  record_value-uses value c =
      note_seen-uses value (span parse_number value (record c { uses = c.uses + 1 }))
      ∙ (span-keeps value (record c { uses = c.uses + 1 })).2

  pub record_values-collapse :
      (values : List Text) (c : VarietyCounter W)
      → (record_values parse_number values c).collapse ≡ c.collapse
  unfolding record_values record_value note_seen span
  record_values-collapse [] c = refl
  record_values-collapse (value ∷ values) c =
      record_values-collapse values (record_value parse_number value c) ∙ ground arith

  record_values-IsSeen :
      (values different : List Text) (c : VarietyCounter W)
      → IsSeen different c
      → IsSeen (distinct_after values different) (record_values parse_number values c)
        × ((record_values parse_number values c).uses ≡ c.uses + length values)
  unfolding record_values distinct_after
  record_values-IsSeen [] different c s = (s, omega arith)
  record_values-IsSeen (value ∷ values) different c s =
      let (seen, uses) =
        record_values-IsSeen values (add_seen value different) (record_value parse_number value c)
          (record_value-IsSeen value different c s) in
      (seen, omega (arith, uses, record_value-uses value c))

  -- The prefix that is kept begins what it was before and the new value, and numbers stay numeric
  -- only with a number.
  IsSpanned : Text → VarietyCounter W → VarietyCounter W → Type 0
  IsSpanned value c c' =
      (c'.first ≡ true)
      × (has_prefix value c'.prefix ≡ true)
      × ((c.first ≡ false) ⊎ (has_prefix c.prefix c'.prefix ≡ true))
      × (c'.numeric ≡ (if c.first then c.numeric && is_number value else is_number value))

  record_value-IsSpanned :
      (value : Text) (c : VarietyCounter W) → IsSpanned value c (record_value parse_number value c)
  unfolding record_value note_seen span IsSpanned
  record_value-IsSpanned value c =
      ground (arith, has_prefix_self value, has_prefix-common c.prefix value)

  record_values-IsSpanned :
      (values : List Text) (c : VarietyCounter W)
      → c.first ≡ true
      → (has_prefix c.prefix (record_values parse_number values c).prefix ≡ true)
        × All (λ v. has_prefix v (record_values parse_number values c).prefix ≡ true) values
        × ((record_values parse_number values c).numeric ≡ (c.numeric && all is_number values))
  unfolding record_values IsSpanned
  record_values-IsSpanned [] c started = (has_prefix_self c.prefix, tt, ground arith)
  record_values-IsSpanned (value ∷ values) c started =
      let (first, here, before, number) = record_value-IsSpanned value c in
      let (grown, there, numbers) =
        record_values-IsSpanned values (record_value parse_number value c) first in
      let c1 = record_value parse_number value c in
      let last = (record_values parse_number values c1).prefix in
      (
        elim before [
          | inl e ↦ absurd (ground (arith, e, started))
          | inr e ↦ has_prefix_trans c.prefix c1.prefix last e grown
        ],
        (has_prefix_trans value c1.prefix last here grown, there),
        ground (arith, started, number, numbers),
      )

  -- After any values: the uses are all of them; the prefix that is kept begins each of them; and the
  -- counter is numeric exactly when each of them is a number.
  pub record_values-span :
      (collapse : Option Collapse) (value : Text) (values : List Text)
      → let c = record_values parse_number (value ∷ values) (new_counter collapse) in
        (c.uses ≡ length (value ∷ values))
        × All (λ v. has_prefix v c.prefix ≡ true) (value ∷ values)
        × (c.numeric ≡ all is_number (value ∷ values))
  unfolding record_values new_counter IsSpanned
  record_values-span collapse value values =
      let c1 = record_value parse_number value (new_counter collapse) in
      let (first, here, _, number) = record_value-IsSpanned value (new_counter collapse) in
      let (grown, there, numbers) = record_values-IsSpanned values c1 first in
      let (_, uses) =
        record_values-IsSeen (value ∷ values) [] (new_counter collapse)
          (inl (refl, omega arith, refl)) in
      (
        omega (arith, uses),
        (
          has_prefix_trans value c1.prefix (record_values parse_number values c1).prefix here grown,
          there,
        ),
        ground (arith, number, numbers),
      )

  -- The report counts the different values of a variable, up to 1024 of them, and all its uses.
  pub build_variety-counts :
      (sort_strings : List Text → List Text) (available : Map Text ℤ) (name : Text)
      (collapse : Option Collapse) (values : List Text)
      → let v =
          build_variety sort_strings available name
            (record_values parse_number values (new_counter collapse)) in
        (v.distinct ≡ min distinct_values_cap (length (distinct_of values)))
        × (v.uses ≡ length values)
  unfolding build_variety distinct_of new_counter
  build_variety-counts sort_strings available name collapse values =
      let (seen, uses) =
        record_values-IsSeen values [] (new_counter collapse) (inl (refl, omega arith, refl)) in
      (
        elim seen [
          | inl (same, below, capped) ↦ ground (arith, ap length same, capped)
          | inr (full, above) ↦ ground (arith, full)
        ],
        omega (arith, uses),
      )
