-- ===== src/Base/Maps.antt =====
-- A Go map as a list of entries. A range over a map visits the entries in an order that the program
-- may not rely on: here it is the order of the list, and any list may stand for the map.
use Prim.Native.Nat.{ℕ, ◌+◌, ◌≤◌}
use mathlib.Core.Bool.{false}
use mathlib.Core.Logic.{inl, inr}
use mathlib.Core.Path.{sym, ap, ◌≡◌, refl}
use mathlib.Core.List.{◌++◌, List, [], ◌∷◌, map}
use mathlib.Core.Option.{Option, none, some}
use native.Mathlib.Omega.{arith}
use braunrate.Base.Tests.{Bool-cases, if◌then◌else◌}
use braunrate.Base.Lists.{All, length, sum}
use braunrate.Base.Equality.{Comparable, ◌==◌, eq_iff}

abbrev pub Map {ℓ κ} : Type ℓ → Type κ → Type (ℓ ⊔ κ)
Map K V = List (K × V)

module _ {ℓ κ} {K : Type ℓ} {V : Type κ} ⦃e : Comparable K⦄ where
  -- `m[key] = value`: the entry of the key is replaced where it stands.
  unfoldable pub insert : K → V → Map K V → Map K V
  insert key value [] = (key, value) ∷ []
  insert key value ((other, old) ∷ rest) =
      if other == key then (key, value) ∷ rest else (other, old) ∷ insert key value rest

  -- `delete(m, key)`
  unfoldable pub erase : K → Map K V → Map K V
  erase key [] = []
  erase key ((other, old) ∷ rest) =
      let erased = erase key rest in if other == key then erased else (other, old) ∷ erased

  -- `value, found := m[key]`
  unfoldable pub lookup : K → Map K V → Option V
  lookup wanted [] = none
  lookup wanted ((key, value) ∷ rest) = if key == wanted then some value else lookup wanted rest

  pub lookup-insert :
      (key wanted : K) (value : V) (m : Map K V)
      → lookup wanted (insert key value m) ≡ (if key == wanted then some value else lookup wanted m)
  unfolding lookup insert
  lookup-insert key wanted value [] = refl
  lookup-insert key wanted value ((other, old) ∷ rest) = ground (
    arith,
    eq_iff key wanted,
    eq_iff other key,
    eq_iff other wanted,
    lookup-insert key wanted value rest,
  )

  pub lookup-erase :
      (k j : K) (m : Map K V) → lookup j (erase k m) ≡ (if k == j then none else lookup j m)
  unfolding lookup erase
  lookup-erase k j [] = ground arith
  lookup-erase k j ((i, w) ∷ m) =
      ground (arith, eq_iff k j, eq_iff i k, eq_iff i j, lookup-erase k j m)

  pub length-erase-le : (k : K) (m : Map K V) → length (erase k m) ≤ length m
  unfolding erase
  length-erase-le k [] = omega arith
  length-erase-le k ((j, w) ∷ m) = ground (arith, length-erase-le k m)

  pub length-insert-le : (k : K) (v : V) (m : Map K V) → length (insert k v m) ≤ length m + 1
  unfolding insert
  length-insert-le k v [] = omega arith
  length-insert-le k v ((j, w) ∷ m) = ground (arith, length-insert-le k v m)

  -- A measure summed over the values changes by what the new value adds.
  pub sum_values-insert :
      (f : V → ℕ) (k : K) (v : V) (m : Map K V)
      → sum (map (λ (p : K × V). f p.1) (insert k v m))
          + (elim (lookup k m) [ none ↦ 0 | some w ↦ f w ])
        ≡ sum (map (λ (p : K × V). f p.1) m) + f v
  unfolding lookup insert
  sum_values-insert f k v [] = omega arith
  sum_values-insert f k v ((j, w) ∷ m) = ground (arith, sum_values-insert f k v m)

-- No key stands twice, as in every Go map.
module _ {ℓ κ} {K : Type ℓ} {V : Type κ} ⦃e : Comparable K⦄ where
  abbrev pub Unique : Map K V → Type κ
  Unique [] = Unit
  Unique ((k, v) ∷ m) = (lookup k m ≡ none) × Unique m

  pub insert-Unique : (k : K) (v : V) (m : Map K V) → Unique m → Unique (insert k v m)
  unfolding insert
  insert-Unique k v [] u = (unfold lookup in refl, tt)
  insert-Unique k v ((j, w) ∷ m) u =
      ground (arith, eq_iff j k, eq_iff k j, insert-Unique k v m u.1, lookup-insert k j v m)

  lookup-append-apart :
      (j k : K) (v : V) (m others : Map K V)
      → lookup j (m ++ (k, v) ∷ others) ≡ none
      → (j == k) ≡ false
  unfolding lookup
  lookup-append-apart j k v [] others h = ground (arith, eq_iff j k, eq_iff k j)
  lookup-append-apart j k v ((i, w) ∷ m) others h =
      ground (arith, lookup-append-apart j k v m others)

  pub lookup-before :
      (k : K) (v : V) (m others : Map K V) → Unique (m ++ (k, v) ∷ others) → lookup k m ≡ none
  unfolding lookup
  lookup-before k v [] others u = refl
  lookup-before k v ((j, w) ∷ m) others (apart, u) =
      rw (lookup-append-apart j k v m others apart) (lookup-before k v m others u)

  -- A key that stands only behind the entries of `m` is put after them.
  pub insert-append :
      (k : K) (v : V) (m others : Map K V)
      → Unique (m ++ (k, v) ∷ others)
      → insert k v m ≡ m ++ (k, v) ∷ []
  unfolding insert
  insert-append k v [] others u = refl
  insert-append k v ((j, w) ∷ m) others (apart, u) =
      rw (lookup-append-apart j k v m others apart)
        (ap (λ rest. (j, w) ∷ rest) (insert-append k v m others u))

  abbrev pub keys : Map K V → List K
  keys [] = []
  keys ((k, v) ∷ m) = k ∷ keys m

  pub keys-insert_new :
      (k : K) (v : V) (m : Map K V) → lookup k m ≡ none → keys (insert k v m) ≡ keys m ++ k ∷ []
  unfolding lookup insert
  keys-insert_new k v [] h = refl
  keys-insert_new k v ((j, w) ∷ m) h = elim (Bool-cases (j == k)) [
    | inl e ↦ absurd (ground (arith, e, h))
    | inr e ↦ rw e (ap (λ rest. j ∷ rest) (keys-insert_new k v m (rw e at h)))
  ]

  pub keys-insert_old :
      (k : K) (v : V) (m : Map K V) {old : V} → lookup k m ≡ some old → keys (insert k v m) ≡ keys m
  unfolding lookup insert
  keys-insert_old k v [] h = ground arith
  keys-insert_old k v ((j, w) ∷ m) h = elim (Bool-cases (j == k)) [
    | inl e ↦ rw (e, (eq_iff j k).0 e) refl
    | inr e ↦ rw e (ap (λ rest. j ∷ rest) (keys-insert_old k v m (rw e at h)))
  ]

  pub lookup-All {μ} :
      (P : K → V → Type μ) (k : K) (m : Map K V) {v : V}
      → All (λ p. P p.0 p.1) m
      → lookup k m ≡ some v
      → P k v
  unfolding lookup
  lookup-All P k [] _ h = absurd (ground arith)
  lookup-All P k ((j, w) ∷ m) {v} (p, ps) h = elim (Bool-cases (j == k)) [
    | inl e ↦ let same : w ≡ v = ground (arith, h, e) in rw (sym same, sym ((eq_iff j k).0 e)) p
    | inr e ↦ lookup-All P k m ps (rw e at h)
  ]

  pub insert-All {μ} :
      (P : K → V → Type μ) (k : K) (v : V) (m : Map K V)
      → P k v
      → All (λ p. P p.0 p.1) m
      → All (λ p. P p.0 p.1) (insert k v m)
  unfolding insert
  insert-All P k v [] p _ = (p, tt)
  insert-All P k v ((j, w) ∷ m) p (q, qs) = elim (Bool-cases (j == k)) [
    | inl e ↦ rw e (p, qs)
    | inr e ↦ rw e (q, insert-All P k v m p qs)
  ]

abbrev pub total {ℓ} : {K : Type ℓ} → Map K ℕ → ℕ
total [] = 0
total ((j, n) ∷ m) = n + total m

-- Counters by key: `m[k] += n`, where a missing key counts as 0.
module _ {ℓ} {K : Type ℓ} ⦃e : Comparable K⦄ where
  abbrev pub count_of : K → Map K ℕ → ℕ
  count_of k m = elim (lookup k m) [ none ↦ 0 | some n ↦ n ]

  unfoldable pub add_count : K → ℕ → Map K ℕ → Map K ℕ
  add_count k n m = insert k (count_of k m + n) m

  pub count_of-add_count :
      (k j : K) (n : ℕ) (m : Map K ℕ)
      → count_of j (add_count k n m) ≡ (if k == j then count_of j m + n else count_of j m)
  unfolding add_count
  count_of-add_count k j n m = ground (arith, eq_iff k j, lookup-insert k j (count_of k m + n) m)

  pub length-add_count-le : (k : K) (n : ℕ) (m : Map K ℕ) → length (add_count k n m) ≤ length m + 1
  unfolding add_count
  length-add_count-le k n m = length-insert-le k (count_of k m + n) m

  total-insert : (k : K) (v : ℕ) (m : Map K ℕ) → total (insert k v m) + count_of k m ≡ total m + v
  unfolding lookup insert
  total-insert k v [] = omega arith
  total-insert k v ((j, w) ∷ m) = ground (arith, total-insert k v m)

  pub total-add_count : (k : K) (n : ℕ) (m : Map K ℕ) → total (add_count k n m) ≡ total m + n
  unfolding add_count
  total-add_count k n m = omega (arith, total-insert k (count_of k m + n) m)

  pub add_count-Unique : (k : K) (n : ℕ) (m : Map K ℕ) → Unique m → Unique (add_count k n m)
  unfolding add_count
  add_count-Unique k n m = insert-Unique k (count_of k m + n) m
