-- ===== src/Texts/Nearest/Distance.antt =====
-- internal/text/nearest.go: editDistance against a recursive distance and against alignments.
use Prim.Native.Nat.{min}
use native.Mathlib.Decide.{dec_le}
use braunrate.Base.Codes.{Text}
use braunrate.Base.{
  append-nil, ◌++◌, ◌∙◌, arith, Bool-cases, eqb, eqb_iff, inl, inr, ◌≤◌, ℕ, suc, ◌+◌, ◌≡◌, refl,
  sym, ap, List, [], ◌∷◌, length,
}
use braunrate.Texts.Nearest.{
  substitution_cost, fill_row, next_row, all_rows, first_row, last_cell, edit_distance,
}

-- The recursive distance; the words are read from their ends.
unfoldable pub distance : Text → Text → ℕ
distance [] ys = length ys
distance (x ∷ xs) [] = suc (length xs)
distance (x ∷ xs) (y ∷ ys) =
    min (min (distance (x ∷ xs) ys + 1) (distance xs (y ∷ ys) + 1))
      (distance xs ys + substitution_cost x y)

-- The row of the prefix that `done` is in reverse, past the first cell.
unfoldable row_rest : Text → Text → Text → List ℕ
row_rest done passed [] = []
row_rest done passed (y ∷ ys) = distance done (y ∷ passed) ∷ row_rest done (y ∷ passed) ys

abbrev row : Text → Text → Text → List ℕ
row done passed ys = distance done passed ∷ row_rest done passed ys

unfoldable reverse_onto : Text → Text → Text
reverse_onto [] done = done
reverse_onto (x ∷ xs) done = reverse_onto xs (x ∷ done)

fill_row-row_rest :
    (x : ℕ) (done passed ys : Text)
    → fill_row x (distance (x ∷ done) passed) (distance done passed) (row_rest done passed ys) ys
      ≡ row_rest (x ∷ done) passed ys
unfolding fill_row row_rest distance
fill_row-row_rest x done passed [] = refl
fill_row-row_rest x done passed (y ∷ ys) =
    ap (λ cells. distance (x ∷ done) (y ∷ passed) ∷ cells)
      (fill_row-row_rest x done (y ∷ passed) ys)

first_row-row : (passed ys : Text) → first_row (length passed) ys ≡ row [] passed ys
unfolding first_row row_rest distance
first_row-row passed [] = refl
first_row-row passed (y ∷ ys) = ap (λ cells. length passed ∷ cells) (first_row-row (y ∷ passed) ys)

all_rows-row :
    (first done second : Text)
    → all_rows (suc (length done)) first (row done [] second) second
      ≡ row (reverse_onto first done) [] second
unfolding all_rows next_row reverse_onto distance
all_rows-row [] done second = refl
all_rows-row (x ∷ first) done second =
    rw (sym (all_rows-row first (x ∷ done) second)) (rw (fill_row-row_rest x done [] second) refl)

last_cell-row :
    (done passed ys : Text)
    → last_cell (row done passed ys) ≡ distance done (reverse_onto ys passed)
unfolding last_cell row_rest reverse_onto
last_cell-row done passed [] = refl
last_cell-row done passed (y ∷ ys) = last_cell-row done (y ∷ passed) ys

edit_distance-distance :
    (first second : Text)
    → edit_distance first second ≡ distance (reverse_onto first []) (reverse_onto second [])
unfolding edit_distance
edit_distance-distance first second =
    rw (first_row-row [] second, all_rows-row first [] second)
      (last_cell-row (reverse_onto first []) [] second)

-- How one word becomes another, from the left, with the number of bytes that change.
pub data Alignment : Text → Text → ℕ → Type 0 where
  done : Alignment [] [] 0
  keep : {x n : ℕ} {xs ys : Text} → Alignment xs ys n → Alignment (x ∷ xs) (x ∷ ys) n
  replace : {x y n : ℕ} {xs ys : Text} → Alignment xs ys n → Alignment (x ∷ xs) (y ∷ ys) (suc n)
  remove : {x n : ℕ} {xs ys : Text} → Alignment xs ys n → Alignment (x ∷ xs) ys (suc n)
  insert : {y n : ℕ} {xs ys : Text} → Alignment xs ys n → Alignment xs (y ∷ ys) (suc n)

distance-nil : (xs : Text) → distance xs [] ≡ length xs
unfolding distance
distance-nil [] = refl
distance-nil (x ∷ xs) = refl

substitution_cost-le-one : (x y : ℕ) → substitution_cost x y ≤ 1
substitution_cost-le-one x y = ground arith

distance-remove : (x : ℕ) (xs ys : Text) → distance (x ∷ xs) ys ≤ distance xs ys + 1
unfolding distance
distance-remove x xs [] = omega (arith, distance-nil xs)
distance-remove x xs (y ∷ ys) = ground arith

distance-insert : (y : ℕ) (xs ys : Text) → distance xs (y ∷ ys) ≤ distance xs ys + 1
unfolding distance
distance-insert y [] ys = ground arith
distance-insert y (x ∷ xs) ys = ground arith

distance-least : {n : ℕ} {xs ys : Text} → Alignment xs ys n → distance xs ys ≤ n
unfolding distance
distance-least done = omega arith
distance-least (keep {x} a) = ground (arith, distance-least a)
distance-least (replace {x} {y} a) = ground (arith, distance-least a, substitution_cost-le-one x y)
distance-least (remove {x} {xs} {ys} a) = omega (arith, distance-least a, distance-remove x xs ys)
distance-least (insert {y} {xs} {ys} a) = omega (arith, distance-least a, distance-insert y xs ys)

recount : {xs ys : Text} {m n : ℕ} → m ≡ n → Alignment xs ys m → Alignment xs ys n
recount e a = rw (sym e) a

Alignment-min :
    {xs ys : Text} {c d : ℕ} → Alignment xs ys c → Alignment xs ys d → Alignment xs ys (min c d)
Alignment-min {xs} {ys} {c} {d} s t = elim (dec_le c d) [
  | yes h ↦ recount (omega arith) s
  | no h ↦ recount (omega arith) t
]

substituted :
    (x y : ℕ) {n : ℕ} {xs ys : Text}
    → Alignment xs ys n
    → Alignment (x ∷ xs) (y ∷ ys) (n + substitution_cost x y)
substituted x y {n} {xs} {ys} a = elim (Bool-cases (eqb x y)) [
  | inl e ↦ rw (sym ((eqb_iff x y).0 e)) (recount (ground (arith, eqb_iff x x)) (keep {x = x} a))
  | inr e ↦ recount (ground (arith, e)) (replace {x = x} {y = y} a)
]

distance_attained : (xs ys : Text) → Alignment xs ys (distance xs ys)
unfolding distance
distance_attained [] [] = done
distance_attained [] (y ∷ ys) = insert (distance_attained [] ys)
distance_attained (x ∷ xs) [] = remove (rw (sym (distance-nil xs)) (distance_attained xs []))
distance_attained (x ∷ xs) (y ∷ ys) =
    Alignment-min
      (Alignment-min (recount (omega arith) (insert {y = y} (distance_attained (x ∷ xs) ys)))
        (recount (omega arith) (remove {x = x} (distance_attained xs (y ∷ ys)))))
      (substituted x y (distance_attained xs ys))

reversed :
    {m n : ℕ} {xs ys us vs : Text}
    → Alignment xs ys m
    → Alignment us vs n
    → Alignment (reverse_onto xs us) (reverse_onto ys vs) (m + n)
unfolding reverse_onto
reversed done b = recount (omega arith) b
reversed (keep {x} a) b = reversed a (keep {x = x} b)
reversed (replace {x} {y} a) b = recount (omega arith) (reversed a (replace {x = x} {y = y} b))
reversed (remove {x} a) b = recount (omega arith) (reversed a (remove {x = x} b))
reversed (insert {y} a) b = recount (omega arith) (reversed a (insert {y = y} b))

reverse_onto_twice :
    (xs ys zs : Text) → reverse_onto (reverse_onto xs ys) zs ≡ reverse_onto ys (xs ++ zs)
unfolding reverse_onto
reverse_onto_twice [] ys zs = refl
reverse_onto_twice (x ∷ xs) ys zs = reverse_onto_twice xs (x ∷ ys) zs

reversed_twice : (xs : Text) → reverse_onto (reverse_onto xs []) [] ≡ xs
unfolding reverse_onto
reversed_twice xs = reverse_onto_twice xs [] [] ∙ append-nil xs

attained_forwards :
    (first second : Text)
    → Alignment first second (distance (reverse_onto first []) (reverse_onto second []))
attained_forwards first second =
    recount (omega arith) (rw (reversed_twice first, reversed_twice second) at attained)
  where
    attained :
        Alignment
          (reverse_onto (reverse_onto first []) [])
          (reverse_onto (reverse_onto second []) [])
          (distance (reverse_onto first []) (reverse_onto second []) + 0)
    attained = reversed (distance_attained (reverse_onto first []) (reverse_onto second [])) done

-- The edit distance of two words is the least number of bytes to replace, remove or insert that
-- makes one of them the other: so many changes do, and no way to do it has fewer.
pub edit_distance-least :
    (first second : Text) {n : ℕ}
    → Alignment first second n
    → Alignment first second (edit_distance first second) × (edit_distance first second ≤ n)
edit_distance-least first second a =
    rw (edit_distance-distance first second)
      (attained_forwards first second, omega (arith, distance-least (reversed a done)))
