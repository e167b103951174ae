-- ===== src/Texts/Nearest.antt =====
-- internal/text/nearest.go: which of the valid words a received one is probably a typo of. A word is
-- the list of its bytes; strings.ToLower is a parameter of what uses it.
pub mod Distance
pub mod Answer
use Prim.Native.Nat.{min}
use mathlib.Core.List.{◌∷◌}
use braunrate.Base.Codes.{Text, has_prefix}
use braunrate.Base.{
  ◌||◌, ℕ, zero, suc, ◌+◌, ◌^◌, List, [], Bool, true, false, Option, none, some, eqb, leb, ltb,
  if◌then◌else◌, length,
}

-- `cost`
abbrev pub substitution_cost : ℕ → ℕ → ℕ
substitution_cost x y = if eqb x y then 0 else 1

-- The inner loop from `j` on: `left` is current[j-1], `diagonal` is previous[j-1], and the lists are
-- previous[j:] and second[j-1:]. The result is current[j:].
unfoldable pub fill_row : ℕ → ℕ → ℕ → List ℕ → Text → List ℕ
fill_row x left diagonal (above ∷ previous) (y ∷ ys) =
    let cell = min (min (left + 1) (above + 1)) (diagonal + substitution_cost x y) in
    cell ∷ fill_row x cell above previous ys
fill_row x left diagonal [] ys = []
fill_row x left diagonal (above ∷ previous) [] = []

-- One round of the outer loop, with `i` in current[0].
unfoldable pub next_row : ℕ → ℕ → List ℕ → Text → List ℕ
next_row x i [] second = []
next_row x i (diagonal ∷ previous) second = i ∷ fill_row x i diagonal previous second

-- The rounds from the `i`-th on.
unfoldable pub all_rows : ℕ → Text → List ℕ → Text → List ℕ
all_rows i [] previous second = previous
all_rows i (x ∷ first) previous second =
    all_rows (suc i) first (next_row x i previous second) second

-- `previous[j] = j`, from `j` on.
unfoldable pub first_row : ℕ → Text → List ℕ
first_row j [] = j ∷ []
first_row j (y ∷ ys) = j ∷ first_row (suc j) ys

-- `previous[len(second)]`, the last cell.
unfoldable pub last_cell : List ℕ → ℕ
last_cell [] = 0
last_cell (cell ∷ []) = cell
last_cell (cell ∷ next ∷ cells) = last_cell (next ∷ cells)

unfoldable pub edit_distance : Text → Text → ℕ
edit_distance first second = last_cell (all_rows 1 first (first_row 0 second) second)

unfoldable pub tolerance : Text → ℕ
tolerance received = if leb (length received) 4 then 1 else if leb (length received) 8 then 2 else 3

-- `best == ""`
abbrev pub is_empty : Text → Bool
is_empty [] = true
is_empty (x ∷ word) = false

module _ (to_lower : Text → Text) where
  abbrev pub distance_to : Text → Text → ℕ
  distance_to received candidate = edit_distance (to_lower received) (to_lower candidate)

  -- The loop of Closest; the state is `best` and `shortestDistance`.
  unfoldable pub search_nearest : Text → List Text → Text → ℕ → Text × ℕ
  search_nearest received [] best shortest = (best, shortest)
  search_nearest received (candidate ∷ valid) best shortest =
      let distance = distance_to received candidate in
      let (next, nearer) =
        if ltb distance shortest then (candidate, distance) else (best, shortest) in
      search_nearest received valid next nearer

  -- `best == "" || len(candidate) < len(best)`
  abbrev pub replaces : Text → Text → Bool
  replaces candidate best = is_empty best || ltb (length candidate) (length best)

  -- The loop of abbreviation.
  unfoldable pub search_prefixed : Text → List Text → Text → Text
  search_prefixed received [] best = best
  search_prefixed received (candidate ∷ valid) best =
      let taken = if replaces candidate best then candidate else best in
      let next = if has_prefix (to_lower candidate) (to_lower received) then taken else best in
      search_prefixed received valid next

  abbrev pub shortest_useful_prefix : ℕ
  shortest_useful_prefix = 3

  unfoldable pub abbreviation : Text → List Text → Option Text
  abbreviation received valid =
      if ltb (length received) shortest_useful_prefix
      then none
      else let best = search_prefixed received valid [] in if is_empty best then none else some best

  unfoldable pub closest : Text → List Text → Option Text
  closest received valid =
      let (best, shortest) = search_nearest received valid [] (2 ^ 30) in
      if is_empty best
      then abbreviation received valid
      else if leb shortest (tolerance received)
      then some best
      else abbreviation received valid
