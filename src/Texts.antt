-- ===== src/Texts.antt =====
-- internal/text/plural.go: a number written with its digits in groups of three. A text is the list
-- of its characters' codes; the sign and the digits are those that fmt writes.
pub mod Grouping
pub mod Nearest
use braunrate.Base.{ℕ, ◌%◌, List, [], ◌∷◌, eqb, if◌then◌else◌, length, Bool}

abbrev pub comma : ℕ
comma = 44

-- The digits after the first one: a comma stands where a multiple of three is left to write.
unfoldable pub group_rest : List ℕ → List ℕ
group_rest [] = []
group_rest (digit ∷ digits) =
    let rest = group_rest digits in
    if eqb (length (digit ∷ digits) % 3) 0 then comma ∷ digit ∷ rest else digit ∷ rest

unfoldable pub grouped : List ℕ → List ℕ
grouped [] = []
grouped (digit ∷ digits) = digit ∷ group_rest digits
