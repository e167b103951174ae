-- ===== src/Base/Codes.antt =====
-- A text as the list of its characters' codes, where the code reads it character by character, with
-- what the code uses of the packages strings and unicode.
use Prim.Native.Char.{code}
use Prim.Native.Nat.{ℕ}
use Prim.Native.String.{String}
use mathlib.Core.Path.{◌≡◌, refl, ap₂}
use mathlib.Core.Bool.{Bool, true, false, ◌&&◌, ◌||◌}
use mathlib.Core.List.{◌++◌, List, [], ◌∷◌}
use native.Mathlib.Omega.{arith}
use braunrate.Base.Tests.{eqb, eqb_iff, leb, if◌then◌else◌}
use braunrate.Base.Lists.{All, all}
use mathlib.Core.Logic.{◌≢◌}
use mathlib.Core.Bool.{not}
use braunrate.Base.Equality.{Comparable}

abbrev pub Text : Type 0
Text = List ℕ

abbrev pub codes : String → Text
codes String.[] = []
codes (String.◌∷◌ c s) = code c ∷ codes s

abbrev pub same_codes : Text → Text → Bool
same_codes [] [] = true
same_codes [] (y ∷ ys) = false
same_codes (x ∷ xs) [] = false
same_codes (x ∷ xs) (y ∷ ys) = eqb x y && same_codes xs ys

pub same_codes-eq : (xs ys : Text) → same_codes xs ys ≡ true → xs ≡ ys
same_codes-eq [] [] _ = refl
same_codes-eq [] (y ∷ ys) e = ground arith
same_codes-eq (x ∷ xs) [] e = ground arith
same_codes-eq (x ∷ xs) (y ∷ ys) e =
    ap₂ ◌∷◌ (ground (arith, eqb_iff x y)) (same_codes-eq xs ys (ground arith))

pub same_codes_self : (xs : Text) → same_codes xs xs ≡ true
same_codes_self [] = refl
same_codes_self (x ∷ xs) = ground (arith, same_codes_self xs)

instance abbrev pub text_eq : Comparable Text
text_eq = record {
  same = same_codes;
  same_iff = λ x y. (same_codes-eq x y, λ e. rw e (same_codes_self y));
}

-- unicode.IsSpace: the characters with the property White_Space.
abbrev pub is_space : ℕ → Bool
is_space c =
    leb 9 c && leb c 13
    || eqb c 32
    || eqb c 0x85
    || eqb c 0xA0
    || eqb c 0x1680
    || leb 0x2000 c && leb c 0x200A
    || eqb c 0x2028
    || eqb c 0x2029
    || eqb c 0x202F
    || eqb c 0x205F
    || eqb c 0x3000

-- `before, after, found := strings.Cut(text, sep)` for a separator of one character; without it
-- nothing is found and `before` is the whole text.
unfoldable pub cut : ℕ → Text → Text × Text × Bool
cut separator [] = ([], [], false)
cut separator (c ∷ text) =
    let (before, after, found) = cut separator text in
    if eqb c separator then ([], text, true) else (c ∷ before, after, found)

-- strings.HasPrefix
unfoldable pub has_prefix : Text → Text → Bool
has_prefix text [] = true
has_prefix [] (x ∷ beginning) = false
has_prefix (y ∷ text) (x ∷ beginning) = eqb y x && has_prefix text beginning

-- strings.Contains
unfoldable pub contains : Text → Text → Bool
contains [] wanted = has_prefix [] wanted
contains (c ∷ text) wanted = has_prefix (c ∷ text) wanted || contains text wanted

-- strings.TrimSpace: first at the left, then at the right.
unfoldable pub trim_left : Text → Text
trim_left [] = []
trim_left (c ∷ text) = let rest = trim_left text in if is_space c then rest else c ∷ text

unfoldable pub trim_right : Text → Text
trim_right [] = []
trim_right (c ∷ text) =
    let rest = trim_right text in
    elim rest [ [] ↦ if is_space c then [] else c ∷ [] | d ∷ ds ↦ c ∷ d ∷ ds ]

unfoldable pub trim_space : Text → Text
trim_space text = trim_right (trim_left text)

-- A test for a character that a text does not have.
pub without :
    (separator : ℕ) (text : Text)
    → all (λ c. not (eqb c separator)) text ≡ true
    → All (λ c. c ≢ separator) text
without separator [] _ = tt
without separator (c ∷ text) e =
    (ground (arith, eqb_iff c separator), without separator text (ground arith))

-- The cut at a separator that stands behind a text without one.
pub cut-append :
    (separator : ℕ) (before after : Text)
    → All (λ c. c ≢ separator) before
    → cut separator (before ++ separator ∷ after) ≡ (before, after, true)
unfolding cut
cut-append separator [] after _ = ground arith
cut-append separator (c ∷ before) after (other, others) =
    ground (arith, cut-append separator before after others)
