-- ===== src/Base/Equality.antt =====
-- What Go calls comparable: a type with an equality test, at numbers and texts.
use Prim.Native.Nat.{ℕ}
use Prim.Native.String.{String}
use mathlib.Core.Path.{◌≡◌, refl}
use mathlib.Core.Logic.{◌↔◌}
use mathlib.Core.Bool.{Bool, true}
use text.Mathlib.Text.{◌==◌ as same_text}
use text.Mathlib.TextEquality.{eq_iff as same_text_iff}
use braunrate.Base.Tests.{eqb, eqb_iff}

-- The test says yes exactly on equal values.
pub record Comparable {ℓ} (K : Type ℓ) : Type ℓ where
  pub same : K → K → Bool
  pub same_iff : (x y : K) → (same x y ≡ true) ↔ (x ≡ y)

instance abbrev pub ℕ_eq : Comparable ℕ
ℕ_eq = record { same = eqb; same_iff = eqb_iff }

instance abbrev pub string_eq : Comparable String
string_eq = record { same = same_text; same_iff = same_text_iff }

module _ {ℓ} {K : Type ℓ} ⦃e : Comparable K⦄ where
  infix 50 ◌==◌
  abbrev pub ◌==◌ : K → K → Bool
  x == y = e.same x y

  pub eq_iff : (x y : K) → ((x == y) ≡ true) ↔ (x ≡ y)
  eq_iff x y = e.same_iff x y

  pub eq_refl : (x : K) → (x == x) ≡ true
  eq_refl x = (eq_iff x x).1 refl
