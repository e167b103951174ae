-- ===== src/Scenario/Mix/Gcd.antt =====
-- What the divisor of the weights is.
use mathlib.Core.WellFounded.{Acc}
use mathlib.Core.Logic.{dite}
use native.Mathlib.Decide.{dec_lt}
use native.Mathlib.Nat.{div-add-mod, mul_comm, mul_assoc}
use braunrate.Base.{ℕ, ◌+◌, ◌*◌, ◌/◌, ◌%◌, ◌<◌, ◌≡◌, List, [], ◌∷◌, All, arith}
use braunrate.Scenario.Mix.{gcd_loop, lt_wf, greatest_common_divisor, fold_divisor, divisor_of}

abbrev pub Divides : ℕ → ℕ → Type 0
Divides d n = (k : ℕ) × (n ≡ k * d)

Divides-add-mul : (d b r q : ℕ) → Divides d b → Divides d r → Divides d (q * b + r)
Divides-add-mul d b r q (k, e) (l, h) = (q * k + l, rw (e, h) (omega (arith, mul_assoc q k d)))

Divides-trans : (d e n : ℕ) → Divides d e → Divides e n → Divides d n
Divides-trans d e n (k, p) (l, q) = (l * k, rw (q, p) (omega (arith, mul_assoc l k d)))

recombine : (d a b : ℕ) → Divides d b → Divides d (a % b) → Divides d a
recombine d a b h r =
    let (k, e) = Divides-add-mul d b (a % b) (a / b) h r in
    (k, omega (arith, div-add-mod a b, mul_comm b (a / b), e))

gcd_loop-Divides :
    (a b : ℕ) (w : Acc ◌<◌ b) → Divides (gcd_loop a b w) a × Divides (gcd_loop a b w) b
unfolding gcd_loop
gcd_loop-Divides a b (Acc.intro _ smaller) =
    elim (dec_lt 0 b)
      as (λ t.
        let g = dite t (λ h. gcd_loop b (a % b) (smaller (a % b) (omega arith))) (λ _. a) in
        Divides g a × Divides g b) [
          | yes h ↦
              (let (p, q) = gcd_loop-Divides b (a % b) (smaller (a % b) (omega arith)) in
                (recombine _ a b p q, p))
          | no h ↦ ((1, omega arith), (0, omega arith))
        ]

-- Euclid's loop gives a common divisor.
pub greatest_common_divisor-Divides :
    (a b : ℕ) → Divides (greatest_common_divisor a b) a × Divides (greatest_common_divisor a b) b
unfolding greatest_common_divisor
greatest_common_divisor-Divides a b = gcd_loop-Divides a b (lt_wf.apply b)

fold_divisor-Divides :
    (d : ℕ) (ws : List ℕ) → Divides (fold_divisor d ws) d × All (Divides (fold_divisor d ws)) ws
unfolding fold_divisor
fold_divisor-Divides d [] = ((1, omega arith), tt)
fold_divisor-Divides d (w ∷ ws) =
    let (p, q) = greatest_common_divisor-Divides d w in
    let g = greatest_common_divisor d w in
    let (r, s) = fold_divisor-Divides (greatest_common_divisor d w) ws in
    (Divides-trans _ g d r p, (Divides-trans _ g w r q, s))

pub divisor_of-Divides : (ws : List ℕ) → All (Divides (divisor_of ws)) ws
unfolding divisor_of
divisor_of-Divides [] = tt
divisor_of-Divides (w ∷ ws) = fold_divisor-Divides w ws
