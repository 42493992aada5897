-- ===== src/Base/Decimal/Fitting.antt =====
-- The fuel of the quotient is enough: the places it finds are the greatest that fit.
use Prim.Native.Nat.{ℕ, zero, suc, ◌+◌, ◌*◌, ◌^◌, ◌≤◌, ◌<◌}
use mathlib.Core.Path.{◌≡◌, refl, ap}
use mathlib.Core.Bool.{Bool, true, false}
use native.Mathlib.Omega.{arith}
use native.Mathlib.Nat.{pow-suc, one-le-pow, mul-le-mul_right}
use bazarabot.Base.Tests.{ltb, ltb→le}
use bazarabot.Base.Decimal.Order.{pow-add}
use bazarabot.Base.Decimal.Quotient.{fitting_places, digits_limit}

le_pow : (n : ℕ) → n ≤ 10 ^ n
le_pow zero = omega arith
le_pow (suc n) = rw (pow-suc 10 n) (omega (arith, le_pow n, one-le-pow n 10 (omega arith)))

-- One more place would not fit.
stops :
    (fuel num den : ℕ)
    → den * digits_limit ≤ num * 10 ^ fuel * 10
    → den * digits_limit ≤ num * 10 ^ fitting_places fuel num den * 10
unfolding fitting_places
stops zero num den h = h
stops (suc fuel) num den h =
    step (ltb (num * 10) (den * digits_limit)) refl
      (stops fuel (num * 10) den (omega (arith, h, ap (λ (k : ℕ). num * k) (pow-suc 10 fuel))))
  where
    step :
        (b : Bool)
        → ltb (num * 10) (den * digits_limit) ≡ b
        → den * digits_limit ≤ num * 10 * 10 ^ fitting_places fuel (num * 10) den * 10
        → den * digits_limit
          ≤ num * 10 ^ (elim b [ true ↦ suc (fitting_places fuel (num * 10) den) | false ↦ 0 ]) * 10
    step true e g =
        omega (arith, g, ap (λ (k : ℕ). num * k) (pow-suc 10 (fitting_places fuel (num * 10) den)))
    step false e g = omega (arith, ltb→le (num * 10) (den * digits_limit) e)

-- With 28 + den steps of fuel, one more place than those found would not fit.
fitting_places_greatest :
    (num den : ℕ) → 0 < num → den * digits_limit ≤ num * 10 ^ fitting_places (28 + den) num den * 10
fitting_places_greatest num den p = stops (28 + den) num den (enough (le_pow den))
  where
    enough : den ≤ 10 ^ den → den * digits_limit ≤ num * 10 ^ (28 + den) * 10
    enough h = omega (arith, h, mul-le-mul_right (10 ^ (28 + den)) p, pow-add 28 den)
