-- ===== src/Base/Decimal/Quotient.antt =====
-- Python's `a / b` on decimals: 28 digits, the last rounded half to even. A quotient of 10 ^ 28 or
-- more keeps all digits before the point. The callers test for a divisor of zero.
use Prim.Native.Nat.{ℕ, zero, suc, ◌+◌, ◌*◌, ◌/◌, ◌%◌, ◌^◌}
use mathlib.Core.Bool.{true, false}
use bazarabot.Base.Tests.{ltb, if◌then◌else◌}
use bazarabot.Base.Int.{ℤ, pos, sub_ℕ}
use bazarabot.Base.Decimal.{Decimal, up, down, unit}

abbrev pub digits_limit : ℕ
digits_limit = 10_000_000_000_000_000_000_000_000_000

-- The places behind the point for which the quotient has at most 28 digits.
unfoldable pub fitting_places : ℕ → ℕ → ℕ → ℕ
fitting_places zero num den = zero
fitting_places (suc fuel) num den = elim (ltb (num * 10) (den * digits_limit)) [
  | true ↦ suc (fitting_places fuel (num * 10) den)
  | false ↦ zero
]

-- Half to even.
unfoldable pub round_div : ℕ → ℕ → ℕ
round_div num den =
    let q = num / den in
    let twice = 2 * (num % den) in
    if ltb twice den then q else if ltb den twice then suc q else q + q % 2

-- `sign_up` and `sign_down` are the two parts of the sign times the magnitude.
abbrev pub signed : ℕ → ℕ → ℕ → ℤ
signed rounded plus minus = if ltb minus plus then pos rounded else sub_ℕ 0 rounded

unfoldable pub quotient : Decimal → Decimal → Decimal
unfolding fitting_places round_div
quotient a b =
    let num = (up a + down a) * unit b in
    let den = (up b + down b) * unit a in
    let places : ℕ = (elim (ltb 0 num) [ true ↦ fitting_places (28 + den) num den | false ↦ 0 ]) in
    let rounded = round_div (num * 10 ^ places) den in
    record {
      coefficient = signed rounded (up a * up b + down a * down b) (up a * down b + down a * up b);
      places = places;
    }
