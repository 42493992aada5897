-- ===== src/Base/Decimal.antt =====
-- Python's `decimal.Decimal`: a signed coefficient over a power of ten. The operations are exact:
-- the default context rounds only results of more than 28 digits. Two decimals with the same
-- value may differ in their digits ("1.0" and "1.00"), as in Python, so statements compare values.
pub mod Order
pub mod Division
pub mod Quotient
pub mod Fitting
use Prim.Native.Nat.{ℕ, ◌+◌, ◌*◌, ◌/◌, ◌^◌, ◌≤◌, ◌<◌}
use mathlib.Core.Bool.{Bool}
use mathlib.Core.List.{List, [], ◌∷◌}
use bazarabot.Base.Tests.{ltb, leb, if◌then◌else◌}
use bazarabot.Base.Int.{ℤ, pos, pos_part, neg_part, sub_ℕ, ◌*ℤ◌}

pub record Decimal : Type 0 where
  pub coefficient : ℤ
  pub places : ℕ

-- The positive and the negative part of the coefficient, and the power of ten below it.
abbrev pub up : Decimal → ℕ
up a = pos_part a.coefficient

abbrev pub down : Decimal → ℕ
down a = neg_part a.coefficient

abbrev pub unit : Decimal → ℕ
unit a = 10 ^ a.places

-- `Decimal(n)` of an int.
abbrev pub of_int : ℤ → Decimal
of_int n = record { coefficient = n; places = 0 }

-- A literal such as `Decimal("0.01")`: the digits and the number of them behind the point.
abbrev pub literal : ℕ → ℕ → Decimal
literal digits places = record { coefficient = pos digits; places = places }

unfoldable pub add : Decimal → Decimal → Decimal
add a b = record {
  coefficient = sub_ℕ (up a * unit b + up b * unit a) (down a * unit b + down b * unit a);
  places = a.places + b.places;
}

unfoldable pub sub : Decimal → Decimal → Decimal
sub a b = record {
  coefficient = sub_ℕ (up a * unit b + down b * unit a) (down a * unit b + up b * unit a);
  places = a.places + b.places;
}

unfoldable pub mul : Decimal → Decimal → Decimal
mul a b = record { coefficient = a.coefficient *ℤ b.coefficient; places = a.places + b.places }

-- Division by `Decimal("100")` moves the point.
abbrev pub div_hundred : Decimal → Decimal
div_hundred a = record { coefficient = a.coefficient; places = a.places + 2 }

-- `a < b`, `a <= b`
unfoldable pub ltb_dec : Decimal → Decimal → Bool
ltb_dec a b = ltb (up a * unit b + down b * unit a) (up b * unit a + down a * unit b)

unfoldable pub leb_dec : Decimal → Decimal → Bool
leb_dec a b = leb (up a * unit b + down b * unit a) (up b * unit a + down a * unit b)

-- `min(a, b)`: the first of two equal values.
abbrev pub min_dec : Decimal → Decimal → Decimal
min_dec a b = if ltb_dec b a then b else a

-- `int(a // b)`: the quotient truncated towards zero. (Division by zero raises in Python; the
-- callers test for it.)
unfoldable pub floor_div : Decimal → Decimal → ℤ
floor_div a b =
    sub_ℕ (up a * unit b / (up b * unit a) + down a * unit b / (down b * unit a))
      (up a * unit b / (down b * unit a) + down a * unit b / (up b * unit a))

-- Python's `sum(xs, Decimal(0))`
abbrev pub sum_from : Decimal → List Decimal → Decimal
sum_from acc [] = acc
sum_from acc (x ∷ xs) = sum_from (add acc x) xs

abbrev pub sum : List Decimal → Decimal
sum = sum_from (of_int (pos 0))

-- The order and equality of values, as types.
unfoldable pub Le : Decimal → Decimal → Type 0
Le a b = up a * unit b + down b * unit a ≤ up b * unit a + down a * unit b

unfoldable pub Lt : Decimal → Decimal → Type 0
Lt a b = up a * unit b + down b * unit a < up b * unit a + down a * unit b
