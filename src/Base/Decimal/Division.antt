-- ===== src/Base/Decimal/Division.antt =====
-- The truncated quotient of two positive decimals, and multiples by an int.
use Prim.Native.Nat.{ℕ, zero, suc, ◌+◌, ◌*◌, ◌/◌, ◌^◌, ◌≤◌, ◌<◌}
use mathlib.Core.Path.{◌≡◌, refl, ap}
use native.Mathlib.Omega.{arith}
use native.Mathlib.Nat.{
  mul-le-mul_right, zero-mul, div-zero, zero-div, zero-add, mul-pos, le-div_iff_mul-le,
  div-lt_iff_lt-mul,
}
use bazarabot.Base.Int.{ℤ, pos, negsuc, pos_part, neg_part, sub_ℕ, *ℤ_parts}
use bazarabot.Base.Decimal.{Decimal, up, down, unit, mul, of_int, floor_div, Le, Lt}
use bazarabot.Base.Decimal.Order.{unit-pos}

abbrev pub zero_dec : Decimal
zero_dec = of_int (pos 0)

-- A decimal above zero has no negative part.
pub Lt_zero_parts : (b : Decimal) → Lt zero_dec b → (down b ≡ 0) × (0 < up b)
unfolding Lt
Lt_zero_parts b h = parts b.coefficient (omega arith)
  where
    parts : (z : ℤ) → neg_part z < pos_part z → (neg_part z ≡ 0) × (0 < pos_part z)
    parts (pos n) p = (refl, p)
    parts (negsuc n) p = absurd (omega arith)

big_parts :
    (z w : ℤ) (A B : ℕ)
    → neg_part w ≡ 0
    → 0 < pos_part w * A
    → pos_part w * A + neg_part z * B ≤ pos_part z * B + neg_part w * A
    → (neg_part z ≡ 0) × (0 < pos_part z)
big_parts (pos zero) w A B e p q = absurd (omega (arith, ap (λ (t : ℕ). t * A) e))
big_parts (pos (suc n)) w A B e p q = (refl, omega arith)
big_parts (negsuc n) w A B e p q = absurd (omega (arith, ap (λ (t : ℕ). t * A) e))

-- Nor has a decimal that is at least as large.
pub Le_Lt_zero_parts : (a b : Decimal) → Lt zero_dec b → Le b a → (down a ≡ 0) × (0 < up a)
unfolding Le
Le_Lt_zero_parts a b h k =
    let (e, p) = Lt_zero_parts b h in
    big_parts a.coefficient b.coefficient (unit a) (unit b) e (mul-pos p (unit-pos a)) k

-- The quotient in a division of decimals without negative parts.
abbrev pub quotient : Decimal → Decimal → ℕ
quotient a b = up a * unit b / (up b * unit a)

pub floor_div-eq-quotient :
    (a b : Decimal) → down a ≡ 0 → down b ≡ 0 → floor_div a b ≡ pos (quotient a b)
unfolding floor_div
floor_div-eq-quotient a b e f = rw (e, f) (simp (zero-mul, div-zero, zero-div) (sub_zero _))
  where
    sub_zero : (n : ℕ) → sub_ℕ (n + 0) (0 + 0) ≡ pos n
    sub_zero n = ground arith

-- `n` times a decimal.
abbrev pub times : ℕ → Decimal → Decimal
times n b = mul (of_int (pos n)) b

pub times_parts : (n : ℕ) (b : Decimal) → up (times n b) + n * down b ≡ down (times n b) + n * up b
unfolding mul
times_parts n b = omega (arith, *ℤ_parts (pos n) b.coefficient)

pub unit-times : (n : ℕ) (b : Decimal) → unit (times n b) ≡ unit b
unfolding mul
unit-times n b = ap (λ (k : ℕ). 10 ^ k) (zero-add b.places)

times_unit :
    (n : ℕ) (b : Decimal) (A : ℕ)
    → down b ≡ 0
    → up (times n b) * A ≡ down (times n b) * A + n * (up b * A)
times_unit n b A f =
    omega (arith, ap (λ (t : ℕ). t * A) (times_parts n b), ap (λ (t : ℕ). n * t * A) f)

-- The quotient's multiple of the divisor fits, and one more does not.
pub Le-times-quotient :
    (n : ℕ) (a b : Decimal)
    → down a ≡ 0
    → down b ≡ 0
    → 0 < up b
    → n ≤ quotient a b
    → Le (times n b) a
unfolding Le
Le-times-quotient n a b e f p h = rw (unit-times n b) (
    omega (
      arith,
      times_unit n b (unit a) f,
      ap (λ (t : ℕ). t * unit b) e,
      (le-div_iff_mul-le (mul-pos p (unit-pos a))).0 h,
    ))

pub Lt-times-quotient :
    (n : ℕ) (a b : Decimal)
    → down a ≡ 0
    → down b ≡ 0
    → 0 < up b
    → quotient a b < n
    → Lt a (times n b)
unfolding Lt
Lt-times-quotient n a b e f p h = rw (unit-times n b) (
    omega (
      arith,
      times_unit n b (unit a) f,
      ap (λ (t : ℕ). t * unit b) e,
      (div-lt_iff_lt-mul (mul-pos p (unit-pos a))).0 h,
    ))

-- Truncated division of a decimal by a positive one that it reaches: a positive int, the greatest
-- whose multiple of the divisor fits.
pub floor_div_lem :
    (a b : Decimal)
    → Lt zero_dec b
    → Le b a
    → (n : ℕ) × (floor_div a b ≡ pos n) × (0 < n) × Le (times n b) a × Lt a (times (suc n) b)
floor_div_lem a b h k =
    let (f, p) = Lt_zero_parts b h in
    let (e, _) = Le_Lt_zero_parts a b h k in
    (
      quotient a b,
      floor_div-eq-quotient a b e f,
      (le-div_iff_mul-le (mul-pos p (unit-pos a))).1 (
          unfold Le in
          omega (arith, k, ap (λ (t : ℕ). t * unit b) e, ap (λ (t : ℕ). t * unit a) f)),
      Le-times-quotient (quotient a b) a b e f p (omega arith),
      Lt-times-quotient (suc (quotient a b)) a b e f p (omega arith),
    )

-- More lots cost at least as much.
times_mono_parts :
    (m n u d p p' q q' B : ℕ)
    → m ≤ n
    → d ≡ 0
    → p + m * d ≡ p' + m * u
    → q + n * d ≡ q' + n * u
    → p * B + q' * B ≤ q * B + p' * B
times_mono_parts m n u d p p' q q' B h e k l = omega (
  arith,
  ap (λ (t : ℕ). t * B) k,
  ap (λ (t : ℕ). t * B) l,
  ap (λ (t : ℕ). m * t * B) e,
  ap (λ (t : ℕ). n * t * B) e,
  mul-le-mul_right B (mul-le-mul_right u h),
)

pub times_mono : (m n : ℕ) (b : Decimal) → Lt zero_dec b → m ≤ n → Le (times m b) (times n b)
unfolding Le
times_mono m n b h k =
    rw (unit-times m b, unit-times n b)
      (times_mono_parts m n (up b) (down b) (up (times m b)) (down (times m b)) (up (times n b))
        (down (times n b)) (unit b) k (Lt_zero_parts b h).0 (times_parts m b) (times_parts n b))

pub Le-times_one : (b : Decimal) → Le b (times 1 b)
unfolding Le
Le-times_one b = rw (unit-times 1 b) (omega (arith, ap (λ (t : ℕ). t * unit b) (times_parts 1 b)))
