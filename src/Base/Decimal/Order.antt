-- ===== src/Base/Decimal/Order.antt =====
-- Decimals form an ordered ring under the exact operations.
use Prim.Native.Nat.{ℕ, zero, suc, ◌+◌, ◌*◌, ◌^◌, ◌≤◌, ◌<◌}
use mathlib.Core.Path.{◌≡◌, sym, ap, ◌∙◌}
use mathlib.Core.Bool.{true, false}
use native.Mathlib.Omega.{arith}
use native.Mathlib.Nat.{
  add-zero, mul-one, pow-suc, mul_assoc, one-le-pow, le_of_mul-le-mul_right, mul-le-mul_right,
  lt_of_mul-lt-mul_right, mul-lt-mul_of_pos_right,
}
use mathlib.Core.Logic.{inl, inr}
use bazarabot.Base.Tests.{Bool-cases}
use bazarabot.Base.Int.{pos, pos_part, neg_part, sub_ℕ}
use bazarabot.Base.Decimal.{
  of_int, Decimal, up, down, unit, add, sub, ltb_dec, leb_dec, min_dec, Le, Lt,
}

pub pow-add : (m n : ℕ) → 10 ^ (m + n) ≡ 10 ^ m * 10 ^ n
pow-add m zero = rw (add-zero, mul-one)
pow-add m (suc n) =
    ap (λ (k : ℕ). 10 ^ k) (omega arith)
    ∙ pow-suc 10 (m + n)
    ∙ ap (λ (t : ℕ). t * 10) (pow-add m n)
    ∙ mul_assoc (10 ^ m) (10 ^ n) 10
    ∙ ap (λ (t : ℕ). 10 ^ m * t) (sym (pow-suc 10 n))

pub unit-pos : (a : Decimal) → 0 < unit a
unit-pos a = one-le-pow a.places 10 (omega arith)

pub Le_refl : (a : Decimal) → Le a a
unfolding Le
Le_refl a = omega arith

pub Le_of_Lt : (a b : Decimal) → Lt a b → Le a b
unfolding Le Lt
Le_of_Lt a b h = omega arith

pub leb→Le : (a b : Decimal) → leb_dec a b ≡ true → Le a b
unfolding leb_dec Le
leb→Le a b h = ground arith

pub ltb→Lt : (a b : Decimal) → ltb_dec a b ≡ true → Lt a b
unfolding ltb_dec Lt
ltb→Lt a b h = ground arith

pub ltb→Le : (a b : Decimal) → ltb_dec a b ≡ false → Le b a
unfolding ltb_dec Le
ltb→Le a b h = ground arith

pub leb→Lt : (a b : Decimal) → leb_dec a b ≡ false → Lt b a
unfolding leb_dec Lt
leb→Lt a b h = ground arith

sub_ℕ_parts : (x y : ℕ) → pos_part (sub_ℕ x y) + y ≡ neg_part (sub_ℕ x y) + x
sub_ℕ_parts x y = ground arith

-- A common unit can be taken out of the middle.
Le_trans_parts :
    (a a' b b' c c' A B C : ℕ)
    → 0 < B
    → a * B + b' * A ≤ b * A + a' * B
    → b * C + c' * B ≤ c * B + b' * C
    → a * C + c' * A ≤ c * A + a' * C
Le_trans_parts a a' b b' c c' A B C p h k =
    le_of_mul-le-mul_right (omega (arith, mul-le-mul_right C h, mul-le-mul_right A k)) p

pub Le_trans : (a b c : Decimal) → Le a b → Le b c → Le a c
unfolding Le
Le_trans a b c h k =
    Le_trans_parts (up a) (down a) (up b) (down b) (up c) (down c) (unit a) (unit b) (unit c)
      (unit-pos b) h k

Lt_trans_parts :
    (a a' b b' c c' A B C : ℕ)
    → 0 < B
    → 0 < C
    → a * B + b' * A < b * A + a' * B
    → b * C + c' * B ≤ c * B + b' * C
    → a * C + c' * A < c * A + a' * C
Lt_trans_parts a a' b b' c c' A B C p q h k =
    lt_of_mul-lt-mul_right B (omega (arith, mul-lt-mul_of_pos_right h q, mul-le-mul_right A k))

pub Lt_of_Lt_Le : (a b c : Decimal) → Lt a b → Le b c → Lt a c
unfolding Le Lt
Lt_of_Lt_Le a b c h k =
    Lt_trans_parts (up a) (down a) (up b) (down b) (up c) (down c) (unit a) (unit b) (unit c)
      (unit-pos b) (unit-pos c) h k

-- The parts of a sum and of a difference, over the product of the units.
pub add_parts :
    (a b : Decimal)
    → up (add a b) + (down a * unit b + down b * unit a)
      ≡ down (add a b) + (up a * unit b + up b * unit a)
unfolding add
add_parts a b = sub_ℕ_parts _ _

pub sub_parts :
    (a b : Decimal)
    → up (sub a b) + (down a * unit b + up b * unit a)
      ≡ down (sub a b) + (up a * unit b + down b * unit a)
unfolding sub
sub_parts a b = sub_ℕ_parts _ _

pub unit-add : (a b : Decimal) → unit (add a b) ≡ unit a * unit b
unfolding add
unit-add a b = pow-add a.places b.places

pub unit-sub : (a b : Decimal) → unit (sub a b) ≡ unit a * unit b
unfolding sub
unit-sub a b = pow-add a.places b.places

move_parts :
    (a a' b b' c c' s s' t t' A B C : ℕ)
    → s + (a' * B + b * A) ≡ s' + (a * B + b' * A)
    → t + (b' * C + c' * B) ≡ t' + (b * C + c * B)
    → c * (A * B) + s' * C ≤ s * C + c' * (A * B)
    → t * A + a' * (B * C) ≤ a * (B * C) + t' * A
move_parts a a' b b' c c' s s' t t' A B C p q h =
    omega (arith, ap (λ (x : ℕ). x * C) p, ap (λ (x : ℕ). x * A) q)

-- What fits into the difference fits beside what was taken away.
pub Le_sub→Le_add : (a b c : Decimal) → Le c (sub a b) → Le (add b c) a
unfolding Le
Le_sub→Le_add a b c h = rw (unit-add b c) (
    move_parts (up a) (down a) (up b) (down b) (up c) (down c) (up (sub a b)) (down (sub a b))
      (up (add b c)) (down (add b c)) (unit a) (unit b) (unit c) (sub_parts a b) (add_parts b c)
      (rw (unit-sub a b) at h))

-- The smaller of two values is below both, and is one of them.
pub Le-min_dec_left : (a b : Decimal) → Le (min_dec a b) a
Le-min_dec_left a b = elim (Bool-cases (ltb_dec b a)) [
  | inl e ↦ rw e (Le_of_Lt b a (ltb→Lt b a e))
  | inr e ↦ rw e (Le_refl a)
]

pub Le-min_dec_right : (a b : Decimal) → Le (min_dec a b) b
Le-min_dec_right a b = elim (Bool-cases (ltb_dec b a)) [
  | inl e ↦ rw e (Le_refl b)
  | inr e ↦ rw e (ltb→Le b a e)
]

pub Le-min_dec : (x a b : Decimal) → Le x a → Le x b → Le x (min_dec a b)
Le-min_dec x a b h k = elim (Bool-cases (ltb_dec b a)) [ inl e ↦ rw e k | inr e ↦ rw e h ]

pub not_Le_of_Lt : (a b : Decimal) → Lt a b → Le b a → ⊥
unfolding Lt Le
not_Le_of_Lt a b h k = omega arith

Le_add_parts :
    (b b' c c' d d' s s' t t' B C D : ℕ)
    → s + (b' * C + c' * B) ≡ s' + (b * C + c * B)
    → t + (b' * D + d' * B) ≡ t' + (b * D + d * B)
    → c * D + d' * C ≤ d * C + c' * D
    → s * (B * D) + t' * (B * C) ≤ t * (B * C) + s' * (B * D)
Le_add_parts b b' c c' d d' s s' t t' B C D p q h = omega (
  arith,
  ap (λ (x : ℕ). x * (B * D)) p,
  ap (λ (x : ℕ). x * (B * C)) q,
  mul-le-mul_right (B * B) h,
)

-- Adding to both sides.
pub Le_add : (b c d : Decimal) → Le c d → Le (add b c) (add b d)
unfolding Le
Le_add b c d h =
    rw (unit-add b c, unit-add b d)
      (Le_add_parts (up b) (down b) (up c) (down c) (up d) (down d) (up (add b c)) (down (add b c))
        (up (add b d)) (down (add b d)) (unit b) (unit c) (unit d) (add_parts b c) (add_parts b d)
        h)

-- What is not above the whole leaves nothing negative.
pub Le-sub_zero : (a b : Decimal) → Le b a → Le (of_int (pos 0)) (sub a b)
unfolding Le
Le-sub_zero a b h = omega (arith, h, sub_parts a b)

pub Lt→leb : (a b : Decimal) → Lt a b → leb_dec b a ≡ false
unfolding Lt leb_dec
Lt→leb a b h = ground arith
