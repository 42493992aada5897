-- ===== src/Risk/Sizing/Bounds.antt =====
-- `size_position` of zarabot/risk/sizing.py against its three bounds.
use bazarabot.Base.{ℕ, suc, ◌≤◌, ◌<◌, ◌≡◌, refl, ◌⊎◌, inl, inr, ◌↔◌, arith, Bool-cases, tests, ltb}
use bazarabot.Base.Int.{ℤ, pos}
use bazarabot.Base.Decimal.{Decimal, of_int, ltb_dec, leb_dec, min_dec, Le, Lt}
use bazarabot.Base.Decimal.Order.{
  leb→Lt, ltb→Le, Le_trans, Lt_of_Lt_Le, Le-min_dec_left, Le-min_dec_right, leb→Le, ltb→Lt,
  Le-min_dec, not_Le_of_Lt,
}
use bazarabot.Base.Decimal.Division.{zero_dec, times, floor_div_lem, times_mono, Le-times_one}
use bazarabot.Models.{Instrument}
use bazarabot.Risk.Sizing.{
  position_budget, headroom, spendable, lot_cost, affordable, whole_lots, size_position,
}

-- What `lots` lots at `cost` each mean for `money`: none where no lot can be bought, else the
-- greatest number that fits.
pub data Fits (cost money : Decimal) : ℤ → Type 0 where
  nothing : Le cost zero_dec ⊎ Lt money cost → Fits cost money (pos 0)
  greatest :
      (n : ℕ)
      → 0 < n
      → Le (times n cost) money
      → Lt money (times (suc n) cost)
      → Fits cost money (pos n)

whole_lots-Fits : (cost money : Decimal) → Fits cost money (whole_lots cost money)
unfolding whole_lots
whole_lots-Fits cost money = elim (Bool-cases (leb_dec cost (of_int (pos 0)))) [
  | inl free ↦ rw free (Fits.nothing (inl (leb→Le cost zero_dec free)))
  | inr costs ↦ rw costs (elim (Bool-cases (ltb_dec money cost)) [
    | inl short ↦ rw short (Fits.nothing (inr (ltb→Lt money cost short)))
    | inr enough ↦
        let (n, e, p, fits, tight) =
          floor_div_lem money cost (leb→Lt cost zero_dec costs) (ltb→Le money cost enough) in
        rw (enough, e) (Fits.greatest n p fits tight)
  ])
]

-- With a cost above zero, `m` lots fit exactly if `m` is at most the number found.
whole_lots_iff :
    (cost money : Decimal)
    → Lt zero_dec cost
    → (n : ℕ) × (whole_lots cost money ≡ pos n)
      × ((m : ℕ) → 0 < m → (m ≤ n) ↔ Le (times m cost) money)
whole_lots_iff cost money h = from_Fits (whole_lots cost money) (whole_lots-Fits cost money)
  where
    too_many : (n m : ℕ) → Lt money (times n cost) → n ≤ m → Le (times m cost) money → ⊥
    too_many n m t le k =
        not_Le_of_Lt money (times m cost)
          (Lt_of_Lt_Le money (times n cost) (times m cost) t (times_mono n m cost h le)) k

    from_Fits :
        (z : ℤ)
        → Fits cost money z
        → (n : ℕ) × (z ≡ pos n) × ((m : ℕ) → 0 < m → (m ≤ n) ↔ Le (times m cost) money)
    from_Fits _ (Fits.nothing (inl free)) = absurd (not_Le_of_Lt zero_dec cost h free)
    from_Fits _ (Fits.nothing (inr short)) = (
      0,
      refl,
      λ m p. (
        λ le. absurd (omega arith),
        λ k. absurd (
            too_many 1 m (Lt_of_Lt_Le money cost (times 1 cost) short (Le-times_one cost))
              (omega arith) k),
      ),
    )
    from_Fits _ (Fits.greatest n p fits tight) = (
      n,
      refl,
      λ m q. (
        λ le. Le_trans (times m cost) (times n cost) money (times_mono m n cost h le) fits,
        λ k. elim (Bool-cases (ltb n m)) [
          | inl more ↦ absurd (too_many (suc n) m tight (omega tests) k)
          | inr fewer ↦ omega tests
        ],
      ),
    )

module _ (price : Decimal) (instrument : Instrument)
    (allocated cash size_pct open_cost reserve_pct : Decimal) where
  -- `m` lots stay within the budget of a position, the capital that is left, and the cash less the
  -- reserve.
  abbrev pub IsAffordable : ℕ → Type 0
  IsAffordable m =
      Le (times m (lot_cost instrument price)) (position_budget allocated size_pct)
      × Le (times m (lot_cost instrument price)) (headroom allocated open_cost)
      × Le (times m (lot_cost instrument price)) (spendable cash reserve_pct)

  IsAffordable-iff :
      (m : ℕ)
      → Le
          (times m (lot_cost instrument price))
          (affordable allocated cash size_pct open_cost reserve_pct)
        ↔ IsAffordable m
  IsAffordable-iff m =
      let x : Decimal = times m (lot_cost instrument price) in
      let budget : Decimal = position_budget allocated size_pct in
      let room : Decimal = headroom allocated open_cost in
      let money : Decimal = spendable cash reserve_pct in
      (
        λ h.
            let both =
              Le_trans x (min_dec (min_dec budget room) money) (min_dec budget room) h
                (Le-min_dec_left (min_dec budget room) money) in
            (
              Le_trans x (min_dec budget room) budget both (Le-min_dec_left budget room),
              Le_trans x (min_dec budget room) room both (Le-min_dec_right budget room),
              Le_trans x (min_dec (min_dec budget room) money) money h
                  (Le-min_dec_right (min_dec budget room) money),
            ),
        λ h. Le-min_dec x (min_dec budget room) money (Le-min_dec x budget room h.0 h.1) h.2,
      )

  -- Where a lot costs more than nothing, the size is the greatest number of whole lots whose cost
  -- stays within all three bounds: a positive number of lots is affordable exactly if it is at
  -- most the size.
  pub size_position_greatest :
      Lt zero_dec (lot_cost instrument price)
      → (n : ℕ) × (size_position price instrument allocated cash size_pct open_cost reserve_pct
          ≡ pos n)
        × ((m : ℕ) → 0 < m → (m ≤ n) ↔ IsAffordable m)
  unfolding size_position
  size_position_greatest h =
      let (n, e, iff) =
        whole_lots_iff (lot_cost instrument price)
          (affordable allocated cash size_pct open_cost reserve_pct) h in
      (
        n,
        e,
        λ m p. (
          λ le. (IsAffordable-iff m).0 ((iff m p).0 le),
          λ a. (iff m p).1 ((IsAffordable-iff m).1 a),
        ),
      )
