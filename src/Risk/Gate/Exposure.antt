-- ===== src/Risk/Gate/Exposure.antt =====
-- An approval of zarabot/risk/gate.py and the cost of the portfolio that it leads to.
use mathlib.Core.List.{map-append}
use mathlib.Core.Path.{subst}
use native.Mathlib.Nat.{add_assoc}
use bazarabot.Base.{
  ℕ, ◌*◌, ◌<◌, ◌≡◌, refl, ap, sym, ◌∙◌, inl, inr, Bool, true, List, [], ◌∷◌, ◌++◌, map, some, arith,
  Bool-cases,
}
use bazarabot.Base.Int.{ℤ, pos, pos_part, neg_part, ◌<ℤ◌, ◌*ℤ◌, *ℤ_parts, eq_of_parts}
use bazarabot.Base.Decimal.{Decimal, of_int, mul, add, leb_dec, sum, sum_from, Le, Lt}
use bazarabot.Base.Decimal.Order.{leb→Lt, Le_sub→Le_add}
use bazarabot.Base.Decimal.Division.{zero_dec, times}
use bazarabot.Models.{Instrument, PortfolioState, Position, Signal}
use bazarabot.Config.{Config}
use bazarabot.Risk.Sizing.{lot_cost, whole_lots, size_position, affordable}
use bazarabot.Risk.Sizing.Bounds.{size_position_greatest}
use bazarabot.Risk.Gate.{position_cost, open_cost, entry_lots, check}

sum_from-append :
    (acc : Decimal) (xs : List Decimal) (x : Decimal)
    → sum_from acc (xs ++ x ∷ []) ≡ add (sum_from acc xs) x
sum_from-append acc [] x = refl
sum_from-append acc (y ∷ ys) x = sum_from-append (add acc y) ys x

-- One more position adds its cost to the portfolio's.
pub open_cost-append :
    (state : PortfolioState) (p : Position)
    → open_cost (record state { positions = state.positions ++ p ∷ [] })
      ≡ add (open_cost state) (position_cost p)
open_cost-append state p =
    ap sum (map-append position_cost state.positions (p ∷ []))
    ∙ sum_from-append (of_int (pos 0)) (map position_cost state.positions) (position_cost p)

*ℤ_assoc : (a b c : ℤ) → a *ℤ b *ℤ c ≡ a *ℤ (b *ℤ c)
*ℤ_assoc a b c = eq_of_parts (a *ℤ b *ℤ c) (a *ℤ (b *ℤ c)) (
    omega (
      arith,
      *ℤ_parts (a *ℤ b) c,
      *ℤ_parts a (b *ℤ c),
      ap (λ (t : ℕ). t * pos_part c) (*ℤ_parts a b),
      ap (λ (t : ℕ). t * neg_part c) (*ℤ_parts a b),
      ap (λ (t : ℕ). pos_part a * t) (*ℤ_parts b c),
      ap (λ (t : ℕ). neg_part a * t) (*ℤ_parts b c),
    ))

-- The cost of a position of `n` lots is `n` times the cost of a lot.
mul_assoc : (a b c : Decimal) → mul (mul a b) c ≡ mul a (mul b c)
unfolding mul
mul_assoc a b c = λ i. record {
  coefficient = *ℤ_assoc a.coefficient b.coefficient c.coefficient i;
  places = add_assoc a.places b.places c.places i;
}

whole_lots_free :
    (cost money : Decimal) → leb_dec cost zero_dec ≡ true → whole_lots cost money ≡ pos 0
unfolding whole_lots
whole_lots_free cost money h = rw h

-- A size above zero is only given where a lot costs something.
size_position_costs :
    (price : Decimal) (instrument : Instrument)
    (allocated cash size_pct spent reserve_pct : Decimal)
    → pos 0 <ℤ size_position price instrument allocated cash size_pct spent reserve_pct
    → Lt zero_dec (lot_cost instrument price)
unfolding size_position
size_position_costs price instrument allocated cash size_pct spent reserve_pct h =
    let cost : Decimal = lot_cost instrument price in
    let money : Decimal = affordable allocated cash size_pct spent reserve_pct in
    elim (Bool-cases (leb_dec cost zero_dec)) [
      | inl free ↦
          absurd (omega (arith, subst (λ z. pos 0 <ℤ z) (whole_lots_free cost money free) h))
      | inr costs ↦ leb→Lt cost zero_dec costs
    ]

module _ (signal : Signal) (state : PortfolioState) (instrument : Instrument)
    (cooldown_active session_open halted : Bool) (config : Config) where
  -- The lots of an approval are those that were sized, and there is at least one.
  pub check_lots :
      (n : ℤ)
      → (check signal state instrument cooldown_active session_open halted config).lots ≡ some n
      → (entry_lots signal state instrument config ≡ n) × (pos 0 <ℤ n)
  unfolding check
  check_lots n h = ground arith

  -- Whatever the portfolio held before, once the approved lots are bought at the signal's price the
  -- summed cost of all positions is at most the allocated capital.
  pub check_keeps_exposure :
      (n : ℤ) (p : Position)
      → (check signal state instrument cooldown_active session_open halted config).lots ≡ some n
      → p.lots ≡ n
      → p.lot_size ≡ instrument.lot
      → p.entry_price ≡ signal.reference_price
      → Le
          (open_cost (record state { positions = state.positions ++ p ∷ [] }))
          config.allocated_capital
  check_keeps_exposure n p h el es ep =
      let cost : Decimal = lot_cost instrument signal.reference_price in
      let spent : Decimal = open_cost state in
      let (e, q) = check_lots n h in
      let (k, ek, iff) =
        size_position_greatest signal.reference_price instrument config.allocated_capital state.cash
          config.position_size_pct spent config.cash_reserve_pct
          (size_position_costs signal.reference_price instrument config.allocated_capital state.cash
            config.position_size_pct spent config.cash_reserve_pct
            (subst (λ z. pos 0 <ℤ z) (sym e) q)) in
      let same : n ≡ pos k = sym e ∙ ek in
      let positive : 0 < k = omega (arith, subst (λ z. pos 0 <ℤ z) same q) in
      let fits = ((iff k positive).0 (omega arith)).1 in
      let cost_eq : position_cost p ≡ times k cost =
        (λ i. mul (mul (of_int ((el ∙ same) i)) (of_int (es i))) (ep i))
        ∙ mul_assoc (of_int (pos k)) (of_int instrument.lot) signal.reference_price in
      subst (λ x. Le x config.allocated_capital)
        (sym (open_cost-append state p ∙ ap (add spent) cost_eq))
        (Le_sub→Le_add config.allocated_capital spent (times k cost) fits)
