-- ===== src/Risk/Examples.antt =====
-- Sizing and the gate on concrete portfolios.
use bazarabot.Base.{ltb, ◌&&◌, ℕ, true, false, ◌≡◌, ◌↔◌, refl, some, arith, ◌≤◌, ◌<◌, [], ◌∷◌}
use bazarabot.Base.Int.{pos, ◌*ℤ◌}
use bazarabot.Base.Decimal.{Le, Lt, mul, sub, ltb_dec, leb_dec, floor_div}
use bazarabot.Base.Decimal.Division.{zero_dec}
use bazarabot.Models.{RejectionReason}
use bazarabot.Risk.Sizing.{size_position, lot_cost, position_budget}
use bazarabot.Risk.Sizing.Bounds.{IsAffordable, size_position_greatest}
use bazarabot.Risk.Gate.{check, open_cost}
use bazarabot.Risk.Gate.Decision.{rank, applies, check_first_reason, check_approved_iff}
use bazarabot.Risk.Gate.Exposure.{check_keeps_exposure}
use bazarabot.Samples.{money, share, settings, buy_signal, portfolio, holding}

lot_costs : Lt zero_dec (lot_cost share (money 100))
unfolding Lt mul ◌*ℤ◌
lot_costs = omega arith

size_position_greatest_example :
    (n : ℕ) × (size_position
        (money 100)
        share
        (money 10_000)
        (money 10_000)
        (money 50)
        (money 0)
        (money 1)
      ≡ pos n)
    × ((m : ℕ)
        → 0 < m
        → (m ≤ n)
          ↔ IsAffordable
              (money 100)
              share
              (money 10_000)
              (money 10_000)
              (money 50)
              (money 0)
              (money 1)
              m)
size_position_greatest_example =
    size_position_greatest (money 100) share (money 10_000) (money 10_000) (money 50) (money 0)
      (money 1) lot_costs

-- The approved size of the example: half of the capital buys five lots.
five_lots : (check buy_signal portfolio share false true false settings).lots ≡ some (pos 5)
unfolding check size_position ltb_dec mul ◌*ℤ◌ sub leb_dec position_budget floor_div
five_lots = refl

check_keeps_exposure_example :
    Le (open_cost (record portfolio { positions = holding ∷ [] })) settings.allocated_capital
check_keeps_exposure_example =
    check_keeps_exposure buy_signal portfolio share false true false settings (pos 5) holding
      five_lots refl refl refl

in_cooldown : (check buy_signal portfolio share true true false settings).approved ≡ false
unfolding check
in_cooldown = refl

check_first_reason_example :
    (r : RejectionReason) × ((check buy_signal portfolio share true true false settings).reason
      ≡ some r)
    × (applies buy_signal portfolio share true true false settings r ≡ true)
    × ((q : RejectionReason)
        → (ltb (rank q) (rank r) && applies buy_signal portfolio share true true false settings q)
          ≡ false)
check_first_reason_example =
    check_first_reason buy_signal portfolio share true true false settings in_cooldown

check_approved_iff_example :
    ((check buy_signal portfolio share false true false settings).approved ≡ true) ↔ (
      (r : RejectionReason)
      → applies buy_signal portfolio share false true false settings r ≡ false)
check_approved_iff_example = check_approved_iff buy_signal portfolio share false true false settings
