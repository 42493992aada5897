-- ===== src/Risk/Sizing.antt =====
-- zarabot/risk/sizing.py: whole lots, always rounded down.
pub mod Bounds
use bazarabot.Base.{Bool, if◌then◌else◌}
use bazarabot.Base.Int.{ℤ, pos}
use bazarabot.Base.Decimal.{
  Decimal, of_int, literal, sub, mul, div_hundred, ltb_dec, leb_dec, min_dec, floor_div,
}
use bazarabot.Models.{Instrument}

abbrev pub hundred : Decimal
hundred = literal 100 0

unfoldable pub position_budget : Decimal → Decimal → Decimal
position_budget allocated size_pct = div_hundred (mul allocated size_pct)

-- The summed cost of the portfolio may not pass the allocated capital.
abbrev pub headroom : Decimal → Decimal → Decimal
headroom allocated open_cost = sub allocated open_cost

-- The cash less the reserve.
abbrev pub spendable : Decimal → Decimal → Decimal
spendable cash reserve_pct = div_hundred (mul cash (sub hundred reserve_pct))

abbrev pub lot_cost : Instrument → Decimal → Decimal
lot_cost instrument price = mul (of_int instrument.lot) price

-- The smallest of the three bounds.
abbrev pub affordable : Decimal → Decimal → Decimal → Decimal → Decimal → Decimal
affordable allocated cash size_pct open_cost reserve_pct =
    min_dec (min_dec (position_budget allocated size_pct) (headroom allocated open_cost))
      (spendable cash reserve_pct)

-- The body below the three bounds: no lot where one costs nothing or too much.
unfoldable pub whole_lots : Decimal → Decimal → ℤ
whole_lots cost money =
    if leb_dec cost (of_int (pos 0))
    then pos 0
    else if ltb_dec money cost
    then pos 0
    else floor_div money cost

unfoldable pub size_position :
    Decimal → Instrument → Decimal → Decimal → Decimal → Decimal → Decimal → ℤ
unfolding whole_lots
size_position price instrument allocated cash size_pct open_cost reserve_pct =
    whole_lots (lot_cost instrument price)
      (affordable allocated cash size_pct open_cost reserve_pct)
