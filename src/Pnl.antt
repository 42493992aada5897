-- ===== src/Pnl.antt =====
-- zarabot/pnl.py: realised and unrealised results, and the equity that they make. The last prices
-- come from the broker, which is a parameter.
use bazarabot.Base.{List, [], ◌∷◌, Option, none, some, String}
use bazarabot.Base.Int.{pos, ◌*ℤ◌}
use bazarabot.Base.Decimal.{Decimal, add, sub, mul, of_int}
use bazarabot.Base.Exec.{Result, ok, err, lift, ◌>>=◌}
use bazarabot.Models.{Position}
use bazarabot.Errors.{Error}
use bazarabot.Config.{Config}
use bazarabot.Db.Store.{Call}
use bazarabot.Db.Positions.Queries.{list_open, list_closed}

-- `_units`
abbrev pub units : Position → Decimal
units p = of_int (p.lots *ℤ p.lot_size)

abbrev pub from_prices : Option Decimal → Position → Decimal
from_prices none p = of_int (pos 0)
from_prices (some exit_price) p = mul (sub exit_price p.entry_price) (units p)

unfoldable pub realised : Position → Decimal
realised p = elim p.realised_pnl [ some stored ↦ stored | none ↦ from_prices p.exit_price p ]

unfoldable pub unrealised : Position → Decimal → Decimal
unrealised p price = mul (sub price p.entry_price) (units p)

abbrev pub add_realised : List Position → Decimal → Decimal
add_realised [] total = total
add_realised (p ∷ ps) total = add_realised ps (add total (realised p))

-- The broker's last price by figi; its errors pass through.
abbrev pub Prices : Type 0
Prices = String → Result Error Decimal

abbrev pub add_unrealised : Prices → List Position → Decimal → Result Error Decimal
add_unrealised prices [] total = ok total
add_unrealised prices (p ∷ ps) total = elim (prices p.figi) [
  | ok price ↦ add_unrealised prices ps (add total (unrealised p price))
  | err e ↦ err e
]

unfoldable pub bot_equity : Prices → Config → Call Decimal
bot_equity prices config = do
  closed ← list_closed
  open_now ← list_open
  lift (add_unrealised prices open_now (add_realised closed config.allocated_capital))
