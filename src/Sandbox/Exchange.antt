-- ===== src/Sandbox/Exchange.antt =====
-- The state of `SimulatedExchange` of sandbox/exchange.py, and what it reads of the bars.
use bazarabot.Base.{
  ℕ, Bool, false, String, ◌==◌, List, [], ◌∷◌, Option, none, some, first, keep, leb, ltb,
  if◌then◌else◌,
}
use bazarabot.Base.Int.{ℤ}
use bazarabot.Base.Decimal.{Decimal, add, sub, mul, div_hundred, of_int, leb_dec, ltb_dec}
use bazarabot.Base.Int.{pos}
use bazarabot.Base.Dict.{Dict, get}
use bazarabot.Models.{Candle, Datetime, ExitTrigger, Instrument, OrderRecord, Side, StopOrderRecord}

-- `Phase`
pub data Phase : Type 0 where
  at_open at_low at_high at_close : Phase

-- `Commission`
pub record Commission : Type 0 where
  pub pct : Decimal
  pub minimum : Decimal

-- `_Holding`
pub record Holding : Type 0 where
  pub lots : ℤ
  pub average_price : Decimal

-- `SimulatedExchange`. `now` is none before the first `advance`.
pub record Exchange : Type 0 where
  pub bars : Dict (List Candle)
  pub instruments : Dict Instrument
  pub cash : Decimal
  pub slippage : Decimal
  pub commission : Commission
  pub reject_stops : Bool
  pub now : Option Datetime
  pub phase : Phase
  pub stops_checked : List ℕ
  pub orders : Dict OrderRecord
  pub stops : Dict StopOrderRecord
  pub executed_stops : Dict OrderRecord
  pub holdings : Dict Holding

-- `Commission.on`: `max` gives the first of two equal values.
unfoldable pub fee_on : Commission → Decimal → Decimal
fee_on c turnover =
    let share = div_hundred (mul turnover c.pct) in
    if ltb_dec share c.minimum then c.minimum else share

abbrev pub has_figi : String → String × Instrument → Bool
has_figi figi (ticker, instrument) = instrument.figi == figi

-- The ticker and the instrument of `_ticker_for`.
abbrev pub listed : String → Exchange → Option (String × Instrument)
listed figi x = first (has_figi figi) x.instruments

abbrev pub or_empty : Option (List Candle) → List Candle
or_empty none = []
or_empty (some bars) = bars

abbrev pub bars_of : String → Exchange → List Candle
bars_of ticker x = or_empty (get ticker x.bars)

abbrev pub visible_at : Option Datetime → List Candle → List Candle
visible_at none bars = []
visible_at (some now) bars = keep (λ bar. leb bar.timestamp.instant now.instant) bars

-- `_visible`
abbrev pub visible : String → Exchange → List Candle
visible ticker x = visible_at x.now (bars_of ticker x)

abbrev pub last_bar : List Candle → Option Candle
last_bar [] = none
last_bar (bar ∷ []) = some bar
last_bar (bar ∷ next ∷ bars) = last_bar (next ∷ bars)

-- `_bar_for`
abbrev pub bar_for : String → Exchange → Option Candle
bar_for ticker x = last_bar (visible ticker x)

abbrev pub first_after : Option Datetime → List Candle → Option Candle
first_after none bars = none
first_after (some now) bars = first (λ bar. ltb now.instant bar.timestamp.instant) bars

-- `_next_bar`
abbrev pub next_bar : String → Exchange → Option Candle
next_bar ticker x = first_after x.now (bars_of ticker x)

abbrev pub price_at : Phase → Candle → Decimal
price_at Phase.at_open bar = bar.opening
price_at Phase.at_low bar = bar.low
price_at Phase.at_high bar = bar.high
price_at Phase.at_close bar = bar.close

abbrev pub hundred : Decimal
hundred = of_int (pos 100)

-- `price * (1 + slippage / 100)`, and the other way for a sale.
unfoldable pub slipped : Decimal → Decimal → Side → Decimal
slipped slippage price Side.buy = mul price (add (of_int (pos 1)) (div_hundred slippage))
slipped slippage price Side.sell = mul price (sub (of_int (pos 1)) (div_hundred slippage))

abbrev pub reaches : ExitTrigger → Decimal → Option Candle → Bool
reaches trigger level none = false
reaches ExitTrigger.take_profit level (some bar) = leb_dec level bar.high
reaches _ level (some bar) = leb_dec bar.low level
